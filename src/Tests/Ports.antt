-- ===== src/Tests/Ports.antt =====
-- The host ports of a form, stored and read back.
use nixbox.Prelude.{List, Text, [], codes, refl, ◌∷◌, ◌≡◌}
use nixbox.Nix.Ports.{HostPort, parsed, parse_host_ports, format_host_ports, decode_host_ports}
use nixbox.Nix.Ports.RoundTrip.{decode-format-parse}

-- Four rows, one blank and one given twice.
abbrev ports : List Text
ports = codes "8443" ∷ codes "" ∷ codes " 53" ∷ codes "8443" ∷ codes "+80" ∷ []

abbrev protos : List Text
protos = codes "tcp" ∷ codes "udp" ∷ codes "udp" ∷ codes "" ∷ []

abbrev opened_ports : List HostPort
opened_ports =
    record { port = 80; proto = codes "tcp" }
    ∷ record { port = 8443; proto = codes "tcp" }
    ∷ record { port = 53; proto = codes "udp" }
    ∷ []

parse_ports : parse_host_ports ports protos ≡ parsed opened_ports
unfolding parse_host_ports
parse_ports = refl

decode-format-parse_example : decode_host_ports (format_host_ports opened_ports) ≡ opened_ports
decode-format-parse_example = decode-format-parse ports protos opened_ports parse_ports

format_ports : format_host_ports opened_ports ≡ codes "80/tcp 8443/tcp 53/udp"
unfolding format_host_ports
format_ports = refl

skip_malformed :
    decode_host_ports (codes "53/udp x/tcp 70000/tcp 22/sctp")
    ≡ record { port = 53; proto = codes "udp" } ∷ []
unfolding decode_host_ports
skip_malformed = refl
