-- ===== src/Nix/Ports/Fields.antt =====
-- The stored string of ports and its tokens, internal/nix/ports.go.
use nixbox.Prelude.{
  All, All-append, Bool-cases, List, Text, [], ap, arith, codes, false, if◌then◌else◌, inl, inr,
  refl, some, text_eq, text_eq_sound, true, ℕ, ◌++◌, ◌==◌, ◌∙◌, ◌∷◌, ◌≡◌, ◌≢◌, ◌≤◌,
}
use nixbox.Nix.Ports.{
  HostPort, is_space, fields, goes_on, onto_word, cut_slash, keep_before, decimal, format_port,
  format_host_ports, decode_token, decode_tokens, decode_host_ports, is_proto, sort_host_ports,
}
use nixbox.Nix.Ports.Numbers.{IsDigit, decimal-IsDigit, port_number-decimal}
use nixbox.Nix.Ports.Order.{IsSorted, sort_of_IsSorted}

-- What may be opened in the firewall.
pub record IsHostPort (p : HostPort) : Type 0 where
  pub low : 1 ≤ p.port
  pub high : p.port ≤ 65535
  pub known : is_proto p.proto ≡ true

abbrev pub IsInk : ℕ → Type 0
IsInk c = is_space c ≡ false

fields_step :
    (c : ℕ) (s : Text)
    → is_space c ≡ false
    → fields (c ∷ s) ≡ (if goes_on s then onto_word c (fields s) else (c ∷ []) ∷ fields s)
unfolding fields
fields_step c s h = rw h refl

fields_inside :
    (c d : ℕ) (s : Text)
    → is_space c ≡ false
    → is_space d ≡ false
    → fields (c ∷ d ∷ s) ≡ onto_word c (fields (d ∷ s))
fields_inside c d s h k = fields_step c (d ∷ s) h ∙ rw k refl

fields-nil : fields [] ≡ []
unfolding fields
fields-nil = refl

space-blank : is_space b' ' ≡ true
unfolding is_space
space-blank = refl

fields-word : (w : Text) → w ≢ [] → All IsInk w → fields w ≡ w ∷ []
fields-word [] ne h = absurd (ne refl)
fields-word (c ∷ []) ne (h, hs) = fields_step c [] h ∙ ap (λ ws. (c ∷ []) ∷ ws) fields-nil
fields-word (c ∷ d ∷ w) ne (h, (k, hs)) =
    fields_inside c d w h k ∙ ap (onto_word c) (fields-word (d ∷ w) (λ e. cc) (k, hs))

fields_space : (s : Text) → fields (b' ' ∷ s) ≡ fields s
unfolding fields is_space
fields_space s = refl

fields-append : (w s : Text) → w ≢ [] → All IsInk w → fields (w ++ b' ' ∷ s) ≡ w ∷ fields s
fields-append [] s ne h = absurd (ne refl)
fields-append (c ∷ []) s ne (h, hs) =
    fields_step c (b' ' ∷ s) h ∙ (rw space-blank (ap (λ ws. (c ∷ []) ∷ ws) (fields_space s)))
fields-append (c ∷ d ∷ w) s ne (h, (k, hs)) =
    fields_inside c d (w ++ b' ' ∷ s) h k
    ∙ ap (onto_word c) (fields-append (d ∷ w) s (λ e. cc) (k, hs))

cut_slash-append : (w s : Text) → All IsDigit w → cut_slash (w ++ b'/' ∷ s) ≡ some (w, s)
unfolding cut_slash
cut_slash-append [] s h = refl
cut_slash-append (c ∷ w) s ((low, high), hs) =
    let plain : (c == b'/') ≡ false = ground arith in
    rw plain (ap (keep_before c) (cut_slash-append w s hs))

digit-IsInk : (c : ℕ) → IsDigit c → IsInk c
unfolding is_space
digit-IsInk c (low, high) = ground arith

pub digits-IsInk : (w : Text) → All IsDigit w → All IsInk w
digits-IsInk [] h = tt
digits-IsInk (c ∷ w) (h, hs) = (digit-IsInk c h, digits-IsInk w hs)

pub proto-IsInk : (p : Text) → is_proto p ≡ true → All IsInk p
unfolding is_space
proto-IsInk p h = elim (Bool-cases (text_eq p (codes "tcp"))) [
  | inl t ↦ rw (text_eq_sound p (codes "tcp") t) (refl, (refl, (refl, tt)))
  | inr f ↦ rw (text_eq_sound p (codes "udp") (rw f at h)) (refl, (refl, (refl, tt)))
]

format_port-IsInk : (p : HostPort) → IsHostPort p → All IsInk (format_port p)
unfolding format_port is_space
format_port-IsInk p v =
    All-append IsInk (decimal p.port) (b'/' ∷ p.proto)
      (digits-IsInk (decimal p.port) (decimal-IsDigit p.port)) (refl, proto-IsInk p.proto v.known)

append_ne : (w : Text) (c : ℕ) (s : Text) → w ++ c ∷ s ≢ []
append_ne [] c s e = cc
append_ne (d ∷ w) c s e = cc

format_port_nonempty : (p : HostPort) → format_port p ≢ []
unfolding format_port
format_port_nonempty p e = append_ne (decimal p.port) b'/' p.proto e

decode_token-format_port : (p : HostPort) → IsHostPort p → decode_token (format_port p) ≡ some p
unfolding decode_token format_port
decode_token-format_port p v =
    rw (cut_slash-append (decimal p.port) p.proto (decimal-IsDigit p.port), decode_token)
      (rw (port_number-decimal p.port v.low v.high, decode_token) (rw v.known refl))

decode_tokens-format :
    (ps : List HostPort) → All IsHostPort ps → decode_tokens (fields (format_host_ports ps)) ≡ ps
unfolding decode_tokens format_host_ports fields
decode_tokens-format [] h = refl
decode_tokens-format (p ∷ []) (v, vs) =
    rw (fields-word (format_port p) (format_port_nonempty p) (format_port-IsInk p v))
      (rw (decode_token-format_port p v) refl)
decode_tokens-format (p ∷ q ∷ ps) (v, vs) =
    rw
      (fields-append (format_port p) (format_host_ports (q ∷ ps)) (format_port_nonempty p)
        (format_port-IsInk p v))
      (rw (decode_token-format_port p v) (ap (◌∷◌ p) (decode_tokens-format (q ∷ ps) vs)))

pub decode-format :
    (ps : List HostPort)
    → All IsHostPort ps
    → IsSorted ps
    → decode_host_ports (format_host_ports ps) ≡ ps
unfolding decode_host_ports
decode-format ps vs sorted =
    ap sort_host_ports (decode_tokens-format ps vs) ∙ sort_of_IsSorted ps sorted
