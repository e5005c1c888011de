-- ===== src/Web/Terminal/Wiring.antt =====
-- init of web/editor/terminal.js, which may run again.
use mathlib.Core.Option
use nixbox.Prelude.{List, Option, [], arith, map, none, refl, some, ◌∷◌, ◌≡◌}
use nixbox.Web.Terminal.{Host, Button, Document, init_host, init_button, init}

init_host_twice : (h : Host) → init_host (init_host h) ≡ init_host h
unfolding init_host
init_host_twice h = ground arith

init_button_twice : (b : Button) → init_button (init_button b) ≡ init_button b
unfolding init_button
init_button_twice b = ground arith

map_twice : (bs : List Button) → map init_button (map init_button bs) ≡ map init_button bs
map_twice [] = refl
map_twice (b ∷ bs) = cc (init_button_twice b, map_twice bs)

host_twice :
    (h : Option Host) → Option.map init_host (Option.map init_host h) ≡ Option.map init_host h
host_twice none = refl
host_twice (some h) = cc (init_host_twice h)

-- A second init changes nothing: no second session on the host terminal, no second listener on a
-- button.
pub init_idempotent : (d : Document) → init (init d) ≡ init d
unfolding init
init_idempotent d = λ i. record { host = host_twice d.host i; buttons = map_twice d.buttons i }
