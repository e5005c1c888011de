-- ===== src/Web/Terminal.antt =====
-- web/editor/terminal.js: terminal sessions over a WebSocket, and the buttons that open them. What
-- the browser does by itself is in the events: a socket opens only while it is connecting, and a
-- disabled button gets no click. An event names its session by age, 0 being the newest.
pub mod Sessions
pub mod Wiring
pub mod Frames
use mathlib.Core.Option
use nixbox.Prelude.{
  Bool, List, Option, Text, [], codes, false, get_elem?, if◌then◌else◌, map, none, not, some, true,
  update_at, ℕ, ◌&&◌, ◌++◌, ◌+◌, ◌∷◌,
}

-- WebSocket.readyState
pub data Ready : Type 0 where
  connecting open_ closing closed : Ready

-- What the page sends: a resize as a text frame, keystrokes as a binary frame.
pub data Frame : Type 0 where
  resize : (rows cols : ℕ) → Frame
  keys : Text → Frame

-- What is written to the terminal: the shell's output or a closing notice.
pub data Chunk : Type 0 where
  output notice : Text → Chunk

-- One call of openSession: `done` and the socket of its closure, whether an `onClose` was given,
-- whether its terminal is disposed, the frames sent and the chunks written, in order.
pub record Session : Type 0 where
  pub ready : Ready
  pub done : Bool
  pub on_close : Bool
  pub disposed : Bool
  pub frames : List Frame
  pub screen : List Chunk

-- A terminal element with its button. `teardown` says that `_teardown` is set: it is always that of
-- the newest session, since each call of openSession sets its own.
pub record Panel : Type 0 where
  pub sessions : List Session
  pub teardown : Bool
  pub hidden : Bool
  pub disabled : Bool
  pub label : Text

pub data Event : Type 0 where
  click : Event
  opened : (age rows cols : ℕ) → Event
  message : (age : ℕ) → Text → Event
  socket_closed socket_failed : (age : ℕ) → Event
  typed : (age : ℕ) → Text → Event
  resized : (age rows cols : ℕ) → Event

abbrev pub is_open : Ready → Bool
is_open open_ = true
is_open connecting = false
is_open closing = false
is_open closed = false

-- ws.close()
abbrev pub close_socket : Ready → Ready
close_socket connecting = closing
close_socket open_ = closing
close_socket closing = closing
close_socket closed = closed

abbrev pub start : Bool → Session
start on_close = record {
  ready = connecting;
  done = false;
  on_close = on_close;
  disposed = false;
  frames = [];
  screen = [];
}

unfoldable pub send : Frame → Session → Session
send f s = if is_open s.ready then record s { frames = s.frames ++ f ∷ [] } else s

unfoldable pub write : Chunk → Session → Session
write c s = record s { screen = s.screen ++ c ∷ [] }

-- el._teardown(), run on the newest session
unfoldable pub dispose : Session → Session
dispose s = record s { ready = close_socket s.ready; disposed = true }

unfoldable pub open_session : Bool → Panel → Panel
unfolding dispose
open_session on_close p =
    let old = if p.teardown then update_at dispose 0 p.sessions else p.sessions in
    record p { sessions = start on_close ∷ old; teardown = true }

-- The listener of a button, which the browser runs only while the button is enabled.
unfoldable pub on_click : Panel → Panel
unfolding open_session
on_click p =
    if p.disabled then p else open_session true (record p { hidden = false; disabled = true })

-- A notice in red on a line of its own.
abbrev pub red : Text → Text
red msg = b'\r' ∷ b'\n' ∷ 0x1b ∷ codes "[31m" ++ msg ++ 0x1b ∷ codes "[0m" ++ b'\r' ∷ b'\n' ∷ []

-- `done = true; term.write(msg)`
abbrev pub finished : Text → Session → Session
finished msg s = record (write (notice msg) s) { done = true }

-- finish(msg); the callback re-enables the button and offers to reconnect.
unfoldable pub finish : ℕ → Text → Panel → Panel
unfolding write
finish age msg p = elim (get_elem? p.sessions age) [
  | none ↦ p
  | some s ↦
      if s.done
      then p
      else let q = record p { sessions = update_at (finished msg) age p.sessions } in
        if s.on_close then record q { disabled = false; label = codes "Reconnect" } else q
]

-- The browser opens a connecting socket and runs ws.onopen.
unfoldable pub on_open : ℕ → ℕ → Session → Session
unfolding send
on_open rows cols s = elim s.ready [
  | connecting ↦ send (resize rows cols) (record s { ready = open_ })
  | _ ↦ s
]

abbrev pub at : (Session → Session) → ℕ → Panel → Panel
at f age p = record p { sessions = update_at f age p.sessions }

abbrev pub shut : Session → Session
shut s = record s { ready = closed }

unfoldable pub step : Panel → Event → Panel
unfolding on_click finish on_open send write
step p click = on_click p
step p (opened age rows cols) = at (on_open rows cols) age p
step p (message age data_) = at (write (output data_)) age p
step p (socket_closed age) = finish age (red (codes "[session closed]")) (at shut age p)
step p (socket_failed age) = finish age (red (codes "[connection error]")) p
step p (typed age data_) = at (send (keys data_)) age p
step p (resized age rows cols) = at (send (resize rows cols)) age p

unfoldable pub run : Panel → List Event → Panel
unfolding step
run p [] = p
run p (e ∷ es) = run (step p e) es

-- The host terminal of the full page, and a button with the number of its click listeners.
pub record Host : Type 0 where
  pub has_ws : Bool
  pub mounted : Bool
  pub panel : Panel

pub record Button : Type 0 where
  pub wired : Bool
  pub has_target : Bool
  pub listeners : ℕ

pub record Document : Type 0 where
  pub host : Option Host
  pub buttons : List Button

unfoldable pub init_host : Host → Host
unfolding open_session
init_host h =
    if h.has_ws && not h.mounted
    then record h { mounted = true; panel = open_session false h.panel }
    else h

unfoldable pub init_button : Button → Button
init_button b =
    if b.wired
    then b
    else if b.has_target
    then record b { wired = true; listeners = b.listeners + 1 }
    else record b { wired = true }

unfoldable pub init : Document → Document
unfolding init_host init_button
init d = record { host = Option.map init_host d.host; buttons = map init_button d.buttons }
