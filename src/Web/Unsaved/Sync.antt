-- ===== src/Web/Unsaved/Sync.antt =====
-- The guard beside the server: which content is saved, and the one save that is on its way.
use nixbox.Prelude.{
  All, Bool, List, Option, Text, [], false, map, none, not, refl, some, text_eq, true, ◌||◌, ◌∷◌,
  ◌≡◌, ◌⊎◌,
}
use nixbox.Web.Unsaved.{
  Button, Guard, refresh, refresh_button, on_input, before_request, after_request,
}

-- `request` is the content of the form's save in flight, `stored` what the server holds, and `answered`
-- the content of the last save that was answered with a status that htmx reports as successful, or what
-- the page was loaded with.
pub record World : Type 0 where
  pub guard : Guard
  pub request : Option Text
  pub stored : Text
  pub answered : Text

-- What the buttons show is what the contents say.
abbrev pub Shows : Guard → Type 0
Shows g =
    All (λ (b : Button). b.disabled ≡ (b.was_disabled || not (text_eq g.current g.saved_value)))
      g.buttons

abbrev Sent : Option Text → Option Text → Type 0
Sent none inflight = Unit
Sent (some v) inflight = inflight ≡ some v

record IsSynced (w : World) : Type 0 where
  saved : w.guard.saved_value ≡ w.answered
  sent : Sent w.request w.guard.inflight_value
  shows : Shows w.guard

module _ (msg : Text) where
  pub refresh-Shows : (g : Guard) → Shows (refresh msg g)
  unfolding refresh
  refresh-Shows g = go (not (text_eq g.current g.saved_value)) g.buttons
    where
      go :
          (d : Bool) (bs : List Button)
          → All (λ (b : Button). b.disabled ≡ (b.was_disabled || d)) (map (refresh_button msg d) bs)
      go d [] = tt
      go d (b ∷ bs) = (refl, go d bs)

-- `ports_parse` tells whether the server can parse the ports of a submitted form.
module _ (msg : Text) (ports_parse : Text → Bool) where
  -- The user edits; the form sends a save while none is in flight (htmx queues the others); the server
  -- stores it and answers 200, whatever the syntax check says; or its ports do not parse, and the server
  -- stores nothing and answers 200 with the message; or it fails, stores no revision and answers with an
  -- error, which is not a success for htmx; other elements make requests of their own. No answer is lost,
  -- and nobody else saves the workload meanwhile.
  pub data Step : World → World → Type 0 where
    edit : (w : World) (s : Text) → Step w (record w { guard = on_input msg s w.guard })
    send :
        (w : World)
        → w.request ≡ none
        → Step w (record w { guard = before_request true w.guard; request = some w.guard.current })
    store :
        (w : World) (v : Text)
        → w.request ≡ some v
        → ports_parse v ≡ true
        → Step w (record w {
          guard = after_request msg true true w.guard;
          request = none;
          stored = v;
          answered = v;
        })
    refuse :
        (w : World) (v : Text)
        → w.request ≡ some v
        → ports_parse v ≡ false
        → Step w
            (record w { guard = after_request msg true true w.guard; request = none; answered = v })
    fail :
        (w : World)
        → Step w (record w { guard = after_request msg true false w.guard; request = none })
    other_before : (w : World) → Step w (record w { guard = before_request false w.guard })
    other_after :
        (w : World) (ok : Bool) → Step w (record w { guard = after_request msg false ok w.guard })

  pub data Reach (s : World) : World → Type 0 where
    loaded : Reach s s
    after : {u w : World} → Step u w → Reach s u → Reach s w

  -- The last save that was answered as a success is what the server holds, or its ports do not parse.
  abbrev pub IsHeld : World → Type 0
  IsHeld w = (w.answered ≡ w.stored) ⊎ (ports_parse w.answered ≡ false)
