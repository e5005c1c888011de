-- ===== src/Web/Confirm/Gate.antt =====
-- The confirmation of web/src/dialogs.ts over sequences of submits, cancels and presses of OK.
use nixbox.Prelude.{
  ==_iff, Bool, Bool-cases, List, Option-cases, [], arith, false, if◌then◌else◌, inl, inr, none,
  not, suc, true, ℕ, ◌+◌, ◌==◌, ◌∷◌, ◌≡◌, ◌≤◌,
}
use nixbox.Web.Confirm.{
  Form, Page, Event, submit, ok, cancel, on_submit, request_submit, on_ok, step, run, is_blank,
  set_form,
}

abbrev pub presses : List Event → ℕ
presses [] = 0
presses (ok ∷ es) = suc (presses es)
presses (submit f ∷ es) = presses es
presses (cancel ∷ es) = presses es

-- What the form has passed, with the pass that a set data-confirmed holds in store.
abbrev used : Form → ℕ
used v = v.passed + (if v.confirmed then 1 else 0)

module _ (g : ℕ) where
  abbrev guarded : Page → Bool
  guarded p = not (is_blank (p.forms g).confirm)

  on_submit-used :
      (f : ℕ) (p : Page)
      → guarded p ≡ true
      → (guarded (on_submit f p) ≡ true) × (used ((on_submit f p).forms g) ≤ used (p.forms g))
  unfolding on_submit
  on_submit-used f p h = elim (Bool-cases (g == f)) [
    | inl same ↦ let e = (==_iff g f).0 same in rw (← e) (ground arith)
    | inr other ↦ ground arith
  ]

  flag_used :
      (f : ℕ) (p : Page)
      → guarded p ≡ true
      → let q = set_form f (record (p.forms f) { confirmed = true }) p in
        (guarded q ≡ true) × (used (q.forms g) ≤ suc (used (p.forms g)))
  flag_used f p h = elim (Bool-cases (g == f)) [
    | inl same ↦ let e = (==_iff g f).0 same in rw (← e) (ground arith)
    | inr other ↦ ground arith
  ]

  module _ (valid : ℕ → Bool) where
    request_used :
        (f : ℕ) (p : Page)
        → guarded p ≡ true
        → (guarded (request_submit valid f p) ≡ true)
          × (used ((request_submit valid f p).forms g) ≤ used (p.forms g))
    unfolding request_submit
    request_used f p h = elim (Bool-cases (valid f)) [
      | inl v ↦ rw v (on_submit-used f p h)
      | inr v ↦ rw v (h, omega arith)
    ]

    on_ok-used :
        (p : Page)
        → guarded p ≡ true
        → (guarded (on_ok valid p) ≡ true)
          × (used ((on_ok valid p).forms g) ≤ suc (used (p.forms g)))
    unfolding on_ok
    on_ok-used p h = elim (Option-cases p.pending_confirm) [
      | inl e ↦ rw (e, on_ok) (h, omega arith)
      | inr (f, e) ↦
          let q = record p { dialog_open = false; pending_confirm = none } in
          let r = set_form f (record (p.forms f) { confirmed = true }) q in
          let flag = flag_used f q h in
          let sent = request_used f r flag.0 in
          rw (e, on_ok) (sent.0, omega (arith, flag.1, sent.1))
    ]

    ok_used :
        (p : Page)
        → guarded p ≡ true
        → (guarded (step valid p ok) ≡ true)
          × (used ((step valid p ok).forms g) ≤ suc (used (p.forms g)))
    unfolding step
    ok_used p h = elim (Bool-cases p.dialog_open) [
      | inl o ↦ simp o (on_ok-used p h)
      | inr o ↦ simp o (h, omega arith)
    ]

    used-run :
        (p : Page) (es : List Event)
        → guarded p ≡ true
        → used ((run valid p es).forms g) ≤ used (p.forms g) + presses es
    unfolding run step
    used-run p [] h = omega arith
    used-run p (submit f ∷ es) h =
        let kept = on_submit-used f p h in omega (arith, used-run (on_submit f p) es kept.0, kept.1)
    used-run p (ok ∷ es) h =
        let kept = ok_used p h in omega (arith, used-run (step valid p ok) es kept.0, kept.1)
    used-run p (cancel ∷ es) h = used-run (record p { dialog_open = false }) es h

    -- A form with a confirmation message whose data-confirmed is not set goes through at most once
    -- for each press of OK, whatever is submitted, cancelled and confirmed in whatever order.
    pub run-passed-le :
        (p : Page) (es : List Event)
        → is_blank (p.forms g).confirm ≡ false
        → (p.forms g).confirmed ≡ false
        → ((run valid p es).forms g).passed ≤ (p.forms g).passed + presses es
    run-passed-le p es asks fresh =
        let none_set : used (p.forms g) ≡ (p.forms g).passed = ground arith in
        omega (arith, used-run p es (ground arith), none_set)
