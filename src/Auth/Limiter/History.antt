-- ===== src/Auth/Limiter/History.antt =====
-- The limiter of internal/server/loginlimit.go beside a history that forgets nothing.
use mathlib.Core.Path.{subst}
use nixbox.Prelude.{
  All, Bool-cases, List, Text, [], arith, if◌then◌else◌, inl, inr, leb_iff, length, ltb, refl, sym,
  text_eq, true, ℕ, ◌++◌, ◌+◌, ◌-◌, ◌↔◌, ◌∙◌, ◌∷◌, ◌≡◌, ◌≤◌,
}
use nixbox.Auth.Limiter.{Call, ask, failed, cleared, kept, blocked, run, new_login_limiter}
use nixbox.Auth.Limiter.Stored.{history, InOrder, blocked-kept}

-- How many of the failures are younger than the window: less than `window` has passed since.
abbrev pub young : (window now : ℕ) → List ℕ → ℕ
young window now [] = 0
young window now (t ∷ ts) = (if ltb (now - t) window then 1 else 0) + young window now ts

-- No failure of the history is later than the last reading.
weaken_le : (a b : ℕ) (h : List ℕ) → a ≤ b → All (λ t. t ≤ a) h → All (λ t. t ≤ b) h
weaken_le a b [] le ps = tt
weaken_le a b (t ∷ h) le (p, ps) = (omega arith, weaken_le a b h le ps)

snoc_le : (now : ℕ) (h : List ℕ) → All (λ t. t ≤ now) h → All (λ t. t ≤ now) (h ++ now ∷ [])
snoc_le now [] ps = (omega arith, tt)
snoc_le now (t ∷ h) (p, ps) = (p, snoc_le now h ps)

history_le :
    (ip : Text) (from stop : ℕ) (h : List ℕ) (cs : List Call)
    → InOrder from cs stop
    → All (λ t. t ≤ from) h
    → All (λ t. t ≤ stop) (history ip h cs)
history_le ip from stop h [] o ps = weaken_le from stop h o ps
history_le ip from stop h (ask now k ∷ cs) (le, o) ps =
    history_le ip now stop h cs o (weaken_le from now h le ps)
history_le ip from stop h (failed cut now k ∷ cs) (le, le', o) ps =
    let earlier = weaken_le from now h (omega arith) ps in
    elim (Bool-cases (text_eq ip k)) [
      | inl t ↦ rw t (history_le ip now stop (h ++ now ∷ []) cs o (snoc_le now h earlier))
      | inr f ↦ rw f (history_le ip now stop h cs o earlier)
    ]
history_le ip from stop h (cleared now k ∷ cs) (le, o) ps = elim (Bool-cases (text_eq ip k)) [
  | inl t ↦ rw t (history_le ip now stop [] cs o tt)
  | inr f ↦ rw f (history_le ip now stop h cs o (weaken_le from now h le ps))
]

kept-young :
    (window now : ℕ) (h : List ℕ)
    → All (λ t. t ≤ now) h
    → length (kept window now h) ≡ young window now h
unfolding kept
kept-young window now [] ps = refl
kept-young window now (t ∷ h) (p, ps) = ground (arith, kept-young window now h ps)

-- After any calls whose clock readings never go back: an address is
-- blocked exactly if at least `max` of its failures since it was last cleared happened less than the
-- window ago; the entries that the map has dropped, and the calls for other addresses, make no
-- difference.
pub blocked-history :
    (ip : Text) (max window now : ℕ) (cs : List Call)
    → InOrder 0 cs now
    → ((blocked now ip (run (new_login_limiter max window) cs)).1 ≡ true)
      ↔ (max ≤ young window now (history ip [] cs))
blocked-history ip max window now cs o =
    let h = history ip [] cs in
    let stored = blocked-kept ip max window now cs o in
    let same = kept-young window now h (history_le ip 0 now [] cs o tt) in
    (
      λ e.
          subst (λ n. max ≤ n) same ((leb_iff max (length (kept window now h))).0 (sym stored ∙ e)),
      λ le.
          stored
          ∙ (leb_iff max (length (kept window now h))).1 (subst (λ n. max ≤ n) (sym same) le),
    )
