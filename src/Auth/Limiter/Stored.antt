-- ===== src/Auth/Limiter/Stored.antt =====
-- What the limiter of internal/server/loginlimit.go has stored, beside a history that forgets nothing.
use nixbox.Prelude.{
  Bool-cases, List, Text, [], ap, arith, if◌then◌else◌, inl, inr, leb, length, refl, sym, text_eq,
  text_eq_self, text_eq_sound, true, ℕ, ◌++◌, ◌∙◌, ◌∷◌, ◌≡◌, ◌≤◌,
}
use nixbox.Auth.Limiter.{
  LoginLimiter, Call, ask, failed, cleared, kept, get_fails, entry, prune, blocked, fail, clear,
  step, run, new_login_limiter,
}

-- All failures of an address since it was last cleared, oldest first, after earlier ones.
abbrev pub note : Text → List ℕ → Call → List ℕ
note ip h (ask now k) = h
note ip h (failed cut now k) = if text_eq ip k then h ++ now ∷ [] else h
note ip h (cleared now k) = if text_eq ip k then [] else h

abbrev pub history : Text → List ℕ → List Call → List ℕ
history ip h [] = h
history ip h (c ∷ cs) = history ip (note ip h c) cs

-- The clock readings of the calls never go back; the last one is at most `stop`.
abbrev pub InOrder : ℕ → List Call → ℕ → Type 0
InOrder from [] stop = from ≤ stop
InOrder from (ask now k ∷ cs) stop = (from ≤ now) × InOrder now cs stop
InOrder from (failed cut now k ∷ cs) stop = (from ≤ cut) × (cut ≤ now) × InOrder now cs stop
InOrder from (cleared now k ∷ cs) stop = (from ≤ now) × InOrder now cs stop

kept-kept : (w a b : ℕ) (ts : List ℕ) → a ≤ b → kept w b (kept w a ts) ≡ kept w b ts
unfolding kept
kept-kept w a b [] h = refl
kept-kept w a b (t ∷ ts) h = ground (arith, kept-kept w a b ts h)

kept-append : (w a : ℕ) (ss ts : List ℕ) → kept w a (ss ++ ts) ≡ kept w a ss ++ kept w a ts
unfolding kept
kept-append w a [] ts = refl
kept-append w a (s ∷ ss) ts = ground (arith, kept-append w a ss ts)

get_fails-entry : (ts : List ℕ) → get_fails (entry ts) ≡ ts
get_fails-entry [] = refl
get_fails-entry (t ∷ ts) = refl

module _ (ip : Text) (w m : ℕ) where
  abbrev stored : LoginLimiter → List ℕ
  stored l = get_fails (l.fails ip)

  -- From `now` on, what is stored counts like the history.
  record Agrees (now : ℕ) (l : LoginLimiter) (h : List ℕ) : Type 0 where
    window : l.window ≡ w
    limit : l.max ≡ m
    same : (b : ℕ) → now ≤ b → kept w b (stored l) ≡ kept w b h

  stored-prune :
      (now : ℕ) (k : Text) (l : LoginLimiter)
      → l.window ≡ w
      → stored (prune now k l).0 ≡ (if text_eq ip k then kept w now (stored l) else stored l)
  unfolding prune
  stored-prune now k l e = elim (Bool-cases (text_eq ip k)) [
    | inl t ↦
        let k_ip = text_eq_sound ip k t in
        rw (← k_ip, text_eq_self ip, e) (get_fails-entry (kept w now (stored l)))
    | inr f ↦ rw f
  ]

  prune-Agrees :
      (from now : ℕ) (k : Text) (l : LoginLimiter) (h : List ℕ)
      → from ≤ now
      → Agrees from l h
      → Agrees now (prune now k l).0 h
  unfolding prune
  prune-Agrees from now k l h le a = record { window = a.window; limit = a.limit; same = same }
    where
      same : (b : ℕ) → now ≤ b → kept w b (stored (prune now k l).0) ≡ kept w b h
      same b later = elim (Bool-cases (text_eq ip k)) [
        | inl t ↦
            ap (kept w b) (stored-prune now k l a.window)
            ∙ rw t (kept-kept w now b (stored l) later ∙ a.same b (omega arith))
        | inr f ↦ ap (kept w b) (stored-prune now k l a.window) ∙ rw f (a.same b (omega arith))
      ]

  prune_list :
      (cut b : ℕ) (k : Text) (l : LoginLimiter) (h : List ℕ) (from : ℕ)
      → from ≤ cut
      → cut ≤ b
      → Agrees from l h
      → text_eq ip k ≡ true
      → kept w b (prune cut k l).1 ≡ kept w b h
  unfolding prune
  prune_list cut b k l h from le le' a t =
      let k_ip = text_eq_sound ip k t in
      rw (← k_ip, a.window) (kept-kept w cut b (stored l) le' ∙ a.same b (omega arith))

  fail-Agrees :
      (from cut now : ℕ) (k : Text) (l : LoginLimiter) (h : List ℕ)
      → from ≤ cut
      → cut ≤ now
      → Agrees from l h
      → Agrees now (fail cut now k l) (note ip h (failed cut now k))
  unfolding fail
  fail-Agrees from cut now k l h le le' a = record { window = window; limit = a.limit; same = same }
    where
      window : (fail cut now k l).window ≡ w
      window = (prune-Agrees from cut k l h le a).window

      same :
          (b : ℕ)
          → now ≤ b
          → kept w b (stored (fail cut now k l)) ≡ kept w b (note ip h (failed cut now k))
      same b later = elim (Bool-cases (text_eq ip k)) [
        | inl t ↦ rw t (
            kept-append w b (prune cut k l).1 (now ∷ [])
            ∙ (ap (λ ts. ts ++ kept w b (now ∷ []))
                  (prune_list cut b k l h from le (omega arith) a t)
                ∙ sym (kept-append w b h (now ∷ []))))
        | inr f ↦ rw f (a.same b (omega arith))
      ]

  clear-Agrees :
      (from now : ℕ) (k : Text) (l : LoginLimiter) (h : List ℕ)
      → from ≤ now
      → Agrees from l h
      → Agrees now (clear k l) (note ip h (cleared now k))
  unfolding clear
  clear-Agrees from now k l h le a = record { window = a.window; limit = a.limit; same = same }
    where
      same :
          (b : ℕ) → now ≤ b → kept w b (stored (clear k l)) ≡ kept w b (note ip h (cleared now k))
      same b later = elim (Bool-cases (text_eq ip k)) [
        | inl t ↦ rw t refl
        | inr f ↦ rw f (a.same b (omega arith))
      ]

  run-Agrees :
      (from stop : ℕ) (l : LoginLimiter) (h : List ℕ) (cs : List Call)
      → InOrder from cs stop
      → Agrees from l h
      → Agrees stop (run l cs) (history ip h cs)
  unfolding run step blocked
  run-Agrees from stop l h [] o a = record {
    window = a.window;
    limit = a.limit;
    same = λ b later. a.same b (omega arith);
  }
  run-Agrees from stop l h (ask now k ∷ cs) (le, o) a =
      run-Agrees now stop (prune now k l).0 h cs o (prune-Agrees from now k l h le a)
  run-Agrees from stop l h (failed cut now k ∷ cs) (le, le', o) a =
      run-Agrees now stop (fail cut now k l) (note ip h (failed cut now k)) cs o
        (fail-Agrees from cut now k l h le le' a)
  run-Agrees from stop l h (cleared now k ∷ cs) (le, o) a =
      run-Agrees now stop (clear k l) (note ip h (cleared now k)) cs o
        (clear-Agrees from now k l h le a)

-- The stored failures count like the history.
pub blocked-kept :
    (ip : Text) (max window now : ℕ) (cs : List Call)
    → InOrder 0 cs now
    → (blocked now ip (run (new_login_limiter max window) cs)).1
      ≡ leb max (length (kept window now (history ip [] cs)))
unfolding blocked prune new_login_limiter
blocked-kept ip max window now cs o =
    let l = new_login_limiter max window in
    let a =
      run-Agrees ip window max 0 now l [] cs o
        (record { window = refl; limit = refl; same = λ b later. refl }) in
    rw (a.window, a.same now (omega arith), a.limit)
