-- ===== src/Server/Tail/Lines.antt =====
-- The lines that handleJobEvents of internal/server/sse.go cuts a growing log into.
use nixbox.Prelude.{
  Bool-cases, List, Text, [], ap, append_assoc, arith, drop, false, inl, inr, length, refl, suc,
  sym, zero, ℕ, ◌++◌, ◌==◌, ◌∙◌, ◌∷◌, ◌≡◌, ◌≤◌,
}
use nixbox.Server.Tail.{push, split, flush, wire, append_wire}

-- The lines of a text, an unfinished last one included.
abbrev pub lines_of : Text → List Text
lines_of t = (split t).0 ++ flush (split t).1

push-append :
    (c : ℕ) (ls : List Text) (last u : Text)
    → (c == 10) ≡ false
    → push c (ls ++ (split (last ++ u)).0) (split (last ++ u)).1 ≡ (
      (push c ls last).0 ++ (split ((push c ls last).1 ++ u)).0,
      (split ((push c ls last).1 ++ u)).1,
    )
unfolding split
push-append c [] last u f = rw f refl
push-append c (l ∷ ls) last u f = refl

split-append :
    (t u : Text)
    → split (t ++ u) ≡ ((split t).0 ++ (split ((split t).1 ++ u)).0, (split ((split t).1 ++ u)).1)
unfolding split
split-append [] u = refl
split-append (c ∷ cs) u = elim (Bool-cases (c == 10)) [
  | inl t ↦ rw (t, split-append cs u) refl
  | inr f ↦ rw (f, split-append cs u) (push-append c (split cs).0 (split cs).1 u f)
]

pub lines_of-append : (t u : Text) → lines_of (t ++ u) ≡ (split t).0 ++ lines_of ((split t).1 ++ u)
lines_of-append t u =
    rw (split-append t u)
      (append_assoc (split t).0 (split ((split t).1 ++ u)).0 (flush (split ((split t).1 ++ u)).1))

push_last :
    (c : ℕ) (ls : List Text) (last : Text)
    → (c == 10) ≡ false
    → split last ≡ ([], last)
    → split (push c ls last).1 ≡ ([], (push c ls last).1)
unfolding split
push_last c [] last f e = rw (f, e) refl
push_last c (l ∷ ls) last f e = e

-- The last part has no newline.
pub split_last : (t : Text) → split (split t).1 ≡ ([], (split t).1)
unfolding split
split_last [] = refl
split_last (c ∷ cs) = elim (Bool-cases (c == 10)) [
  | inl t ↦ rw t (split_last cs)
  | inr f ↦ rw f (push_last c (split cs).0 (split cs).1 f (split_last cs))
]

pub wire-append : (ls ms : List Text) → wire (ls ++ ms) ≡ wire ls ++ wire ms
wire-append [] ms = refl
wire-append (l ∷ ls) ms =
    ap (λ r. append_wire l ++ r) (wire-append ls ms)
    ∙ sym (append_assoc (append_wire l) (wire ls) (wire ms))

pub drop-append {ℓ} :
    {A : Type ℓ} (n : ℕ) (xs ys : List A) → n ≤ length xs → drop n (xs ++ ys) ≡ drop n xs ++ ys
drop-append zero xs ys h = refl
drop-append (suc n) [] ys h = absurd (omega arith)
drop-append (suc n) (x ∷ xs) ys h = drop-append n xs ys (omega arith)

pub drop_all {ℓ} : {A : Type ℓ} (n : ℕ) (xs : List A) → length xs ≤ n → drop n xs ≡ []
drop_all zero [] h = refl
drop_all zero (x ∷ xs) h = absurd (omega arith)
drop_all (suc n) [] h = refl
drop_all (suc n) (x ∷ xs) h = drop_all n xs (omega arith)

pub drop_first {ℓ} : {A : Type ℓ} (xs ys : List A) → drop (length xs) (xs ++ ys) ≡ ys
drop_first [] ys = refl
drop_first (x ∷ xs) ys = drop_first xs ys

pub wire-split :
    (ls ms : List Text) (end_ : Text) → wire ls ++ (wire ms ++ end_) ≡ wire (ls ++ ms) ++ end_
wire-split ls ms end_ = rw (wire-append ls ms) (sym (append_assoc (wire ls) (wire ms) end_))
