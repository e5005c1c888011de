-- ===== src/Server/Flakes/Declared.antt =====
-- The inputs that internal/server/handlers_flake.go leaves, and what renderFlake declares for them.
use nixbox.Nix.Ports.{trim_space}
use nixbox.Nix.Flake.{own_agenix, any_follows, has_input, need_nixpkgs}
use nixbox.Nix.Names.{validate_name}
use mathlib.Core.Path.{subst}
use nixbox.Prelude.{
  All, Bool, Bool-cases, List, Option-cases, Text, [], ap, ap₂, arith, codes, false, inl, inr, map,
  map-All, none, refl, sym, text_eq, text_eq_sound, true, ℕ, ◌&&◌, ◌==◌, ◌||◌, ◌↔◌, ◌∙◌, ◌∷◌, ◌≡◌,
  ◌≤◌, ◌⊎◌,
}
use nixbox.Nix.Flake.Declared.{count, names, declared, AreDistinct, declarations-AreDistinct}
use nixbox.Store.Flakes.{
  mark_flake_input_applied, delete_flake_input, create_flake_input, update_flake_input, on_input,
  FlakeInput, find_input,
}
use nixbox.Server.Flakes.{
  Answer, mark, delete, save, create, handle_flake_delete, handle_flake_save, Request,
  handle_flake_create, step, run, mark_inputs, create_absent, save_found, create_named,
  lookup_flake_input, to_nix,
}

-- A name that ValidateName takes, and a flake reference that is not empty.
abbrev pub IsUsable : FlakeInput → Type 0
IsUsable f = (validate_name f.name ≡ none) × (text_eq f.url [] ≡ false)

abbrev pub IsNamed : List FlakeInput → Type 0
IsNamed fs = AreDistinct (names (map to_nix fs)) × All IsUsable fs

find_input-count :
    (name : Text) (fs : List FlakeInput)
    → find_input name fs ≡ none
    → count name (names (map to_nix fs)) ≡ 0
unfolding find_input
find_input-count name [] e = refl
find_input-count name (f ∷ fs) e = ground (arith, find_input-count name fs)

count-delete :
    (n : Text) (id : ℕ) (fs : List FlakeInput)
    → count n (names (map to_nix (delete_flake_input id fs))) ≤ count n (names (map to_nix fs))
unfolding delete_flake_input
count-delete n id [] = omega arith
count-delete n id (f ∷ fs) = elim (Bool-cases (f.id == id)) [
  | inl t ↦ rw t (ground (arith, count-delete n id fs))
  | inr k ↦ rw k (ground (arith, count-delete n id fs))
]

names-on_input :
    (g : FlakeInput → FlakeInput) (id : ℕ) (fs : List FlakeInput)
    → ((f : FlakeInput) → (g f).name ≡ f.name)
    → names (map to_nix (map (on_input g id) fs)) ≡ names (map to_nix fs)
names-on_input g id [] keep = refl
names-on_input g id (f ∷ fs) keep =
    ap₂ (λ n ns. n ∷ ns) (ground (arith, keep f)) (names-on_input g id fs keep)

on_input-IsNamed :
    (g : FlakeInput → FlakeInput) (id : ℕ) (fs : List FlakeInput)
    → ((f : FlakeInput) → (g f).name ≡ f.name)
    → ((f : FlakeInput) → text_eq f.url [] ≡ false → text_eq (g f).url [] ≡ false)
    → IsNamed fs
    → IsNamed (map (on_input g id) fs)
on_input-IsNamed g id fs keep keep_url (apart, usable) = (
  λ n. subst (λ ns. count n ns ≤ 1) (sym (names-on_input g id fs keep)) (apart n),
  map-All IsUsable IsUsable (on_input g id) fs go usable,
)
  where
    go : (f : FlakeInput) → IsUsable f → IsUsable (on_input g id f)
    go f (valid, url) = elim (Bool-cases (f.id == id)) [
      | inl t ↦ rw t (ap validate_name (keep f) ∙ valid, keep_url f url)
      | inr k ↦ rw k (valid, url)
    ]

delete-All :
    (id : ℕ) (fs : List FlakeInput) → All IsUsable fs → All IsUsable (delete_flake_input id fs)
unfolding delete_flake_input
delete-All id [] h = tt
delete-All id (f ∷ fs) (h, hs) = elim (Bool-cases (f.id == id)) [
  | inl t ↦ rw t (delete-All id fs hs)
  | inr k ↦ rw k (h, delete-All id fs hs)
]

lookup-IsNamed :
    (name : Text) (go : FlakeInput → List FlakeInput × Answer) (fs : List FlakeInput)
    → IsNamed fs
    → ((f : FlakeInput) → IsNamed (go f).0)
    → IsNamed (lookup_flake_input name go fs).0
unfolding lookup_flake_input
lookup-IsNamed name go fs named h = elim (Option-cases (validate_name name)) [
  | inr (e, bad) ↦ rw (bad, lookup_flake_input) named
  | inl ok ↦ elim (Option-cases (find_input name fs)) [
    | inl absent ↦ rw (ok, lookup_flake_input) (rw absent named)
    | inr (f, there) ↦ rw (ok, lookup_flake_input) (rw there (h f))
  ]
]

create-IsNamed :
    (now : ℕ) (fails : Bool) (name ref : Text) (follows : Bool) (fs : List FlakeInput)
    → IsNamed fs
    → IsNamed (create_named now fails name ref follows fs).0
unfolding create_flake_input
create-IsNamed now fails name ref follows fs named = elim (Option-cases (validate_name name)) [
  | inr (e, bad) ↦ rw (bad, create_named) named
  | inl ok ↦ elim (Bool-cases (text_eq ref [])) [
    | inl t ↦ rw (ok, create_named) (rw t named)
    | inr k ↦ elim (Option-cases (find_input name fs)) [
      | inr (f, taken) ↦ rw (ok, create_named) (rw (k, taken) named)
      | inl absent ↦ rw (ok, create_named) (rw (k, absent) (go fails absent ok k))
    ]
  ]
]
  where
    go :
        (fails : Bool)
        → find_input name fs ≡ none
        → validate_name name ≡ none
        → text_eq ref [] ≡ false
        → IsNamed (create_absent none now fails name ref follows fs).0
    go true absent ok k = named
    go false absent ok k = rw absent (
      (λ n.
          let few = named.0 n in
          elim (Bool-cases (text_eq name n)) [
            | inl t ↦
                let same = text_eq_sound name n t in
                let zero_ =
                  subst (λ m. count m (names (map to_nix fs)) ≡ 0) same
                    (find_input-count name fs absent) in
                ground (arith, zero_)
            | inr f ↦ ground (arith, few)
          ]),
      ((ok, k), named.1),
    )

save-IsNamed :
    (now : ℕ) (fails : Bool) (ref : Text) (follows : Bool) (f : FlakeInput) (fs : List FlakeInput)
    → IsNamed fs
    → IsNamed (save_found now fails ref follows f fs).0
unfolding update_flake_input
save-IsNamed now fails ref follows f fs named = elim (Bool-cases (text_eq ref [])) [
  | inl t ↦ rw t named
  | inr k ↦ elim (Bool-cases fails) [
    | inl t ↦ rw (k, t) named
    | inr n ↦ rw (k, n) (on_input-IsNamed _ f.id fs (λ f. refl) (λ f url. k) named)
  ]
]

mark-IsNamed :
    (now : ℕ) (ids : List ℕ) (fs : List FlakeInput) → IsNamed fs → IsNamed (mark_inputs now ids fs)
unfolding mark_inputs mark_flake_input_applied
mark-IsNamed now [] fs named = named
mark-IsNamed now (id ∷ ids) fs named =
    mark-IsNamed now ids (mark_flake_input_applied now id fs)
      (on_input-IsNamed _ id fs (λ f. refl) (λ f url. url) named)

delete-IsNamed :
    (f : FlakeInput) (fs : List FlakeInput) → IsNamed fs → IsNamed (delete_flake_input f.id fs)
delete-IsNamed f fs (apart, usable) = (
  λ n. let few = apart n in let fewer = count-delete n f.id fs in omega arith,
  delete-All f.id fs usable,
)

step-IsNamed : (fs : List FlakeInput) (r : Request) → IsNamed fs → IsNamed (step fs r)
unfolding step handle_flake_create handle_flake_save handle_flake_delete
step-IsNamed fs (create now fails name url follows) h =
    create-IsNamed now fails (trim_space name) (trim_space url) follows fs h
step-IsNamed fs (save now fails name url follows) h =
    lookup-IsNamed name _ fs h (λ f. save-IsNamed now fails (trim_space url) follows f fs h)
step-IsNamed fs (delete fails name) h =
    lookup-IsNamed name _ fs h
      (λ f. elim (Bool-cases fails) [ inl t ↦ rw t h | inr n ↦ rw n (delete-IsNamed f fs h) ])
step-IsNamed fs (mark now ids) h = mark-IsNamed now ids fs h

-- Inputs with different valid names and with flake references that are not empty: after any requests,
-- whichever of them fail, they still are such. Then the flake declares each name once exactly if no
-- input is named nixpkgs while another pin of nixpkgs is declared; with secrets it declares agenix
-- exactly once; and it declares nixpkgs if an input follows it, or if nixbox declares agenix itself.
pub run-declared :
    (fs : List FlakeInput) (rs : List Request) (with_agenix : Bool)
    → IsNamed fs
    → let ins = map to_nix (run fs rs) in
      IsNamed (run fs rs)
      × (AreDistinct (declared ins with_agenix)
          ↔ ((need_nixpkgs ins with_agenix && has_input (codes "nixpkgs") ins) ≡ false))
      × ((with_agenix ≡ false) ⊎ (count (codes "agenix") (declared ins with_agenix) ≡ 1))
      × (((any_follows ins || own_agenix ins with_agenix) ≡ false)
          ⊎ (1 ≤ count (codes "nixpkgs") (declared ins with_agenix)))
unfolding run
run-declared fs [] with_agenix named =
    let (once, agenix, nixpkgs) = declarations-AreDistinct (map to_nix fs) with_agenix named.0 in
    (
      named,
      once,
      elim (Bool-cases with_agenix) [ inl t ↦ inr (agenix t) | inr f ↦ inl f ],
      elim (Bool-cases (any_follows (map to_nix fs) || own_agenix (map to_nix fs) with_agenix)) [
        | inl t ↦ inr (nixpkgs t)
        | inr f ↦ inl f
      ],
    )
run-declared fs (r ∷ rs) with_agenix named =
    run-declared (step fs r) rs with_agenix (step-IsNamed fs r named)
