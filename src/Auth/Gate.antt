-- ===== src/Auth/Gate.antt =====
-- internal/auth/gate.go: authorization by Unix group. The lookups of os/user are parameters; `none`
-- is an error of theirs.
use mathlib.Core.List.{Memᴰ}
use mathlib.Core.List.Memᴰ
use nixbox.Prelude.{
  Bool, Bool-cases, List, Option, Option-cases, Text, [], arith, codes, false, if◌then◌else◌, inl,
  inr, none, refl, some, sym, text_eq, text_eq_iff, text_eq_sound, true, ◌||◌, ◌↔◌, ◌∷◌, ◌≡◌, ◌⊎◌,
}

-- os/user's User, as far as the gate reads it. `key` stands for the account that groupIDs is given.
pub record Account : Type 0 where
  pub uid : Text
  pub key : Text

pub data Verdict : Type 0 where
  authorized not_authorized lookup_failed groups_failed : Verdict

unfoldable pub member_name : Text → List Text → Bool
member_name name [] = false
member_name name (allowed ∷ rest) = text_eq name allowed || member_name name rest

member_name_sound : (name : Text) (ns : List Text) → member_name name ns ≡ true → Memᴰ name ns
unfolding member_name
member_name_sound name [] e = cc
member_name_sound name (n ∷ ns) e = elim (Bool-cases (text_eq name n)) [
  | inl t ↦ Memᴰ.head (text_eq_sound name n t)
  | inr f ↦ Memᴰ.tail (member_name_sound name ns (rw f at e))
]

member_name_complete : (name : Text) (ns : List Text) → Memᴰ name ns → member_name name ns ≡ true
unfolding member_name
member_name_complete name [] m = absurd (Memᴰ.not-nil m)
member_name_complete name (n ∷ ns) (Memᴰ.head e) = rw ((text_eq_iff name n).1 e) refl
member_name_complete name (n ∷ ns) (Memᴰ.tail m) = ground (arith, member_name_complete name ns m)

module _ (groups : List Text) (lookup_user : Text → Option Account)
    (group_ids : Account → Option (List Text)) (lookup_group : Text → Option Text) where
  -- The loop over the ids; one that does not resolve is skipped.
  unfoldable pub scan : List Text → Verdict
  unfolding member_name
  scan [] = not_authorized
  scan (gid ∷ ids) =
      let rest = scan ids in
      elim (lookup_group gid) [
        | none ↦ rest
        | some name ↦ if member_name name groups then authorized else rest
      ]

  unfoldable pub authorize : Text → Verdict
  unfolding scan
  authorize username = elim (lookup_user username) [
    | none ↦ lookup_failed
    | some u ↦
        if text_eq u.uid (codes "0")
        then authorized
        else elim (group_ids u) [ none ↦ groups_failed | some ids ↦ scan ids ]
  ]

  -- One of the ids resolves to one of the allowed names.
  abbrev pub HasGroup : List Text → Type 0
  HasGroup ids =
      (gid : Text) × (name : Text) × Memᴰ gid ids
      × (lookup_group gid ≡ some name)
      × Memᴰ name groups

  scan_sound : (ids : List Text) → scan ids ≡ authorized → HasGroup ids
  unfolding scan
  scan_sound [] e = cc
  scan_sound (gid ∷ ids) e = elim (Option-cases (lookup_group gid)) [
    | inl absent_ ↦ later gid ids (scan_sound ids (rw (absent_, scan) at e))
    | inr (name, found) ↦ elim (Bool-cases (member_name name groups)) [
      | inl t ↦ (gid, name, Memᴰ.head refl, found, member_name_sound name groups t)
      | inr f ↦ later gid ids (scan_sound ids (ground arith))
    ]
  ]
    where
      later : (gid : Text) (ids : List Text) → HasGroup ids → HasGroup (gid ∷ ids)
      later gid ids (g, name, m, found, allowed) = (g, name, Memᴰ.tail m, found, allowed)

  scan_complete :
      (ids : List Text) (gid name : Text)
      → Memᴰ gid ids
      → lookup_group gid ≡ some name
      → member_name name groups ≡ true
      → scan ids ≡ authorized
  unfolding scan
  scan_complete [] gid name m found t = absurd (Memᴰ.not-nil m)
  scan_complete (x ∷ ids) gid name (Memᴰ.head e) found t = rw (sym e, found, scan) (rw t refl)
  scan_complete (x ∷ ids) gid name (Memᴰ.tail m) found t =
      ground (arith, scan_complete ids gid name m found t)

  -- Authorize lets a user in exactly if the account resolves and is root, or its groups are known and
  -- one of them resolves to an allowed name; a group id that does not resolve decides nothing.
  pub authorize_iff :
      (username : Text)
      → (authorize username ≡ authorized) ↔ (
          (u : Account) × (lookup_user username ≡ some u)
          × ((u.uid ≡ codes "0") ⊎ ((ids : List Text) × (group_ids u ≡ some ids) × HasGroup ids)))
  unfolding authorize
  authorize_iff username = (to, from)
    where
      to :
          authorize username ≡ authorized
          → (u : Account) × (lookup_user username ≡ some u)
            × ((u.uid ≡ codes "0") ⊎ ((ids : List Text) × (group_ids u ≡ some ids) × HasGroup ids))
      to e = elim (Option-cases (lookup_user username)) [
        | inl absent_ ↦ cc (rw (absent_, authorize) at e)
        | inr (u, found) ↦ (
          u,
          found,
          elim (Bool-cases (text_eq u.uid (codes "0"))) [
            | inl root ↦ inl (text_eq_sound u.uid (codes "0") root)
            | inr other ↦ elim (Option-cases (group_ids u)) [
              | inl unknown ↦ let bad : groups_failed ≡ authorized = ground arith in cc
              | inr (ids, known) ↦ inr (ids, known, scan_sound ids (ground arith))
            ]
          ],
        )
      ]

      from :
          (u : Account) × (lookup_user username ≡ some u)
            × ((u.uid ≡ codes "0") ⊎ ((ids : List Text) × (group_ids u ≡ some ids) × HasGroup ids))
          → authorize username ≡ authorized
      from (u, found, inl root) =
          rw (found, authorize) (rw ((text_eq_iff u.uid (codes "0")).1 root))
      from (u, found, inr (ids, known, (gid, name, m, resolves, allowed))) =
          ground (
            arith,
            scan_complete ids gid name m resolves (member_name_complete name groups allowed),
          )
