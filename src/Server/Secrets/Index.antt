-- ===== src/Server/Secrets/Index.antt =====
-- indexSecrets of internal/server/handlers_system.go: the secrets section of index.nix.
use mathlib.Core.Option.{some-injective}
use mathlib.Core.Path.{subst}
use nixbox.Prelude.{
  Bool-cases, List, Option, Option-cases, Text, [], ap, arith, if◌then◌else◌, inl, inr, map, none,
  refl, some, sym, true, ℕ, ◌&&◌, ◌==◌, ◌↔◌, ◌∙◌, ◌∷◌, ◌≡◌, ◌⊎◌,
}
use nixbox.Store.Workloads.{Workload, find_id}
use nixbox.Store.Secrets.{has_mount, Secret}
use nixbox.Server.Secrets.Form.{MountType, lookup_mount}

-- A secret of the index; a mount is an IndexKey and the name of a workload, in the order of append.
pub record IndexSecret : Type 0 where
  pub name : Text
  pub owner : Text
  pub group : Text
  pub mode : Text
  pub mounts : List (Text × Text)

abbrev pub mount_of : Workload → Option MountType → List (Text × Text) → List (Text × Text)
mount_of w none rest = rest
mount_of w (some t) rest =
    if w.enabled && t.supports_secret_mounts then (t.index_key, w.name) ∷ rest else rest

abbrev pub mount_at : List MountType → Option Workload → List (Text × Text) → List (Text × Text)
unfolding lookup_mount
mount_at types none rest = rest
mount_at types (some w) rest = mount_of w (lookup_mount w.typ types) rest

unfoldable pub mounts_of : List MountType → List Workload → List ℕ → List (Text × Text)
unfolding mount_at find_id
mounts_of types ws [] = []
mounts_of types ws (id ∷ ids) = mount_at types (find_id id ws) (mounts_of types ws ids)

abbrev pub index_secret : List MountType → List Workload → Secret → IndexSecret
unfolding mounts_of
index_secret types ws s = record {
  name = s.name;
  owner = s.owner;
  group = s.group;
  mode = s.mode;
  mounts = mounts_of types ws s.workload_ids;
}

unfoldable pub index_secrets : List MountType → List Workload → List Secret → List IndexSecret
unfolding index_secret
index_secrets types ws ss = map (index_secret types ws) ss

abbrev pub HasPair : Text → Text → List (Text × Text) → Type 0
HasPair key name [] = ⊥
HasPair key name ((k, n) ∷ ps) = ((k ≡ key) × (n ≡ name)) ⊎ HasPair key name ps

-- A row of an enabled workload, of a type that supports mounts, with this key and name.
abbrev pub Delivers : List MountType → Option Workload → Text → Text → Type 0
Delivers types o key name =
    (w : Workload) × (t : MountType) × (o ≡ some w)
    × (lookup_mount w.typ types ≡ some t)
    × (w.enabled ≡ true)
    × (t.supports_secret_mounts ≡ true)
    × (t.index_key ≡ key)
    × (w.name ≡ name)

mount_of-cases :
    (w : Workload) (t : MountType) (rest : List (Text × Text)) (key name : Text)
    → HasPair key name (mount_of w (some t) rest) ↔ (
        ((w.enabled ≡ true)
          × (t.supports_secret_mounts ≡ true)
          × (t.index_key ≡ key)
          × (w.name ≡ name))
        ⊎ HasPair key name rest)
mount_of-cases w t rest key name = elim (Bool-cases w.enabled) [
  | inr off ↦ rw off ((λ h. inr h), λ h. elim h [ inl (bad, _, _, _) ↦ absurd (cc) | inr h ↦ h ])
  | inl on ↦ elim (Bool-cases t.supports_secret_mounts) [
    | inr cannot ↦
        rw (on, cannot) ((λ h. inr h), λ h. elim h [ inl (_, bad, _, _) ↦ absurd (cc) | inr h ↦ h ])
    | inl can ↦
        rw (on, can)
          (
            (λ h. elim h [ inl (k, n) ↦ inl (refl, refl, k, n) | inr h ↦ inr h ]),
            λ h. elim h [ inl (_, _, k, n) ↦ inl (k, n) | inr h ↦ inr h ],
          )
  ]
]

mount_at-cases :
    (types : List MountType) (o : Option Workload) (rest : List (Text × Text)) (key name : Text)
    → HasPair key name (mount_at types o rest) ↔ (Delivers types o key name ⊎ HasPair key name rest)
unfolding mount_at
mount_at-cases types none rest key name =
    ((λ h. inr h), λ h. elim h [ inl (w, t, bad, _, _, _, _, _) ↦ absurd (cc) | inr h ↦ h ])
mount_at-cases types (some w) rest key name = elim (Option-cases (lookup_mount w.typ types)) [
  | inl absent ↦ rw absent (
    (λ h. inr h),
    λ h. elim h [
      | inl (v, t, same, found, _, _, _, _) ↦
          let is_w : w ≡ v = some-injective _ _ same in
          let there = ap (λ (q : Workload). lookup_mount q.typ types) is_w ∙ found in absurd (cc)
      | inr h ↦ h
    ],
  )
  | inr (t, found) ↦
      let (to, from) = mount_of-cases w t rest key name in
      rw found (
        (λ h. elim (to h) [
          | inl (a, b, k, n) ↦ inl (w, t, refl, found, a, b, k, n)
          | inr h ↦ inr h
        ]),
        λ h. elim h [
          | inl (v, u, same, there, a, b, k, n) ↦
              let is_w : w ≡ v = some-injective _ _ same in
              let is_t : t ≡ u =
                some-injective _ _
                  (sym found ∙ (ap (λ (q : Workload). lookup_mount q.typ types) is_w ∙ there)) in
              from (
                inl (
                  ap (λ (q : Workload). q.enabled) is_w ∙ a,
                  ap (λ (q : MountType). q.supports_secret_mounts) is_t ∙ b,
                  ap (λ (q : MountType). q.index_key) is_t ∙ k,
                  ap (λ (q : Workload). q.name) is_w ∙ n,
                ))
          | inr h ↦ from (inr h)
        ],
      )
]

-- A secret of the index is delivered into a workload under a key exactly if the secret is mounted into
-- it, the workload's row is there and enabled, and its type is registered, supports mounts, and has the
-- key.
pub mounts_of_iff :
    (types : List MountType) (ws : List Workload) (ids : List ℕ) (key name : Text)
    → HasPair key name (mounts_of types ws ids)
      ↔ ((id : ℕ) × (has_mount id ids ≡ true) × Delivers types (find_id id ws) key name)
unfolding mounts_of has_mount
mounts_of_iff types ws [] key name = ((λ h. absurd h), λ (id, bad, d). absurd (cc))
mounts_of_iff types ws (i ∷ ids) key name =
    let (to, from) = mount_at-cases types (find_id i ws) (mounts_of types ws ids) key name in
    let (to_rest, from_rest) = mounts_of_iff types ws ids key name in
    (
      λ h. elim (to h) [
        | inl d ↦ (i, ground arith, d)
        | inr h ↦ let (id, has, d) = to_rest h in (id, ground (arith, has), d)
      ],
      λ (id, has, d). elim (Bool-cases (i == id)) [
        | inl t ↦
            let same : id ≡ i = ground arith in
            from (inl (subst (λ j. Delivers types (find_id j ws) key name) same d))
        | inr n ↦ from (inr (from_rest (id, rw n at has, d)))
      ],
    )
