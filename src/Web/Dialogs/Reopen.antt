-- ===== src/Web/Dialogs/Reopen.antt =====
-- The dialogs of web/src/dialogs.ts after earlier uses.
use nixbox.Prelude.{
  Bool, Bool-cases, List, Text, [], ap₂, false, inl, inr, map, not, refl, suc, update_at, zero, ℕ,
  ◌∙◌, ◌∷◌, ◌≡◌,
}
use nixbox.Web.Dialogs.{
  Box, SecretForm, SecretRow, SecretEvent, type_value, type_owner, type_group, type_mode, Labels,
  FlakeForm, FlakeRow, FlakeEvent, check_box, has_id, set_mounts, mount_ids, add_secret,
  edit_secret, add_input, edit_input, secret_step, secret_run, flake_run,
}

abbrev ids : List Box → List Text
ids = map (λ (b : Box). b.id)

ids-check :
    (p : Box → Bool) (bs : List Box) → ids (map (λ (b : Box). check_box (p b) b) bs) ≡ ids bs
ids-check p [] = refl
ids-check p (b ∷ bs) = cc (ids-check p bs)

ids-update_at :
    (p : Box → Bool) (i : ℕ) (bs : List Box)
    → ids (update_at (λ (b : Box). check_box (p b) b) i bs) ≡ ids bs
ids-update_at p i [] = refl
ids-update_at p zero (b ∷ bs) = refl
ids-update_at p (suc i) (b ∷ bs) = cc (ids-update_at p i bs)

-- setMounts after a reset depends on the ids of the boxes alone.
set_mounts-ids :
    (on : List Text) (bs cs : List Box)
    → ids bs ≡ ids cs
    → set_mounts on (map (check_box false) bs) ≡ set_mounts on (map (check_box false) cs)
unfolding set_mounts
set_mounts-ids on [] [] e = refl
set_mounts-ids on [] (c ∷ cs) e = cc
set_mounts-ids on (b ∷ bs) [] e = cc
set_mounts-ids on (b ∷ bs) (c ∷ cs) e =
    let first : b.id ≡ c.id = cc in
    let others : ids bs ≡ ids cs = cc in
    ap₂ (λ (x : Text) (rest : List Box). record { id = x; checked = has_id x on } ∷ rest) first
      (set_mounts-ids on bs cs others)

module _ (encode : Text → Text) (labels : Labels) where
  secret_step-ids :
      (f : SecretForm) (e : SecretEvent) → ids (secret_step encode labels f e).mounts ≡ ids f.mounts
  unfolding secret_step set_mounts
  secret_step-ids f SecretEvent.add = ids-check (λ _. false) _ ∙ ids-check (λ _. false) f.mounts
  secret_step-ids f SecretEvent.close = refl
  secret_step-ids f (SecretEvent.edit d) =
      ids-check (λ b. has_id b.id (mount_ids d.mounts)) _ ∙ ids-check (λ _. false) f.mounts
  secret_step-ids f (SecretEvent.type_name s) = elim (Bool-cases f.name_disabled) [
    | inl off ↦ rw off refl
    | inr on ↦ rw on refl
  ]
  secret_step-ids f (type_value s) = refl
  secret_step-ids f (type_owner s) = refl
  secret_step-ids f (type_group s) = refl
  secret_step-ids f (type_mode s) = refl
  secret_step-ids f (SecretEvent.tick i) = ids-update_at (λ b. not b.checked) i f.mounts

  secret_run-ids :
      (f : SecretForm) (es : List SecretEvent)
      → ids (secret_run encode labels f es).mounts ≡ ids f.mounts
  unfolding secret_run
  secret_run-ids f [] = refl
  secret_run-ids f (e ∷ es) =
      secret_run-ids (secret_step encode labels f e) es ∙ secret_step-ids f e

  -- Whatever was done with the secret dialog before, Add opens it as on the fresh page, and Edit opens
  -- it as for that row on the fresh page: no field, label, requirement or mount is left over from an
  -- earlier use.
  pub secret_reopen :
      (f : SecretForm) (es : List SecretEvent) (d : SecretRow)
      → (add_secret encode labels (secret_run encode labels f es) ≡ add_secret encode labels f)
        × (edit_secret encode labels d (secret_run encode labels f es)
            ≡ edit_secret encode labels d f)
  unfolding add_secret edit_secret
  secret_reopen f es d =
      let g = secret_run encode labels f es in
      let same = secret_run-ids f es in
      (
        (λ i. record (add_secret encode labels f) {
          mounts = set_mounts-ids [] g.mounts f.mounts same i;
        }),
        (λ i. record (edit_secret encode labels d f) {
          mounts = set_mounts-ids (mount_ids d.mounts) g.mounts f.mounts same i;
        }),
      )

  -- Whatever was done with the flake-input dialog before, Add and Edit open it as on the fresh page.
  pub flake_reopen :
      (f : FlakeForm) (es : List FlakeEvent) (d : FlakeRow)
      → (add_input encode labels (flake_run encode labels f es) ≡ add_input encode labels f)
        × (edit_input encode labels d (flake_run encode labels f es) ≡ edit_input encode labels d f)
  unfolding add_input edit_input
  flake_reopen f es d = (refl, refl)
