-- ===== src/Web/Dialogs/Mounts.antt =====
-- The mount boxes of the secret dialog, web/src/dialogs.ts.
use nixbox.Prelude.{All, List, Text, [], ap, arith, false, map, refl, ◌++◌, ◌∙◌, ◌∷◌, ◌≡◌, ◌≢◌}
use nixbox.Web.Dialogs.{
  Box, SecretForm, SecretRow, Labels, check_box, split_commas, mount_ids, edit_secret, set_mounts,
}

-- The ids with commas between them, as web/templates/secrets.html writes data-mounts.
abbrev pub join_commas : List Text → Text
join_commas [] = []
join_commas (w ∷ []) = w
join_commas (w ∷ v ∷ ws) = w ++ b',' ∷ join_commas (v ∷ ws)

abbrev pub IsId : Text → Type 0
IsId w = (w ≢ []) × All (λ c. c ≢ b',') w

split-word : (w : Text) → All (λ c. c ≢ b',') w → split_commas w ≡ w ∷ []
unfolding split_commas
split-word [] h = refl
split-word (c ∷ w) (h, hs) = ground (arith, split-word w hs)

split-append :
    (w s : Text) → All (λ c. c ≢ b',') w → split_commas (w ++ b',' ∷ s) ≡ w ∷ split_commas s
unfolding split_commas
split-append [] s h = refl
split-append (c ∷ w) s (h, hs) = ground (arith, split-append w s hs)

split_commas-join :
    (w : Text) (ws : List Text) → All IsId (w ∷ ws) → split_commas (join_commas (w ∷ ws)) ≡ w ∷ ws
split_commas-join w [] ((ne, h), hs) = split-word w h
split_commas-join w (v ∷ ws) ((ne, h), hs) =
    split-append w (join_commas (v ∷ ws)) h ∙ ap (◌∷◌ w) (split_commas-join v ws hs)

mount_ids-join : (ws : List Text) → All IsId ws → mount_ids (join_commas ws) ≡ ws
unfolding mount_ids
mount_ids-join [] h = refl
mount_ids-join ([] ∷ ws) ((ne, h), hs) = absurd (ne refl)
mount_ids-join ((c ∷ w) ∷ []) h = split_commas-join (c ∷ w) [] h
mount_ids-join ((c ∷ w) ∷ v ∷ ws) h = split_commas-join (c ∷ w) (v ∷ ws) h

set_mounts-reset :
    (on : List Text) (bs : List Box) → set_mounts on (map (check_box false) bs) ≡ set_mounts on bs
unfolding set_mounts
set_mounts-reset on [] = refl
set_mounts-reset on (b ∷ bs) = cc (set_mounts-reset on bs)

-- The Edit button of a row whose data-mounts is the list of some ids, which are not empty and hold no
-- comma, ticks the boxes of exactly these ids, whatever was ticked before.
pub mounts-edit_secret :
    (encode : Text → Text) (labels : Labels) (d : SecretRow) (f : SecretForm) (ws : List Text)
    → d.mounts ≡ join_commas ws
    → All IsId ws
    → (edit_secret encode labels d f).mounts ≡ set_mounts ws f.mounts
unfolding edit_secret
mounts-edit_secret encode labels d f ws e h =
    ap (λ on. set_mounts on (map (check_box false) f.mounts)) (ap mount_ids e ∙ mount_ids-join ws h)
    ∙ set_mounts-reset ws f.mounts
