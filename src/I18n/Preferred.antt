-- ===== src/I18n/Preferred.antt =====
-- The message and the locale that internal/i18n/i18n.go finds for a list of preferred locales.
use nixbox.Prelude.{
  Bool-cases, List, Option, Option-cases, Text, [], ap, inl, inr, map, none, refl, some, text_eq, ℕ,
  ◌++◌, ◌∙◌, ◌∷◌, ◌≡◌,
}
use nixbox.I18n.{
  default_locale, base_lang, or_locale, localizer, normalize, find_catalog, is_seen, add_all, fresh,
  add_code, join_catalog, t, Catalog, Localizer,
}
use nixbox.I18n.Fallback.{
  def-found, or_text, code_of, resolve, first_message, first_locale, add_all-found,
}

-- A catalog is there.
abbrev IsStarted : Localizer → Type 0
IsStarted l = (c : Catalog) × (cs : List Catalog) × (l.catalogs ≡ c ∷ cs)

-- A started localizer keeps its locale.
abbrev Keeps : Localizer → Localizer → Type 0
Keeps l m = (m.locale ≡ l.locale) × IsStarted m

join_catalog-Keeps :
    (l : Localizer) (code : Text) (cat : Catalog) → IsStarted l → Keeps l (join_catalog l code cat)
unfolding join_catalog
join_catalog-Keeps l code cat (c, cs, e) = elim (Bool-cases (is_seen code l.seen)) [
  | inl yes_ ↦ rw yes_ (refl, (c, cs, e))
  | inr f ↦
      rw f
        (ap (λ ds. or_locale ds l.locale code) e, (c, cs ++ cat ∷ [], ap (λ ds. ds ++ cat ∷ []) e))
]

add_code-Keeps :
    (bundle : List (Text × Catalog)) (l : Localizer) (code : Text)
    → IsStarted l
    → Keeps l (add_code bundle l code)
unfolding add_code
add_code-Keeps bundle l code started = elim (Bool-cases (text_eq code [])) [
  | inl yes_ ↦ rw yes_ (refl, started)
  | inr f ↦ elim (Option-cases (find_catalog code bundle)) [
    | inr (cat, here) ↦ rw (f, here) (join_catalog-Keeps l code cat started)
    | inl absent ↦ elim (Bool-cases (text_eq (base_lang code) code)) [
      | inl yes_ ↦ rw (f, absent) (rw yes_ (refl, started))
      | inr g ↦ elim (Option-cases (find_catalog (base_lang code) bundle)) [
        | inl none_ ↦ rw (f, absent) (rw (g, none_) (refl, started))
        | inr (cat, here) ↦
            rw (f, absent) (rw (g, here) (join_catalog-Keeps l (base_lang code) cat started))
      ]
    ]
  ]
]

-- What the first code makes of a fresh localizer.
abbrev begun : Option (Text × Catalog) → Localizer
begun none = fresh
begun (some (code, cat)) = record { locale = code; catalogs = cat ∷ []; seen = code ∷ [] }

add_code-fresh :
    (bundle : List (Text × Catalog)) (code : Text)
    → add_code bundle fresh code ≡ begun (resolve bundle code)
unfolding add_code join_catalog is_seen
add_code-fresh bundle code = elim (Bool-cases (text_eq code [])) [
  | inl yes_ ↦ rw yes_ refl
  | inr f ↦ elim (Option-cases (find_catalog code bundle)) [
    | inr (cat, here) ↦ rw (f, here) refl
    | inl absent ↦ elim (Bool-cases (text_eq (base_lang code) code)) [
      | inl yes_ ↦ rw (f, absent) (rw yes_ refl)
      | inr g ↦ elim (Option-cases (find_catalog (base_lang code) bundle)) [
        | inl none_ ↦ rw (f, absent) (rw (g, none_) refl)
        | inr (cat, here) ↦ rw (f, absent) (rw (g, here) refl)
      ]
    ]
  ]
]

module _ (lower : ℕ → ℕ) where
  add_all-locale :
      (bundle : List (Text × Catalog)) (l : Localizer) (ps : List Text)
      → IsStarted l
      → (add_all lower bundle l ps).locale ≡ l.locale
  unfolding add_all
  add_all-locale bundle l [] started = refl
  add_all-locale bundle l (p ∷ ps) started =
      let (same, next) = add_code-Keeps bundle l (normalize lower p) started in
      add_all-locale bundle (add_code bundle l (normalize lower p)) ps next ∙ same

  begun-locale :
      (bundle : List (Text × Catalog)) (o : Option (Text × Catalog)) (ps : List Text)
      → (add_all lower bundle fresh ps).locale ≡ first_locale bundle (map (normalize lower) ps)
      → (add_all lower bundle (begun o) ps).locale
        ≡ code_of o (first_locale bundle (map (normalize lower) ps))
  begun-locale bundle none ps h = h
  begun-locale bundle (some (code, cat)) ps h =
      add_all-locale bundle (begun (some (code, cat))) ps (cat, [], refl)

  fresh-locale :
      (bundle : List (Text × Catalog)) (ps : List Text)
      → (add_all lower bundle fresh ps).locale ≡ first_locale bundle (map (normalize lower) ps)
  unfolding add_all
  fresh-locale bundle [] = refl
  fresh-locale bundle (p ∷ ps) =
      ap (λ l. (add_all lower bundle l ps).locale) (add_code-fresh bundle (normalize lower p))
      ∙ begun-locale bundle (resolve bundle (normalize lower p)) ps (fresh-locale bundle ps)

  -- Whatever the catalogs and the preferred locales are, the page's locale is the first one, of the
  -- preferred ones and then the default one, that stands for a catalog, exactly or by its base language;
  -- and a message is that of the first such locale whose catalog has it, and the key itself if there is
  -- none: that a catalog is kept only once changes no message.
  pub t-localizer :
      (bundle : List (Text × Catalog)) (prefs : List Text) (key : Text)
      → let asked = map (normalize lower) (prefs ++ default_locale ∷ []) in
        ((localizer lower bundle prefs).locale ≡ first_locale bundle asked)
        × (t (localizer lower bundle prefs) key ≡ or_text key (first_message key bundle asked))
  unfolding t localizer
  t-localizer bundle prefs key =
      let asked = prefs ++ default_locale ∷ [] in
      (
        fresh-locale bundle asked,
        def-found (add_all lower bundle fresh asked).catalogs key key
            ∙ ap (or_text key) (add_all-found lower key bundle fresh asked (λ code h. absurd (cc))),
      )
