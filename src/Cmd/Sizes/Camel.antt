-- ===== src/Cmd/Sizes/Camel.antt =====
-- The names of cmd/gen/sizes/size_slug.go.
use treenq.Base.{
  ℕ, Bool, true, false, Bool-cases, List, [], ◌∷◌, ◌++◌, append_assoc, Text, ◌==◌, if◌then◌else◌,
  ◌≡◌, ◌≢◌, inl, inr, refl, sym, ap, ◌∙◌,
}
use treenq.Go.{split, push_head}
use treenq.Go.Path.Plain.{split-ne-nil}
use treenq.Cmd.Sizes.{Runes, camel_from, kebab_to_camel}

module _ (runes : Runes) where
  -- A part of a slug, as it is.
  abbrev plain : Text → Text
  plain [] = []
  plain (c ∷ s) = runes.string_of c ++ plain s

  -- With its first byte made upper case.
  abbrev capital : Text → Text
  capital [] = []
  capital (c ∷ s) = runes.string_of (runes.to_upper c) ++ plain s

  abbrev capitals : List Text → Text
  capitals [] = []
  capitals (p ∷ ps) = capital p ++ capitals ps

  -- The first part as it is, and the others behind it with a capital.
  abbrev pub camel_of : List Text → Text
  camel_of [] = []
  camel_of (p ∷ ps) = plain p ++ capitals ps

  abbrev parts_from : Bool → List Text → Text
  parts_from true ps = capitals ps
  parts_from false ps = camel_of ps

  parts_from-push :
      (upper : Bool) (c : ℕ) (ps : List Text)
      → ps ≢ []
      → parts_from upper (push_head c ps)
        ≡ (if upper then runes.string_of (runes.to_upper c) else runes.string_of c) ++ camel_of ps
  parts_from-push upper c [] h = absurd (h refl)
  parts_from-push true c (p ∷ ps) h =
      append_assoc (runes.string_of (runes.to_upper c)) (plain p) (capitals ps)
  parts_from-push false c (p ∷ ps) h = append_assoc (runes.string_of c) (plain p) (capitals ps)

  camel_from-parts_from :
      (upper : Bool) (s : Text) → camel_from runes upper s ≡ parts_from upper (split s b'-')
  unfolding camel_from split
  camel_from-parts_from true [] = refl
  camel_from-parts_from false [] = refl
  camel_from-parts_from true (c ∷ s) = elim (Bool-cases (c == b'-')) [
    | inl dash ↦ rw dash (camel_from-parts_from true s)
    | inr other ↦ rw other (
        ap (λ t. runes.string_of (runes.to_upper c) ++ t) (camel_from-parts_from false s)
        ∙ sym (parts_from-push true c (split s b'-') (split-ne-nil s b'-')))
  ]
  camel_from-parts_from false (c ∷ s) = elim (Bool-cases (c == b'-')) [
    | inl dash ↦ rw dash (camel_from-parts_from true s)
    | inr other ↦ rw other (
        ap (λ t. runes.string_of c ++ t) (camel_from-parts_from false s)
        ∙ sym (parts_from-push false c (split s b'-') (split-ne-nil s b'-')))
  ]

  -- A slug's name in camel case is its parts between the dashes put together: the first as it is, and
  -- each other with its first byte made upper case. Empty parts leave nothing.
  pub kebab_to_camel-split : (s : Text) → kebab_to_camel runes s ≡ camel_of (split s b'-')
  unfolding kebab_to_camel
  kebab_to_camel-split s = camel_from-parts_from false s
