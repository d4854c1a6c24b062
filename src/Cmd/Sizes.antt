-- ===== src/Cmd/Sizes.antt =====
-- cmd/gen/sizes/size_slug.go: the sizes that a provider offers, as constants of the SDK. The JSON
-- input, the template, 32-bit floats and the case of runes are parameters.
pub mod Camel
use treenq.Base.{
  ℕ, Bool, true, false, List, [], ◌∷◌, ◌++◌, map, Text, bytes, ◌==◌, if◌then◌else◌, Result, ok, err,
}
use treenq.Go.{ℤ}

pub record Size (Float : Type 0) : Type 0 where
  pub slug : Text
  pub memory : ℤ
  pub memory_gb : Float
  pub vcpus : ℤ
  pub disk : ℤ
  pub price_monthly : ℤ
  pub price_hourly : Float
  pub regions : List Text
  pub available : Bool
  pub transfer : Float
  pub description : Text
  pub slug_camel : Text

pub record Sizes (Float : Type 0) : Type 0 where
  pub package_name : Text
  pub sizes : List (Size Float)
  pub retrieved_at : Text

-- `unicode.ToUpper` and `string` of a rune.
pub record Runes : Type 0 where
  pub to_upper : ℕ → ℕ
  pub string_of : ℕ → Text

module _ (runes : Runes) where
  -- The loop, with whether the next byte is made upper case. A byte is taken for a rune.
  unfoldable pub camel_from : Bool → Text → Text
  camel_from make_upper [] = []
  camel_from make_upper (c ∷ s) =
      let after_dash = camel_from true s in
      let after_upper = runes.string_of (runes.to_upper c) ++ camel_from false s in
      let after_plain = runes.string_of c ++ camel_from false s in
      if c == b'-' then after_dash else if make_upper then after_upper else after_plain

  unfoldable pub kebab_to_camel : Text → Text
  unfolding camel_from
  kebab_to_camel s = camel_from false s

  module _ {Float : Type 0} (memory_gb_of : ℤ → Float) where
    abbrev pub with_names : Size Float → Size Float
    with_names size = record size {
      slug_camel = kebab_to_camel size.slug;
      memory_gb = memory_gb_of size.memory;
    }

    -- `tmpl` is the parsed template, or what is wrong with it; `executed` writes its output.
    abbrev pub with_template :
        {S : Type 0}
        → Result (Sizes Float → S → Result (Unit {0}) × S)
        → Sizes Float
        → S
        → Result (Unit {0}) × S
    with_template (err m) sizes s = (err m, s)
    with_template (ok execute) sizes s = execute sizes s

    unfoldable pub generate_size_slugs :
        {S : Type 0}
        → Result (Sizes Float)
        → Result (Sizes Float → S → Result (Unit {0}) × S)
        → S
        → Result (Unit {0}) × S
    unfolding kebab_to_camel
    generate_size_slugs (err m) tmpl s = (err m, s)
    generate_size_slugs (ok sizes) tmpl s =
        with_template tmpl
          (record sizes { package_name = bytes "tqsdk"; sizes = map with_names sizes.sizes }) s
