-- ===== src/Sdk/Slugs.antt =====
-- Which size slugs convert, and to what.
use treenq.Base.{
  ℕ, ◌^◌, ◌<◌, List, [], ◌∷◌, ◌++◌, Text, Lacks, Result-cases, returns, All, ◌≡◌, refl, ap, subst,
  inl, inr, ◌∙◌, arith,
}
use treenq.Go.{ℤ, pos, atoi, split}
use treenq.Go.Decimal.{
  itoa, itoa-Lacks, atoi-itoa, atoi-Lacks, split-append, split-last, split-Lacks,
}
use treenq.Sdk.{ComputationResource, to_computation_resource, of_parts}

-- The slug of three amounts: the decimal numbers with dashes between them.
abbrev pub slug_of : ℕ → ℕ → ℕ → Text
slug_of cpu mem disk = itoa (pos cpu) ++ b'-' ∷ (itoa (pos mem) ++ b'-' ∷ itoa (pos disk))

split-slug_of :
    (cpu mem disk : ℕ)
    → split (slug_of cpu mem disk) b'-' ≡ itoa (pos cpu) ∷ itoa (pos mem) ∷ itoa (pos disk) ∷ []
split-slug_of cpu mem disk =
    rw
      (
        split-append (itoa (pos cpu)) (itoa (pos mem) ++ b'-' ∷ itoa (pos disk)) b'-'
            (itoa-Lacks cpu),
        split-append (itoa (pos mem)) (itoa (pos disk)) b'-' (itoa-Lacks mem),
        split-last (itoa (pos disk)) b'-' (itoa-Lacks disk),
      )
      refl

-- Amounts of CPU, memory and disk that are no negative numbers and fit an `int` come back from
-- their slug, the three decimal numbers with dashes between them.
pub to_computation_resource-slug_of :
    (cpu mem disk : ℕ)
    → cpu < 2 ^ 63
    → mem < 2 ^ 63
    → disk < 2 ^ 63
    → to_computation_resource (slug_of cpu mem disk)
      ≡ returns (record { cpu_units = pos cpu; memory_mibs = pos mem; disk_gibs = pos disk })
unfolding to_computation_resource
to_computation_resource-slug_of cpu mem disk c m d =
    ap (of_parts (slug_of cpu mem disk)) (split-slug_of cpu mem disk)
    ∙ (rw (atoi-itoa cpu c, atoi-itoa mem m, atoi-itoa disk d) refl)

abbrev pub IsAmount : ℤ → Type 0
IsAmount z = (n : ℕ) × (z ≡ pos n) × (n < 2 ^ 63)

returns-injective : {A : Type 0} {a b : A} → returns a ≡ returns b → a ≡ b
returns-injective e = cc

of_parts-IsAmount :
    (s : Text) (parts : List Text) {r : ComputationResource}
    → All (Lacks b'-') parts
    → of_parts s parts ≡ returns r
    → IsAmount r.cpu_units × IsAmount r.memory_mibs × IsAmount r.disk_gibs
of_parts-IsAmount s [] h e = ground arith
of_parts-IsAmount s (_ ∷ []) h e = ground arith
of_parts-IsAmount s (_ ∷ _ ∷ []) h e = ground arith
of_parts-IsAmount s (a ∷ b ∷ c ∷ []) {r = r₀} (ha, (hb, (hc, _))) e = elim (Result-cases (atoi a)) [
  | inr (m, bad) ↦ let no = rw bad at e in ground arith
  | inl (cpu, x) ↦ elim (Result-cases (atoi b)) [
    | inr (m, bad) ↦ let no = rw (x, bad) at e in ground arith
    | inl (mem, y) ↦ elim (Result-cases (atoi c)) [
      | inr (m, bad) ↦ let no = rw (x, y, bad) at e in ground arith
      | inl (disk, z) ↦
          let same : returns (record { cpu_units = cpu; memory_mibs = mem; disk_gibs = disk })
              ≡ returns r₀ =
            rw (x, y, z) at e in
          subst (λ r. IsAmount r.cpu_units × IsAmount r.memory_mibs × IsAmount r.disk_gibs)
            (returns-injective same) (atoi-Lacks a ha x, atoi-Lacks b hb y, atoi-Lacks c hc z)
    ]
  ]
]
of_parts-IsAmount s (_ ∷ _ ∷ _ ∷ _ ∷ _) h e = ground arith

-- A slug that converts gives amounts that are no negative numbers and fit an `int`: a minus sign
-- before a number is a separator, and then there are more than three parts.
pub to_computation_resource-IsAmount :
    (s : Text) (r : ComputationResource)
    → to_computation_resource s ≡ returns r
    → IsAmount r.cpu_units × IsAmount r.memory_mibs × IsAmount r.disk_gibs
unfolding to_computation_resource
to_computation_resource-IsAmount s r e = of_parts-IsAmount s (split s b'-') (split-Lacks s b'-') e
