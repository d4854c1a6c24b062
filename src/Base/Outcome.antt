-- ===== src/Base/Outcome.antt =====
-- Go's ways to end a call: a value or an error, and for code that can panic a third one.
use mathlib.Core.Path.{◌≡◌, refl}
use mathlib.Core.Logic.{◌⊎◌, inl, inr}
use treenq.Base.Bytes.{Text}

-- `(T, error)`; an `error` is read through its message.
pub data Result {ℓ} (A : Type ℓ) : Type ℓ where
  ok : A → Result A
  err : Text → Result A

pub Result-cases {ℓ} :
    {A : Type ℓ} (r : Result A) → ((a : A) × (r ≡ ok a)) ⊎ ((e : Text) × (r ≡ err e))
Result-cases (ok a) = inl (a, refl)
Result-cases (err e) = inr (e, refl)

-- An operation on a state returns a result and the next state.
pub Reply-cases {ℓ κ} :
    {A : Type ℓ} {S : Type κ} (p : Result A × S)
    → ((a : A) × (s : S) × (p ≡ (ok a, s))) ⊎ ((e : Text) × (s : S) × (p ≡ (err e, s)))
Reply-cases (ok a, s) = inl (a, s, refl)
Reply-cases (err e, s) = inr (e, s, refl)

-- A value, or a panic with its message.
pub data Panicking {ℓ} (A : Type ℓ) : Type ℓ where
  returns : A → Panicking A
  panics : Text → Panicking A
