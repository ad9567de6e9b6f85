-- ===== src/Base/Results.antt =====
-- A Go call that returns a value and an error.
use Prim.Native.String.{String}
use mathlib.Core.Path.{◌≡◌, refl}
use mathlib.Core.Logic.{◌⊎◌, inl, inr}

pub data Result {ℓ} (A : Type ℓ) : Type ℓ where
  ok : A → Result A
  err : String → Result A

infixl 5 ◌>>=◌
abbrev pub ◌>>=◌ {ℓ κ} : {A : Type ℓ} {B : Type κ} → Result A → (A → Result B) → Result B
ok value >>= next = next value
err message >>= next = err message

pub Result-cases {ℓ} :
    {A : Type ℓ} (r : Result A)
    → ((value : A) × (r ≡ ok value)) ⊎ ((message : String) × (r ≡ err message))
Result-cases (ok value) = inl (value, refl)
Result-cases (err message) = inr (message, refl)
