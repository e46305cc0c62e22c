-- ===== src/Base/Answers.antt =====
-- The answer of a call that may fail, where the caller sees only that it failed.
use mathlib.Core.Path.{◌≡◌, refl}
use mathlib.Core.Logic.{◌⊎◌, inl, inr}

pub data Answer {ℓ} (A : Type ℓ) : Type ℓ where
  failed : Answer A
  got : A → Answer A

-- `Result<A, E>`
pub data Result {ℓ κ} (A : Type ℓ) (E : Type κ) : Type (ℓ ⊔ κ) where
  ok : A → Result A E
  err : E → Result A E

pub Answer-cases {ℓ} : {A : Type ℓ} (a : Answer A) → (a ≡ failed) ⊎ ((x : A) × (a ≡ got x))
Answer-cases failed = inl refl
Answer-cases (got x) = inr (x, refl)

pub Result-cases {ℓ κ} :
    {A : Type ℓ} {E : Type κ} (r : Result A E) → ((x : A) × (r ≡ ok x)) ⊎ ((e : E) × (r ≡ err e))
Result-cases (ok x) = inl (x, refl)
Result-cases (err e) = inr (e, refl)
