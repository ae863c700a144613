-- ===== src/Prelude/Results.antt =====
-- Results of fallible calls, and the errors that the control plane returns.
use mathlib.Core.Path.{◌≡◌, refl}
use mathlib.Core.Logic.{◌⊎◌, inl, inr}

-- The sentinel errors of assign.go and suspend.go, and the wrapped errors of the workflows.
pub data Error : Type 0 where
  version_conflict not_found no_capacity transient : Error
  no_plan no_resolver no_template no_image no_pool worker_failed : Error

pub data Result {ℓ} (A : Type ℓ) : Type ℓ where
  ok : A → Result A
  err : Error → Result A

pub Result-cases {ℓ} :
    {A : Type ℓ} (r : Result A) → ((a : A) × (r ≡ ok a)) ⊎ ((e : Error) × (r ≡ err e))
Result-cases (ok a) = inl (a, refl)
Result-cases (err e) = inr (e, refl)
