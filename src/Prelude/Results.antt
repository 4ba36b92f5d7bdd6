-- ===== src/Prelude/Results.antt =====
-- What a fallible call returns. A wrapped Go error is told apart only by `errors.Is`, so an error is
-- the sentinel that it wraps, if any; its text is not modelled.

use mathlib.Core.Path.{◌≡◌, refl, ap}
use mathlib.Core.Option.{Option, none, some}
use mathlib.Core.Logic.{◌⊎◌, inl, inr}

pub data Error : Type 0 where
  -- errWorkloadIdentityChanged, errWorkloadIdentityNotPinned, errControlPlaneNameTaken
  identity_changed identity_not_pinned name_taken : Error
  -- an API conflict, and every other failure
  conflict failed : Error

pub data Result {ℓ} (A : Type ℓ) : Type ℓ where
  ok : A → Result A
  err : Error → Result A

-- The answer to a read of one object.
pub data Get {ℓ} (A : Type ℓ) : Type ℓ where
  found : A → Get A
  not_found no_match unreadable : Get A

pub Result-cases {ℓ} :
    {A : Type ℓ} (r : Result A) → ((a : A) × (r ≡ ok a)) ⊎ ((e : Error) × (r ≡ err e))
Result-cases (ok a) = inl (a, refl)
Result-cases (err e) = inr (e, refl)

-- An object was read, or the answer is one of the other three.
pub Get-cases {ℓ} :
    {A : Type ℓ} (g : Get A)
    → ((a : A) × (g ≡ found a)) ⊎ ((g ≡ not_found) ⊎ ((g ≡ no_match) ⊎ (g ≡ unreadable)))
Get-cases (found a) = inl (a, refl)
Get-cases not_found = inr (inl refl)
Get-cases no_match = inr (inr (inl refl))
Get-cases unreadable = inr (inr (inr refl))

pub some_inj {ℓ} : {A : Type ℓ} {x y : A} → some x ≡ some y → x ≡ y
some_inj {A = A} {x = x} e = ap value e
  where
    value : Option A → A
    value none = x
    value (some a) = a
