-- ===== src/Prelude/Results.antt =====
-- What a call returns: its value, or the exception that it throws.
use mathlib.Core.Path.{◌≡◌, refl}
use mathlib.Core.Logic.{◌⊎◌, inl, inr}
use mathlib.Core.Option.{Option, none, some}

-- `missing_key` stands for the failed access of a container outside its keys or bounds, and
-- `null_pointer` for a call through a null pointer.
pub data Error : Type 0 where
  missing_key : Error
  null_pointer : Error
  stream_piping_failed : Error
  verification_failed : Error
  link_points_out_of_index_dir : Error
  not_implemented : Error
  assertion_failed : Error
  malformed_index : Error
  invalid_config : Error

pub data Result {ℓ} (A : Type ℓ) : Type ℓ where
  ok : A → Result A
  throw : Error → Result A

-- An access that finds nothing throws.
abbrev pub or_throw {ℓ} : {A : Type ℓ} → Option A → Error → Result A
or_throw none error = throw error
or_throw (some found) error = ok found

pub Result-cases {ℓ} :
    {A : Type ℓ} (call : Result A)
    → ((value : A) × (call ≡ ok value)) ⊎ ((error : Error) × (call ≡ throw error))
Result-cases (throw error) = inr (error, refl)
Result-cases (ok value) = inl (value, refl)

infixl 5 ◌>>=◌
-- The rest of a body runs if the call returned.
abbrev pub ◌>>=◌ {ℓ κ} : {A : Type ℓ} {B : Type κ} → Result A → (A → Result B) → Result B
(throw error) >>= rest = throw error
(ok value) >>= rest = rest value

-- The value of the call, where the body as a whole returned.
pub >>=-eq-ok {ℓ κ} :
    {A : Type ℓ} {B : Type κ} {last : B} (call : Result A) (rest : A → Result B)
    → (call >>= rest) ≡ ok last
    → (value : A) × (call ≡ ok value) × (rest value ≡ ok last)
>>=-eq-ok (throw error) rest returned = cc
>>=-eq-ok (ok value) rest returned = (value, refl, returned)

-- A call that may run out of fuel, and may throw.
abbrev pub Call : Type 0 → Type 0
Call A = Option (Result A)

abbrev pub and_then : {A B : Type 0} → Call A → (A → Call B) → Call B
and_then none f = none
and_then (some (throw e)) f = some (throw e)
and_then (some (ok a)) f = f a

-- The value of the first call, where both returned.
pub and_then-eq-ok :
    {A B : Type 0} (c : Call A) (f : A → Call B) (last : B)
    → and_then c f ≡ some (ok last)
    → (value : A) × (c ≡ some (ok value)) × (f value ≡ some (ok last))
and_then-eq-ok none f last returned = cc
and_then-eq-ok (some (throw error)) f last returned = cc
and_then-eq-ok (some (ok value)) f last returned = (value, refl, returned)
