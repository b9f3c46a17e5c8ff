-- ===== src/Common/Result.antt =====
-- Calls that can stop the process, or leave the memory that they were given.
use mathlib.Core.Path.{◌≡◌, refl}
use mathlib.Core.Logic.{◌⊎◌, inl, inr}
use mathlib.Core.Bool.{Bool, true, false}

-- `assertion`: a failed `ods_log_assert`, which ends the process by `ods_fatal_exit`
-- (signer/src/shared/log.h). `overrun`: a read or write outside the allocated object. `unfinished`: a
-- loop goes on behind the rounds that its model has.
pub data Fault : Type 0 where
  assertion overrun unfinished : Fault

pub data Result {ℓ} (A : Type ℓ) : Type ℓ where
  err : Fault → Result A
  ok : A → Result A

-- The first fault ends the call.
infixl 5 ◌>>◌ ◌>>=◌
abbrev pub ◌>>=◌ {ℓ ℓ'} : {A : Type ℓ} {B : Type ℓ'} → Result A → (A → Result B) → Result B
err fault >>= next = err fault
ok value >>= next = next value

abbrev pub ◌>>◌ {ℓ} : {B : Type ℓ} → Result (Unit {0}) → Result B → Result B
err fault >> rest = err fault
ok done >> rest = rest

-- `ods_log_assert(test)`.
abbrev pub require : Bool → Fault → Result (Unit {0})
require test fault = elim test [ false ↦ err fault | true ↦ ok tt ]

pub ok_inj {ℓ} : {A : Type ℓ} {a b : A} → ok a ≡ ok b → a ≡ b
ok_inj e = cc

pub Result-cases {ℓ} :
    {A : Type ℓ} (r : Result A) → ((a : A) × (r ≡ ok a)) ⊎ ((e : Fault) × (r ≡ err e))
Result-cases (ok a) = inl (a, refl)
Result-cases (err e) = inr (e, refl)
