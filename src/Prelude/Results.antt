-- ===== src/Prelude/Results.antt =====
-- Python's exceptions as values: a call returns or raises, and what it wrote before the raise stays.
use Prim.Native.String.{String}
use mathlib.Core.Path.{◌≡◌, refl}
use mathlib.Core.Logic.{◌⊎◌, inl, inr}
use mathlib.Core.Bool.{Bool, true, false}

-- The exceptions that the modelled code raises, without their messages.
pub data Error : Type 0 where
  value_error key_error type_error permission_error runtime_error : Error
  unknown_object version_conflict stale_world : Error
  lease_lost invalid_action budget_operations budget_deadline : Error
  integrity_error overflow_error attribute_error struct_error decode_error : Error
  bridge_transport bridge_protocol bridge_unavailable stale_generation : Error
  bridge_remote : String → Error

pub data Result {ℓ} (A : Type ℓ) : Type ℓ where
  ok : A → Result A
  err : Error → Result A

-- A method on a state `S`.
abbrev pub Exec {ℓ κ} : Type ℓ → Type κ → Type (ℓ ⊔ κ)
Exec S A = S → Result A × S

module _ {ℓ κ} {S : Type ℓ} {A : Type κ} where
  abbrev pub pure : A → Exec S A
  pure a s = (ok a, s)

  abbrev pub raise : Error → Exec S A
  raise e s = (err e, s)

  abbrev pub lift : Result A → Exec S A
  lift r s = (r, s)

  abbrev pub gets : (S → A) → Exec S A
  gets f s = (ok (f s), s)

module _ {ℓ} {S : Type ℓ} where
  abbrev pub modify : (S → S) → Exec S (Unit {0})
  modify f s = (ok tt, f s)

infixl 5 ◌>>=◌ ◌>>◌
abbrev pub ◌>>=◌ {ℓ κ} : {S : Type ℓ} {A B : Type κ} → Exec S A → (A → Exec S B) → Exec S B
◌>>=◌ m f s = let (r, t) = m s in elim r [ ok a ↦ f a t | err e ↦ (err e, t) ]

abbrev pub ◌>>◌ {ℓ} : {S : Type ℓ} {B : Type 0} → Exec S (Unit {0}) → Exec S B → Exec S B
m >> k = m >>= λ _. k

abbrev pub guard {ℓ} : {S : Type ℓ} → Bool → Error → Exec S (Unit {0})
guard true e = pure tt
guard false e = raise e

pub Result-cases {ℓ} :
    {A : Type ℓ} (r : Result A) → ((e : Error) × (r ≡ err e)) ⊎ ((a : A) × (r ≡ ok a))
Result-cases (ok a) = inr (a, refl)
Result-cases (err e) = inl (e, refl)
