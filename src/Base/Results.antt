-- ===== src/Base/Results.antt =====
-- Fallible code: `ok`, or the `ApiException` that is thrown.
use mathlib.Core.Path.{◌≡◌, refl}
use mathlib.Core.Logic.{◌⊎◌, inl, inr}
use mathlib.Core.Bool.{Bool, true, false}
use local_cast.Contract.Errors.{ApiException}

pub data Result {ℓ} (A : Type ℓ) : Type ℓ where
  err : ApiException → Result A
  ok : A → Result A

-- Whether it is the one or the other.
pub Result-cases {ℓ} :
    {A : Type ℓ} (m : Result A) → ((e : ApiException) × (m ≡ err e)) ⊎ ((a : A) × (m ≡ ok a))
Result-cases (ok a) = inr (a, refl)
Result-cases (err e) = inl (e, refl)

-- `if (test) throw e`
abbrev pub throw_if : Bool → ApiException → Result (Unit {0})
throw_if test e = elim test [ true ↦ err e | false ↦ ok tt ]

-- A statement behind another one, which an exception skips.
infixl 5 ◌>>=◌ ◌>>◌
abbrev pub ◌>>=◌ {ℓ κ} : {A : Type ℓ} {B : Type κ} → Result A → (A → Result B) → Result B
err e >>= next = err e
ok a >>= next = next a

abbrev pub ◌>>◌ {ℓ} : {B : Type ℓ} → Result (Unit {0}) → Result B → Result B
err e >> rest = err e
ok _ >> rest = rest
