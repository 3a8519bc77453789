-- ===== src/Prelude/Result.antt =====
-- Fallible code: a value, or the exception that was raised.
use mathlib.Core.Path.{◌≡◌, refl}
use mathlib.Core.Bool.{Bool}
use mathlib.Core.Logic.{◌⊎◌, inl, inr}
use synora_agentic_erp.Prelude.Tests.{if◌then◌else◌}

pub data Result (E A : Type 0) : Type 0 where
  err : E → Result E A
  ok : A → Result E A

-- The rest of a block runs on the value; an exception passes by it.
infixl 10 ◌>>=◌ ◌>>◌
abbrev pub ◌>>=◌ : {E A B : Type 0} → Result E A → (A → Result E B) → Result E B
◌>>=◌ m rest = elim m [ err raised ↦ err raised | ok value ↦ rest value ]

abbrev pub ◌>>◌ : {E B : Type 0} → Result E (Unit {0}) → Result E B → Result E B
◌>>◌ check rest = elim check [ err raised ↦ err raised | ok _ ↦ rest ]

-- if not test: raise raised
abbrev pub guard : {E : Type 0} → Bool → E → Result E (Unit {0})
guard test raised = if test then ok tt else err raised

-- if test: raise raised
abbrev pub reject : {E : Type 0} → Bool → E → Result E (Unit {0})
reject test raised = if test then err raised else ok tt

pub Result-cases :
    {E A : Type 0} (r : Result E A) → ((a : A) × (r ≡ ok a)) ⊎ ((e : E) × (r ≡ err e))
Result-cases (err e) = inr (e, refl)
Result-cases (ok a) = inl (a, refl)
