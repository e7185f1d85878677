-- ===== src/Base/Outcome.antt =====
-- A Go pair of a value and an error. What fails carries the text of its error.
use Prim.Native.String.{String}
use mathlib.Core.Logic.{◌⊎◌, inl, inr}
use mathlib.Core.Path.{◌≡◌, refl}

pub data Outcome {ℓ} (A : Type ℓ) : Type ℓ where
  fail : String → Outcome A
  ok : A → Outcome A

infixl 5 ◌>>=◌
abbrev pub ◌>>=◌ {ℓ κ} : {A : Type ℓ} {B : Type κ} → Outcome A → (A → Outcome B) → Outcome B
fail message >>= next = fail message
ok value >>= next = next value

infixl 5 ◌>>◌
abbrev pub ◌>>◌ {ℓ} : {B : Type ℓ} → Outcome (Unit {0}) → Outcome B → Outcome B
checked >> next = checked >>= λ _. next

-- Where a chain succeeds, so did its first step, and the rest on what that gave.
pub split_chain {ℓ κ} :
    {A : Type ℓ} {B : Type κ} (first : Outcome A) (next : A → Outcome B) {result : B}
    → (first >>= next) ≡ ok result
    → (value : A) × (first ≡ ok value) × (next value ≡ ok result)
split_chain (fail message) next e = cc
split_chain (ok value) next e = (value, refl, e)

pub Outcome-cases {ℓ} :
    {A : Type ℓ} (o : Outcome A) → ((m : String) × (o ≡ fail m)) ⊎ ((a : A) × (o ≡ ok a))
Outcome-cases (fail m) = inl (m, refl)
Outcome-cases (ok a) = inr (a, refl)
