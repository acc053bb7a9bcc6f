-- ===== src/Base/Outcome.antt =====
-- What a Go function that returns a value and an error may do: return the value, return the error,
-- of which callers read the text only, or panic.
use Prim.Native.String.{String}
use mathlib.Core.Path.{◌≡◌}

pub data Outcome {ℓ} (A : Type ℓ) : Type ℓ where
  ok : A → Outcome A
  err : String → Outcome A
  panic : Outcome A

pub ok-injective {ℓ} : {A : Type ℓ} {a b : A} → ok a ≡ ok b → a ≡ b
ok-injective h = cc

pub err-ne-ok {ℓ} : {A : Type ℓ} {a : A} {e : String} → err e ≡ ok a → ⊥
err-ne-ok h = cc
