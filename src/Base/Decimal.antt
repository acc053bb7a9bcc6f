-- ===== src/Base/Decimal.antt =====
-- The verb `%d` of Go's `fmt`: an integer in decimal.
pub mod Parsing
use Prim.Native.Nat.{ℕ, zero, suc, ◌+◌, ◌/◌, ◌%◌, ◌<◌}
use Prim.Native.String.{String, ◌++◌ as ◌<>◌, slice}
use mathlib.Core.Path.{◌≡◌, refl}
use native.Mathlib.Omega.{arith}
use runner_controller_micros.Base.Tests.{if◌then◌else◌, ltb}
use runner_controller_micros.Base.Int.{ℤ, pos, negsuc}

digit : ℕ → String
digit n = slice "0123456789" n (n + 1)

-- The digits of `n`, on fuel.
pub digits : ℕ → ℕ → String
digits zero n = ""
digits (suc fuel) n =
    let front = digits fuel (n / 10) in if ltb n 10 then digit n else front <> digit (n % 10)

unfoldable pub fmt_d : ℤ → String
unfolding digits digit
fmt_d (pos n) = digits (suc n) n
fmt_d (negsuc n) = "-" <> digits (suc (suc n)) (suc n)

-- More fuel than the number adds nothing: `fmt_d` never runs out of it.
pub digits_fuel : (f g n : ℕ) → n < f → n < g → digits f n ≡ digits g n
unfolding digits
digits_fuel zero g n h k = elim h [ ]
digits_fuel (suc f) zero n h k = elim k [ ]
digits_fuel (suc f) (suc g) n h k = ground (arith, digits_fuel f g (n / 10))

fmt_d_example : fmt_d (negsuc 1023) ≡ "-1024"
unfolding fmt_d
fmt_d_example = refl
