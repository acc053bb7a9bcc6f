-- ===== src/Base/Floats.antt =====
-- Go's `float64` as a parameter: the type, the operations that the service uses and what it relies
-- on. `fmt_f` is the verb `%f`, `fmt_v` the verb `%v`, `to_int` the conversion `int(x)`, `ge` the
-- comparison `x >= y`, `lit` a literal, `json_text` what encoding/json prints.
use Prim.Native.Nat.{ℕ}
use Prim.Native.String.{String, ◌++◌ as ◌<>◌}
use mathlib.Core.Path.{◌≡◌}
use mathlib.Core.Bool.{Bool, false}
use mathlib.Core.List.{List, map}
use runner_controller_micros.Base.Int.{ℤ}
use runner_controller_micros.Base.Text.{join, has_char}

pub record Floats : Type 1 where
  pub Float : Type 0
  pub lit : ℕ → Float
  pub ge : Float → Float → Bool
  pub to_int : Float → ℤ
  pub fmt_f : Float → String
  pub fmt_v : Float → String
  pub json_text : Float → String

-- `%f` prints digits, a sign and a point, or `NaN` or `Inf`; 1 is less than 5.
pub record IsLawful (F : Floats) : Type 0 where
  pub fmt_f-no_open : (x : F.Float) → has_char (F.fmt_f x) "[" ≡ false
  pub fmt_f-no_close : (x : F.Float) → has_char (F.fmt_f x) "]" ≡ false
  pub one_below_five : F.ge (F.lit 1) (F.lit 5) ≡ false

-- `fmt.Sprintf("%f", xs)` for a slice: the elements in brackets, with spaces between.
unfoldable pub fmt_f_slice : (F : Floats) → List F.Float → String
fmt_f_slice F xs = "[" <> (join (map F.fmt_f xs) " " <> "]")
