-- ===== src/Json/Reader.antt =====
-- `Unmarshal` of one value: a reader gives the new value for the one that was there, and a mismatch,
-- what the value is and which type was wanted, if it does not fit.
use runner_controller_micros.Base.{String, ◌<>◌, Option, none, some, List, [], ◌∷◌}
use runner_controller_micros.Base.Int.{ℤ}
use runner_controller_micros.Base.Floats.{Floats}
use runner_controller_micros.Base.Decimal.Parsing.{parse_int}
use runner_controller_micros.Json.Value.{Json, null, number, text, array, Elements, nil, cons, kind}

abbrev pub Mismatch : Type 0
Mismatch = String × String

abbrev pub Reader : Type 0 → Type 0 → Type 0
Reader N A = Json N → A → A × Option Mismatch

abbrev pub unfit : {N A : Type 0} → String → Json N → A → A × Option Mismatch
unfit type j old = (old, some (kind j, type))

abbrev pub first_mismatch : Option Mismatch → Option Mismatch → Option Mismatch
first_mismatch none later = later
first_mismatch (some m) later = some m

unfoldable pub read_string : {N : Type 0} → Reader N String
read_string null old = (old, none)
read_string (text s) old = (s, none)
read_string j old = unfit "string" j old

module _ (F : Floats) where
  unfoldable pub read_float : Reader F.Float F.Float
  read_float null old = (old, none)
  read_float (number x) old = (x, none)
  read_float j old = unfit "float64" j old

  unfoldable pub whole : String → ℤ → Option ℤ → ℤ × Option Mismatch
  whole s old none = (old, some ("number " <> s, "int"))
  whole s old (some n) = (n, none)

  -- The text of the number must be that of an int of 64 bits.
  unfoldable pub read_int : Reader F.Float ℤ
  unfolding whole
  read_int null old = (old, none)
  read_int (number x) old = whole (F.json_text x) old (parse_int (F.json_text x))
  read_int j old = unfit "int" j old

module _ {N A : Type 0} (read : Reader N A) (zero_value : A) (type : String) where
  abbrev consed : A × Option Mismatch → List A × Option Mismatch → List A × Option Mismatch
  consed (a, m) (rest, m') = (a ∷ rest, first_mismatch m m')

  -- An element is read over the one that the slice has in its place, as far as there is one.
  unfoldable pub read_elements : Elements N → List A → List A × Option Mismatch
  read_elements nil old = ([], none)
  read_elements (cons j js) [] = consed (read j zero_value) (read_elements js [])
  read_elements (cons j js) (o ∷ old) = consed (read j o) (read_elements js old)

  -- A slice, of which `null` leaves nothing.
  unfoldable pub read_slice : Reader N (List A)
  unfolding read_elements
  read_slice null old = ([], none)
  read_slice (array js) old = read_elements js old
  read_slice j old = unfit ("[]" <> type) j old
