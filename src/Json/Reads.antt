-- ===== src/Json/Reads.antt =====
-- Values that are read back: what the readers of encoding/json make of a text, a number and a list.
use runner_controller_micros.Base.{◌≡◌, refl, String, none, List, [], ◌∷◌}
use runner_controller_micros.Base.Int.{ℤ}
use runner_controller_micros.Base.Floats.{Floats}
use runner_controller_micros.Base.Decimal.{fmt_d}
use runner_controller_micros.Base.Decimal.Parsing.{IsInt64, parse_int-fmt_d}
use runner_controller_micros.Json.Value.{Json, number, text, array, Elements, nil, cons}
use runner_controller_micros.Json.Reader.{read_string, read_float, read_int, whole, read_slice}

abbrev pub elements : {N : Type 0} → List (Json N) → Elements N
elements [] = nil
elements (j ∷ js) = cons j (elements js)

abbrev pub floats : {N : Type 0} → List N → Elements N
floats [] = nil
floats (x ∷ xs) = cons (number x) (floats xs)

abbrev pub texts : {N : Type 0} → List String → Elements N
texts [] = nil
texts (s ∷ ss) = cons (text s) (texts ss)

module _ (F : Floats) where
  -- `x` is the number `n` as a JSON text has it, exactly.
  abbrev pub IsWhole : F.Float → ℤ → Type 0
  IsWhole x n = (F.json_text x ≡ fmt_d n) × IsInt64 n

  pub read_int-number :
      (x : F.Float) (n old : ℤ) → IsWhole x n → read_int F (number x) old ≡ (n, none)
  unfolding read_int whole
  read_int-number x n old w = rw w.0 (rw (parse_int-fmt_d n w.1) refl)

  pub read_slice-floats :
      (xs : List F.Float)
      → read_slice (read_float F) (F.lit 0) "float64" (array (floats xs)) [] ≡ (xs, none)
  unfolding read_slice read_float
  read_slice-floats [] = refl
  read_slice-floats (x ∷ xs) = rw (read_slice-floats xs) refl

pub read_slice-texts :
    (N : Type 0) (ss : List String)
    → read_slice (read_string {N = N}) "" "string" (array (texts ss)) [] ≡ (ss, none)
unfolding read_slice read_string
read_slice-texts N [] = refl
read_slice-texts N (s ∷ ss) = rw (read_slice-texts N ss) refl
