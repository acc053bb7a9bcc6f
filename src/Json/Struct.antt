-- ===== src/Json/Struct.antt =====
-- `Unmarshal` of an object into a struct.
use runner_controller_micros.Base.{
  String, ◌<>◌, ◌==◌, Option, none, some, List, [], ◌∷◌, if◌then◌else◌,
}
use runner_controller_micros.Service.World.{Reply, given, refused, Data}
use runner_controller_micros.Json.Value.{Json}
use runner_controller_micros.Json.Keys.{sorted, fold}
use runner_controller_micros.Json.Reader.{Mismatch, Reader}

-- A field of the struct `R`, by the name in its tag.
pub record Field (N R : Type 0) : Type 0 where
  pub name : String
  pub set : Json N → R → R × Option Mismatch

abbrev pub field : {N A R : Type 0} → String → Reader N A → (R → A) → (A → R → R) → Field N R
field name read get put = record {
  name = name;
  set = λ j r. let (a, m) = read j (get r) in (put a r, m);
}

-- The error that is reported is the first one; the decoder goes on after it.
abbrev pub reported : String → String → Option String → Option Mismatch → Option String
reported struct name (some e) m = some e
reported struct name none none = none
reported struct name none (some (value, type)) = some (
    "json: cannot unmarshal "
    <> (value
        <> (" into Go struct field " <> (struct <> ("." <> (name <> (" of type " <> type)))))))

module _ {N R : Type 0} where
  unfoldable pub by_name : String → List (Field N R) → Option (Field N R)
  by_name key [] = none
  by_name key (f ∷ fs) = if f.name == key then some f else by_name key fs

  unfoldable pub by_fold : String → List (Field N R) → Option (Field N R)
  unfolding fold
  by_fold key [] = none
  by_fold key (f ∷ fs) = if fold f.name == fold key then some f else by_fold key fs

  unfoldable pub find_field : String → List (Field N R) → Option (Field N R)
  unfolding by_name by_fold
  find_field key fs = elim (by_name key fs) [ some f ↦ some f | none ↦ by_fold key fs ]

  module _ (struct : String) (fields : List (Field N R)) where
    abbrev pub set_field : Json N → Option (Field N R) → R × Option String → R × Option String
    set_field j none (r, e) = (r, e)
    set_field j (some f) (r, e) = let (r', m) = f.set j r in (r', reported struct f.name e m)

    unfoldable pub set_all : List (String × Json N) → R × Option String → R × Option String
    unfolding find_field
    set_all [] r = r
    set_all ((key, j) ∷ rest) r = set_all rest (set_field j (find_field key fields) r)

    abbrev pub result : R × Option String → Reply R
    result (r, none) = given r
    result (r, some e) = refused e

    -- A nil map is marshalled to `null`, which leaves the struct as it is.
    unfoldable pub from_json : R → Data (Json N) → Reply R
    unfolding set_all sorted
    from_json zero_value none = given zero_value
    from_json zero_value (some m) = result (set_all (sorted m) (zero_value, none))
