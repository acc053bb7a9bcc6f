-- ===== src/Json/Keeps.antt =====
-- What holds of every struct that encoding/json decodes.
use runner_controller_micros.Base.{◌≡◌, ap, String, none, some, List}
use runner_controller_micros.Service.World.{given, refused}
use runner_controller_micros.Json.Value.{Json}
use runner_controller_micros.Json.Order.{SameMap, sorted-SameMap}
use runner_controller_micros.Json.Struct.{Field, set_all, from_json, result}

pub given-injective : {R : Type 0} {a b : R} → given a ≡ given b → a ≡ b
given-injective h = cc

pub refused-ne-given : {R : Type 0} {e : String} {a : R} → refused e ≡ given a → ⊥
refused-ne-given h = cc

module _ {N R : Type 0} (struct : String) (fields : List (Field N R)) (zero_value : R) where
  -- Go visits the entries of a map in any order; what is decoded does not depend on it.
  pub from_json-SameMap :
      {m n : List (String × Json N)}
      → SameMap m n
      → from_json struct fields zero_value (some m) ≡ from_json struct fields zero_value (some n)
  unfolding from_json
  from_json-SameMap same =
      ap (λ l. result struct fields (set_all struct fields l (zero_value, none)))
        (sorted-SameMap same)
