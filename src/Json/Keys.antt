-- ===== src/Json/Keys.antt =====
-- Keys: `Marshal` writes the entries of a map in the order of the keys, `Unmarshal` finds the field
-- of a key by its name, or else by its name with the case left aside.
use Prim.Native.String.{compare}
use text.Mathlib.Text.{is_lt}
use runner_controller_micros.Base.{String, List, [], ◌∷◌, if◌then◌else◌}
use runner_controller_micros.Base.Text.{translate}

unfoldable pub insert_key : {V : Type 0} → String → V → List (String × V) → List (String × V)
insert_key k v [] = (k, v) ∷ []
insert_key k v ((k', v') ∷ rest) =
    let others = insert_key k v rest in
    if is_lt (compare k k') then (k, v) ∷ (k', v') ∷ rest else (k', v') ∷ others

-- The order in which `Marshal` writes the entries of a map.
unfoldable pub sorted : {V : Type 0} → List (String × V) → List (String × V)
unfolding insert_key
sorted [] = []
sorted ((k, v) ∷ rest) = insert_key k v (sorted rest)

-- Letters of one case for the comparison: besides a to z, the long s and the Kelvin sign are those
-- that have an ASCII letter for another case. Others are no part of a field's name.
unfoldable pub fold : String → String
unfolding translate
fold String.[] = ""
fold (String.◌∷◌ c s) =
    String.◌∷◌ (translate "abcdefghijklmnopqrstuvwxyzſK" "ABCDEFGHIJKLMNOPQRSTUVWXYZSK" c) (fold s)
