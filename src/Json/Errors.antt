-- ===== src/Json/Errors.antt =====
-- A value that does not fit its field: encoding/json goes on with the other entries, and reports it.
use runner_controller_micros.Base.{
  ◌≡◌, ◌≢◌, refl, ◌∙◌, String, Option, none, some, List, [], ◌∷◌, Bool-cases, inl, inr,
}
use Prim.Native.String.{compare}
use text.Mathlib.Text.{is_lt}
use runner_controller_micros.Service.World.{refused}
use runner_controller_micros.Json.Value.{Json}
use runner_controller_micros.Json.Keys.{insert_key, sorted}
use runner_controller_micros.Json.Order.{SameMap}
use runner_controller_micros.Json.Keeps.{from_json-SameMap}
use runner_controller_micros.Json.Reader.{Mismatch}
use runner_controller_micros.Json.Struct.{
  Field, find_field, reported, set_field, set_all, from_json, result,
}

some-ne-none : {A : Type 0} {a : A} → some a ≡ none → ⊥
some-ne-none h = cc

module _ {N R : Type 0} (struct : String) (fields : List (Field N R)) where
  -- An error is kept to the end.
  set_field_keeps_error :
      (j : Json N) (o : Option (Field N R)) (r : R × Option String)
      → r.1 ≢ none
      → (set_field struct fields j o r).1 ≢ none
  set_field_keeps_error j none (r, e) h = h
  set_field_keeps_error j (some f) (r, none) h = absurd (h refl)
  set_field_keeps_error j (some f) (r, some e) h = some-ne-none

  set_all_keeps_error :
      (m : List (String × Json N)) (r : R × Option String)
      → r.1 ≢ none
      → (set_all struct fields m r).1 ≢ none
  unfolding set_all
  set_all_keeps_error [] r h = h
  set_all_keeps_error ((key, j) ∷ m) r h =
      set_all_keeps_error m _ (set_field_keeps_error j (find_field key fields) r h)

  module _ (key : String) (j : Json N) (f : Field N R) (found : find_field key fields ≡ some f)
      (unfit : (r : R) → (f.set j r).1 ≢ none) where
    reported_error :
        (name : String) (e : Option String) (m : Option Mismatch)
        → m ≢ none
        → reported struct name e m ≢ none
    reported_error name (some e) m h = some-ne-none
    reported_error name none none h = absurd (h refl)
    reported_error name none (some m) h = some-ne-none

    set_field_fails :
        (r : R × Option String) → (set_field struct fields j (find_field key fields) r).1 ≢ none
    set_field_fails (r, e) = rw (found, set_field) (reported_error f.name e (f.set j r).1 (unfit r))

    insert_key_fails :
        (l : List (String × Json N)) (r : R × Option String)
        → (set_all struct fields (insert_key key j l) r).1 ≢ none
    unfolding set_all insert_key
    insert_key_fails [] r = set_field_fails r
    insert_key_fails ((k, v) ∷ l) r = elim (Bool-cases (is_lt (compare key k))) [
      | inl e ↦ rw e (set_all_keeps_error ((k, v) ∷ l) _ (set_field_fails r))
      | inr e ↦ rw e (insert_key_fails l _)
    ]

    -- An object with such an entry, wherever it stands, is refused.
    pub from_json-refused :
        {m rest : List (String × Json N)} (zero_value : R)
        → SameMap m ((key, j) ∷ rest)
        → (e : String) × (from_json struct fields zero_value (some m) ≡ refused e)
    from_json-refused {m} {rest} zero_value same =
        let (e, q) =
          go (set_all struct fields (insert_key key j (sorted rest)) (zero_value, none))
            (insert_key_fails (sorted rest) (zero_value, none)) in
        (e, from_json-SameMap struct fields zero_value same ∙ unfold from_json sorted in q)
      where
        go :
            (x : R × Option String)
            → x.1 ≢ none
            → (e : String) × (result struct fields x ≡ refused e)
        go (x, none) h = absurd (h refl)
        go (x, some e) h = (e, refl)
