-- ===== src/Sse/Payload/Ending.antt =====
-- Which payloads are the end of the log.
use runner_controller_micros.Base.Text.{translate}
use runner_controller_micros.Base.{
  ◌≡◌, refl, sym, ap, subst, ◌∙◌, inl, inr, String, ◌==◌, Bool, true, false, Bool-cases, ◌&&◌, ◌||◌,
  not, Option, none, some, List, [], ◌∷◌, if◌then◌else◌, eq_iff,
}
use runner_controller_micros.Json.Value.{Json, null, boolean, number, text, array, object}
use runner_controller_micros.Json.Keys.{fold}
use runner_controller_micros.Json.Reader.{read_string}
use runner_controller_micros.Json.Struct.{
  Field, field, set_field, set_all, by_name, by_fold, find_field, result,
}
use runner_controller_micros.Sse.Payload.{
  RedisLogPayload, redis_log_payload_fields, zero_payload, eof_status, unmarshal, is_eof, is_end,
}

abbrev is_none : {A : Type 0} → Option A → Bool
is_none none = true
is_none (some a) = false

-- A member is for a field if its key is the name, with the case left aside.
abbrev names : String → String → Bool
names name key = fold name == fold key

abbrev is_for_field : String → Bool
is_for_field key =
    names "stream" key || (names "line" key || (names "status" key || names "runId" key))

and_assoc : (a b c : Bool) → (a && b) && c ≡ a && (b && c)
and_assoc true b c = refl
and_assoc false b c = refl

took : {B : Type 0} {x y : RedisLogPayload} → B × (x ≡ y) → B × (x.status ≡ y.status)
took (b, e) = (b, ap (λ p. p.status) e)

ended :
    (N : Type 0) (x : RedisLogPayload × Option String)
    → is_eof (result "redisLogPayload" (redis_log_payload_fields {N = N}) x)
      ≡ is_none x.1 && (x.0.status == eof_status)
ended N (r, none) = refl
ended N (r, some e) = refl

none_left : {A : Type 0} (e : Option A) → is_none e ≡ is_none e && true
none_left none = refl
none_left (some e) = refl

module _ {N : Type 0} where
  -- A value that a text field takes.
  abbrev fits_text : Json N → Bool
  fits_text null = true
  fits_text (text s) = true
  fits_text j = false

  -- The text of a member, or what was there before.
  abbrev text_or : Json N → String → String
  text_or (text s) old = s
  text_or j old = old

  -- Every member that is for a field is a text, or null.
  pub all_fit : List (String × Json N) → Bool
  all_fit [] = true
  all_fit ((key, j) ∷ m) = (not (is_for_field key) || fits_text j) && all_fit m

  -- The last text named status, or what was there before.
  pub last_status : String → List (String × Json N) → String
  last_status old [] = old
  last_status old ((key, j) ∷ m) = last_status (if names "status" key then text_or j old else old) m

  abbrev payload_fields : List (Field N RedisLogPayload)
  payload_fields = redis_log_payload_fields

  abbrev set_one :
      String → Json N → RedisLogPayload × Option String → RedisLogPayload × Option String
  set_one key j = set_field "redisLogPayload" payload_fields j (find_field key payload_fields)

  -- A field with a text takes a text.
  text_field :
      (name : String) (get : RedisLogPayload → String)
      (put : String → RedisLogPayload → RedisLogPayload) (j : Json N) (r : RedisLogPayload)
      (e : Option String)
      → let x =
          set_field "redisLogPayload" payload_fields j
            (some (field name read_string get put))
            (r, e) in
        (is_none x.1 ≡ is_none e && fits_text j) × (x.0 ≡ put (text_or j (get r)) r)
  unfolding read_string
  text_field name get put null r none = (refl, refl)
  text_field name get put null r (some e) = (refl, refl)
  text_field name get put (boolean b) r none = (refl, refl)
  text_field name get put (boolean b) r (some e) = (refl, refl)
  text_field name get put (number x) r none = (refl, refl)
  text_field name get put (number x) r (some e) = (refl, refl)
  text_field name get put (text s) r none = (refl, refl)
  text_field name get put (text s) r (some e) = (refl, refl)
  text_field name get put (array xs) r none = (refl, refl)
  text_field name get put (array xs) r (some e) = (refl, refl)
  text_field name get put (object ms) r none = (refl, refl)
  text_field name get put (object ms) r (some e) = (refl, refl)

  find-none :
      (key : String)
      → by_name key payload_fields ≡ none
      → find_field key payload_fields ≡ by_fold key payload_fields
  unfolding find_field
  find-none key h = rw (h, find_field) refl

  -- A name is found with its case left aside, too.
  find-by_fold : (key : String) → find_field key payload_fields ≡ by_fold key payload_fields
  unfolding find_field by_name by_fold fold translate
  find-by_fold key = elim (Bool-cases ("stream" == key)) [
    | inl e ↦ rw (sym ((eq_iff "stream" key).0 e)) refl
    | inr a ↦ elim (Bool-cases ("line" == key)) [
      | inl e ↦ rw (sym ((eq_iff "line" key).0 e)) refl
      | inr b ↦ elim (Bool-cases ("status" == key)) [
        | inl e ↦ rw (sym ((eq_iff "status" key).0 e)) refl
        | inr c ↦ elim (Bool-cases ("runId" == key)) [
          | inl e ↦ rw (sym ((eq_iff "runId" key).0 e)) refl
          | inr d ↦ find-none key (rw (a, b, c, d) refl)
        ]
      ]
    ]
  ]

  -- One member: whether it fits, and what it makes of the status.
  abbrev One :
      String → Json N → RedisLogPayload × Option String → RedisLogPayload × Option String → Type 0
  One key j (r, e) (r', e') =
      (is_none e' ≡ is_none e && (not (is_for_field key) || fits_text j))
      × (r'.status ≡ (if names "status" key then text_or j r.status else r.status))

  by_fold-One :
      (key : String) (j : Json N) (r : RedisLogPayload) (e : Option String)
      → One key j
          (r, e)
          (set_field "redisLogPayload" payload_fields j (by_fold key payload_fields) (r, e))
  unfolding by_fold fold translate
  by_fold-One key j r e = elim (Bool-cases (names "stream" key)) [
    | inl h ↦
        rw (sym ((eq_iff (fold "stream") (fold key)).0 h))
          (took (text_field "stream" (λ r. r.stream) (λ x r. record r { stream = x }) j r e))
    | inr a ↦ elim (Bool-cases (names "line" key)) [
      | inl h ↦
          rw (sym ((eq_iff (fold "line") (fold key)).0 h))
            (took (text_field "line" (λ r. r.line) (λ x r. record r { line = x }) j r e))
      | inr b ↦ elim (Bool-cases (names "status" key)) [
        | inl h ↦
            rw (sym ((eq_iff (fold "status") (fold key)).0 h))
              (took (text_field "status" (λ r. r.status) (λ x r. record r { status = x }) j r e))
        | inr c ↦ elim (Bool-cases (names "runId" key)) [
          | inl h ↦
              rw (sym ((eq_iff (fold "runId") (fold key)).0 h))
                (took (text_field "runId" (λ r. r.run_id) (λ x r. record r { run_id = x }) j r e))
          | inr d ↦ rw (a, b, c, d) (none_left e, refl)
        ]
      ]
    ]
  ]

  set_all_lem :
      (m : List (String × Json N)) (r : RedisLogPayload) (e : Option String)
      → let x = set_all "redisLogPayload" payload_fields m (r, e) in
        (is_none x.1 ≡ is_none e && all_fit m) × (x.0.status ≡ last_status r.status m)
  unfolding set_all all_fit last_status
  set_all_lem [] r e = (none_left e, refl)
  set_all_lem ((key, j) ∷ m) r e =
      let x = set_one key j (r, e) in
      let (fit, status) =
        subst (λ o. One key j (r, e) (set_field "redisLogPayload" payload_fields j o (r, e)))
          (sym (find-by_fold key)) (by_fold-One key j r e) in
      let (fit_rest, status_rest) = set_all_lem m x.0 x.1 in
      (
        fit_rest
            ∙ ap (λ b. b && all_fit m) fit
            ∙ and_assoc (is_none e) (not (is_for_field key) || fits_text j) (all_fit m),
        status_rest ∙ ap (λ t. last_status t m) status,
      )

  -- A payload that is a JSON object is the end of the log exactly if every member whose key is the
  -- name of a field of redisLogPayload, with the case left aside, is a text or null, and the last text
  -- for the key status is EOF.
  pub is_end-object :
      (m : List (String × Json N))
      → is_end (some (some m)) ≡ all_fit m && (last_status "" m == eof_status)
  unfolding is_end unmarshal
  is_end-object m =
      let (fit, status) = set_all_lem m zero_payload none in
      ended N (set_all "redisLogPayload" payload_fields m (zero_payload, none))
      ∙ ap
          (λ b.
            b
            && ((set_all "redisLogPayload" payload_fields m (zero_payload, none)).0.status
                == eof_status))
          fit
      ∙ ap (λ t. all_fit m && (t == eof_status)) status
