-- ===== src/Base/Decimal/Parsing.antt =====
-- `strconv.ParseInt(s, 10, 64)`, which encoding/json reads a number into an int with.
use Prim.Native.Nat.{ℕ, zero, suc, ◌+◌, ◌-◌, ◌*◌, ◌/◌, ◌%◌, ◌≤◌, ◌<◌}
use Prim.Native.Char.{Char, code}
use Prim.Native.String.{String, ◌++◌ as ◌<>◌}
use mathlib.Core.Path.{◌≡◌, refl, sym, ap, ◌∙◌}
use mathlib.Core.Logic.{◌≢◌, inl, inr}
use mathlib.Core.Bool.{Bool, true, false, ◌&&◌}
use mathlib.Core.Option.{Option, none, some}
use native.Mathlib.Omega.{arith}
use text.Mathlib.TextLemmas.{nil-append, cons-append, cons-ne-nil}
use runner_controller_micros.Base.Tests.{
  if◌then◌else◌, ltb, leb, nat_eq, Bool-cases, ltb→lt, ltb-false→le,
}
use runner_controller_micros.Base.Int.{ℤ, pos, negsuc}
use runner_controller_micros.Base.Decimal.{digit, digits, fmt_d}

abbrev pub int_limit : ℕ
int_limit = 9223372036854775808

-- An int of 64 bits.
abbrev pub IsInt64 : ℤ → Type 0
IsInt64 (pos n) = n < int_limit
IsInt64 (negsuc n) = n < int_limit

abbrev is_digit : ℕ → Bool
is_digit c = leb b'0' c && leb c b'9'

-- The digits of `s` behind those that make up `acc`.
unfoldable pub digits_value : ℕ → String → Option ℕ
digits_value acc String.[] = some acc
digits_value acc (String.◌∷◌ c s) =
    let rest = digits_value (acc * 10 + (code c - b'0')) s in
    if is_digit (code c) then rest else none

abbrev negated : ℕ → ℤ
negated zero = pos 0
negated (suc n) = negsuc n

unfoldable pub positive : Option ℕ → Option ℤ
positive none = none
positive (some n) = if ltb n int_limit then some (pos n) else none

unfoldable pub negative : Option ℕ → Option ℤ
negative none = none
negative (some n) = if leb n int_limit then some (negated n) else none

-- The digits behind a sign: at least one.
unfoldable pub magnitude : String → Option ℕ
magnitude String.[] = none
magnitude (String.◌∷◌ c s) = digits_value 0 (String.◌∷◌ c s)

-- `none` is an error, of the syntax or of the range.
unfoldable pub parse_int : String → Option ℤ
unfolding positive negative
parse_int String.[] = none
parse_int (String.◌∷◌ c s) =
    if nat_eq (code c) b'-'
    then negative (magnitude s)
    else if nat_eq (code c) b'+'
    then positive (magnitude s)
    else positive (magnitude (String.◌∷◌ c s))

some-injective : {m n : ℕ} → some m ≡ some n → m ≡ n
some-injective h = cc

none-ne-some : {n : ℕ} → none ≡ some n → ⊥
none-ne-some h = cc

digits_value-append :
    (acc n : ℕ) (s t : String)
    → digits_value acc s ≡ some n
    → digits_value acc (s <> t) ≡ digits_value n t
unfolding digits_value
digits_value-append acc n String.[] t h =
    rw (nil-append t) (ap (λ m. digits_value m t) (some-injective h))
digits_value-append acc n (String.◌∷◌ c s) t h =
    rw (cons-append c s t) (elim (Bool-cases (is_digit (code c))) [
      | inl e ↦ rw e (digits_value-append (acc * 10 + (code c - b'0')) n s t (rw e at h))
      | inr e ↦ absurd (none-ne-some (rw e at h))
    ])

digits_value-digit : (acc d : ℕ) → d < 10 → digits_value acc (digit d) ≡ some (acc * 10 + d)
unfolding digits_value digit
digits_value-digit acc zero h = refl
digits_value-digit acc (suc zero) h = refl
digits_value-digit acc (suc (suc zero)) h = refl
digits_value-digit acc (suc (suc (suc zero))) h = refl
digits_value-digit acc (suc (suc (suc (suc zero)))) h = refl
digits_value-digit acc (suc (suc (suc (suc (suc zero))))) h = refl
digits_value-digit acc (suc (suc (suc (suc (suc (suc zero)))))) h = refl
digits_value-digit acc (suc (suc (suc (suc (suc (suc (suc zero))))))) h = refl
digits_value-digit acc (suc (suc (suc (suc (suc (suc (suc (suc zero)))))))) h = refl
digits_value-digit acc (suc (suc (suc (suc (suc (suc (suc (suc (suc zero))))))))) h = refl
digits_value-digit acc (suc (suc (suc (suc (suc (suc (suc (suc (suc (suc d)))))))))) h =
    absurd (omega arith)

smaller : (f n : ℕ) → n < suc f → 10 ≤ n → n / 10 < f
smaller f n h k = omega arith

digits_value-digits : (f n : ℕ) → n < f → digits_value 0 (digits f n) ≡ some n
unfolding digits
digits_value-digits zero n h = elim h [ ]
digits_value-digits (suc f) n h = elim (Bool-cases (ltb n 10)) [
  | inl e ↦ rw e (digits_value-digit 0 n (ltb→lt n 10 e) ∙ ap some (omega arith))
  | inr e ↦ rw e (
      digits_value-append 0 (n / 10) (digits f (n / 10)) (digit (n % 10))
        (digits_value-digits f (n / 10) (smaller f n h (ltb-false→le n 10 e)))
      ∙ digits_value-digit (n / 10) (n % 10) (omega arith)
      ∙ ap some (omega arith))
]

append-ne-nil : (s t : String) → t ≢ "" → s <> t ≢ ""
append-ne-nil String.[] t h = rw (nil-append t) h
append-ne-nil (String.◌∷◌ c s) t h = λ e. cons-ne-nil c (s <> t) (sym (cons-append c s t) ∙ e)

digit-ne-nil : (d : ℕ) → d < 10 → digit d ≢ ""
unfolding digits_value
digit-ne-nil d h e =
    differ (some-injective (ap (digits_value 1) (sym e) ∙ digits_value-digit 1 d h))
  where
    differ : 1 ≡ 1 * 10 + d → ⊥
    differ k = omega arith

digits-ne-nil : (f n : ℕ) → digits (suc f) n ≢ ""
unfolding digits
digits-ne-nil f n = elim (Bool-cases (ltb n 10)) [
  | inl e ↦ rw e (digit-ne-nil n (ltb→lt n 10 e))
  | inr e ↦
      rw e
        (append-ne-nil (digits f (n / 10)) (digit (n % 10)) (digit-ne-nil (n % 10) (omega arith)))
]

magnitude_lem : (s : String) → s ≢ "" → magnitude s ≡ digits_value 0 s
unfolding magnitude
magnitude_lem String.[] h = absurd (h refl)
magnitude_lem (String.◌∷◌ c s) h = refl

not_sign : (c : ℕ) → is_digit c ≡ true → (nat_eq c b'-' ≡ false) × (nat_eq c b'+' ≡ false)
not_sign c h = (ground arith, ground arith)

is_digit_first :
    (c : Char) (s : String) (n : ℕ)
    → digits_value 0 (String.◌∷◌ c s) ≡ some n
    → is_digit (code c) ≡ true
unfolding digits_value
is_digit_first c s n h = elim (Bool-cases (is_digit (code c))) [
  | inl e ↦ e
  | inr e ↦ absurd (none-ne-some (rw e at h))
]

-- A text of digits has no sign.
parse_int-digits :
    (s : String) (n : ℕ) → s ≢ "" → digits_value 0 s ≡ some n → parse_int s ≡ positive (some n)
unfolding parse_int magnitude
parse_int-digits String.[] n h e = absurd (h refl)
parse_int-digits (String.◌∷◌ c s) n h e =
    let (minus, plus) = not_sign (code c) (is_digit_first c s n e) in
    rw (minus, plus) (ap positive e)

parse_int-minus : (s : String) → parse_int ("-" <> s) ≡ negative (magnitude s)
unfolding parse_int
parse_int-minus s = rw (cons-append "-" "" s, nil-append s) refl

positive_lem : (n : ℕ) → n < int_limit → positive (some n) ≡ some (pos n)
unfolding positive
positive_lem n h = ground arith

negative_lem : (n : ℕ) → n < int_limit → negative (some (suc n)) ≡ some (negsuc n)
unfolding negative
negative_lem n h = ground arith

-- An int of 64 bits is read as it is printed.
pub parse_int-fmt_d : (n : ℤ) → IsInt64 n → parse_int (fmt_d n) ≡ some n
unfolding fmt_d
parse_int-fmt_d (pos n) h =
    parse_int-digits (digits (suc n) n) n (digits-ne-nil n n)
      (digits_value-digits (suc n) n (omega arith))
    ∙ positive_lem n h
parse_int-fmt_d (negsuc n) h =
    parse_int-minus (digits (suc (suc n)) (suc n))
    ∙ ap negative (
        magnitude_lem _ (digits-ne-nil (suc n) (suc n))
        ∙ digits_value-digits (suc (suc n)) (suc n) (omega arith))
    ∙ negative_lem n h
