-- ===== src/Json/Order.antt =====
-- The order of the keys: the entries of a map, in whatever order they are listed, are written alike.
use Prim.Native.Nat.{ℕ, Ordering}
use Prim.Native.Nat as Nat
use Prim.Native.Char.{code}
use Prim.Native.String.{String, compare, then as lex}
use Prim.Native.String.compare
use mathlib.Core.Bool.{Bool, true, false, not, false≢true}
use mathlib.Core.List.{List, [], ◌∷◌}
use mathlib.Core.Path.{◌≡◌, refl, sym, ap, ◌∙◌}
use mathlib.Core.Logic.{◌≢◌, ◌⊎◌, inl, inr}
use native.Mathlib.Omega.{arith}
use text.Mathlib.Text.{is_lt}
use text.Mathlib.TextEquality.{path_by_compare}
use runner_controller_micros.Base.{Bool-cases}
use runner_controller_micros.Json.Keys.{insert_key, sorted}

abbrev flip : Ordering → Ordering
flip Ordering.lt = Ordering.gt
flip Ordering.eq = Ordering.eq
flip Ordering.gt = Ordering.lt

flip-compare : (m n : ℕ) → Nat.compare n m ≡ flip (Nat.compare m n)
flip-compare m n = ground arith

flip-lex : (a b : Ordering) → lex (flip a) (flip b) ≡ flip (lex a b)
flip-lex Ordering.lt b = refl
flip-lex Ordering.eq b = refl
flip-lex Ordering.gt b = refl

compare-flip : (s t : String) → compare t s ≡ flip (compare s t)
compare-flip String.[] String.[] = refl
compare-flip String.[] (String.◌∷◌ d t) =
    compare.cons-nil d t ∙ ap flip (sym (compare.nil-cons d t))
compare-flip (String.◌∷◌ c s) String.[] =
    compare.nil-cons c s ∙ ap flip (sym (compare.cons-nil c s))
compare-flip (String.◌∷◌ c s) (String.◌∷◌ d t) =
    compare.cons-cons d c t s
    ∙ rw (flip-compare (code c) (code d), compare-flip s t)
        (flip-lex (Nat.compare (code c) (code d)) (compare s t))
    ∙ ap flip (sym (compare.cons-cons c d s t))

-- Of two keys that differ, one comes first.
abbrev before : String → String → Bool
before s t = is_lt (compare s t)

flip-lt : (o : Ordering) → o ≢ Ordering.eq → is_lt (flip o) ≡ not (is_lt o)
flip-lt Ordering.lt h = refl
flip-lt Ordering.eq h = absurd (h refl)
flip-lt Ordering.gt h = refl

before-flip : (s t : String) → s ≢ t → before t s ≡ not (before s t)
before-flip s t h = rw (compare-flip s t) (flip-lt (compare s t) (λ e. h (path_by_compare s t e)))

lex_lem :
    (a c b : ℕ) (p q r : Ordering)
    → (is_lt p ≡ true → is_lt q ≡ false → is_lt r ≡ true)
    → is_lt (lex (Nat.compare a c) p) ≡ true
    → is_lt (lex (Nat.compare b c) q) ≡ false
    → is_lt (lex (Nat.compare a b) r) ≡ true
lex_lem a c b p q r ih h k = ground arith

-- If `s` comes before `u` and `t` does not, then `s` comes before `t`.
before_trans : (s t u : String) → before s u ≡ true → before t u ≡ false → before s t ≡ true
before_trans String.[] t String.[] h k = absurd (false≢true h)
before_trans (String.◌∷◌ c s) t String.[] h k = absurd (false≢true (rw (compare.cons-nil c s) at h))
before_trans s String.[] (String.◌∷◌ e u) h k =
    absurd (false≢true (sym (rw (compare.nil-cons e u) at k)))
before_trans String.[] (String.◌∷◌ d t) (String.◌∷◌ e u) h k = rw (compare.nil-cons d t)
before_trans (String.◌∷◌ c s) (String.◌∷◌ d t) (String.◌∷◌ e u) h k =
    rw (compare.cons-cons c d s t) (
      lex_lem (code c) (code e) (code d) (compare s u) (compare t u) (compare s t)
        (before_trans s t u) (rw (compare.cons-cons c e s u) at h)
        (rw (compare.cons-cons d e t u) at k))

-- Which of two keys that differ comes first.
before-cases :
    (j k : String)
    → j ≢ k
    → ((before j k ≡ true) × (before k j ≡ false)) ⊎ ((before j k ≡ false) × (before k j ≡ true))
before-cases j k h = elim (Bool-cases (before j k)) [
  | inl e ↦ inl (e, before-flip j k h ∙ ap not e)
  | inr e ↦ inr (e, before-flip j k h ∙ ap not e)
]

insert_comm :
    {V : Type 0} (j k : String) (v w : V) (l : List (String × V))
    → j ≢ k
    → insert_key j v (insert_key k w l) ≡ insert_key k w (insert_key j v l)
unfolding insert_key
insert_comm j k v w [] h = elim (before-cases j k h) [
  | inl (e, f) ↦ rw (e, f) refl
  | inr (e, f) ↦ rw (e, f) refl
]
insert_comm j k v w ((i, x) ∷ l) h = elim (Bool-cases (before j i)) [
  | inl a ↦ elim (Bool-cases (before k i)) [
    | inl b ↦ elim (before-cases j k h) [
      | inl (e, f) ↦ simp (a, b, e, f)
      | inr (e, f) ↦ simp (a, b, e, f)
    ]
    | inr b ↦ let e = before_trans j k i a b in simp (a, b, before-flip j k h, e)
  ]
  | inr a ↦ elim (Bool-cases (before k i)) [
    | inl b ↦ let e = before_trans k j i b a in simp (a, b, before-flip k j (λ q. h (sym q)), e)
    | inr b ↦ simp (a, b, insert_comm j k v w l h)
  ]
]

-- Two listings of one map: the same entries, each key once, in any two orders.
pub data SameMap {V : Type 0} : List (String × V) → List (String × V) → Type 0 where
  done : SameMap [] []
  keep :
      {m n : List (String × V)} (k : String) (v : V)
      → SameMap m n
      → SameMap ((k, v) ∷ m) ((k, v) ∷ n)
  swap :
      {m : List (String × V)} (j k : String) (v w : V)
      → j ≢ k
      → SameMap ((j, v) ∷ (k, w) ∷ m) ((k, w) ∷ (j, v) ∷ m)
  chain : {l m n : List (String × V)} → SameMap l m → SameMap m n → SameMap l n

pub sorted-SameMap : {V : Type 0} {m n : List (String × V)} → SameMap m n → sorted m ≡ sorted n
unfolding sorted
sorted-SameMap done = refl
sorted-SameMap (keep k v s) = ap (insert_key k v) (sorted-SameMap s)
sorted-SameMap (swap {m} j k v w h) = insert_comm j k v w (sorted m) h
sorted-SameMap (chain s t) = sorted-SameMap s ∙ sorted-SameMap t
