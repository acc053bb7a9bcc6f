-- ===== src/Logger/Texts.antt =====
-- Texts that hold a character or do not, for the address of a client.
use Prim.Native.Char.{Char, code}
use runner_controller_micros.Base.{
  ℕ, ◌<>◌, String, true, false, ◌≡◌, ◌||◌, refl, sym, ap, ◌∙◌, inl, inr, nat_eq, Bool-cases, arith,
}
use mathlib.Core.Bool.{false≢true}
use text.Mathlib.TextLemmas.{cons-append, nil-append}
use runner_controller_micros.Base.Text.{has_char}
use runner_controller_micros.Logger.Client.{
  is_space, trim_left, keep, trim_right, before_first, after_first,
}

nat_eq_refl : (n : ℕ) → nat_eq n n ≡ true
nat_eq_refl n = ground arith

pub has_char-before_first : (c : Char) (s : String) → has_char (before_first c s) c ≡ false
unfolding has_char before_first
has_char-before_first c String.[] = refl
has_char-before_first c (String.◌∷◌ d s) = elim (Bool-cases (nat_eq (code d) (code c))) [
  | inl e ↦ rw e
  | inr e ↦ simp (e, has_char-before_first c s)
]

pub has_char-cons :
    (c d : Char) (s : String)
    → has_char (String.◌∷◌ d s) c ≡ false
    → (nat_eq (code d) (code c) ≡ false) × (has_char s c ≡ false)
unfolding has_char
has_char-cons c d s h = elim (Bool-cases (nat_eq (code d) (code c))) [
  | inl e ↦ absurd (false≢true (sym h ∙ ap (λ b. b || has_char s c) e))
  | inr e ↦ (e, sym (ap (λ b. b || has_char s c) e) ∙ h)
]

pub has_char-trim_left :
    (c : Char) (s : String) → has_char s c ≡ false → has_char (trim_left s) c ≡ false
unfolding trim_left
has_char-trim_left c String.[] h = h
has_char-trim_left c (String.◌∷◌ d s) h = elim (Bool-cases (is_space d)) [
  | inl e ↦ rw e (has_char-trim_left c s ((has_char-cons c d s h).1))
  | inr e ↦ rw e h
]

has_char-keep :
    (c d : Char) (s : String)
    → nat_eq (code d) (code c) ≡ false
    → has_char s c ≡ false
    → has_char (keep d s) c ≡ false
unfolding has_char keep
has_char-keep c d String.[] e h = elim (Bool-cases (is_space d)) [
  | inl g ↦ rw g
  | inr g ↦ simp (g, e)
]
has_char-keep c d (String.◌∷◌ a s) e h = simp (e, h)

pub has_char-trim_right :
    (c : Char) (s : String) → has_char s c ≡ false → has_char (trim_right s) c ≡ false
unfolding trim_right
has_char-trim_right c String.[] h = h
has_char-trim_right c (String.◌∷◌ d s) h =
    let (e, g) = has_char-cons c d s h in
    has_char-keep c d (trim_right s) e (has_char-trim_right c s g)

pub has_char-append :
    (s t : String) (c : Char) → has_char (s <> t) c ≡ (has_char s c || has_char t c)
unfolding has_char
has_char-append String.[] t c = rw (nil-append t) refl
has_char-append (String.◌∷◌ d s) t c =
    rw (cons-append d s t, has_char-append s t c)
      (elim (Bool-cases (nat_eq (code d) (code c))) [ inl e ↦ rw e refl | inr e ↦ rw e refl ])

pub before_first-append :
    (c : Char) (s t : String) → has_char s c ≡ false → before_first c (s <> String.◌∷◌ c t) ≡ s
unfolding before_first
before_first-append c String.[] t h = rw (nil-append (String.◌∷◌ c t), nat_eq_refl (code c)) refl
before_first-append c (String.◌∷◌ d s) t h =
    let (e, g) = has_char-cons c d s h in
    rw (cons-append d s (String.◌∷◌ c t), e) (ap (String.◌∷◌ d) (before_first-append c s t g))

pub after_first-append :
    (c : Char) (s t : String) → has_char s c ≡ false → after_first c (s <> String.◌∷◌ c t) ≡ t
unfolding after_first
after_first-append c String.[] t h = rw (nil-append (String.◌∷◌ c t), nat_eq_refl (code c)) refl
after_first-append c (String.◌∷◌ d s) t h =
    let (e, g) = has_char-cons c d s h in
    rw (cons-append d s (String.◌∷◌ c t), e) (after_first-append c s t g)

pub has_char-separator : (c : Char) (s t : String) → has_char (s <> String.◌∷◌ c t) c ≡ true
unfolding has_char
has_char-separator c String.[] t = rw (nil-append (String.◌∷◌ c t), nat_eq_refl (code c)) refl
has_char-separator c (String.◌∷◌ d s) t =
    rw (cons-append d s (String.◌∷◌ c t), has_char-separator c s t)
      (elim (Bool-cases (nat_eq (code d) (code c))) [ inl e ↦ rw e refl | inr e ↦ rw e refl ])

pub char-append : (c : Char) (s : String) → String.◌∷◌ c "" <> s ≡ String.◌∷◌ c s
char-append c s = rw (cons-append c "" s, nil-append s) refl
