-- ===== src/Base/Text/Laws.antt =====
-- Laws of the text functions.
use Prim.Native.Nat.{ℕ, zero, suc, ◌+◌}
use Prim.Native.Char.{Char, code}
use Prim.Native.String.{String, ◌++◌ as ◌<>◌}
use mathlib.Core.Path.{◌≡◌, refl, sym, ap, ◌∙◌, subst}
use mathlib.Core.Bool.{true, false, false≢true}
use mathlib.Core.Option.{some}
use mathlib.Core.List.{List, [], ◌∷◌, ◌++◌}
use native.Mathlib.Omega.{arith}
use text.Mathlib.Text.{◌==◌}
use text.Mathlib.TextEquality.{eq_iff}
use text.Mathlib.TextPositions.{eq_refl}
use mathlib.Core.Logic.{◌≢◌, inl, inr}
use text.Mathlib.TextLemmas.{append_assoc, nil-append, cons-append, append-nil}
use runner_controller_micros.Base.Tests.{nat_eq, Bool-cases}
use runner_controller_micros.Base.Lists.{get_elem?, take, drop, take-append-drop, All}
use runner_controller_micros.Base.Text.{
  contains, join, concat, byte_length, drop_last, has_char, replace_all, Includes,
}

pub ruleset text_laws = (nil-append, append-nil, append_assoc)

pub concat-append : (xs ys : List String) → concat (xs ++ ys) ≡ concat xs <> concat ys
unfolding concat
concat-append [] ys = rw nil-append
concat-append (x ∷ xs) ys = rw (concat-append xs ys, append_assoc)

-- A piece of a concatenation stands in it.
pub concat-Includes :
    (n : ℕ) (xs : List String) {t : String} → get_elem? xs n ≡ some t → Includes (concat xs) t
unfolding concat
concat-Includes n [] h = cc
concat-Includes zero (x ∷ xs) {t} h = ("", concat xs, rw nil-append (cc))
concat-Includes (suc n) (x ∷ xs) {t} h =
    let (before, after, e) = concat-Includes n xs h in (x <> before, after, rw (e, append_assoc))

-- So does a run of pieces.
pub concat-Includes-run :
    (n k : ℕ) (xs : List String) → Includes (concat xs) (concat (take k (drop n xs)))
unfolding concat
concat-Includes-run zero k xs = (
  "",
  concat (drop k xs),
  rw nil-append (ap concat (sym (take-append-drop k xs)) ∙ concat-append (take k xs) (drop k xs)),
)
concat-Includes-run (suc n) zero [] = ("", "", refl)
concat-Includes-run (suc n) (suc k) [] = ("", "", refl)
concat-Includes-run (suc n) k (x ∷ xs) =
    let (before, after, e) = concat-Includes-run n k xs in
    (x <> before, after, rw (e, append_assoc))

pub Includes-trans : {s t : String} (u : String) → Includes s t → Includes t u → Includes s u
Includes-trans u (a, b, e) (c, d, f) = (a <> c, d <> b, simp (e, f, append_assoc))

pub Includes-append_right : (s t u : String) → Includes t u → Includes (s <> t) u
Includes-append_right s t u (a, b, e) = (s <> a, b, simp (e, append_assoc))

pub Includes-append_left : (s t u : String) → Includes s u → Includes (s <> t) u
Includes-append_left s t u (a, b, e) = (a, b <> t, simp (e, append_assoc))

pub Includes-refl : (s : String) → Includes s s
Includes-refl s = ("", "", simp (nil-append, append-nil))

pub replace_all-append :
    (s t : String) (c : Char) (new : String)
    → replace_all (s <> t) c new ≡ replace_all s c new <> replace_all t c new
unfolding replace_all
replace_all-append String.[] t c new = rw (nil-append t) (sym (nil-append (replace_all t c new)))
replace_all-append (String.◌∷◌ d s) t c new =
    rw (cons-append d s t) (elim (Bool-cases (nat_eq (code d) (code c))) [
      | inl e ↦ simp (e, replace_all-append s t c new, append_assoc)
      | inr e ↦ simp (e, replace_all-append s t c new, cons-append)
    ])

pub replace_all_absent :
    (s : String) (c : Char) (new : String) → has_char s c ≡ false → replace_all s c new ≡ s
unfolding replace_all has_char
replace_all_absent String.[] c new h = refl
replace_all_absent (String.◌∷◌ d s) c new h = ground (arith, replace_all_absent s c new)

-- An element of a joined list stands in the text.
pub join-Includes :
    (n : ℕ) (xs : List String) (sep : String) {t : String}
    → get_elem? xs n ≡ some t
    → Includes (join xs sep) t
unfolding join
join-Includes n [] sep h = cc
join-Includes zero (x ∷ []) sep {t} h = ("", "", simp (nil-append, append-nil) (cc))
join-Includes (suc n) (x ∷ []) sep h = cc
join-Includes zero (x ∷ y ∷ r) sep h = ("", sep <> join (y ∷ r) sep, rw nil-append (cc))
join-Includes (suc n) (x ∷ y ∷ r) sep h =
    let (before, after, e) = join-Includes n (y ∷ r) sep h in
    (x <> (sep <> before), after, simp (e, append_assoc))

pub byte_length-append : (s t : String) → byte_length (s <> t) ≡ byte_length s + byte_length t
unfolding byte_length
byte_length-append String.[] t = rw (nil-append t) (omega arith)
byte_length-append (String.◌∷◌ c s) t = rw (cons-append c s t, byte_length-append s t) (omega arith)

pub drop_last-append : (s : String) (c : Char) → drop_last (s <> String.◌∷◌ c "") ≡ s
unfolding drop_last
drop_last-append String.[] c = rw (nil-append (String.◌∷◌ c "")) refl
drop_last-append (String.◌∷◌ d String.[]) c =
    rw (cons-append d "" (String.◌∷◌ c "")) (rw (nil-append (String.◌∷◌ c "")) refl)
drop_last-append (String.◌∷◌ d (String.◌∷◌ e s)) c =
    let rest = drop_last-append (String.◌∷◌ e s) c in
    rw (cons-append d (String.◌∷◌ e s) (String.◌∷◌ c "")) (
      rw (cons-append e s (String.◌∷◌ c ""))
        (ap (String.◌∷◌ d) (ap drop_last (sym (cons-append e s (String.◌∷◌ c ""))) ∙ rest)))

pub contains_self : (x : String) (xs : List String) → contains (x ∷ xs) x ≡ true
unfolding contains
contains_self x xs = rw (eq_refl x)

-- What holds of every text of a list holds of a text that the list contains.
pub contains-All {ℓ} :
    (P : String → Type ℓ) (xs : List String) (x : String) → All P xs → contains xs x ≡ true → P x
unfolding contains
contains-All P [] x a h = absurd (false≢true h)
contains-All P (y ∷ ys) x a h = elim (Bool-cases (y == x)) [
  | inl e ↦ subst P ((eq_iff y x).0 e) a.0
  | inr e ↦ contains-All P ys x a.1 (rw e at h)
]

pub ne-eq : {s t : String} → s ≢ t → (s == t) ≡ false
ne-eq {s} {t} h = elim (Bool-cases (s == t)) [ inl e ↦ absurd (h ((eq_iff s t).0 e)) | inr e ↦ e ]
