-- ===== src/Base/Text.antt =====
-- The functions of Go's packages `strings` and `slices` that the service calls, over `String`.
pub mod Laws
use Prim.Native.Nat.{ℕ, ◌+◌}
use Prim.Native.Char.{Char, code, len_utf8}
use Prim.Native.String.{String, ◌++◌ as ◌<>◌}
use mathlib.Core.Path.{◌≡◌}
use mathlib.Core.Bool.{Bool, false, ◌||◌}
use mathlib.Core.List.{List, [], ◌∷◌}
use text.Mathlib.Text.{◌==◌}
use runner_controller_micros.Base.Tests.{if◌then◌else◌, nat_eq}

-- `slices.Contains(xs, x)`
unfoldable pub contains : List String → String → Bool
contains [] x = false
contains (y ∷ ys) x = y == x || contains ys x

-- `strings.Join(elems, sep)`
unfoldable pub join : List String → String → String
join [] sep = ""
join (s ∷ []) sep = s
join (s ∷ t ∷ rest) sep = s <> (sep <> join (t ∷ rest) sep)

-- What a run of statements `code += s` builds up, the pieces in their order.
unfoldable pub concat : List String → String
concat [] = ""
concat (s ∷ rest) = s <> concat rest

unfoldable pub has_char : String → Char → Bool
has_char String.[] c = false
has_char (String.◌∷◌ d t) c = nat_eq (code d) (code c) || has_char t c

-- `strings.ReplaceAll(s, old, new)` for an `old` of one character
unfoldable pub replace_all : String → Char → String → String
replace_all String.[] old new = ""
replace_all (String.◌∷◌ c s) old new =
    let rest = replace_all s old new in
    if nat_eq (code c) (code old) then new <> rest else String.◌∷◌ c rest

-- `strings.ContainsAny(s, chars)`
unfoldable pub contains_any : String → String → Bool
unfolding has_char
contains_any String.[] chars = false
contains_any (String.◌∷◌ c s) chars = has_char chars c || contains_any s chars

unfoldable pub translate : String → String → Char → Char
translate (String.◌∷◌ u us) (String.◌∷◌ l ls) c =
    if nat_eq (code c) (code u) then l else translate us ls c
translate _ _ c = c

-- `strings.ToLower(s)`, as far as a comparison with an ASCII text shows it: besides A to Z, the
-- two capitals whose lower case is an ASCII letter, U+0130 and the Kelvin sign U+212A, are mapped.
-- Go maps every other character to one outside ASCII; here it stays what it is, outside ASCII too.
unfoldable pub to_lower : String → String
unfolding translate
to_lower String.[] = ""
to_lower (String.◌∷◌ c s) =
    String.◌∷◌ (translate "ABCDEFGHIJKLMNOPQRSTUVWXYZİK" "abcdefghijklmnopqrstuvwxyzik" c)
      (to_lower s)

-- `len(s)`: Go counts the bytes of the encoding in UTF-8.
unfoldable pub byte_length : String → ℕ
byte_length String.[] = 0
byte_length (String.◌∷◌ c s) = len_utf8 c + byte_length s

-- `s[:len(s)-1]`, for a text that ends in a character of one byte.
unfoldable pub drop_last : String → String
drop_last String.[] = ""
drop_last (String.◌∷◌ c String.[]) = ""
drop_last (String.◌∷◌ c (String.◌∷◌ d s)) = String.◌∷◌ c (drop_last (String.◌∷◌ d s))

-- `t` stands somewhere in `s`.
abbrev pub Includes : String → String → Type 0
Includes s t = (before : String) × (after : String) × (s ≡ before <> (t <> after))
