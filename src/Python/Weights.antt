-- ===== src/Python/Weights.antt =====
-- The text of the weights.
use Prim.Native.Char.{Char}
use runner_controller_micros.Base.{◌≡◌, refl, String, ◌<>◌, List, [], ◌∷◌, map, false, All}
use runner_controller_micros.Base.Text.{join, has_char, replace_all}
use runner_controller_micros.Base.Text.Laws.{replace_all-append, replace_all_absent, text_laws}
use runner_controller_micros.Base.Floats.{Floats, IsLawful, fmt_f_slice}
use runner_controller_micros.Python.{weights_tuple}

replace_all-join :
    (c : Char) (new : String) (xs : List String)
    → has_char " " c ≡ false
    → All (λ x. has_char x c ≡ false) xs
    → replace_all (join xs " ") c new ≡ join xs " "
unfolding join replace_all
replace_all-join c new [] h a = refl
replace_all-join c new (x ∷ []) h a = replace_all_absent x c new a.0
replace_all-join c new (x ∷ y ∷ xs) h a = rw (
  replace_all-append,
  replace_all-append,
  replace_all_absent x c new a.0,
  replace_all_absent " " c new h,
  replace_all-join c new (y ∷ xs) h a.1,
)

module _ (F : Floats) (L : IsLawful F) where
  All-map :
      (c : Char)
      → ((x : F.Float) → has_char (F.fmt_f x) c ≡ false)
      → (ws : List F.Float) → All (λ s. has_char s c ≡ false) (map F.fmt_f ws)
  All-map c h [] = tt
  All-map c h (w ∷ ws) = (h w, All-map c h ws)

  -- Between the brackets, the numbers stand with single spaces between them, and the only comma is
  -- the last character but one.
  pub weights_tuple_lem :
      (ws : List F.Float) → weights_tuple F ws ≡ "(" <> (join (map F.fmt_f ws) " " <> ",)")
  unfolding weights_tuple fmt_f_slice replace_all has_char
  weights_tuple_lem ws =
      let texts : List String = map F.fmt_f ws in
      simp (
        replace_all-append,
        replace_all-join "[" "(" texts refl (All-map "[" L.fmt_f-no_open ws),
        replace_all-join "]" ",)" texts refl (All-map "]" L.fmt_f-no_close ws),
        text_laws,
      )
