-- ===== src/Tests/Sample.antt =====
-- Floats for the tests: 0.5, 1 and 5.
use runner_controller_micros.Base.{◌≡◌, refl, String, Bool, true, false, nat_eq, if◌then◌else◌}
use runner_controller_micros.Base.Int.{ℤ, pos}
use runner_controller_micros.Base.Text.{has_char}
use runner_controller_micros.Base.Floats.{Floats, IsLawful}

pub data Sample : Type 0 where
  half one five : Sample

abbrev at_least : Sample → Sample → Bool
at_least half one = false
at_least half five = false
at_least one five = false
at_least _ _ = true

abbrev print_f : Sample → String
print_f half = "0.500000"
print_f one = "1.000000"
print_f five = "5.000000"

abbrev print_v : Sample → String
print_v half = "0.5"
print_v one = "1"
print_v five = "5"

abbrev truncated : Sample → ℤ
truncated half = pos 0
truncated one = pos 1
truncated five = pos 5

abbrev pub sample : Floats
sample = record {
  Float = Sample;
  lit = λ n. if nat_eq n 1 then one else five;
  ge = at_least;
  to_int = truncated;
  fmt_f = print_f;
  fmt_v = print_v;
  json_text = print_v;
}

no_open : (x : Sample) → has_char (print_f x) "[" ≡ false
unfolding has_char
no_open half = refl
no_open one = refl
no_open five = refl

no_close : (x : Sample) → has_char (print_f x) "]" ≡ false
unfolding has_char
no_close half = refl
no_close one = refl
no_close five = refl

pub sample-IsLawful : IsLawful sample
sample-IsLawful = record {
  fmt_f-no_open = no_open;
  fmt_f-no_close = no_close;
  one_below_five = refl;
}
