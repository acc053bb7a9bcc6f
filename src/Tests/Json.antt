-- ===== src/Tests/Json.antt =====
-- Requests as JSON objects, and their way through the decoder and the handlers.
use mathlib.Core.Bool.{false≢true}
use runner_controller_micros.Base.{
  ◌≡◌, refl, ◌≢◌, sym, ap, ◌∙◌, String, ◌==◌, true, false, some, [], ◌∷◌, arith, nat_eq,
  if◌then◌else◌,
}
use runner_controller_micros.Base.Int.{ℤ, pos, negsuc}
use runner_controller_micros.Base.Text.{translate}
use runner_controller_micros.Base.Decimal.{fmt_d}
use runner_controller_micros.Json.Value.{number, text, array, Elements}
use runner_controller_micros.Json.Keys.{fold, sorted, insert_key}
use runner_controller_micros.Json.Order.{SameMap, done, keep, swap}
use runner_controller_micros.Json.Reader.{read_string, read_slice, read_elements}
use runner_controller_micros.Json.Struct.{find_field, by_name, by_fold, set_all, from_json}
use runner_controller_micros.Json.Reads.{IsWhole}
use runner_controller_micros.Ea.Config.{Ea}
use runner_controller_micros.Ea.Decoding.{ea_from_json}
use runner_controller_micros.Ea.Encoding.{
  ea_members, HasWholes as EaHasWholes, ea_from_json-members,
}
use runner_controller_micros.Gp.Config.{Gp}
use runner_controller_micros.Gp.Decoding.{gp_from_json}
use runner_controller_micros.Gp.Encoding.{
  gp_members, HasWholes as GpHasWholes, gp_from_json-members,
}
use runner_controller_micros.Runs.Decoding.{share_run_req_from_json}
use runner_controller_micros.Service.World.{given, Fields}
use runner_controller_micros.Tests.Sample.{Sample, half, one, five, sample}

-- The float of 1, or 5.
abbrev pub num : ℤ → Sample
num (pos n) = if nat_eq n 1 then one else five
num (negsuc n) = half

five-IsWhole : IsWhole sample five (pos 5)
unfolding fmt_d
five-IsWhole = (refl, omega arith)

abbrev pub small_ea : Ea sample
small_ea = record {
  algorithm = "eaSimple";
  individual = "x";
  population_function = "x";
  custom_pop = "x";
  evaluation_function = "x";
  custom_eval = "";
  population_size = pos 5;
  generations = pos 5;
  cxpb = half;
  mutpb = half;
  weights = one ∷ five ∷ [];
  individual_size = pos 5;
  indpb = half;
  random_range = one ∷ five ∷ [];
  crossover_function = "x";
  mutation_function = "x";
  custom_mutation = "x";
  selection_function = "x";
  custom_selection = "x";
  tournament_size = pos 5;
  mu = pos 5;
  lambda = pos 5;
  hof_size = pos 5;
  cross_over_rate = half;
  scaling_factor = half;
}

small_ea-HasWholes : EaHasWholes sample num small_ea
small_ea-HasWholes = record {
  population_size = five-IsWhole;
  generations = five-IsWhole;
  individual_size = five-IsWhole;
  tournament_size = five-IsWhole;
  mu = five-IsWhole;
  lambda = five-IsWhole;
  hof_size = five-IsWhole;
}

SameMap-refl : {V : Type 0} (m : Fields V) → SameMap m m
SameMap-refl [] = done
SameMap-refl ((k, v) ∷ m) = keep k v (SameMap-refl m)

pub differ : (s t : String) → (s == t) ≡ false → (t == t) ≡ true → s ≢ t
differ s t h k e = false≢true (sym h ∙ ap (λ u. u == t) e ∙ k)

-- Its entries, with the first two in the other order.
abbrev flipped : {V : Type 0} → Fields V → Fields V
flipped (a ∷ b ∷ rest) = b ∷ a ∷ rest
flipped m = m

ea_from_json-members_example :
    ea_from_json sample (some (flipped (ea_members sample num small_ea))) ≡ given small_ea
ea_from_json-members_example =
    ea_from_json-members sample num small_ea
      (swap _ _ _ _ (differ "individual" "algorithm" refl refl)) small_ea-HasWholes

abbrev small_gp : Gp sample
small_gp = record {
  algorithm = "x";
  arity = pos 5;
  operators = "mul" ∷ [];
  arg_names = "a" ∷ "b" ∷ [];
  individual_type = "x";
  expr = "x";
  real_function = "x";
  min_ = pos 5;
  max_ = pos 5;
  individual_function = "x";
  population_function = "x";
  selection_function = "x";
  tournament_size = pos 5;
  expr_mut = "x";
  crossover_function = "x";
  terminal_prob = half;
  mutation_function = "x";
  mutation_mode = "x";
  mate_height = pos 5;
  mut_height = pos 5;
  weights = one ∷ five ∷ [];
  population_size = pos 5;
  generations = pos 5;
  cxpb = half;
  mutpb = half;
  mu = pos 5;
  lambda = pos 5;
  individual_size = pos 5;
  hof_size = pos 5;
  expr_mut_min = pos 5;
  expr_mut_max = pos 5;
}

small_gp-HasWholes : GpHasWholes sample num small_gp
small_gp-HasWholes = record {
  arity = five-IsWhole;
  min_ = five-IsWhole;
  max_ = five-IsWhole;
  tournament_size = five-IsWhole;
  mate_height = five-IsWhole;
  mut_height = five-IsWhole;
  population_size = five-IsWhole;
  generations = five-IsWhole;
  mu = five-IsWhole;
  lambda = five-IsWhole;
  individual_size = five-IsWhole;
  hof_size = five-IsWhole;
  expr_mut_min = five-IsWhole;
  expr_mut_max = five-IsWhole;
}

gp_from_json-members_example :
    gp_from_json sample (some (gp_members sample num small_gp)) ≡ given small_gp
gp_from_json-members_example =
    gp_from_json-members sample num small_gp (SameMap-refl (gp_members sample num small_gp))
      small_gp-HasWholes

-- A key is found with its case left aside; an entry without a field is passed over.
shared_with_bob :
    share_run_req_from_json Sample (
      some (
        ("RUNID", text "r1")
        ∷ ("userEmailList", array (Elements.cons (text "bob@example.com") Elements.nil))
        ∷ ("comment", number five)
        ∷ []))
    ≡ given (record { run_id = "r1"; user_email_list = "bob@example.com" ∷ [] })
unfolding share_run_req_from_json from_json set_all sorted insert_key find_field by_name by_fold
    fold translate read_string read_slice read_elements
shared_with_bob = refl
