-- ===== src/Tests/Requests.antt =====
-- Requests to create a run with a body of JSON.
use runner_controller_micros.Base.{◌≡◌, refl, ◌≢◌, String, none, some, [], ◌∷◌}
use runner_controller_micros.Json.Value.{text}
use runner_controller_micros.Json.Order.{swap}
use runner_controller_micros.Json.Reader.{read_int}
use runner_controller_micros.Json.Struct.{Field, find_field, by_name}
use runner_controller_micros.Ea.Config.{Ea}
use runner_controller_micros.Ea.Decoding.{ea_from_json, ea_fields}
use runner_controller_micros.Gp.Decoding.{gp_from_json}
use runner_controller_micros.Pso.Decoding.{pso_from_json}
use runner_controller_micros.Ml.Decoding.{ml_from_json}
use runner_controller_micros.Service.World.{Fields, Request, Response}
use runner_controller_micros.Service.Kinds.{create_ea, create_pso, create_gp, create_ml}
use runner_controller_micros.Service.Stops.{effects, IsRefusal}
use runner_controller_micros.Service.Panics.{IsAnswered}
use runner_controller_micros.Service.Requests.{viewed, creations_answer}
use runner_controller_micros.Service.Mismatch.{ea_mismatch-refused}
use runner_controller_micros.Tests.Sample.{Sample, sample, sample-IsLawful}
use runner_controller_micros.Tests.Service.{services, posted, idle}
use runner_controller_micros.Tests.Json.{differ}

abbrev nothing_posted : Request String
nothing_posted = record posted { body = some none }

-- The body `null`.
creations_answer_example :
    IsAnswered services (
      create_ea sample services
        (λ d. ea_from_json sample (viewed (λ s. text s) d))
        nothing_posted
        idle)
    × IsAnswered services (
        create_pso sample services
          (λ d. pso_from_json sample (viewed (λ s. text s) d))
          nothing_posted
          idle)
    × IsAnswered services (
        create_gp sample services
          (λ l. l)
          (λ d. gp_from_json sample (viewed (λ s. text s) d))
          nothing_posted
          idle)
    × IsAnswered services (
        create_ml sample services
          (λ d. ml_from_json sample (viewed (λ s. text s) d))
          nothing_posted
          idle)
creations_answer_example =
    creations_answer sample sample-IsLawful services (λ s. text s) (λ l. l) nothing_posted idle

-- A text for the size of the population.
abbrev unfit_entries : Fields String
unfit_entries = ("algorithm", "de") ∷ ("populationSize", "ten") ∷ []

abbrev unfit_posted : Request String
unfit_posted = record posted { body = some (some unfit_entries) }

abbrev size_field : Field Sample (Ea sample)
size_field = record {
  name = "populationSize";
  set = λ j r.
      let (n, m) = read_int sample j r.population_size in (record r { population_size = n }, m);
}

size_field-found : find_field "populationSize" (ea_fields sample) ≡ some size_field
unfolding find_field by_name
size_field-found = refl

size_field-unfit : (ea : Ea sample) → (size_field.set (text "ten") ea).1 ≢ none
unfolding read_int
size_field-unfit ea = cc

ea_mismatch-refused_example :
    (r : Response (Fields String)) × ((create_ea sample services
        (λ d. ea_from_json sample (viewed (λ s. text s) d))
        unfit_posted
        idle).0
      ≡ some r)
    × IsRefusal r
    × (effects
          (create_ea sample services
            (λ d. ea_from_json sample (viewed (λ s. text s) d))
            unfit_posted
            idle).1
        ≡ effects idle)
ea_mismatch-refused_example =
    ea_mismatch-refused sample sample-IsLawful services (λ s. text s) unfit_posted idle
      unfit_entries (("algorithm", "de") ∷ []) "populationSize" "ten" size_field refl
      (swap _ _ _ _ (differ "algorithm" "populationSize" refl refl)) size_field-found
      size_field-unfit
