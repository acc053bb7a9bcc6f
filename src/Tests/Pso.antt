-- ===== src/Tests/Pso.antt =====
-- A request for modules/pso.go.
use runner_controller_micros.Base.{◌≡◌, refl, ◌⊎◌, String, false, [], ◌∷◌}
use runner_controller_micros.Base.Int.{pos, is_nonpositive}
use runner_controller_micros.Base.Text.{contains, Includes}
use runner_controller_micros.Base.Outcome.{ok, err}
use runner_controller_micros.Pso.Config.{Pso, validate}
use runner_controller_micros.Pso.Program.{program, code}
use runner_controller_micros.Pso.Accept.{IsSound, generates, code-ok-IsSound, particles_in_range}
use runner_controller_micros.Tests.Sample.{half, one, five, sample}

abbrev pub swarm : Pso sample
swarm = record {
  algorithm = "original";
  weights = one ∷ [];
  dimensions = pos 2;
  min_position = half;
  max_position = five;
  min_speed = half;
  max_speed = one;
  phi1 = one;
  phi2 = one;
  benchmark = "sphere";
  population_size = pos 5;
  generations = pos 10;
}

swarm-ok : code sample swarm ≡ ok (program sample swarm)
unfolding code validate contains
swarm-ok = refl

code-ok-IsSound_example :
    (IsSound sample swarm × (code sample swarm ≡ ok (program sample swarm)))
    ⊎ ((IsSound sample swarm → ⊥) × (m : String) × (code sample swarm ≡ err m))
code-ok-IsSound_example = code-ok-IsSound sample swarm

particles_in_range_example :
    Includes (program sample swarm) (generates sample swarm)
    × (is_nonpositive (pos 2) ≡ false)
    × (sample.ge half five ≡ false)
    × (sample.ge half one ≡ false)
particles_in_range_example = particles_in_range sample swarm (program sample swarm) swarm-ok
