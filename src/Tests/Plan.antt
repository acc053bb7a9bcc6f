-- ===== src/Tests/Plan.antt =====
-- A creation and its plan.
use runner_controller_micros.Base.{◌≡◌, ◌⊎◌}
use runner_controller_micros.Service.World.{State}
use runner_controller_micros.Service.Exec.{value}
use runner_controller_micros.Service.Effects.{world}
use runner_controller_micros.Service.Create.{Submission, prepare, create}
use runner_controller_micros.Service.Planned.Creation.{DoneSince, create-Planned}
use runner_controller_micros.Tests.Service.{services, swarms, posted, idle}

create-Planned_example :
    (world (create services swarms posted idle).1.trace ≡ world idle.trace)
    ⊎ ((sub : Submission services swarms) × (u : State) × (prepare services swarms posted idle
          ≡ (value sub, u))
        × DoneSince services swarms sub
            (world idle.trace)
            (world (create services swarms posted idle).1.trace))
create-Planned_example = create-Planned services swarms posted idle
