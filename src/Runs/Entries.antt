-- ===== src/Runs/Entries.antt =====
-- The entries of the list of runs (modules/run.go).
use runner_controller_micros.Base.{
  ◌≡◌, refl, sym, ◌∙◌, ◌⊎◌, inl, inr, String, ◌==◌, ◌≢◌, Bool-cases, eq_iff, List, [], ◌∷◌, map,
}
use mathlib.Core.Bool.{false≢true}
use runner_controller_micros.Service.World.{RunRow, Fields}
use runner_controller_micros.Runs.Queries.{origin, listed}

-- The columns of a run in the list.
abbrev pub columns : RunRow → Fields String → Fields String
columns row origin =
    ("id", row.id)
    ∷ ("name", row.name)
    ∷ ("description", row.description)
    ∷ ("status", row.status)
    ∷ ("type", row.run_type)
    ∷ ("command", row.command)
    ∷ ("createdAt", row.created_at)
    ∷ ("updatedAt", row.updated_at)
    ∷ origin

-- The entry of a run that the user has made, or that another has shared with the user.
abbrev pub IsEntry : String → RunRow → Fields String → Type 0
IsEntry user row fields =
    ((row.created_by ≡ user)
      × (fields ≡ columns row (("isShared", "false") ∷ ("createdBy", row.created_by) ∷ [])))
    ⊎ ((row.created_by ≢ user)
        × (fields ≡ columns row (("isShared", "true") ∷ ("sharedBy", row.created_by) ∷ [])))

-- One entry for each row, in their order.
abbrev pub AreEntries : String → List RunRow → List (Fields String) → Type 0
AreEntries user [] [] = Unit
AreEntries user (row ∷ rows) (fields ∷ runs) = IsEntry user row fields × AreEntries user rows runs
AreEntries user rows runs = ⊥

listed-IsEntry : (user : String) (row : RunRow) → IsEntry user row (listed user row)
unfolding listed origin
listed-IsEntry user row = elim (Bool-cases (row.created_by == user)) [
  | inl e ↦ inl ((eq_iff row.created_by user).0 e, rw e refl)
  | inr e ↦ inr (λ same. false≢true (sym e ∙ (eq_iff row.created_by user).1 same), rw e refl)
]

pub listed-AreEntries :
    (user : String) (rows : List RunRow) → AreEntries user rows (map (listed user) rows)
listed-AreEntries user [] = tt
listed-AreEntries user (row ∷ rows) = (listed-IsEntry user row, listed-AreEntries user rows)
