-- ===== src/Objectives/Rows.antt =====
-- The statements that apps/server/src/objectives.ts runs on its two tables, which are lists of
-- rows in the order of their ROWID.
use ac.Prelude.{String, Option, none, some, List, [], ◌∷◌, ◌==◌, keep, if◌then◌else◌}
use ac.Objectives.Types.{Objective, ObjectiveEvent}

-- SELECT * FROM objectives WHERE id = ?
unfoldable pub find_objective : String → List Objective → Option Objective
find_objective id [] = none
find_objective id (o ∷ rows) = if o.id == id then some o else find_objective id rows

-- UPDATE objectives SET … WHERE id = ?
unfoldable pub update_row : String → (Objective → Objective) → List Objective → List Objective
update_row id set [] = []
update_row id set (o ∷ rows) = (if o.id == id then set o else o) ∷ update_row id set rows

-- SELECT * FROM objective_events WHERE objective_id = ?, in the order of ROWID
unfoldable pub events_of : String → List ObjectiveEvent → List ObjectiveEvent
events_of id = keep (λ e. e.objective_id == id)
