-- ===== src/Objectives/Table.antt =====
-- apps/server/src/objectives.ts: the state of the store, and the transaction of its mutations.
use ac.Prelude.{
  ℕ, String, Option, none, some, List, [], ◌∷◌, ◌++◌, Result, ok, err, if◌then◌else◌, is_some,
}
use ac.Objectives.Types.{
  Objective, ObjectiveStatus, ObjectiveEvent, ObjectiveEventKind, ObjectivesMutationResult, Thrown,
  objectives_error, constraint, not_found, terminal, is_terminal,
}
use ac.Objectives.Rows.{find_objective, update_row}

-- The two tables, and the counter of `generateObjectiveId`.
pub record ObjectivesStore : Type 0 where
  pub objectives : List Objective
  pub objective_events : List ObjectiveEvent
  pub objective_counter : ℕ

abbrev pub empty_store : ObjectivesStore
empty_store = record { objectives = []; objective_events = []; objective_counter = 0 }

abbrev pub Mutation : Type 0
Mutation = Result Thrown ObjectivesMutationResult × ObjectivesStore

unfoldable pub get : String → ObjectivesStore → Option Objective
get id s = find_objective id s.objectives

-- `appendEvent`, once for each kind, in order.
abbrev pub append_events : String → ℕ → String → List ObjectiveEventKind → List ObjectiveEvent
append_events id ts actor [] = []
append_events id ts actor (k ∷ kinds) =
    record { objective_id = id; ts = ts; actor = actor; kind = k } ∷ append_events id ts actor kinds

-- The read that ends a mutation.
unfoldable pub reread : String → List ObjectiveEvent → ObjectivesStore → Mutation
reread id events s = elim (get id s) [
  | none ↦ (err (objectives_error not_found), s)
  | some o ↦ (ok (record { objective = o; events = events }), s)
]

-- BEGIN, an UPDATE of the row, the events, COMMIT, and the read.
unfoldable pub commit :
    String → (Objective → Objective) → List ObjectiveEvent → ObjectivesStore → Mutation
unfolding reread get
commit id set events s = reread id events (record s {
  objectives = update_row id set s.objectives;
  objective_events = s.objective_events ++ events;
})

-- The columns of `updateRowStmt`.
abbrev pub set_row :
    ObjectiveStatus → String → ℕ → Option ℕ → Option String → Option String → Objective → Objective
set_row status assignee now completed_at result block_reason o = record o {
  status = status;
  assignee = assignee;
  updated_at = now;
  completed_at = completed_at;
  result = result;
  block_reason = block_reason;
}

-- `if (!current) throw …; if (current.status is done or cancelled) throw …`
unfoldable pub with_open : String → ObjectivesStore → (Objective → Mutation) → Mutation
with_open id s body = elim (get id s) [
  | none ↦ (err (objectives_error not_found), s)
  | some current ↦
      if is_terminal current.status then (err (objectives_error terminal), s) else body current
]

-- INSERT fails on a taken id, which rolls the transaction back; the counter stays advanced.
unfoldable pub insert : Objective → List ObjectiveEvent → ObjectivesStore → Mutation
unfolding reread get
insert row events s =
    if is_some (find_objective row.id s.objectives)
    then (err constraint, s)
    else reread row.id events (record s {
      objectives = s.objectives ++ row ∷ [];
      objective_events = s.objective_events ++ events;
    })
