-- ===== src/Objectives.antt =====
-- apps/server/src/objectives.ts: the objectives store. A method takes the store and returns what
-- it returns or throws, with the store that it leaves.
pub mod Types
pub mod Rows
pub mod Table
pub mod Watching
pub mod Reading
pub mod Effects
pub mod Lifecycle
pub mod Refinement
pub mod Watchers
pub mod Audit
pub mod Invariant
pub mod Creation
pub mod History
pub mod Reports
mod Tests
use Prim.Native.String
use Prim.Native.Nat.{Ordering}
use ac.Prelude.{
  ℕ, ◌+◌, ◌%◌, String, Bool, true, false, ◌&&◌, ◌||◌, not, Option, none, some, List, [], ◌∷◌, ◌++◌,
  ◌==◌, Result, ok, err, map, keep, includes, if◌then◌else◌, is_some, ltb, eqb, ◌-◌, or_empty,
}
use ac.Prelude.Text.{trim, to_string36}
use Types.{
  Attachment, Objective, ObjectiveStatus, ObjectiveEvent, ObjectiveEventKind,
  CreateObjectiveRequest, UpdateObjectiveRequest, UpdateStatus, to_active, to_blocked,
  ReassignObjectiveRequest, UpdateWatchersRequest, ObjectivesMutationResult, Thrown,
  objectives_error, constraint, not_found, invalid_input, terminal, is_terminal, is_blocked,
  same_status, active, blocked, done, cancelled, assigned, unblocked, completed, reassigned,
  watcher_added,
}
use Rows.{find_objective, update_row, events_of}
use Table.{set_row, ObjectivesStore, Mutation, get, append_events, commit, insert, with_open}
use Reading.{events}

-- The loop over `rawWatchers` in `create`: `seen` and the list so far.
unfoldable pub collect_watchers : List String → List String → List String → List String
collect_watchers seen watchers [] = watchers
collect_watchers seen watchers (w ∷ ws) =
    let skip = w == "" || includes seen w in
    collect_watchers (if skip then seen else seen ++ w ∷ [])
      (if skip then watchers else watchers ++ w ∷ []) ws

abbrev pub body_or_empty : Option String → String
body_or_empty none = ""
body_or_empty (some body) = body

unfoldable pub generate_objective_id : ℕ → ℕ → String
generate_objective_id clock counter =
    String.◌++◌ "obj-" (String.◌++◌ (to_string36 clock) (String.◌++◌ "-" (to_string36 counter)))

abbrev pub added_kinds : List String → List ObjectiveEventKind
added_kinds = map ObjectiveEventKind.watcher_added

-- The new row of `create`, and the events that go with it.
abbrev pub created_row :
    String
    → String
    → String
    → String
    → List String
    → CreateObjectiveRequest
    → String
    → ℕ
    → Objective
created_row id title body outcome watchers input originator now = record {
  id = id;
  title = title;
  body = body;
  outcome = outcome;
  status = ObjectiveStatus.active;
  assignee = input.assignee;
  originator = originator;
  watchers = watchers;
  created_at = now;
  updated_at = now;
  completed_at = none;
  result = none;
  block_reason = none;
  attachments = or_empty input.attachments;
}

-- `now` is the method's parameter, `clock` the `Date.now()` of `generateObjectiveId`.
unfoldable pub create : CreateObjectiveRequest → String → ℕ → ℕ → ObjectivesStore → Mutation
create input originator now clock s =
    let title = trim input.title in
    let outcome = trim input.outcome in
    let body = trim (body_or_empty input.body) in
    let watchers =
      collect_watchers (input.assignee ∷ originator ∷ []) [] (or_empty input.watchers) in
    let counter = (s.objective_counter + 1) % 65536 in
    let id = generate_objective_id clock counter in
    if title == ""
    then (err (objectives_error invalid_input), s)
    else if outcome == ""
    then (err (objectives_error invalid_input), s)
    else insert (created_row id title body outcome watchers input originator now)
        (append_events id now originator (
          ObjectiveEventKind.assigned title outcome input.assignee watchers ∷ added_kinds watchers))
        (record s { objective_counter = counter })

-- Equality of `string | null`.
abbrev pub same_text : Option String → Option String → Bool
same_text none none = true
same_text (some a) (some b) = a == b
same_text _ _ = false

-- The trimmed reason, if it is there and not blank: the test of `update`, and
-- `input.reason?.trim() || null` of `cancel`.
unfoldable pub trimmed_reason : Option String → Option String
trimmed_reason none = none
trimmed_reason (some reason) = if trim reason == "" then none else some (trim reason)

-- The status and block reason that `update` is to write; `none` where the reason is missing.
abbrev pub next_state :
    UpdateObjectiveRequest → Objective → Option (ObjectiveStatus × Option String)
next_state input current = elim input.status [
  | none ↦ some (current.status, current.block_reason)
  | some to_active ↦ some (ObjectiveStatus.active, none)
  | some to_blocked ↦ elim (trimmed_reason input.block_reason) [
    | none ↦ none
    | some reason ↦ some (ObjectiveStatus.blocked, some reason)
  ]
]

abbrev pub update_kinds :
    UpdateObjectiveRequest → Objective → Option String → List ObjectiveEventKind
update_kinds input current reason = elim input.status [
  | none ↦ []
  | some to_active ↦ if is_blocked current.status then ObjectiveEventKind.unblocked ∷ [] else []
  | some to_blocked ↦
      if is_blocked current.status then [] else ObjectiveEventKind.blocked reason ∷ []
]

abbrev pub update_open :
    String
    → UpdateObjectiveRequest
    → String
    → ℕ
    → ObjectivesStore
    → Objective
    → Option (ObjectiveStatus × Option String)
    → Mutation
update_open id input actor now s current none = (err (objectives_error invalid_input), s)
update_open id input actor now s current (some (status, reason)) =
    if same_status status current.status && same_text reason current.block_reason
    then (ok (record { objective = current; events = [] }), s)
    else commit id (set_row status current.assignee now current.completed_at current.result reason)
        (append_events id now actor (update_kinds input current reason)) s

unfoldable pub update : String → UpdateObjectiveRequest → String → ℕ → ObjectivesStore → Mutation
unfolding with_open
update id input actor now s =
    with_open id s λ current. update_open id input actor now s current (next_state input current)

unfoldable pub complete : String → String → String → ℕ → ObjectivesStore → Mutation
unfolding with_open
complete id raw_result actor now s = with_open id s λ current.
    let result = trim raw_result in
    if result == ""
    then (err (objectives_error invalid_input), s)
    else commit id (set_row ObjectiveStatus.done current.assignee now (some now) (some result) none)
        (append_events id now actor (ObjectiveEventKind.completed result ∷ [])) s

unfoldable pub cancel : String → Option String → String → ℕ → ObjectivesStore → Mutation
unfolding with_open
cancel id raw_reason actor now s = with_open id s λ current.
    commit id
      (set_row ObjectiveStatus.cancelled current.assignee now current.completed_at current.result
        current.block_reason)
      (append_events id now actor (ObjectiveEventKind.cancelled (trimmed_reason raw_reason) ∷ [])) s

-- `input.note ? { note: input.note.trim() } : {}`
abbrev pub trimmed_note : Option String → Option String
trimmed_note none = none
trimmed_note (some note) = if note == "" then none else some (trim note)

unfoldable pub reassign :
    String → ReassignObjectiveRequest → String → ℕ → ObjectivesStore → Mutation
unfolding with_open
reassign id input actor now s = with_open id s λ current.
    if input.to == current.assignee
    then (err (objectives_error invalid_input), s)
    else commit id
        (set_row current.status input.to now current.completed_at current.result
          current.block_reason)
        (append_events id now actor
          (ObjectiveEventKind.reassigned current.assignee input.to (trimmed_note input.note) ∷ []))
        s
