-- ===== src/Objectives/Types.antt =====
-- The wire types of packages/sdk/src/types.ts that the objectives store keeps, and its errors.
use ac.Prelude.{ℕ, String, Bool, true, false, Option, List}

pub data ObjectiveStatus : Type 0 where
  active blocked done cancelled : ObjectiveStatus

pub record Attachment : Type 0 where
  pub path : String
  pub name : String
  pub size : ℕ
  pub mime_type : String

pub record Objective : Type 0 where
  pub id : String
  pub title : String
  pub body : String
  pub outcome : String
  pub status : ObjectiveStatus
  pub assignee : String
  pub originator : String
  pub watchers : List String
  pub created_at : ℕ
  pub updated_at : ℕ
  pub completed_at : Option ℕ
  pub result : Option String
  pub block_reason : Option String
  pub attachments : List Attachment

-- `kind` with the payload that the store writes beside it.
pub data ObjectiveEventKind : Type 0 where
  assigned : (title outcome assignee : String) (watchers : List String) → ObjectiveEventKind
  blocked : (reason : Option String) → ObjectiveEventKind
  unblocked : ObjectiveEventKind
  completed : (result : String) → ObjectiveEventKind
  cancelled : (reason : Option String) → ObjectiveEventKind
  reassigned : (from to : String) (note : Option String) → ObjectiveEventKind
  watcher_added : (name : String) → ObjectiveEventKind
  watcher_removed : (name : String) → ObjectiveEventKind

pub record ObjectiveEvent : Type 0 where
  pub objective_id : String
  pub ts : ℕ
  pub actor : String
  pub kind : ObjectiveEventKind

pub record CreateObjectiveRequest : Type 0 where
  pub title : String
  pub outcome : String
  pub body : Option String
  pub assignee : String
  pub watchers : Option (List String)
  pub attachments : Option (List Attachment)

-- The two statuses that an update may ask for.
pub data UpdateStatus : Type 0 where
  to_active to_blocked : UpdateStatus

pub record UpdateObjectiveRequest : Type 0 where
  pub status : Option UpdateStatus
  pub block_reason : Option String

pub record ReassignObjectiveRequest : Type 0 where
  pub to : String
  pub note : Option String

pub record UpdateWatchersRequest : Type 0 where
  pub add : Option (List String)
  pub remove : Option (List String)

pub record ObjectivesMutationResult : Type 0 where
  pub objective : Objective
  pub events : List ObjectiveEvent

pub data ErrorCode : Type 0 where
  not_found invalid_transition invalid_input terminal : ErrorCode

-- What a method throws: an `ObjectivesError`, or the constraint failure of an insert.
pub data Thrown : Type 0 where
  objectives_error : ErrorCode → Thrown
  constraint : Thrown

abbrev pub is_terminal : ObjectiveStatus → Bool
is_terminal ObjectiveStatus.done = true
is_terminal ObjectiveStatus.cancelled = true
is_terminal _ = false

abbrev pub is_blocked : ObjectiveStatus → Bool
is_blocked ObjectiveStatus.blocked = true
is_blocked _ = false

abbrev pub same_status : ObjectiveStatus → ObjectiveStatus → Bool
same_status ObjectiveStatus.active ObjectiveStatus.active = true
same_status ObjectiveStatus.blocked ObjectiveStatus.blocked = true
same_status ObjectiveStatus.done ObjectiveStatus.done = true
same_status ObjectiveStatus.cancelled ObjectiveStatus.cancelled = true
same_status _ _ = false
