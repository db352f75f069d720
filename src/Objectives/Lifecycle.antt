-- ===== src/Objectives/Lifecycle.antt =====
-- The lifecycle of one objective, as the design notes of apps/server/src/objectives.ts describe it:
-- the steps that a mutation may make, and what they leave true.
use ac.Prelude.{
  ℕ, String, ◌≡◌, ◌≢◌, Bool, true, false, not, Option, none, some, List, [], ◌∷◌, arith, All,
  includes, IsDistinct, keep, includes-keep-false, includes-append, IsDistinct-append,
  IsDistinct-keep,
}
use ac.Objectives.Types.{Attachment, Objective, ObjectiveStatus, ObjectiveEventKind, is_terminal}
use ac.Objectives.Table.{set_row}
use ac.Objectives.Watching.{set_watchers, next_watchers, watcher_kinds, replace_attachments}

abbrev pub IsText : Option String → Type 0
IsText none = ⊥
IsText (some t) = t ≢ ""

-- A reason while blocked, none while active or done.
abbrev pub FitsReason : ObjectiveStatus → Option String → Type 0
FitsReason ObjectiveStatus.active reason = reason ≡ none
FitsReason ObjectiveStatus.blocked reason = IsText reason
FitsReason ObjectiveStatus.done reason = reason ≡ none
FitsReason ObjectiveStatus.cancelled reason = Unit

-- A result and its time exactly when done.
abbrev pub FitsResult : ObjectiveStatus → Option String → Option ℕ → Type 0
FitsResult ObjectiveStatus.done result completed_at = IsText result × (completed_at ≢ none)
FitsResult _ result completed_at = (result ≡ none) × (completed_at ≡ none)

-- The kinds that a move between the open statuses logs.
abbrev pub move_kinds : ObjectiveStatus → ObjectiveStatus → Option String → List ObjectiveEventKind
move_kinds ObjectiveStatus.active ObjectiveStatus.blocked reason =
    ObjectiveEventKind.blocked reason ∷ []
move_kinds ObjectiveStatus.blocked ObjectiveStatus.active reason = ObjectiveEventKind.unblocked ∷ []
move_kinds _ _ reason = []

-- The names can be added to the objective's watchers.
pub record CanWatch (o : Objective) (adds : List String) : Type 0 where
  pub distinct : IsDistinct adds
  pub named : includes adds "" ≡ false
  pub not_originator : includes adds o.originator ≡ false
  pub fresh : All (λ w. includes o.watchers w ≡ false) adds

-- What the mutations of an objective may do to it, with the kinds of events that they log.
pub data Step (o o' : Objective) (kinds : List ObjectiveEventKind) : Type 0 where
  move :
      (status : ObjectiveStatus) (reason : Option String) (now : ℕ)
      → is_terminal o.status ≡ false
      → is_terminal status ≡ false
      → FitsReason status reason
      → o' ≡ set_row status o.assignee now o.completed_at o.result reason o
      → kinds ≡ move_kinds o.status status reason
      → Step o o' kinds
  finish :
      (result : String) (now : ℕ)
      → is_terminal o.status ≡ false
      → result ≢ ""
      → o' ≡ set_row ObjectiveStatus.done o.assignee now (some now) (some result) none o
      → kinds ≡ ObjectiveEventKind.completed result ∷ []
      → Step o o' kinds
  abandon :
      (reason : Option String) (now : ℕ)
      → is_terminal o.status ≡ false
      → o'
        ≡ set_row ObjectiveStatus.cancelled o.assignee now o.completed_at o.result o.block_reason o
      → kinds ≡ ObjectiveEventKind.cancelled reason ∷ []
      → Step o o' kinds
  hand_over :
      (to : String) (note : Option String) (now : ℕ)
      → is_terminal o.status ≡ false
      → to ≢ o.assignee
      → o' ≡ set_row o.status to now o.completed_at o.result o.block_reason o
      → kinds ≡ ObjectiveEventKind.reassigned o.assignee to note ∷ []
      → Step o o' kinds
  watch :
      (adds removes : List String) (now : ℕ)
      → CanWatch o adds
      → All (λ w. includes o.watchers w ≡ true) removes
      → o' ≡ set_watchers (next_watchers o.watchers adds removes) now o
      → kinds ≡ watcher_kinds adds removes
      → Step o o' kinds
  attach :
      (attachments : List Attachment) (now : ℕ)
      → o' ≡ replace_attachments attachments now o
      → kinds ≡ []
      → Step o o' kinds

-- What holds of every objective of the store.
pub record IsValid (o : Objective) : Type 0 where
  pub titled : o.title ≢ ""
  pub contractual : o.outcome ≢ ""
  pub reason : FitsReason o.status o.block_reason
  pub result : FitsResult o.status o.result o.completed_at
  pub watchers_distinct : IsDistinct o.watchers
  pub watchers_named : includes o.watchers "" ≡ false
  pub originator_implicit : includes o.watchers o.originator ≡ false

-- The fields that a terminal objective keeps.
pub record SameOutcome (o o' : Objective) : Type 0 where
  pub status : o'.status ≡ o.status
  pub assignee : o'.assignee ≡ o.assignee
  pub result : o'.result ≡ o.result
  pub completed_at : o'.completed_at ≡ o.completed_at
  pub block_reason : o'.block_reason ≡ o.block_reason

-- The fields that no mutation changes.
pub record SameIdentity (o o' : Objective) : Type 0 where
  pub id : o'.id ≡ o.id
  pub title : o'.title ≡ o.title
  pub outcome : o'.outcome ≡ o.outcome
  pub body : o'.body ≡ o.body
  pub originator : o'.originator ≡ o.originator
  pub created_at : o'.created_at ≡ o.created_at

pub Step-SameIdentity :
    {o o' : Objective} {ks : List ObjectiveEventKind} → Step o o' ks → SameIdentity o o'
Step-SameIdentity (move status reason now a b c e k) = ground arith
Step-SameIdentity (finish r now a b e k) = ground arith
Step-SameIdentity (abandon r now a e k) = ground arith
Step-SameIdentity (hand_over to _ now a b e k) = ground arith
Step-SameIdentity (watch adds removes now a b e k) = ground arith
Step-SameIdentity (attach xs now e k) = ground arith

-- Nothing leaves a terminal status.
pub Step-SameOutcome :
    {o o' : Objective} {ks : List ObjectiveEventKind}
    → Step o o' ks
    → is_terminal o.status ≡ true
    → SameOutcome o o'
Step-SameOutcome (move status reason now a b c e k) t = cc
Step-SameOutcome (finish r now a b e k) t = cc
Step-SameOutcome (abandon r now a e k) t = cc
Step-SameOutcome (hand_over to _ now a b e k) t = cc
Step-SameOutcome (watch adds removes now a b e k) t = ground arith
Step-SameOutcome (attach xs now e k) t = ground arith

includes-keep_other :
    (p : String → Bool) (ws adds : List String)
    → All (λ w. includes ws w ≡ false) adds
    → All (λ w. includes (keep p ws) w ≡ false) adds
includes-keep_other p ws [] h = tt
includes-keep_other p ws (a ∷ adds) h =
    (includes-keep-false p ws a h.0, includes-keep_other p ws adds h.1)

next_watchers-IsDistinct :
    (o : Objective) (adds removes : List String)
    → IsValid o
    → CanWatch o adds
    → IsDistinct (next_watchers o.watchers adds removes)
next_watchers-IsDistinct o adds removes v c =
    IsDistinct-append _ adds (IsDistinct-keep _ o.watchers v.watchers_distinct) c.distinct
      (includes-keep_other _ o.watchers adds c.fresh)

next_watchers-without :
    (a : String) (ws adds removes : List String)
    → includes ws a ≡ false
    → includes adds a ≡ false
    → includes (next_watchers ws adds removes) a ≡ false
next_watchers-without a ws adds removes h k = ground (
  arith,
  includes-append (keep (λ w. not (includes removes w)) ws) adds a,
  includes-keep-false (λ w. not (includes removes w)) ws a,
)

-- Every step keeps the objective well formed.
pub Step-IsValid :
    {o o' : Objective} {ks : List ObjectiveEventKind} → Step o o' ks → IsValid o → IsValid o'
Step-IsValid (move ObjectiveStatus.active reason now a b c e k) v = ground arith
Step-IsValid (move ObjectiveStatus.blocked reason now a b c e k) v = ground arith
Step-IsValid (move ObjectiveStatus.done reason now a b c e k) v = cc
Step-IsValid (move ObjectiveStatus.cancelled reason now a b c e k) v = cc
Step-IsValid (finish r now a b e k) v = ground arith
Step-IsValid (abandon r now a e k) v = ground arith
Step-IsValid (hand_over to _ now a b e k) v = ground arith
Step-IsValid {o} (watch adds removes now a b e k) v = ground (
  arith,
  next_watchers-IsDistinct o adds removes v a,
  next_watchers-without "" o.watchers adds removes,
  next_watchers-without o.originator o.watchers adds removes,
  a.named,
  a.not_originator,
)
Step-IsValid (attach xs now e k) v = ground arith
