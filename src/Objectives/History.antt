-- ===== src/Objectives/History.antt =====
-- Histories of calls of the store in apps/server/src/objectives.ts.
use ac.Objectives.{create, update, complete, cancel, reassign}
use ac.Objectives.Watching.{update_watchers, set_attachments}
use ac.Objectives.Watchers.{update_watchers-Outcome}
use ac.Objectives.Lifecycle.{Step, SameOutcome, SameIdentity, Step-SameIdentity, Step-SameOutcome}
use ac.Objectives.Refinement.{
  Outcome, complete-Outcome, cancel-Outcome, reassign-Outcome, set_attachments-Outcome,
  update-Outcome, refused, idle, stepped,
}
use ac.Objectives.Table.{ObjectivesStore, Mutation, get, append_events}
use ac.Objectives.Invariant.{IsSound, Outcome-IsSound}
use ac.Objectives.Types.{
  Attachment, Objective, ObjectiveEventKind, CreateObjectiveRequest, UpdateObjectiveRequest,
  ReassignObjectiveRequest, UpdateWatchersRequest, is_terminal,
}
use ac.Objectives.Creation.{
  Created, refused_create, created, create-Created, inserted-IsSound, get_any_counter,
  creation_events,
}
use ac.Prelude.{
  ℕ, String, ◌≡◌, ◌∙◌, Option, some, List, [], ◌∷◌, Bool-cases, subst, inl, inr, true, arith, ◌==◌,
  eq_iff,
}
use ac.Objectives.Effects.{get-committed, get-inserted}

-- One call, with the clock readings that it makes.
pub data Call : Type 0 where
  create_call : CreateObjectiveRequest → String → ℕ → ℕ → Call
  update_call : String → UpdateObjectiveRequest → String → ℕ → Call
  complete_call : String → String → String → ℕ → Call
  cancel_call : String → Option String → String → ℕ → Call
  reassign_call : String → ReassignObjectiveRequest → String → ℕ → Call
  update_watchers_call : String → UpdateWatchersRequest → String → ℕ → Call
  set_attachments_call : String → List Attachment → ℕ → Call

unfoldable pub perform : Call → ObjectivesStore → Mutation
perform (create_call input originator now clock) s = create input originator now clock s
perform (update_call id input actor now) s = update id input actor now s
perform (complete_call id result actor now) s = complete id result actor now s
perform (cancel_call id reason actor now) s = cancel id reason actor now s
perform (reassign_call id input actor now) s = reassign id input actor now s
perform (update_watchers_call id input actor now) s = update_watchers id input actor now s
perform (set_attachments_call id attachments now) s = set_attachments id attachments now s

-- A call that throws ends there; the next call finds the store that it left.
unfoldable pub run : List Call → ObjectivesStore → ObjectivesStore
unfolding perform
run [] s = s
run (c ∷ cs) s = run cs (perform c s).1

-- Every call is a creation, or a mutation of one objective.
pub data Effect (s : ObjectivesStore) (m : Mutation) : Type 0 where
  creates : Created s m → Effect s m
  mutates : (id : String) → Outcome id s m → Effect s m

pub perform-Effect : (c : Call) (s : ObjectivesStore) → IsSound s → Effect s (perform c s)
unfolding perform
perform-Effect (create_call input originator now clock) s h =
    creates (create-Created input originator now clock s)
perform-Effect (update_call id input actor now) s h =
    mutates id (update-Outcome id s input actor now (h.valid id))
perform-Effect (complete_call id result actor now) s h =
    mutates id (complete-Outcome id s result actor now)
perform-Effect (cancel_call id reason actor now) s h =
    mutates id (cancel-Outcome id s reason actor now)
perform-Effect (reassign_call id input actor now) s h =
    mutates id (reassign-Outcome id s input actor now)
perform-Effect (update_watchers_call id input actor now) s h =
    mutates id (update_watchers-Outcome id s input actor now)
perform-Effect (set_attachments_call id attachments now) s h =
    mutates id (set_attachments-Outcome id s attachments now)

IsSound-any_counter :
    (s : ObjectivesStore) (n : ℕ) → IsSound s → IsSound (record s { objective_counter = n })
unfolding get
IsSound-any_counter s n h = record { valid = h.valid; audited = h.audited; unlogged = h.unlogged }

Effect-IsSound : (s : ObjectivesStore) (m : Mutation) → Effect s m → IsSound s → IsSound m.1
Effect-IsSound s m (creates (refused_create e n eq)) h = rw eq (IsSound-any_counter s n h)
Effect-IsSound s m (creates (created row title outcome ts n free v a r eq)) h = rw eq (
    inserted-IsSound (record s { objective_counter = n }) row title outcome ts
      (get_any_counter row.id s n ∙ free) v a r (IsSound-any_counter s n h))
Effect-IsSound s m (mutates id o) h = Outcome-IsSound id s m o h

pub perform-IsSound : (c : Call) (s : ObjectivesStore) → IsSound s → IsSound (perform c s).1
perform-IsSound c s h = Effect-IsSound s (perform c s) (perform-Effect c s h) h

-- From a sound store, the empty one among them, every history of calls, those that throw
-- included, ends in a sound store: each objective is well formed (a title, an outcome, a block
-- reason while blocked and none while active or done, a result and its time exactly when done,
-- distinct watchers without the originator), and the replay of its logged events gives its
-- status, assignee, watchers and result.
pub run-IsSound : (cs : List Call) (s : ObjectivesStore) → IsSound s → IsSound (run cs s)
unfolding run
run-IsSound [] s h = h
run-IsSound (c ∷ cs) s h = run-IsSound cs (perform c s).1 (perform-IsSound c s h)

module _ (R : Objective → Objective → Type 0) (refl_R : (o : Objective) → R o o)
    (step_R : (o p : Objective) (ks : List ObjectiveEventKind) → Step o p ks → R o p)
    (trans_R : (o p q : Objective) → R o p → R p q → R o q) where
  -- An objective that the first store holds is in the other too, related by `R`.
  abbrev Follows : String → Objective → ObjectivesStore → Type 0
  Follows id o s = (p : Objective) × (get id s ≡ some p) × R o p

  Outcome-Follows :
      (s : ObjectivesStore) (m : Mutation) (id j : String) (o : Objective)
      → Outcome j s m
      → get id s ≡ some o
      → Follows id o m.1
  Outcome-Follows s m id j o (refused e eq) found = (o, rw eq found, refl_R o)
  Outcome-Follows s m id j o (idle x h eq) found = (o, rw eq found, refl_R o)
  Outcome-Follows s m id j o (stepped x set kinds ts actor h keeps st eq) found =
      let q = get-committed j set keeps s id (append_events j ts actor kinds) in
      elim (Bool-cases (j == id)) [
        | inl same ↦
            let e : x ≡ o = ground (arith, eq_iff j id) in
            (
              set x,
              rw eq (ground (arith, q, eq_iff j id)),
              subst (λ y. R y (set x)) e (step_R x (set x) kinds st),
            )
        | inr other ↦ (o, rw eq (ground (arith, q)), refl_R o)
      ]

  Effect-Follows :
      (s : ObjectivesStore) (m : Mutation) (id : String) (o : Objective)
      → Effect s m
      → get id s ≡ some o
      → Follows id o m.1
  Effect-Follows s m id o (creates (refused_create e n eq)) found =
      (o, rw eq (get_any_counter id s n ∙ found), refl_R o)
  Effect-Follows s m id o (creates (created row title outcome ts n free v a r eq)) found =
      let s' : ObjectivesStore = record s { objective_counter = n } in
      let q = get-inserted row s' id (creation_events row title outcome ts) in
      (o, rw eq (ground (arith, q, get_any_counter id s n)), refl_R o)
  Effect-Follows s m id o (mutates j out) found = Outcome-Follows s m id j o out found

  pub run-Follows :
      (cs : List Call) (s : ObjectivesStore) (id : String) (o : Objective)
      → IsSound s
      → get id s ≡ some o
      → Follows id o (run cs s)
  unfolding run
  run-Follows [] s id o h found = (o, found, refl_R o)
  run-Follows (c ∷ cs) s id o h found =
      let (p, at_p, op) = Effect-Follows s (perform c s) id o (perform-Effect c s h) found in
      let (q, at_q, pq) = run-Follows cs (perform c s).1 id p (perform-IsSound c s h) at_p in
      (q, at_q, trans_R o p q op pq)

abbrev KeepsOutcome : Objective → Objective → Type 0
KeepsOutcome o p = is_terminal o.status ≡ true → SameOutcome o p

KeepsOutcome-trans : (o p q : Objective) → KeepsOutcome o p → KeepsOutcome p q → KeepsOutcome o q
KeepsOutcome-trans o p q f g t = let a = f t in let b = g (rw a.status t) in ground arith

-- `done` and `cancelled` are terminal: whatever calls follow on a sound store, an objective in one of them stays in
-- the store with the same status, assignee, result, completion time and block reason.
pub terminal_absorbs :
    (cs : List Call) (s : ObjectivesStore) (id : String) (o : Objective)
    → IsSound s
    → get id s ≡ some o
    → is_terminal o.status ≡ true
    → (p : Objective) × (get id (run cs s) ≡ some p) × SameOutcome o p
terminal_absorbs cs s id o h found t =
    let (p, at_p, same) =
      run-Follows KeepsOutcome (λ x t. ground arith) (λ x y ks st. Step-SameOutcome st)
        KeepsOutcome-trans cs s id o h found in
    (p, at_p, same t)

-- From a sound store no history of calls removes an objective or changes its id, title, outcome,
-- body, originator or time of creation.
pub identity_kept :
    (cs : List Call) (s : ObjectivesStore) (id : String) (o : Objective)
    → IsSound s
    → get id s ≡ some o
    → (p : Objective) × (get id (run cs s) ≡ some p) × SameIdentity o p
identity_kept cs s id o h found =
    run-Follows SameIdentity (λ x. ground arith) (λ x y ks st. Step-SameIdentity st)
      (λ x y z a b. ground arith) cs s id o h found
