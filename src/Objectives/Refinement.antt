-- ===== src/Objectives/Refinement.antt =====
-- Every mutation of apps/server/src/objectives.ts either leaves the store as it was or commits one
-- step of the lifecycle of one objective, with its events.
use ac.Prelude.{
  ℕ, String, ◌≡◌, refl, inl, inr, false, Option, some, List, [], arith, ◌==◌, eq_iff, ok, err,
  Option-cases, Bool-cases, ◌≢◌, ◌&&◌, none,
}
use ac.Prelude.Text.{trim}
use ac.Objectives.{
  complete, cancel, reassign, trimmed_reason, trimmed_note, next_state, update_kinds, same_text,
  update_open, update,
}
use ac.Objectives.Types.{
  Attachment, Objective, ObjectiveEventKind, ReassignObjectiveRequest, Thrown, objectives_error,
  not_found, terminal, invalid_input, is_terminal, ObjectiveStatus, UpdateObjectiveRequest,
  same_status,
}
use ac.Objectives.Table.{ObjectivesStore, Mutation, get, append_events, commit, with_open}
use ac.Objectives.Watching.{set_attachments}
use ac.Objectives.Effects.{committed, commit-eq-ok}
use ac.Objectives.Lifecycle.{
  Step, finish, abandon, hand_over, attach, FitsReason, move_kinds, move, IsValid,
}

-- What a mutation of the objective `id` came to.
pub data Outcome (id : String) (s : ObjectivesStore) (m : Mutation) : Type 0 where
  refused : (e : Thrown) → m ≡ (err e, s) → Outcome id s m
  idle :
      (o : Objective)
      → get id s ≡ some o
      → m ≡ (ok (record { objective = o; events = [] }), s)
      → Outcome id s m
  stepped :
      (o : Objective) (set : Objective → Objective) (kinds : List ObjectiveEventKind) (ts : ℕ)
      (actor : String)
      → get id s ≡ some o
      → ((x : Objective) → (set x).id ≡ x.id)
      → Step o (set o) kinds
      → m ≡ (
        ok (record { objective = set o; events = append_events id ts actor kinds }),
        committed id set (append_events id ts actor kinds) s,
      )
      → Outcome id s m

module _ (id : String) (s : ObjectivesStore) where
  pub commit-Outcome :
      (o : Objective) (set : Objective → Objective) (kinds : List ObjectiveEventKind) (ts : ℕ)
      (actor : String)
      → get id s ≡ some o
      → ((x : Objective) → (set x).id ≡ x.id)
      → Step o (set o) kinds
      → Outcome id s (commit id set (append_events id ts actor kinds) s)
  commit-Outcome o set kinds ts actor h keeps st =
      stepped o set kinds ts actor h keeps st
        (commit-eq-ok id set keeps s (append_events id ts actor kinds) o h)

  -- The guards of an operation on an open objective.
  pub with_open-Outcome :
      (body : Objective → Mutation)
      → ((o : Objective) → get id s ≡ some o → is_terminal o.status ≡ false → Outcome id s (body o))
      → Outcome id s (with_open id s body)
  unfolding with_open
  with_open-Outcome body rest = elim (Option-cases (get id s)) [
    | inl h ↦ refused (objectives_error not_found) (rw (h, with_open))
    | inr (o, h) ↦ elim (Bool-cases (is_terminal o.status)) [
      | inl t ↦ refused (objectives_error terminal) (rw (h, with_open) (rw t))
      | inr t ↦ rw (h, with_open) (rw t (rest o h t))
    ]
  ]

  pub complete-Outcome : (raw actor : String) (now : ℕ) → Outcome id s (complete id raw actor now s)
  unfolding complete
  complete-Outcome raw actor now = with_open-Outcome _ λ o found open_.
      elim (Bool-cases (trim raw == "")) [
        | inl e ↦ refused (objectives_error invalid_input) (rw e)
        | inr e ↦ rw e (
            commit-Outcome o _ _ now actor found (λ x. refl)
              (finish (trim raw) now open_ (ground (arith, eq_iff (trim raw) "")) refl refl))
      ]

  pub cancel-Outcome :
      (raw : Option String) (actor : String) (now : ℕ) → Outcome id s (cancel id raw actor now s)
  unfolding cancel
  cancel-Outcome raw actor now = with_open-Outcome _ λ o found open_.
      commit-Outcome o _ _ now actor found (λ x. refl)
        (abandon (trimmed_reason raw) now open_ refl refl)

  pub reassign-Outcome :
      (input : ReassignObjectiveRequest) (actor : String) (now : ℕ)
      → Outcome id s (reassign id input actor now s)
  unfolding reassign
  reassign-Outcome input actor now = with_open-Outcome _ λ o found open_.
      elim (Bool-cases (input.to == o.assignee)) [
        | inl e ↦ refused (objectives_error invalid_input) (rw e)
        | inr e ↦ rw e (
            commit-Outcome o _ _ now actor found (λ x. refl)
              (hand_over input.to (trimmed_note input.note) now open_
                (ground (arith, eq_iff input.to o.assignee)) refl refl))
      ]

  pub set_attachments-Outcome :
      (attachments : List Attachment) (now : ℕ)
      → Outcome id s (set_attachments id attachments now s)
  unfolding set_attachments
  set_attachments-Outcome attachments now = elim (Option-cases (get id s)) [
    | inl h ↦ refused (objectives_error not_found) (rw (h, set_attachments))
    | inr (o, h) ↦
        rw (h, set_attachments)
          (commit-Outcome o _ [] now "" h (λ x. refl) (attach attachments now refl refl))
  ]

trimmed_reason-IsText :
    (raw : Option String) (reason : String) → trimmed_reason raw ≡ some reason → reason ≢ ""
unfolding trimmed_reason
trimmed_reason-IsText none reason h = cc
trimmed_reason-IsText (some raw) reason h = ground (arith, eq_iff (trim raw) "")

-- What `update` writes is a move that keeps a reason exactly while blocked.
next_state-fits :
    (input : UpdateObjectiveRequest) (o : Objective) (status : ObjectiveStatus)
    (reason : Option String)
    → is_terminal o.status ≡ false
    → FitsReason o.status o.block_reason
    → next_state input o ≡ some (status, reason)
    → (is_terminal status ≡ false)
      × FitsReason status reason
      × (update_kinds input o reason ≡ move_kinds o.status status reason)
next_state-fits input o status reason h f e =
    elim (Option-cases (trimmed_reason input.block_reason)) [
      | inl missing ↦ ground arith
      | inr (r, given) ↦ ground (arith, trimmed_reason-IsText input.block_reason r given)
    ]

module _ (id : String) (s : ObjectivesStore) where
  update_open-Outcome :
      (input : UpdateObjectiveRequest) (actor : String) (now : ℕ) (o : Objective)
      (next : Option (ObjectiveStatus × Option String))
      → get id s ≡ some o
      → is_terminal o.status ≡ false
      → FitsReason o.status o.block_reason
      → next_state input o ≡ next
      → Outcome id s (update_open id input actor now s o next)
  update_open-Outcome input actor now o none found h f e =
      refused (objectives_error invalid_input) refl
  update_open-Outcome input actor now o (some (status, reason)) found h f e =
      let (open_, fits, kinds) = next_state-fits input o status reason h f e in
      elim (Bool-cases (same_status status o.status && same_text reason o.block_reason)) [
        | inl same ↦ idle o found (rw same)
        | inr other ↦ rw other (
            commit-Outcome id s o _ _ now actor found (λ x. refl)
              (move status reason now h open_ fits refl kinds))
      ]

  pub update-Outcome :
      (input : UpdateObjectiveRequest) (actor : String) (now : ℕ)
      → ((o : Objective) → get id s ≡ some o → IsValid o)
      → Outcome id s (update id input actor now s)
  unfolding update
  update-Outcome input actor now valid = with_open-Outcome id s _ λ o found h.
      update_open-Outcome input actor now o (next_state input o) found h (valid o found).reason refl
