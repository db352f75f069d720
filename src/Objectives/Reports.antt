-- ===== src/Objectives/Reports.antt =====
-- What a caller of apps/server/src/objectives.ts reads off the returned value of a mutation.
use ac.Objectives.{trimmed_reason, update, added_kinds}
use ac.Prelude.{
  ok, err, ℕ, String, ◌≡◌, refl, sym, ◌∙◌, ◌≢◌, some, List, [], ◌∷◌, ◌++◌, append-nil, arith,
  eq_iff, eq_refl, subst,
}
use ac.Prelude.Text.{trim}
use ac.Objectives.History.{Call, perform, Effect, creates, mutates, perform-Effect}
use ac.Objectives.Effects.{find_objective-id, get-committed, commit-eq-ok, get-inserted, committed}
use ac.Objectives.Refinement.{Outcome, refused, idle, stepped}
use ac.Objectives.Table.{ObjectivesStore, Mutation, get, append_events, set_row, with_open}
use ac.Objectives.Invariant.{IsSound}
use ac.Objectives.Types.{ObjectiveStatus, Objective, ObjectiveEventKind, to_blocked}
use ac.Objectives.Creation.{Created, refused_create, created, get_any_counter, creation_events}
use ac.Objectives.Rows.{events_of}

-- What a caller of a mutation may rely on: after an error both tables are as they were; after a
-- success the log has grown by exactly the returned events, all of them about the returned
-- objective, which the store holds under its id.
abbrev pub Reported : ObjectivesStore → Mutation → Type 0
Reported s (err e, s') = (s'.objectives ≡ s.objectives) × (s'.objective_events ≡ s.objective_events)
Reported s (ok r, s') =
    (s'.objective_events ≡ s.objective_events ++ r.events)
    × (events_of r.objective.id r.events ≡ r.events)
    × (get r.objective.id s' ≡ some r.objective)

events_of-own :
    (id : String) (ts : ℕ) (actor : String) (ks : List ObjectiveEventKind)
    → events_of id (append_events id ts actor ks) ≡ append_events id ts actor ks
unfolding events_of
events_of-own id ts actor [] = refl
events_of-own id ts actor (k ∷ ks) = rw (eq_refl id, events_of-own id ts actor ks)

events_of-own_id :
    (id j : String) (ts : ℕ) (actor : String) (ks : List ObjectiveEventKind)
    → j ≡ id
    → events_of j (append_events id ts actor ks) ≡ append_events id ts actor ks
events_of-own_id id j ts actor ks e = rw e (events_of-own id ts actor ks)

get-id : (id : String) (s : ObjectivesStore) (o : Objective) → get id s ≡ some o → o.id ≡ id
unfolding get
get-id id s o h = find_objective-id id s.objectives o h

Outcome-Reported :
    (id : String) (s : ObjectivesStore) (m : Mutation) → Outcome id s m → Reported s m
Outcome-Reported id s m (refused e eq) = rw eq (refl, refl)
Outcome-Reported id s m (idle o found eq) = rw eq (
  sym (append-nil _),
  unfold events_of in refl,
  subst (λ k. get k s ≡ some o) (sym (get-id id s o found)) found,
)
Outcome-Reported id s m (stepped o set kinds ts actor found keeps st eq) =
    let own : (set o).id ≡ id = keeps o ∙ get-id id s o found in
    let q = get-committed id set keeps s id (append_events id ts actor kinds) in
    rw eq (
      refl,
      events_of-own_id id (set o).id ts actor kinds own,
      subst (λ k. get k (committed id set (append_events id ts actor kinds) s) ≡ some (set o))
          (sym own) (ground (arith, q, eq_refl id)),
    )

Created-Reported : (s : ObjectivesStore) (m : Mutation) → Created s m → Reported s m
Created-Reported s m (refused_create e n eq) = rw eq (refl, refl)
Created-Reported s m (created row title outcome ts n free v a r eq) =
    let s' : ObjectivesStore = record s { objective_counter = n } in
    let es = creation_events row title outcome ts in
    let q = get-inserted row s' row.id es in
    rw eq (
      refl,
      events_of-own row.id ts row.originator (
          ObjectiveEventKind.assigned title outcome row.assignee row.watchers
          ∷ added_kinds row.watchers),
      ground (arith, q, get_any_counter row.id s n, eq_refl row.id),
    )

-- Of a call on a sound store: after an error both tables are as they were. After a success the log has grown by exactly the
-- returned events, all of them about the returned objective, which the store holds under its id.
pub perform-Reported : (c : Call) (s : ObjectivesStore) → IsSound s → Reported s (perform c s)
perform-Reported c s h = from_effect (perform-Effect c s h)
  where
    from_effect : Effect s (perform c s) → Reported s (perform c s)
    from_effect (creates e) = Created-Reported s (perform c s) e
    from_effect (mutates id o) = Outcome-Reported id s (perform c s) o

-- An update of a blocked objective with another reason, which is not blank, writes the trimmed
-- reason and logs no event.
pub update-reason_unlogged :
    (id : String) (s : ObjectivesStore) (o : Objective) (old new : String) (actor : String)
    (now : ℕ)
    → get id s ≡ some o
    → o.status ≡ ObjectiveStatus.blocked
    → o.block_reason ≡ some old
    → trim new ≢ ""
    → trim new ≢ old
    → let m =
        update id (record { status = some to_blocked; block_reason = some new }) actor now s in
      (get id m.1 ≡ some (record o { block_reason = some (trim new); updated_at = now }))
      × (m.1.objective_events ≡ s.objective_events)
unfolding update with_open trimmed_reason
update-reason_unlogged id s o old new actor now found b r t d =
    let set =
      set_row ObjectiveStatus.blocked o.assignee now o.completed_at o.result (some (trim new)) in
    let q = commit-eq-ok id set (λ x. refl) s [] o found in
    let g = get-committed id set (λ x. refl) s id [] in
    (
      ground (arith, q, g, eq_refl id, eq_iff (trim new) "", eq_iff (trim new) old),
      ground (arith, q, eq_iff (trim new) "", eq_iff (trim new) old, append-nil s.objective_events),
    )
