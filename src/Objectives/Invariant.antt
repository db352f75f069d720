-- ===== src/Objectives/Invariant.antt =====
-- What every mutation of apps/server/src/objectives.ts keeps true of the whole store.
use ac.Prelude.{
  Bool-cases, ℕ, String, ◌≡◌, refl, subst, inl, inr, none, some, List, [], arith, ◌==◌, eq_iff, ap,
  ◌∙◌, eq_refl,
}
use ac.Objectives.Effects.{committed, get-committed, events_of-logged}
use ac.Objectives.Lifecycle.{Step, IsValid, Step-IsValid}
use ac.Objectives.Refinement.{Outcome, refused, idle, stepped}
use ac.Objectives.Table.{ObjectivesStore, empty_store, Mutation, get, append_events}
use ac.Objectives.Types.{Objective, ObjectiveEventKind}
use ac.Objectives.Audit.{
  view_of, before_creation, replay, replay-append, replay-append_events, Step-replay,
}
use ac.Objectives.Rows.{find_objective, events_of}

pub record IsSound (s : ObjectivesStore) : Type 0 where
  pub valid : (id : String) (o : Objective) → get id s ≡ some o → IsValid o
  pub audited :
      (id : String) (o : Objective)
      → get id s ≡ some o
      → replay before_creation (events_of id s.objective_events) ≡ view_of o
  pub unlogged : (id : String) → get id s ≡ none → events_of id s.objective_events ≡ []

pub empty_store-IsSound : IsSound empty_store
unfolding get find_objective events_of
empty_store-IsSound = record {
  valid = λ id o h. cc;
  audited = λ id o h. cc;
  unlogged = λ id h. refl;
}

module _ (id : String) (s : ObjectivesStore) (o : Objective) (set : Objective → Objective)
    (kinds : List ObjectiveEventKind) (ts : ℕ) (actor : String) (found : get id s ≡ some o)
    (keeps : (x : Objective) → (set x).id ≡ x.id) (st : Step o (set o) kinds) (h : IsSound s) where
  after : ObjectivesStore
  after = committed id set (append_events id ts actor kinds) s

  after-IsValid : (j : String) (p : Objective) → get j after ≡ some p → IsValid p
  unfolding after
  after-IsValid j p e = elim (Bool-cases (id == j)) [
    | inl same ↦
        let q = get-committed id set keeps s j (append_events id ts actor kinds) in
        subst IsValid (ground (arith, q, eq_iff id j)) (Step-IsValid st (h.valid id o found))
    | inr other ↦
        h.valid j p
          (ground (arith, get-committed id set keeps s j (append_events id ts actor kinds)))
  ]

  after-audited_self :
      replay before_creation (events_of id after.objective_events) ≡ view_of (set o)
  unfolding after
  after-audited_self =
      rw (events_of-logged id id s.objective_events ts actor kinds, eq_refl id)
        (rw (replay-append, replay-append_events, h.audited id o found) (Step-replay st))

  after-audited :
      (j : String) (p : Objective)
      → get j after ≡ some p
      → replay before_creation (events_of j after.objective_events) ≡ view_of p
  unfolding after
  after-audited j p e =
      let q = get-committed id set keeps s j (append_events id ts actor kinds) in
      elim (Bool-cases (id == j)) [
        | inl same ↦
            subst (λ k. replay before_creation (events_of k after.objective_events) ≡ view_of p)
              ((eq_iff id j).0 same)
              (after-audited_self ∙ ap view_of {x = set o} {y = p} (ground (arith, q, eq_iff id j)))
        | inr other ↦
            rw (events_of-logged id j s.objective_events ts actor kinds, other)
              (h.audited j p (ground (arith, q)))
      ]

  after-unlogged : (j : String) → get j after ≡ none → events_of j after.objective_events ≡ []
  unfolding after
  after-unlogged j e = ground (
    arith,
    get-committed id set keeps s j (append_events id ts actor kinds),
    events_of-logged id j s.objective_events ts actor kinds,
    eq_iff id j,
    h.unlogged j,
  )

  pub committed-IsSound : IsSound (committed id set (append_events id ts actor kinds) s)
  unfolding after
  committed-IsSound = record {
    valid = after-IsValid;
    audited = after-audited;
    unlogged = after-unlogged;
  }

pub Outcome-IsSound :
    (id : String) (s : ObjectivesStore) (m : Mutation) → Outcome id s m → IsSound s → IsSound m.1
Outcome-IsSound id s m (refused e eq) h = rw eq h
Outcome-IsSound id s m (idle o found eq) h = rw eq h
Outcome-IsSound id s m (stepped o set kinds ts actor found keeps st eq) h =
    rw eq (committed-IsSound id s o set kinds ts actor found keeps st h)
