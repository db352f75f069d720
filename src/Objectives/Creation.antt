-- ===== src/Objectives/Creation.antt =====
-- What `create` of apps/server/src/objectives.ts came to, on every branch.
use ac.Objectives.{collect_watchers, added_kinds, created_row, create}
use ac.Prelude.{
  Bool-cases, Option-cases, ok, err, or_empty, ℕ, ◌+◌, ◌%◌, String, ◌≡◌, refl, ◌∙◌, subst, inl, inr,
  false, none, some, List, [], ◌∷◌, arith, ◌==◌, eq_iff, eq_refl,
}
use ac.Prelude.Text.{trim}
use ac.Objectives.Watchers.{collect_watchers-without, collect_watchers-IsDistinct}
use ac.Objectives.Effects.{inserted, events_of-logged, get-inserted, insert-eq-ok, insert-eq-err}
use ac.Objectives.Lifecycle.{IsValid}
use ac.Objectives.Table.{ObjectivesStore, Mutation, get, append_events, insert}
use ac.Objectives.Invariant.{IsSound}
use ac.Objectives.Types.{
  ObjectiveStatus, Objective, ObjectiveEventKind, ObjectiveEvent, CreateObjectiveRequest,
  invalid_input, Thrown, objectives_error, constraint,
}
use ac.Objectives.Audit.{view_of, before_creation, replay, replay-append_events, replay-added}
use ac.Objectives.Rows.{events_of}

-- What `create` came to: it threw and left the tables, or inserted a valid row with its events.
pub data Created (s : ObjectivesStore) (m : Mutation) : Type 0 where
  refused_create :
      (e : Thrown) (counter : ℕ)
      → m ≡ (err e, record s { objective_counter = counter })
      → Created s m
  created :
      (row : Objective) (title outcome : String) (ts counter : ℕ)
      → get row.id s ≡ none
      → IsValid row
      → row.status ≡ ObjectiveStatus.active
      → row.result ≡ none
      → m ≡ (
        ok (record {
          objective = row;
          events = append_events row.id ts row.originator (
              ObjectiveEventKind.assigned title outcome row.assignee row.watchers
              ∷ added_kinds row.watchers);
        }),
        inserted row
            (append_events row.id ts row.originator (
              ObjectiveEventKind.assigned title outcome row.assignee row.watchers
              ∷ added_kinds row.watchers))
            (record s { objective_counter = counter }),
      )
      → Created s m

created_row-IsValid :
    (id title body outcome : String) (input : CreateObjectiveRequest) (originator : String)
    (now : ℕ)
    → (title == "") ≡ false
    → (outcome == "") ≡ false
    → IsValid (
        created_row id title body outcome
          (collect_watchers (input.assignee ∷ originator ∷ []) [] (or_empty input.watchers))
          input
          originator
          now)
created_row-IsValid id title body outcome input originator now t u =
    let seen = input.assignee ∷ originator ∷ [] in
    let ws = or_empty input.watchers in
    record {
      titled = ground (arith, eq_iff title "");
      contractual = ground (arith, eq_iff outcome "");
      reason = refl;
      result = (refl, refl);
      watchers_distinct = collect_watchers-IsDistinct seen [] ws tt (λ a h. refl);
      watchers_named = collect_watchers-without "" seen [] ws (ground (arith, eq_refl "")) refl;
      originator_implicit =
          collect_watchers-without originator seen [] ws (ground (arith, eq_refl originator)) refl;
    }

pub get_any_counter :
    (id : String) (s : ObjectivesStore) (n : ℕ)
    → get id (record s { objective_counter = n }) ≡ get id s
unfolding get
get_any_counter id s n = refl

abbrev pub creation_events : Objective → String → String → ℕ → List ObjectiveEvent
creation_events row title outcome ts =
    append_events row.id ts row.originator (
      ObjectiveEventKind.assigned title outcome row.assignee row.watchers
      ∷ added_kinds row.watchers)

insert-Created :
    (row : Objective) (title outcome : String) (ts counter : ℕ) (s : ObjectivesStore)
    → IsValid row
    → row.status ≡ ObjectiveStatus.active
    → row.result ≡ none
    → Created s (
        insert row
          (creation_events row title outcome ts)
          (record s { objective_counter = counter }))
insert-Created row title outcome ts counter s v a r =
    let s' : ObjectivesStore = record s { objective_counter = counter } in
    let events = creation_events row title outcome ts in
    elim (Option-cases (get row.id s)) [
      | inl free ↦
          created row title outcome ts counter free v a r
            (insert-eq-ok row s' events (get_any_counter row.id s counter ∙ free))
      | inr (o, taken) ↦
          refused_create constraint counter
            (insert-eq-err row s' events o (get_any_counter row.id s counter ∙ taken))
    ]

pub create-Created :
    (input : CreateObjectiveRequest) (originator : String) (now clock : ℕ) (s : ObjectivesStore)
    → Created s (create input originator now clock s)
unfolding create
create-Created input originator now clock s = elim (Bool-cases (trim input.title == "")) [
  | inl e ↦ refused_create (objectives_error invalid_input) s.objective_counter (rw (e, create))
  | inr t ↦ elim (Bool-cases (trim input.outcome == "")) [
    | inl e ↦
        refused_create (objectives_error invalid_input) s.objective_counter (rw (t, create) (rw e))
    | inr u ↦
        rw (t, create)
          (rw u (
            insert-Created _ (trim input.title) (trim input.outcome) now
              ((s.objective_counter + 1) % 65536) s
              (created_row-IsValid _ (trim input.title) _ (trim input.outcome) input originator now
                t u)
              refl refl))
  ]
]

module _ (s : ObjectivesStore) (row : Objective) (title outcome : String) (ts : ℕ)
    (free : get row.id s ≡ none) (v : IsValid row) (a : row.status ≡ ObjectiveStatus.active)
    (r : row.result ≡ none) (h : IsSound s) where
  kinds : List ObjectiveEventKind
  kinds =
      ObjectiveEventKind.assigned title outcome row.assignee row.watchers ∷ added_kinds row.watchers

  new_store : ObjectivesStore
  new_store = inserted row (creation_events row title outcome ts) s

  replay_creation :
      replay before_creation (append_events row.id ts row.originator kinds) ≡ view_of row
  unfolding kinds
  replay_creation =
      replay-append_events before_creation row.id ts row.originator kinds
      ∙ replay-added
          (record {
            status = ObjectiveStatus.active;
            assignee = row.assignee;
            watchers = [];
            result = none;
          })
          row.watchers
      ∙ ground arith

  new-IsValid : (j : String) (p : Objective) → get j new_store ≡ some p → IsValid p
  unfolding new_store
  new-IsValid j p e =
      let q = get-inserted row s j (creation_events row title outcome ts) in
      elim (Option-cases (get j s)) [
        | inl n ↦ subst IsValid {x = row} {y = p} (ground (arith, q)) v
        | inr (o, found) ↦ h.valid j p (ground (arith, q))
      ]

  new-audited :
      (j : String) (p : Objective)
      → get j new_store ≡ some p
      → replay before_creation (events_of j new_store.objective_events) ≡ view_of p
  unfolding new_store kinds
  new-audited j p e =
      let q = get-inserted row s j (creation_events row title outcome ts) in
      let l = events_of-logged row.id j s.objective_events ts row.originator kinds in
      elim (Option-cases (get j s)) [
        | inl n ↦ ground (arith, q, l, h.unlogged j n, replay_creation, eq_iff row.id j)
        | inr (o, found) ↦ ground (arith, q, l, h.audited j o found, free, eq_iff row.id j)
      ]

  new-unlogged : (j : String) → get j new_store ≡ none → events_of j new_store.objective_events ≡ []
  unfolding new_store kinds
  new-unlogged j e = ground (
    arith,
    get-inserted row s j (creation_events row title outcome ts),
    events_of-logged row.id j s.objective_events ts row.originator kinds,
    h.unlogged j,
  )

  pub inserted-IsSound : IsSound (inserted row (creation_events row title outcome ts) s)
  unfolding new_store
  inserted-IsSound = record { valid = new-IsValid; audited = new-audited; unlogged = new-unlogged }
