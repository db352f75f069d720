-- ===== src/Objectives/Effects.antt =====
-- What the statements of apps/server/src/objectives.ts do to the reads by id.
use ac.Prelude.{
  ℕ, String, ◌≡◌, refl, Option, none, some, List, [], ◌∷◌, ◌++◌, arith, ◌==◌, eq_iff, eq_refl, ok,
  err, keep-append, is_some, append-nil, if◌then◌else◌,
}
use ac.Objectives.Types.{Objective, ObjectiveEvent, ObjectiveEventKind, Thrown}
use ac.Objectives.Rows.{find_objective, update_row, events_of}
use ac.Objectives.Table.{ObjectivesStore, get, append_events, reread, commit, insert}
use ac.Objectives.Reading.{events}

abbrev map_option : (Objective → Objective) → Option Objective → Option Objective
map_option set none = none
map_option set (some o) = some (set o)

-- A row that is found by an id has that id.
pub find_objective-id :
    (id : String) (rows : List Objective) (o : Objective)
    → find_objective id rows ≡ some o
    → o.id ≡ id
unfolding find_objective
find_objective-id id [] o h = cc
find_objective-id id (r ∷ rows) o h = ground (arith, eq_iff r.id id, find_objective-id id rows o)

find_objective-update_row :
    (id j : String) (set : Objective → Objective) (keeps : (o : Objective) → (set o).id ≡ o.id)
    (rows : List Objective)
    → find_objective j (update_row id set rows)
      ≡ (if id == j then map_option set (find_objective j rows) else find_objective j rows)
unfolding find_objective update_row
find_objective-update_row id j set keeps [] = ground arith
find_objective-update_row id j set keeps (r ∷ rows) = ground (
  arith,
  keeps r,
  eq_iff id j,
  eq_iff r.id id,
  eq_iff r.id j,
  eq_iff (set r).id j,
  find_objective-update_row id j set keeps rows,
)

find_objective-append :
    (j : String) (rows : List Objective) (row : Objective)
    → find_objective j (rows ++ row ∷ []) ≡ (
        if is_some (find_objective j rows)
        then find_objective j rows
        else if row.id == j
        then some row
        else none)
unfolding find_objective
find_objective-append j [] row = refl
find_objective-append j (r ∷ rows) row = ground (arith, find_objective-append j rows row)

events_of-append_events :
    (id j : String) (ts : ℕ) (actor : String) (kinds : List ObjectiveEventKind)
    → events_of j (append_events id ts actor kinds)
      ≡ (if id == j then append_events id ts actor kinds else [])
unfolding events_of
events_of-append_events id j ts actor [] = ground arith
events_of-append_events id j ts actor (k ∷ kinds) =
    ground (arith, events_of-append_events id j ts actor kinds)

-- The store after a committed UPDATE.
abbrev pub committed :
    String → (Objective → Objective) → List ObjectiveEvent → ObjectivesStore → ObjectivesStore
committed id set events s = record s {
  objectives = update_row id set s.objectives;
  objective_events = s.objective_events ++ events;
}

-- The store after a committed INSERT.
abbrev pub inserted : Objective → List ObjectiveEvent → ObjectivesStore → ObjectivesStore
inserted row events s = record s {
  objectives = s.objectives ++ row ∷ [];
  objective_events = s.objective_events ++ events;
}

module _ (id : String) (set : Objective → Objective) (keeps : (o : Objective) → (set o).id ≡ o.id)
    (s : ObjectivesStore) where
  pub get-committed :
      (j : String) (events : List ObjectiveEvent)
      → get j (committed id set events s) ≡ (if id == j then map_option set (get j s) else get j s)
  unfolding get
  get-committed j events = find_objective-update_row id j set keeps s.objectives

  -- The read that ends a transaction finds the row that it wrote.
  pub commit-eq-ok :
      (events : List ObjectiveEvent) (o : Objective)
      → get id s ≡ some o
      → commit id set events s
        ≡ (ok (record { objective = set o; events = events }), committed id set events s)
  unfolding commit reread get
  commit-eq-ok events o h =
      ground (arith, find_objective-update_row id id set keeps s.objectives, eq_refl id)

-- The log of one objective after events of one mutation.
pub events_of-logged :
    (id j : String) (es : List ObjectiveEvent) (ts : ℕ) (actor : String)
    (kinds : List ObjectiveEventKind)
    → events_of j (es ++ append_events id ts actor kinds)
      ≡ (if id == j then events_of j es ++ append_events id ts actor kinds else events_of j es)
unfolding events_of
events_of-logged id j es ts actor kinds = ground (
  arith,
  keep-append (λ (e : ObjectiveEvent). e.objective_id == j) es (append_events id ts actor kinds),
  events_of-append_events id j ts actor kinds,
  append-nil (events_of j es),
)

module _ (row : Objective) (s : ObjectivesStore) where
  pub get-inserted :
      (j : String) (events : List ObjectiveEvent)
      → get j (inserted row events s)
        ≡ (if is_some (get j s) then get j s else if row.id == j then some row else none)
  unfolding get
  get-inserted j events = find_objective-append j s.objectives row

  -- A fresh id is inserted, and the read that ends the transaction finds the row.
  pub insert-eq-ok :
      (events : List ObjectiveEvent)
      → get row.id s ≡ none
      → insert row events s
        ≡ (ok (record { objective = row; events = events }), inserted row events s)
  unfolding insert reread get
  insert-eq-ok events h =
      ground (arith, find_objective-append row.id s.objectives row, eq_refl row.id)

  -- A taken id fails by the constraint, with the tables as they were.
  pub insert-eq-err :
      (events : List ObjectiveEvent) (o : Objective)
      → get row.id s ≡ some o
      → insert row events s ≡ (err Thrown.constraint, s)
  unfolding insert reread get
  insert-eq-err events o h = ground arith
