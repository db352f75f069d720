-- ===== src/Objectives/Reading.antt =====
-- apps/server/src/objectives.ts: the reads, `list` and `events`.
use Prim.Native.Nat.{Ordering}
use Prim.Native.String.{compare}
use ac.Prelude.{
  String, Bool, true, false, ◌&&◌, ◌||◌, Option, none, some, List, ◌==◌, keep, ltb, eqb, ◌≤◌, arith,
}
use mathlib.Core.List.{Perm}
use ac.Objectives.Types.{Objective, ObjectiveStatus, ObjectiveEvent, same_status}
use ac.Objectives.Rows.{events_of}
use ac.Prelude.Sort.{order_by, order_by-perm, IsOrdered, order_by-IsOrdered}
use ac.Objectives.Table.{ObjectivesStore}

-- The order of SQLite's BINARY collation.
abbrev text_lt : String → String → Bool
text_lt a b = elim (compare a b) [ Ordering.lt ↦ true | _ ↦ false ]

-- ORDER BY created_at DESC, id DESC: `y` goes in front of `x`.
abbrev pub newer : Objective → Objective → Bool
newer x y = ltb x.created_at y.created_at || (eqb x.created_at y.created_at && text_lt x.id y.id)

-- An empty assignee is falsy, which asks for no filter.
abbrev pub assignee_fits : Option String → Objective → Bool
assignee_fits none o = true
assignee_fits (some assignee) o = assignee == "" || o.assignee == assignee

abbrev pub status_fits : Option ObjectiveStatus → Objective → Bool
status_fits none o = true
status_fits (some status) o = same_status o.status status

unfoldable pub list : Option String → Option ObjectiveStatus → ObjectivesStore → List Objective
list assignee status s =
    order_by newer (keep (λ o. assignee_fits assignee o && status_fits status o) s.objectives)

-- ORDER BY ts ASC, ROWID ASC
unfoldable pub events : String → ObjectivesStore → List ObjectiveEvent
events id s = order_by (λ x y. ltb y.ts x.ts) (events_of id s.objective_events)

-- `list` returns the stored rows that fit the filters, each as often as it is stored, with the
-- newest first.
pub list_lem :
    (assignee : Option String) (status : Option ObjectiveStatus) (s : ObjectivesStore)
    → Perm
        (list assignee status s)
        (keep (λ o. assignee_fits assignee o && status_fits status o) s.objectives)
      × IsOrdered (λ x y. y.created_at ≤ x.created_at) (list assignee status s)
unfolding list
list_lem assignee status s = (
  order_by-perm newer _,
  order_by-IsOrdered (λ x y. y.created_at ≤ x.created_at) newer (λ x y z p q. omega arith)
      (λ x y e. ground arith) (λ x y e. ground arith) _,
)
