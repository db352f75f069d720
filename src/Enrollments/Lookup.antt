-- ===== src/Enrollments/Lookup.antt =====
-- What a device code finds, after the changes of apps/server/src/enrollments.ts.
use mathlib.Core.Option
use ac.Prelude.{
  keep, String, ◌≡◌, refl, ◌≢◌, Bool, true, none, some, [], ◌∷◌, ◌++◌, map, arith, eq_iff,
}
use ac.Enrollments.Types.{EnrollmentRow}
use ac.Enrollments.Store.{Table, is_pending, find_by_hash, has_pending, delete_by_hash}

pub find_by_hash-map :
    (f : EnrollmentRow → EnrollmentRow) (h : String) (rs : Table)
    → ((r : EnrollmentRow) → (f r).device_code_hash ≡ r.device_code_hash)
    → find_by_hash h (map f rs) ≡ Option.map f (find_by_hash h rs)
unfolding find_by_hash
find_by_hash-map f h [] g = refl
find_by_hash-map f h (r ∷ rs) g = ground (arith, find_by_hash-map f h rs g, g r)

pub find_by_hash-delete : (h : String) (rs : Table) → find_by_hash h (delete_by_hash h rs) ≡ none
unfolding find_by_hash delete_by_hash
find_by_hash-delete h [] = refl
find_by_hash-delete h (r ∷ rs) = ground (arith, find_by_hash-delete h rs)

pub find_by_hash-keep-none :
    (p : EnrollmentRow → Bool) (h : String) (rs : Table)
    → find_by_hash h rs ≡ none
    → find_by_hash h (keep p rs) ≡ none
unfolding find_by_hash
find_by_hash-keep-none p h [] e = refl
find_by_hash-keep-none p h (r ∷ rs) e = ground (arith, find_by_hash-keep-none p h rs)

pub find_by_hash-snoc-none :
    (h : String) (rs : Table) (r : EnrollmentRow)
    → find_by_hash h rs ≡ none
    → r.device_code_hash ≢ h
    → find_by_hash h (rs ++ r ∷ []) ≡ none
unfolding find_by_hash
find_by_hash-snoc-none h [] r e n = ground (arith, eq_iff r.device_code_hash h)
find_by_hash-snoc-none h (x ∷ xs) r e n = ground (arith, find_by_hash-snoc-none h xs r)

-- A pending row that is found is one that an approval or a rejection changes.
pub has_pending_found :
    (h : String) (rs : Table) (r : EnrollmentRow)
    → find_by_hash h rs ≡ some r
    → is_pending r.status ≡ true
    → has_pending r.user_code rs ≡ true
unfolding find_by_hash has_pending
has_pending_found h [] r e p = cc
has_pending_found h (x ∷ xs) r e p =
    ground (arith, has_pending_found h xs r, eq_iff x.user_code r.user_code)
