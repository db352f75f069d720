-- ===== src/Enrollments/Store.antt =====
-- The statements of `EnrollmentStore` in apps/server/src/enrollments.ts, on the table in the order
-- of ROWID, and the texts that it builds.
use Prim.Native.String
use ac.Prelude.Text.{slice_units, drop_units, length_units}
use ac.Prelude.{
  eqb, if◌then◌else◌, keep, ℕ, ◌*◌, String, Bool, true, false, ◌&&◌, ◌||◌, not, Option, none, some,
  List, [], ◌∷◌, ◌==◌, map,
}
use ac.Enrollments.Types.{EnrollmentStatus, EnrollmentRow}

abbrev pub enrollment_ttl_ms : ℕ
enrollment_ttl_ms = 5 * 60 * 1000

abbrev pub default_poll_interval_s : ℕ
default_poll_interval_s = 5

abbrev pub slow_down_threshold_ms : ℕ
slow_down_threshold_ms = 2500

abbrev pub Table : Type 0
Table = List EnrollmentRow

abbrev pub is_pending : EnrollmentStatus → Bool
is_pending EnrollmentStatus.pending = true
is_pending EnrollmentStatus.approved = false
is_pending EnrollmentStatus.rejected = false

unfoldable pub find_by_code : String → Table → Option EnrollmentRow
find_by_code user_code [] = none
find_by_code user_code (r ∷ rs) =
    let rest = find_by_code user_code rs in if r.user_code == user_code then some r else rest

unfoldable pub find_by_hash : String → Table → Option EnrollmentRow
find_by_hash hash [] = none
find_by_hash hash (r ∷ rs) =
    let rest = find_by_hash hash rs in if r.device_code_hash == hash then some r else rest

-- An UPDATE of the pending row under a user code, and whether it changed one.
abbrev pub if_pending : String → (EnrollmentRow → EnrollmentRow) → EnrollmentRow → EnrollmentRow
if_pending user_code set r = if r.user_code == user_code && is_pending r.status then set r else r

unfoldable pub update_pending : String → (EnrollmentRow → EnrollmentRow) → Table → Table
update_pending user_code set rs = map (if_pending user_code set) rs

unfoldable pub has_pending : String → Table → Bool
has_pending user_code [] = false
has_pending user_code (r ∷ rs) =
    r.user_code == user_code && is_pending r.status || has_pending user_code rs

unfoldable pub delete_by_hash : String → Table → Table
delete_by_hash hash rs = keep (λ r. not (r.device_code_hash == hash)) rs

abbrev pub if_hash : String → ℕ → EnrollmentRow → EnrollmentRow
if_hash hash now r =
    if r.device_code_hash == hash then record r { last_polled_at = some now } else r

unfoldable pub touch_poll : ℕ → String → Table → Table
touch_poll now hash rs = map (if_hash hash now) rs

abbrev pub user_code_len : ℕ
user_code_len = 8

-- A user code has no character past the basic plane, so a cut splits no pair.
unfoldable pub format_user_code : String → String
unfolding slice_units drop_units length_units
format_user_code internal =
    if eqb (length_units internal) user_code_len
    then String.◌++◌ (slice_units 4 internal) (String.◌++◌ "-" (drop_units 4 internal))
    else internal

abbrev pub or_blank : Option String → String
or_blank none = ""
or_blank (some s) = s
