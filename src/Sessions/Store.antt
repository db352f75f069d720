-- ===== src/Sessions/Store.antt =====
-- `SessionStore` of apps/server/src/sessions.ts, on its table in the order of ROWID. The clock and
-- the random id are arguments.
use ac.Prelude.{
  ltb, if◌then◌else◌, is_some, length, keep, ℕ, ◌+◌, ◌*◌, String, not, Option, none, some, List, [],
  ◌∷◌, ◌++◌, map, ◌==◌,
}

pub record SessionRow : Type 0 where
  pub id : String
  pub member_name : String
  pub created_at : ℕ
  pub expires_at : ℕ
  pub last_seen : ℕ
  pub user_agent : Option String

-- Seven days.
abbrev pub session_ttl_ms : ℕ
session_ttl_ms = 7 * 24 * 60 * 60 * 1000

abbrev pub Sessions : Type 0
Sessions = List SessionRow

unfoldable pub select : String → Sessions → Option SessionRow
select id [] = none
select id (r ∷ rs) = let rest = select id rs in if r.id == id then some r else rest

-- `none` is the failure of the INSERT on an id that is taken.
unfoldable pub create :
    String → Option String → String → ℕ → Sessions → Option SessionRow × Sessions
unfolding select
create member_name user_agent id now rs =
    let row : SessionRow = record {
      id = id;
      member_name = member_name;
      created_at = now;
      expires_at = now + session_ttl_ms;
      last_seen = now;
      user_agent = user_agent;
    } in
    if is_some (select id rs) then (none, rs) else (some row, rs ++ row ∷ [])

unfoldable pub get : String → ℕ → Sessions → Option SessionRow
unfolding select
get id now rs = elim (select id rs) [
  | none ↦ none
  | some row ↦ if ltb row.expires_at now then none else some row
]

abbrev pub if_id : String → ℕ → SessionRow → SessionRow
if_id id now r =
    if r.id == id then record r { last_seen = now; expires_at = now + session_ttl_ms } else r

unfoldable pub touch : String → ℕ → Sessions → Sessions
touch id now rs = map (if_id id now) rs

unfoldable pub delete : String → Sessions → Sessions
delete id rs = keep (λ r. not (r.id == id)) rs

unfoldable pub purge_expired : ℕ → Sessions → ℕ × Sessions
purge_expired now rs =
    (length (keep (λ r. ltb r.expires_at now) rs), keep (λ r. not (ltb r.expires_at now)) rs)
