-- ===== src/Tokens/Store.antt =====
-- `TokenStore` of apps/server/src/tokens.ts: the table in the order of ROWID and the map
-- `lastTouched`. The hash is a parameter, the clock and the random id are arguments.
use ac.Prelude.Text.{slice_units}
use ac.Prelude.{
  ltb, if◌then◌else◌, is_some, length, keep, ℕ, ◌+◌, String, Bool, false, ◌||◌, not, Option, none,
  some, List, [], ◌∷◌, ◌++◌, map, ◌==◌,
}
use ac.Prelude.Sort.{order_by}

pub data TokenOrigin : Type 0 where
  bootstrap rotate enroll : TokenOrigin

pub record InternalTokenRow : Type 0 where
  pub id : String
  pub member_name : String
  pub hash : String
  pub label : String
  pub origin : TokenOrigin
  pub created_at : ℕ
  pub last_used_at : Option ℕ
  pub expires_at : Option ℕ
  pub created_by : Option String

pub record InsertHashedTokenInput : Type 0 where
  pub member_name : String
  pub hash : String
  pub label : Option String
  pub origin : Option TokenOrigin
  pub expires_at : Option ℕ
  pub created_by : Option String

pub record TokenStore : Type 0 where
  pub tokens : List InternalTokenRow
  pub last_touched : List (String × ℕ)

abbrev pub last_used_debounce_ms : ℕ
last_used_debounce_ms = 30000

unfoldable pub find_by_hash : String → List InternalTokenRow → Option InternalTokenRow
find_by_hash hash [] = none
find_by_hash hash (r ∷ rs) =
    let rest = find_by_hash hash rs in if r.hash == hash then some r else rest

unfoldable pub find_by_id : String → List InternalTokenRow → Option InternalTokenRow
find_by_id id [] = none
find_by_id id (r ∷ rs) = let rest = find_by_id id rs in if r.id == id then some r else rest

-- `lastTouched.get`, `set` and `delete`
unfoldable pub touched_at : String → List (String × ℕ) → Option ℕ
touched_at id [] = none
touched_at id ((key, t) ∷ es) = let rest = touched_at id es in if key == id then some t else rest

abbrev pub without : String → List (String × ℕ) → List (String × ℕ)
without id es = keep (λ e. not (e.0 == id)) es

abbrev pub or_blank : Option String → String
or_blank none = ""
or_blank (some s) = s

abbrev pub or_bootstrap : Option TokenOrigin → TokenOrigin
or_bootstrap none = TokenOrigin.bootstrap
or_bootstrap (some o) = o

abbrev pub new_row : InsertHashedTokenInput → String → ℕ → InternalTokenRow
new_row input id now = record {
  id = id;
  member_name = input.member_name;
  hash = input.hash;
  label = slice_units 64 (or_blank input.label);
  origin = or_bootstrap input.origin;
  created_at = now;
  last_used_at = none;
  expires_at = input.expires_at;
  created_by = input.created_by;
}

-- The INSERT, which fails on an id or a hash that is taken; `none` is that failure.
unfoldable pub insert_row : InternalTokenRow → TokenStore → Option InternalTokenRow × TokenStore
insert_row row s =
    if is_some (find_by_id row.id s.tokens) || is_some (find_by_hash row.hash s.tokens)
    then (none, s)
    else (some row, record s { tokens = s.tokens ++ row ∷ [] })

-- `insert` takes the raw token in place of the hash.
unfoldable pub insert :
    (String → String)
    → String
    → InsertHashedTokenInput
    → String
    → ℕ
    → TokenStore
    → Option InternalTokenRow × TokenStore
unfolding insert_row
insert hash_of raw_token input id now s =
    insert_row (new_row (record input { hash = hash_of raw_token }) id now) s

unfoldable pub insert_hashed :
    InsertHashedTokenInput → String → ℕ → TokenStore → Option InternalTokenRow × TokenStore
unfolding insert_row
insert_hashed input id now s = elim (find_by_hash input.hash s.tokens) [
  | some existing ↦ (some existing, s)
  | none ↦ insert_row (new_row input id now) s
]

abbrev pub has_expired : ℕ → Option ℕ → Bool
has_expired now none = false
has_expired now (some t) = ltb t now

unfoldable pub resolve : (String → String) → String → ℕ → TokenStore → Option InternalTokenRow
resolve hash_of raw_token now s = elim (find_by_hash (hash_of raw_token) s.tokens) [
  | none ↦ none
  | some row ↦
      if has_expired now row.expires_at
      then none
      else if row.hash == hash_of raw_token
      then some row
      else none
]

-- ORDER BY created_at ASC
unfoldable pub list_for_member : String → ℕ → TokenStore → List InternalTokenRow
list_for_member member_name now s =
    keep (λ r. not (has_expired now r.expires_at))
      (order_by (λ x y. ltb y.created_at x.created_at)
        (keep (λ r. r.member_name == member_name) s.tokens))

abbrev pub if_id : String → ℕ → InternalTokenRow → InternalTokenRow
if_id id now r = if r.id == id then record r { last_used_at = some now } else r

unfoldable pub touch_now : String → ℕ → TokenStore → TokenStore
touch_now id now s = record {
  tokens = map (if_id id now) s.tokens;
  last_touched = (id, now) ∷ without id s.last_touched;
}

-- `last !== undefined && t - last < LAST_USED_DEBOUNCE_MS`
abbrev pub is_recent : ℕ → Option ℕ → Bool
is_recent now none = false
is_recent now (some last) = ltb now (last + last_used_debounce_ms)

unfoldable pub touch : String → ℕ → TokenStore → TokenStore
unfolding touch_now touched_at
touch id now s = if is_recent now (touched_at id s.last_touched) then s else touch_now id now s

unfoldable pub revoke : String → TokenStore → Bool × TokenStore
revoke id s = (
  is_some (find_by_id id s.tokens),
  record {
    tokens = keep (λ r. not (r.id == id)) s.tokens;
    last_touched = without id s.last_touched;
  },
)

unfoldable pub revoke_all_for_member : String → TokenStore → ℕ × TokenStore
revoke_all_for_member member_name s = (
  length (keep (λ r. r.member_name == member_name) s.tokens),
  record s { tokens = keep (λ r. not (r.member_name == member_name)) s.tokens },
)

unfoldable pub purge_expired : ℕ → TokenStore → ℕ × TokenStore
purge_expired now s = (
  length (keep (λ r. has_expired now r.expires_at) s.tokens),
  record s { tokens = keep (λ r. not (has_expired now r.expires_at)) s.tokens },
)
