-- ===== src/Tokens/History.antt =====
-- Histories of calls of `TokenStore` in apps/server/src/tokens.ts.
-- One call that writes.
use ac.Tokens.Store.{
  InternalTokenRow, InsertHashedTokenInput, TokenStore, find_by_hash, find_by_id, touched_at,
  new_row, insert_row, insert, insert_hashed, has_expired, if_id, touch_now, is_recent, touch,
  revoke, revoke_all_for_member, purge_expired,
}
use ac.Prelude.{
  Bool-cases, Option-cases, is_some, All, All-append, All-keep, ℕ, String, ◌≡◌, subst, inl, inr,
  ◌||◌, not, some, List, [], ◌∷◌, map, arith, ◌==◌,
}

pub data Call : Type 0 where
  insert_call : String → InsertHashedTokenInput → String → ℕ → Call
  insert_hashed_call : InsertHashedTokenInput → String → ℕ → Call
  touch_call : String → ℕ → Call
  touch_now_call : String → ℕ → Call
  revoke_call : String → Call
  revoke_all_call : String → Call
  purge_call : ℕ → Call

abbrev pub hashes : List InternalTokenRow → List String
hashes rs = map (λ r. r.hash) rs

module _ (hash_of : String → String) where
  unfoldable pub perform : Call → TokenStore → TokenStore
  perform (insert_call raw_token input id now) s = (insert hash_of raw_token input id now s).1
  perform (insert_hashed_call input id now) s = (insert_hashed input id now s).1
  perform (touch_call id now) s = touch id now s
  perform (touch_now_call id now) s = touch_now id now s
  perform (revoke_call id) s = (revoke id s).1
  perform (revoke_all_call member) s = (revoke_all_for_member member s).1
  perform (purge_call now) s = (purge_expired now s).1

  unfoldable pub run : List Call → TokenStore → TokenStore
  unfolding perform
  run [] s = s
  run (c ∷ cs) s = run cs (perform c s)

  -- The rows that a call may insert have the property.
  abbrev pub Inserts : (InternalTokenRow → Type 0) → Call → Type 0
  Inserts P (insert_call raw_token input id now) =
      P (new_row (record input { hash = hash_of raw_token }) id now)
  Inserts P (insert_hashed_call input id now) = P (new_row input id now)
  Inserts P (touch_call id now) = Unit
  Inserts P (touch_now_call id now) = Unit
  Inserts P (revoke_call id) = Unit
  Inserts P (revoke_all_call member) = Unit
  Inserts P (purge_call now) = Unit

  -- A property of rows that a touch keeps holds of every row as long as all insertions have it.
  module _ (P : InternalTokenRow → Type 0)
      (keeps_P : (r : InternalTokenRow) (t : ℕ)
        → P r
        → P (record r { last_used_at = some t })) where
    All-if_id :
        (id : String) (now : ℕ) (rs : List InternalTokenRow)
        → All P rs
        → All P (map (if_id id now) rs)
    All-if_id id now [] h = tt
    All-if_id id now (r ∷ rs) h = elim (Bool-cases (r.id == id)) [
      | inl e ↦ rw e (keeps_P r now h.0, All-if_id id now rs h.1)
      | inr e ↦ rw e (h.0, All-if_id id now rs h.1)
    ]

    All-insert_row :
        (row : InternalTokenRow) (s : TokenStore)
        → P row
        → All P s.tokens
        → All P (insert_row row s).1.tokens
    unfolding insert_row
    All-insert_row row s p h =
        elim (Bool-cases
          (is_some (find_by_id row.id s.tokens) || is_some (find_by_hash row.hash s.tokens))) [
            | inl e ↦ rw e h
            | inr e ↦ rw e (All-append P s.tokens (row ∷ []) h (p, tt))
          ]

    perform-All :
        (c : Call) (s : TokenStore) → Inserts P c → All P s.tokens → All P (perform c s).tokens
    unfolding perform insert insert_hashed touch touch_now revoke revoke_all_for_member
        purge_expired
    perform-All (insert_call raw input id now) s p h =
        All-insert_row (new_row (record input { hash = hash_of raw }) id now) s p h
    perform-All (insert_hashed_call input id now) s p h =
        elim (Option-cases (find_by_hash input.hash s.tokens)) [
          | inr (r, e) ↦ rw (e, perform) h
          | inl e ↦ rw (e, perform) (All-insert_row (new_row input id now) s p h)
        ]
    perform-All (touch_call id now) s p h =
        elim (Bool-cases (is_recent now (touched_at id s.last_touched))) [
          | inl e ↦ rw (e, perform) h
          | inr e ↦ rw (e, perform) (All-if_id id now s.tokens h)
        ]
    perform-All (touch_now_call id now) s p h = All-if_id id now s.tokens h
    perform-All (revoke_call id) s p h = All-keep P (λ r. not (r.id == id)) s.tokens h
    perform-All (revoke_all_call member) s p h =
        All-keep P (λ r. not (r.member_name == member)) s.tokens h
    perform-All (purge_call now) s p h =
        All-keep P (λ r. not (has_expired now r.expires_at)) s.tokens h

    pub run-All :
        (cs : List Call) (s : TokenStore)
        → All (Inserts P) cs
        → All P s.tokens
        → All P (run cs s).tokens
    unfolding run
    run-All [] s i h = h
    run-All (c ∷ cs) s i h = run-All cs (perform c s) i.1 (perform-All c s i.0 h)

    pub find-All :
        (h : String) (rs : List InternalTokenRow) (r : InternalTokenRow)
        → All P rs
        → find_by_hash h rs ≡ some r
        → P r
    unfolding find_by_hash
    find-All h [] r a e = cc
    find-All h (x ∷ xs) r a e = elim (Bool-cases (x.hash == h)) [
      | inl q ↦ let same : x ≡ r = ground (arith, e, q) in subst P same a.0
      | inr q ↦ find-All h xs r a.1 (ground (arith, e, q))
    ]
