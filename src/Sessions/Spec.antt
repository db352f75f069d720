-- ===== src/Sessions/Spec.antt =====
-- What a session id stands for, and that the store of apps/server/src/sessions.ts implements it.
use mathlib.Core.Option
use ac.Sessions.Store.{
  create, get, purge_expired, SessionRow, session_ttl_ms, Sessions, select, if_id, touch, delete,
}
use ac.Prelude.{
  ltb, if◌then◌else◌, Bool-cases, is_some, keep, includes, IsDistinct, IsDistinct-snoc, ℕ, ◌+◌,
  String, ◌≡◌, refl, ap, ◌∙◌, inl, inr, Bool, false, not, Option, none, some, List, [], ◌∷◌, ◌++◌,
  map, arith, ◌==◌, eq_iff, Option-cases,
}

-- One call that writes.
pub data Call : Type 0 where
  create_call : String → Option String → String → ℕ → Call
  touch_call : String → ℕ → Call
  delete_call : String → Call
  purge_call : ℕ → Call

unfoldable pub perform : Call → Sessions → Sessions
perform (create_call member user_agent id now) rs = (create member user_agent id now rs).1
perform (touch_call id now) rs = touch id now rs
perform (delete_call id) rs = delete id rs
perform (purge_call now) rs = (purge_expired now rs).1

unfoldable pub run : List Call → Sessions → Sessions
unfolding perform
run [] rs = rs
run (c ∷ cs) rs = run cs (perform c rs)

-- An id is bound to a member until a moment, or to nothing.
abbrev pub Binding : Type 0
Binding = Option (String × ℕ)

abbrev pub opens : String → ℕ → Binding → Binding
opens member now none = some (member, now + session_ttl_ms)
opens member now (some b) = some b

abbrev pub slides : ℕ → Binding → Binding
slides now none = none
slides now (some (member, until)) = some (member, now + session_ttl_ms)

abbrev pub expires : ℕ → Binding → Binding
expires now none = none
expires now (some (member, until)) = if ltb until now then none else some (member, until)

-- What a call does to the binding of one id; calls for other ids do nothing to it.
abbrev pub follow : String → Call → Binding → Binding
follow a (create_call member user_agent id now) b = if id == a then opens member now b else b
follow a (touch_call id now) b = if id == a then slides now b else b
follow a (delete_call id) b = if id == a then none else b
follow a (purge_call now) b = expires now b

abbrev pub follow_all : String → List Call → Binding → Binding
follow_all a [] b = b
follow_all a (c ∷ cs) b = follow_all a cs (follow a c b)

abbrev pub binding_of : String → Sessions → Binding
binding_of a rs = Option.map (λ r. (r.member_name, r.expires_at)) (select a rs)

abbrev pub ids : Sessions → List String
ids rs = map (λ r. r.id) rs

-- No id stands twice, as the primary key has it.
abbrev pub HasKeys : Sessions → Type 0
HasKeys rs = IsDistinct (ids rs)

includes-ids : (rs : Sessions) (a : String) → includes (ids rs) a ≡ is_some (select a rs)
unfolding select
includes-ids [] a = refl
includes-ids (r ∷ rs) a = ground (arith, includes-ids rs a)

ids-touch : (id : String) (now : ℕ) (rs : Sessions) → ids (map (if_id id now) rs) ≡ ids rs
ids-touch id now [] = refl
ids-touch id now (r ∷ rs) = ground (arith, ids-touch id now rs)

ids-snoc : (rs : Sessions) (r : SessionRow) → ids (rs ++ r ∷ []) ≡ ids rs ++ r.id ∷ []
ids-snoc [] r = refl
ids-snoc (x ∷ xs) r = ap (λ ks. x.id ∷ ks) (ids-snoc xs r)

includes-ids-keep :
    (p : SessionRow → Bool) (rs : Sessions) (a : String)
    → includes (ids rs) a ≡ false
    → includes (ids (keep p rs)) a ≡ false
includes-ids-keep p [] a h = refl
includes-ids-keep p (r ∷ rs) a h = ground (arith, includes-ids-keep p rs a)

keep-HasKeys : (p : SessionRow → Bool) (rs : Sessions) → HasKeys rs → HasKeys (keep p rs)
keep-HasKeys p [] h = tt
keep-HasKeys p (r ∷ rs) h = ground (arith, keep-HasKeys p rs h.1, includes-ids-keep p rs r.id h.0)

perform-HasKeys : (c : Call) (rs : Sessions) → HasKeys rs → HasKeys (perform c rs)
unfolding perform create touch delete purge_expired
perform-HasKeys (create_call member user_agent id now) rs h =
    elim (Bool-cases (is_some (select id rs))) [
      | inl t ↦ rw (t, perform) h
      | inr t ↦
          rw (t, perform, ids-snoc)
            (IsDistinct-snoc (ids rs) id h (ground (arith, includes-ids rs id)))
    ]
perform-HasKeys (touch_call id now) rs h = rw (ids-touch id now rs) h
perform-HasKeys (delete_call id) rs h = keep-HasKeys (λ r. not (r.id == id)) rs h
perform-HasKeys (purge_call now) rs h = keep-HasKeys (λ r. not (ltb r.expires_at now)) rs h

select-snoc :
    (rs : Sessions) (r : SessionRow) (a : String)
    → select a (rs ++ r ∷ [])
      ≡ (if is_some (select a rs) then select a rs else if r.id == a then some r else none)
unfolding select
select-snoc [] r a = ground arith
select-snoc (x ∷ xs) r a = ground (arith, select-snoc xs r a)

select-touch :
    (id : String) (now : ℕ) (rs : Sessions) (a : String)
    → select a (map (if_id id now) rs) ≡ Option.map (if_id id now) (select a rs)
unfolding select
select-touch id now [] a = refl
select-touch id now (r ∷ rs) a = ground (arith, select-touch id now rs a)

select-delete :
    (id : String) (rs : Sessions) (a : String)
    → select a (delete id rs) ≡ (if id == a then none else select a rs)
unfolding select delete
select-delete id [] a = ground arith
select-delete id (r ∷ rs) a =
    ground (arith, select-delete id rs a, eq_iff r.id id, eq_iff r.id a, eq_iff id a)

select-id : (rs : Sessions) (a : String) (r : SessionRow) → select a rs ≡ some r → r.id ≡ a
unfolding select
select-id [] a r h = cc
select-id (x ∷ xs) a r h = ground (arith, select-id xs a r, eq_iff x.id a)

-- Of a row that the test keeps, or drops; the ids stand once.
select-keep :
    (p : SessionRow → Bool) (rs : Sessions) (a : String)
    → HasKeys rs
    → select a (keep p rs)
      ≡ elim (select a rs) [ none ↦ none | some r ↦ if p r then some r else none ]
unfolding select
select-keep p [] a h = refl
select-keep p (r ∷ rs) a h =
    ground (arith, select-keep p rs a h.1, eq_iff r.id a, includes-ids rs r.id, h.0)

perform-follow :
    (c : Call) (rs : Sessions) (a : String)
    → HasKeys rs
    → binding_of a (perform c rs) ≡ follow a c (binding_of a rs)
unfolding perform create touch purge_expired
perform-follow (create_call member user_agent id now) rs a h =
    let row : SessionRow = record {
      id = id;
      member_name = member;
      created_at = now;
      expires_at = now + session_ttl_ms;
      last_seen = now;
      user_agent = user_agent;
    } in
    ground (arith, select-snoc rs row a, eq_iff id a)
perform-follow (touch_call id now) rs a h = elim (Option-cases (select a rs)) [
  | inl e ↦ ground (arith, select-touch id now rs a, e)
  | inr (r, e) ↦
      ground (arith, select-touch id now rs a, e, select-id rs a r e, eq_iff id a, eq_iff r.id id)
]
perform-follow (delete_call id) rs a h = ground (arith, select-delete id rs a)
perform-follow (purge_call now) rs a h =
    ground (arith, select-keep (λ r. not (ltb r.expires_at now)) rs a h)

run-follow :
    (cs : List Call) (rs : Sessions) (a : String)
    → HasKeys rs
    → binding_of a (run cs rs) ≡ follow_all a cs (binding_of a rs)
unfolding run
run-follow [] rs a h = refl
run-follow (c ∷ cs) rs a h =
    run-follow cs (perform c rs) a (perform-HasKeys c rs h)
    ∙ ap (follow_all a cs) (perform-follow c rs a h)

-- Where no id stands twice: the member that `get` resolves an id to, after any history of calls, is
-- the one that the id's own binding gives: opened by its first `create`, moved to seven days after each `touch`, ended by
-- `delete` and, once its time is over, by `purgeExpired`; and nobody after its time.
pub get-follow :
    (cs : List Call) (rs : Sessions) (a : String) (now : ℕ)
    → HasKeys rs
    → Option.map (λ r. r.member_name) (get a now (run cs rs))
      ≡ Option.map (λ b. b.0) (expires now (follow_all a cs (binding_of a rs)))
unfolding get
get-follow cs rs a now h = rw (← run-follow cs rs a h) (ground arith)
