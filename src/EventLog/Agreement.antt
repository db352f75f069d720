-- ===== src/EventLog/Agreement.antt =====
-- The two logs, of packages/core/src/event-log.ts and apps/server/src/sqlite-event-log.ts, answer
-- alike, and where they do not.
use ac.EventLog.Memory
use ac.EventLog.Sqlite
use ac.EventLog.Sqlite.{
  feed_where, dm_where, max_safe_integer, channel_where, general_where, later, picked_where,
}
use ac.EventLog.Types.{
  Thread, absent, text, other, Message, EventLogQueryOptions, EventLogTailOptions,
  default_query_limit, clamp_query_limit, general_channel_id, channel_thread_tag,
}
use ac.EventLog.Matching.{matches_channel, matches_viewer, selects, is_before}
use ac.EventLog.Memory.{or_else}
use ac.EventLog.Queries.{query-eq-take}
use ac.Prelude.{
  ◌∙◌, ap, eq_iff, keep_congr, keep-backwards, take, backwards, refl, none, sym, ltb, leb,
  if◌then◌else◌, Bool-cases, keep, All, ℕ, ◌<◌, String, ◌≡◌, ◌≢◌, inl, inr, Bool, true, ◌&&◌, some,
  List, [], ◌∷◌, arith, ◌==◌, take, backwards, ap, ◌∙◌, Option,
}
use ac.Prelude.Sort.{IsOrdered, order_by-backwards}

-- Every message is older than those that were appended after it.
abbrev pub IsChronological : List Message → Type 0
IsChronological = IsOrdered (λ x y. x.ts < y.ts)

-- A thread tag is a text with something in it, or missing, and the time fits a safe integer.
abbrev pub IsPlain : Message → Type 0
IsPlain ev = (ev.thread ≢ other) × (ev.thread ≢ text "") × (ev.ts < max_safe_integer)

IsOrdered-keep :
    (test : Message → Bool) (xs : List Message)
    → IsChronological xs
    → IsOrdered (λ x y. later x y ≡ true) (keep test xs)
IsOrdered-keep test [] h = tt
IsOrdered-keep test (x ∷ xs) h = elim (Bool-cases (test x)) [
  | inl e ↦ rw e (after x xs h.0, IsOrdered-keep test xs h.1)
  | inr e ↦ rw e (IsOrdered-keep test xs h.1)
]
  where
    after :
        (y : Message) (zs : List Message)
        → All (λ z. y.ts < z.ts) zs
        → All (λ z. later y z ≡ true) (keep test zs)
    after y [] g = tt
    after y (z ∷ zs) g = ground (arith, after y zs g.1)

same_thread :
    (ev : Message) (channel : String)
    → IsPlain ev
    → matches_channel ev channel ≡ (
        if channel == general_channel_id
        then general_where (channel_thread_tag channel) ev
        else channel_where (channel_thread_tag channel) ev)
unfolding matches_channel
same_thread ev channel h = by_thread ev.thread refl
  where
    by_thread :
        (t : Thread)
        → ev.thread ≡ t
        → matches_channel ev channel ≡ (
            if channel == general_channel_id
            then general_where (channel_thread_tag channel) ev
            else channel_where (channel_thread_tag channel) ev)
    by_thread absent e = rw e (ground arith)
    by_thread (text tag) e =
        let named : tag ≢ "" = λ q. h.1 (e ∙ ap text q) in ground (arith, e, eq_iff tag "")
    by_thread other e = absurd (h.0 e)

same_test :
    (options : EventLogQueryOptions) (ev : Message)
    → IsPlain ev
    → options.with ≢ some ""
    → (ltb ev.ts (or_else options.before max_safe_integer) && picked_where options ev)
      ≡ selects options ev
unfolding picked_where selects matches_viewer
same_test options ev h w = by_channel options.channel refl
  where
    in_time : (b : Option ℕ) → ltb ev.ts (or_else b max_safe_integer) ≡ is_before b ev
    in_time none = ground (arith, h.2)
    in_time (some b) = refl

    by_viewer :
        (o : Option String)
        → o ≢ some ""
        → elim o [
          | none ↦ feed_where options.viewer ev
          | some name ↦
              if name == "" then feed_where options.viewer ev else dm_where options.viewer name ev
        ]
          ≡ matches_viewer ev options.viewer o
    by_viewer none g = ground arith
    by_viewer (some name) g =
        let named : name ≢ "" = λ q. g (ap some q) in ground (arith, eq_iff name "")

    by_channel :
        (c : Option String)
        → options.channel ≡ c
        → (ltb ev.ts (or_else options.before max_safe_integer) && picked_where options ev)
          ≡ selects options ev
    by_channel none e = ground (arith, e, in_time options.before, by_viewer options.with w)
    by_channel (some c) e = ground (arith, e, in_time options.before, same_thread ev c h)

-- On messages whose times increase strictly, so that no two are of the same millisecond, each before
-- the largest safe integer and with a thread that is missing or a text that is not empty, the database
-- answers every query as the in-memory log does, with the same messages in the same order, where the
-- limit asks for a message and `with` is not the empty text.
pub query_agrees :
    (options : EventLogQueryOptions) (events : List Message)
    → IsChronological events
    → All IsPlain events
    → options.with ≢ some ""
    → 0 < clamp_query_limit options.limit
    → Sqlite.query options events ≡ Memory.query options events
unfolding Sqlite.query
query_agrees options events o p w h =
    let limit = clamp_query_limit options.limit in
    let test : Message → Bool =
      λ ev. ltb ev.ts (or_else options.before max_safe_integer) && picked_where options ev in
    rw (order_by-backwards later (keep test events) (IsOrdered-keep test events o)) (
      rw (query-eq-take options events h) (
        ap (take limit) (
          ap backwards (keep_congr test (selects options) events (same_tests events p))
          ∙ sym (keep-backwards (selects options) events))))
  where
    same_tests :
        (xs : List Message)
        → All IsPlain xs
        → All
            (λ ev.
              (ltb ev.ts (or_else options.before max_safe_integer) && picked_where options ev)
              ≡ selects options ev)
            xs
    same_tests [] q = tt
    same_tests (x ∷ xs) q = (same_test options x q.0 w, same_tests xs q.1)

-- On messages in the order of their times the database answers `tail` as the in-memory log does,
-- where the limit is not 0.
pub tail_agrees :
    (options : EventLogTailOptions) (events : List Message)
    → IsChronological events
    → 0 < or_else options.limit default_query_limit
    → Sqlite.tail options events ≡ Memory.tail options events
unfolding Sqlite.tail Memory.tail
tail_agrees options events o h =
    let found = keep (λ e. leb (or_else options.since 0) e.ts) events in
    rw (order_by-backwards later found (IsOrdered-keep _ events o)) (ground arith)

-- Asked by `tail` for 0 messages the database returns none, and the in-memory log every message
-- since `since`.
pub tail_zero :
    (since : ℕ) (events : List Message)
    → let options : EventLogTailOptions = record { since = some since; limit = some 0 } in
      (Sqlite.tail options events ≡ [])
      × (Memory.tail options events ≡ keep (λ e. leb since e.ts) events)
unfolding Sqlite.tail Memory.tail
tail_zero since events = (refl, refl)
