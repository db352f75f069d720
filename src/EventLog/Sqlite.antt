-- ===== src/EventLog/Sqlite.antt =====
-- `SqliteEventLog` of apps/server/src/sqlite-event-log.ts. The state is the table `events`, in the
-- order of ROWID; a row is the message that it encodes.
use ac.EventLog.Types.{
  absent, text, other, Message, EventLogQueryOptions, EventLogTailOptions, default_query_limit,
  clamp_query_limit, general_channel_id, channel_thread_tag, is_text,
}
use ac.EventLog.Memory.{or_else}
use ac.Prelude.{
  ltb, leb, if◌then◌else◌, is_some, take, keep, ℕ, String, Bool, true, false, ◌&&◌, ◌||◌, not, none,
  some, List, ◌==◌, backwards,
}
use ac.Prelude.Sort.{order_by}

abbrev pub max_safe_integer : ℕ
max_safe_integer = 9007199254740991

-- `json_extract(data, '$.thread') = ?` and `IS NULL`
abbrev pub thread_is : Message → String → Bool
thread_is ev tag = elim ev.thread [ absent ↦ false | text t ↦ t == tag | other ↦ false ]

abbrev pub thread_is_null : Message → Bool
thread_is_null ev = elim ev.thread [ absent ↦ true | text t ↦ false | other ↦ false ]

-- The WHERE clauses of the four statements.
abbrev pub feed_where : String → Message → Bool
feed_where viewer ev = not (is_some ev.to) || is_text ev.from viewer || is_text ev.to viewer

abbrev pub dm_where : String → String → Message → Bool
dm_where viewer other_name ev =
    is_some ev.to
    && (is_text ev.from viewer && is_text ev.to other_name
        || is_text ev.from other_name && is_text ev.to viewer)

abbrev pub channel_where : String → Message → Bool
channel_where tag ev = thread_is ev tag

abbrev pub general_where : String → Message → Bool
general_where tag ev = thread_is ev tag || (not (is_some ev.to) && thread_is_null ev)

-- ORDER BY ts DESC
abbrev pub later : Message → Message → Bool
later x y = ltb x.ts y.ts

-- The statement that `query` picks.
unfoldable pub picked_where : EventLogQueryOptions → Message → Bool
picked_where options ev = elim options.channel [
  | some channel ↦
      if channel == general_channel_id
      then general_where (channel_thread_tag channel) ev
      else channel_where (channel_thread_tag channel) ev
  | none ↦ elim options.with [
    | none ↦ feed_where options.viewer ev
    | some other_name ↦
        if other_name == ""
        then feed_where options.viewer ev
        else dm_where options.viewer other_name ev
  ]
]

unfoldable pub query : EventLogQueryOptions → List Message → List Message
unfolding picked_where
query options rows = take (clamp_query_limit options.limit) (
    order_by later (
      keep (λ ev. ltb ev.ts (or_else options.before max_safe_integer) && picked_where options ev)
        rows))

unfoldable pub tail : EventLogTailOptions → List Message → List Message
tail options rows = backwards (
    take (or_else options.limit default_query_limit)
      (order_by later (keep (λ e. leb (or_else options.since 0) e.ts) rows)))
