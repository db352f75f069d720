-- ===== src/EventLog/Matching.antt =====
-- `matchesChannel` and `matchesViewer` of packages/core/src/event-log.ts.
use ac.EventLog.Types.{
  absent, text, other, Message, EventLogQueryOptions, general_channel_id, channel_thread_tag,
  is_text,
}
use ac.Prelude.{
  ltb, if◌then◌else◌, is_some, String, Bool, true, false, ◌&&◌, ◌||◌, not, Option, none, some, ◌==◌,
  ℕ,
}

abbrev pub untagged : Message → String → Bool
untagged ev channel_id = channel_id == general_channel_id && not (is_some ev.to)

unfoldable pub matches_channel : Message → String → Bool
matches_channel ev channel_id = elim ev.thread [
  | text tag ↦ if tag == "" then untagged ev channel_id else tag == channel_thread_tag channel_id
  | absent ↦ untagged ev channel_id
  | other ↦ untagged ev channel_id
]

unfoldable pub matches_viewer : Message → String → Option String → Bool
matches_viewer ev viewer (some other_name) =
    if not (is_some ev.to)
    then false
    else if is_text ev.from viewer && is_text ev.to other_name
    then true
    else is_text ev.from other_name && is_text ev.to viewer
matches_viewer ev viewer none =
    not (is_some ev.to) || is_text ev.from viewer || is_text ev.to viewer

abbrev pub is_before : Option ℕ → Message → Bool
is_before none ev = true
is_before (some before) ev = ltb ev.ts before

abbrev pub is_wanted : EventLogQueryOptions → Message → Bool
is_wanted options ev = elim options.channel [
  | some channel ↦ matches_channel ev channel
  | none ↦ matches_viewer ev options.viewer options.with
]

-- The tests of one round of `query`'s loop, each of which may skip the event.
unfoldable pub selects : EventLogQueryOptions → Message → Bool
selects options ev = is_before options.before ev && is_wanted options ev
