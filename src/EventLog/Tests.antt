-- ===== src/EventLog/Tests.antt =====
-- The logs of packages/core/src/event-log.ts and apps/server/src/sqlite-event-log.ts at concrete
-- messages.
use ac.EventLog.Memory
use ac.EventLog.Sqlite
use ac.Prelude.Sort.{insert_before}
use Prim.Native.String.{String}
use ac.EventLog.Sqlite.{picked_where}
use ac.EventLog.Types.{
  info, notice, absent, text, Message, from_one, EventLogQueryOptions, EventLogTailOptions,
  max_query_limit, clamp_query_limit,
}
use ac.EventLog.Matching.{matches_viewer, selects}
use ac.EventLog.Agreement.{IsChronological, IsPlain, query_agrees}
use ac.EventLog.Memory.{query_loop}
use ac.EventLog.Queries.{MayRead, query-MayRead}
use ac.Prelude.{
  length, All, ◌≤◌, ◌<◌, ◌≡◌, refl, none, some, List, [], ◌∷◌, arith, ◌≢◌, false, ◌==◌, eq_iff,
}
use ac.Prelude.Sort.{order_by}

abbrev broadcast : Message
broadcast = record {
  id = "m1";
  ts = 10;
  to = none;
  from = some "ada";
  title = none;
  body = "hello";
  level = info;
  thread = absent;
  other_data = [];
  attachments = [];
}

abbrev direct : Message
direct = record {
  id = "m2";
  ts = 20;
  to = some "bob";
  from = some "ada";
  title = none;
  body = "psst";
  level = notice;
  thread = absent;
  other_data = [];
  attachments = [];
}

abbrev in_channel : Message
in_channel = record {
  id = "m3";
  ts = 30;
  to = none;
  from = some "cyd";
  title = some "status";
  body = "built";
  level = info;
  thread = text "chan:c-7";
  other_data = [];
  attachments = [];
}

abbrev three : List Message
three = broadcast ∷ direct ∷ in_channel ∷ []

abbrev feed_of_cyd : EventLogQueryOptions
feed_of_cyd = record { viewer = "cyd"; with = none; channel = none; limit = none; before = none }

abbrev dm_of_bob : EventLogQueryOptions
dm_of_bob = record {
  viewer = "bob";
  with = some "ada";
  channel = none;
  limit = some (from_one 4);
  before = some 25;
}

feed_runs : Memory.query feed_of_cyd three ≡ in_channel ∷ broadcast ∷ []
unfolding Memory.query Memory.query_loop selects matches_viewer clamp_query_limit
feed_runs = refl

dm_runs : Sqlite.query dm_of_bob three ≡ direct ∷ []
unfolding Sqlite.query order_by insert_before picked_where clamp_query_limit
dm_runs = refl

limit_four : 0 < clamp_query_limit (some (from_one 4))
unfolding clamp_query_limit
limit_four = omega arith

limit_default : 0 < clamp_query_limit none
unfolding clamp_query_limit
limit_default = omega arith

three-IsChronological : IsChronological three
three-IsChronological = omega arith

differs : (a b : String) → (a == b) ≡ false → a ≢ b
differs a b h e = ground (arith, eq_iff a b)

named : dm_of_bob.with ≢ some ""
named e = differs "ada" "" refl (cc)

three-IsPlain : All IsPlain three
three-IsPlain = (
  (λ e. cc, λ e. cc, omega arith),
  (
    (λ e. cc, λ e. cc, omega arith),
    ((λ e. cc, λ e. differs "chan:c-7" "" refl (cc), omega arith), tt),
  ),
)

query-MayRead_example :
    All (MayRead "cyd") (Memory.query feed_of_cyd three)
    × (length (Memory.query feed_of_cyd three) ≤ max_query_limit)
query-MayRead_example = query-MayRead feed_of_cyd three refl limit_default

query_agrees_example : Sqlite.query dm_of_bob three ≡ Memory.query dm_of_bob three
query_agrees_example =
    query_agrees dm_of_bob three three-IsChronological three-IsPlain named limit_four

abbrev last_two : EventLogTailOptions
last_two = record { since = none; limit = some 2 }
