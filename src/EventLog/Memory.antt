-- ===== src/EventLog/Memory.antt =====
-- `InMemoryEventLog` of packages/core/src/event-log.ts. The state is the array `events`.
use ac.EventLog.Types.{
  Message, EventLogQueryOptions, EventLogTailOptions, default_query_limit, clamp_query_limit,
}
use ac.EventLog.Matching.{selects}
use ac.Prelude.{
  leb, eqb, if◌then◌else◌, length, take, keep, ℕ, Bool, Option, none, some, List, [], ◌∷◌, ◌++◌,
  backwards,
}

unfoldable pub append : Message → List Message → List Message
append message events = events ++ message ∷ []

-- The loop of `query`: what is to come, and `matches` so far.
unfoldable pub query_loop : (Message → Bool) → ℕ → List Message → List Message → List Message
query_loop test limit matches [] = matches
query_loop test limit matches (ev ∷ evs) =
    let taken = matches ++ ev ∷ [] in
    let skipped = query_loop test limit matches evs in
    let further = query_loop test limit taken evs in
    if test ev then (if leb limit (length taken) then taken else further) else skipped

unfoldable pub query : EventLogQueryOptions → List Message → List Message
unfolding query_loop
query options events =
    query_loop (selects options) (clamp_query_limit options.limit) [] (backwards events)

abbrev pub or_else : Option ℕ → ℕ → ℕ
or_else none d = d
or_else (some n) d = n

-- `xs.slice(-limit)`: the last `limit` items, and all of them for 0.
abbrev pub slice_last : ℕ → List Message → List Message
slice_last limit xs = if eqb limit 0 then xs else backwards (take limit (backwards xs))

unfoldable pub tail : EventLogTailOptions → List Message → List Message
tail options events =
    slice_last (or_else options.limit default_query_limit)
      (keep (λ e. leb (or_else options.since 0) e.ts) events)
