-- ===== src/EventLog/Queries.antt =====
-- What a query of packages/core/src/event-log.ts returns, as one expression, and to whom.
use ac.EventLog.Types.{
  Message, Number, not_finite, not_positive, below_one, from_one, max_query_limit,
  clamp_query_limit, EventLogQueryOptions, is_text,
}
use ac.EventLog.Memory.{query_loop}
use ac.Prelude.{
  length, take, keep, ℕ, zero, suc, ◌+◌, ◌≤◌, ◌≡◌, sym, ◌↔◌, Bool, Option, none, some, List, [],
  ◌∷◌, ◌++◌, append-nil, arith, Bool-cases, length-append, length-take, All, ◌-◌, ◌<◌, String, refl,
  ap, ◌∙◌, ◌⊎◌, inl, inr, true, append_assoc, eq_iff, All-take, All-keep_test, backwards,
}
use ac.EventLog.Matching.{matches_viewer, selects}
use ac.EventLog.Memory.{query}

-- `clampQueryLimit` never asks for more than `max_query_limit` rows, and asks for none exactly
-- where the caller's limit lies between 0 and 1.
pub clamp_query_limit_lem :
    (raw : Option Number)
    → (clamp_query_limit raw ≤ max_query_limit)
      × ((clamp_query_limit raw ≡ 0) ↔ (raw ≡ some below_one))
unfolding clamp_query_limit
clamp_query_limit_lem none = (omega arith, ground arith)
clamp_query_limit_lem (some not_finite) = (omega arith, ground arith)
clamp_query_limit_lem (some not_positive) = (omega arith, ground arith)
clamp_query_limit_lem (some below_one) = (omega arith, ground arith)
clamp_query_limit_lem (some (from_one n)) = (omega arith, ground arith)

take-zero : (xs : List Message) → take 0 xs ≡ []
take-zero xs = refl

-- The loop stops early, and has then what a filter with a cut would give.
query_loop_lem :
    (test : Message → Bool) (room : ℕ) (limit : ℕ) (matches evs : List Message)
    → length matches + suc room ≡ limit
    → query_loop test limit matches evs ≡ matches ++ take (suc room) (keep test evs)
unfolding query_loop
query_loop_lem test room limit matches [] h = sym (append-nil matches)
query_loop_lem test zero limit matches (ev ∷ evs) h = elim (Bool-cases (test ev)) [
  | inr skip ↦ rw skip (query_loop_lem test zero limit matches evs h)
  | inl hit ↦ rw hit (ground (arith, length-append matches (ev ∷ []), take-zero (keep test evs)))
]
query_loop_lem test (suc room) limit matches (ev ∷ evs) h = elim (Bool-cases (test ev)) [
  | inr skip ↦ rw skip (query_loop_lem test (suc room) limit matches evs h)
  | inl hit ↦ rw hit (
      ground (
        arith,
        length-append matches (ev ∷ []),
        query_loop_lem test room limit (matches ++ ev ∷ []) evs,
        append_assoc matches (ev ∷ []) (take (suc room) (keep test evs)),
      ))
]

-- Where the limit asks for a message, `query` returns the matching messages, newest first, cut at
-- the limit.
pub query-eq-take :
    (options : EventLogQueryOptions) (events : List Message)
    → 0 < clamp_query_limit options.limit
    → query options events
      ≡ take (clamp_query_limit options.limit) (keep (selects options) (backwards events))
unfolding query
query-eq-take options events h =
    let limit = clamp_query_limit options.limit in
    let whole : suc (limit - 1) ≡ limit = omega arith in
    query_loop_lem (selects options) (limit - 1) limit [] (backwards events) (omega arith)
    ∙ ap (λ n. take n (keep (selects options) (backwards events))) whole

-- Who may read a message by a query that names no channel: everybody a broadcast, and its two ends
-- a direct message.
abbrev pub MayRead : String → Message → Type 0
MayRead viewer ev = (ev.to ≡ none) ⊎ (ev.from ≡ some viewer) ⊎ (ev.to ≡ some viewer)

eq-some_of_is_text : (o : Option String) (b : String) → is_text o b ≡ true → o ≡ some b
eq-some_of_is_text none b h = cc
eq-some_of_is_text (some a) b h = ap some ((eq_iff a b).0 h)

selects-MayRead :
    (options : EventLogQueryOptions) (ev : Message)
    → options.channel ≡ none
    → selects options ev ≡ true
    → MayRead options.viewer ev
unfolding selects matches_viewer
selects-MayRead options ev c h =
    ground
      (arith, eq-some_of_is_text ev.from options.viewer, eq-some_of_is_text ev.to options.viewer)

-- A query without a channel whose limit asks for a message returns nothing that the viewer may not
-- read, which is all but the direct messages of others, and at most 1000 messages.
pub query-MayRead :
    (options : EventLogQueryOptions) (events : List Message)
    → options.channel ≡ none
    → 0 < clamp_query_limit options.limit
    → All (MayRead options.viewer) (query options events)
      × (length (query options events) ≤ max_query_limit)
query-MayRead options events c h =
    let limit = clamp_query_limit options.limit in
    let found = keep (selects options) (backwards events) in
    rw (query-eq-take options events h) (
      All-take _ limit found (
          All-keep_test _ (selects options) (backwards events)
            (λ ev e. selects-MayRead options ev c e)),
      omega (arith, length-take limit found, clamp_query_limit_lem options.limit),
    )
