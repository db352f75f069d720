-- ===== src/Trace/Exchanges.antt =====
-- Every sequence of calls of packages/cli/src/runtime/trace/http1-reassembler.ts, and how its two
-- callbacks match.
use ac.Prelude.{ℕ, List, [], ◌∷◌, ◌≡◌, ◌++◌, All, All-append}
use ac.Trace.Framing.{IsParser}
use ac.Trace.Drains.{starts_of, answers_of}
use ac.Trace.Http1.{ParseResult}
use ac.Trace.Closing.{IsHealthyAt, ingest-Pairs, close_session-Pairs, close_all-Pairs}
use ac.Trace.Reassembler.{
  Session, ProxyChunk, get_session, Reassembled, ingest, close_session, close_all, Callback,
}
use ac.Trace.Bytes.{Bytes}
use ac.Trace.Pairing.{due, AllTargeted, Pairs, Pairs-refl, Pairs-trans}
use ac.Trace.Responses.{HasResponse, ingest-HasResponse}

pub data Event : Type 0 where
  chunk_came : ProxyChunk → Event
  connection_closed : (session_id : ℕ) → Event
  runner_stopped : Event

-- No session that closes was given up for its size.
abbrev pub IsHealthy : (Bytes → ParseResult) → List Event → List Session → Type 0
IsHealthy parse [] ss = Unit
IsHealthy parse (chunk_came chunk ∷ es) ss = IsHealthy parse es (ingest parse chunk ss).0
IsHealthy parse (connection_closed id ∷ es) ss =
    IsHealthyAt id ss × IsHealthy parse es (close_session parse id ss).0
IsHealthy parse (runner_stopped ∷ es) ss =
    ((id : ℕ) → IsHealthyAt id ss) × IsHealthy parse es (close_all parse ss).0

abbrev pub handle : (Bytes → ParseResult) → Event → List Session → Reassembled
handle parse (chunk_came chunk) ss = ingest parse chunk ss
handle parse (connection_closed id) ss = close_session parse id ss
handle parse runner_stopped ss = close_all parse ss

unfoldable pub run : (Bytes → ParseResult) → List Event → List Session → Reassembled
unfolding ingest close_session close_all
run parse [] ss = (ss, [])
run parse (e ∷ es) ss = (
  (run parse es (handle parse e ss).0).0,
  (handle parse e ss).1 ++ (run parse es (handle parse e ss).0).1,
)

-- What the chunks among the events report, without the closings.
unfoldable pub chunk_calls : (Bytes → ParseResult) → List Event → List Session → List Callback
unfolding ingest close_session close_all
chunk_calls parse [] ss = []
chunk_calls parse (chunk_came chunk ∷ es) ss =
    (ingest parse chunk ss).1 ++ chunk_calls parse es (ingest parse chunk ss).0
chunk_calls parse (connection_closed id ∷ es) ss =
    chunk_calls parse es (close_session parse id ss).0
chunk_calls parse (runner_stopped ∷ es) ss = chunk_calls parse es (close_all parse ss).0

chunk_calls-HasResponse :
    (parse : Bytes → ParseResult) (es : List Event) (ss : List Session)
    → All HasResponse (chunk_calls parse es ss)
unfolding chunk_calls
chunk_calls-HasResponse parse [] ss = tt
chunk_calls-HasResponse parse (chunk_came chunk ∷ es) ss =
    All-append HasResponse (ingest parse chunk ss).1 _ (ingest-HasResponse parse chunk ss)
      (chunk_calls-HasResponse parse es (ingest parse chunk ss).0)
chunk_calls-HasResponse parse (connection_closed id ∷ es) ss =
    chunk_calls-HasResponse parse es (close_session parse id ss).0
chunk_calls-HasResponse parse (runner_stopped ∷ es) ss =
    chunk_calls-HasResponse parse es (close_all parse ss).0

module _ (parse : Bytes → ParseResult) (law : IsParser parse) where
  run-Pairs :
      (es : List Event) (ss : List Session)
      → AllTargeted ss
      → IsHealthy parse es ss
      → Pairs ss (run parse es ss)
  unfolding run
  run-Pairs [] ss v g = Pairs-refl ss v
  run-Pairs (chunk_came chunk ∷ es) ss v g =
      let first : Pairs ss (ingest parse chunk ss) = ingest-Pairs parse law chunk ss v in
      let r : Reassembled = ingest parse chunk ss in
      Pairs-trans ss r.0 r.1 (run parse es r.0) first (run-Pairs es r.0 first.targeted g)
  run-Pairs (connection_closed id ∷ es) ss v g =
      let first : Pairs ss (close_session parse id ss) =
        close_session-Pairs parse law id ss v g.0 in
      let r : Reassembled = close_session parse id ss in
      Pairs-trans ss r.0 r.1 (run parse es r.0) first (run-Pairs es r.0 first.targeted g.1)
  run-Pairs (runner_stopped ∷ es) ss v g =
      let first : Pairs ss (close_all parse ss) = close_all-Pairs parse law ss v g.0 in
      let r : Reassembled = close_all parse ss in
      Pairs-trans ss r.0 r.1 (run parse es r.0) first (run-Pairs es r.0 first.targeted g.1)

  -- Over every sequence of chunks and closings in which no session closes that was given up for its
  -- size, for each session: the times of the requests that were reported as started are, in their
  -- order, the times of those that were reported in an exchange and of those that still wait. And an
  -- exchange that is reported for a chunk has a response: only a closing reports one without.
  pub exchanges_match :
      (es : List Event) (k : ℕ)
      → IsHealthy parse es []
      → (starts_of k (run parse es []).1
          ≡ answers_of k (run parse es []).1 ++ due k (run parse es []).0)
        × All HasResponse (chunk_calls parse es [])
  unfolding get_session
  exchanges_match es k g = ((run-Pairs es [] tt g).matched k, chunk_calls-HasResponse parse es [])
