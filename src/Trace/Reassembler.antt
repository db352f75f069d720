-- ===== src/Trace/Reassembler.antt =====
-- packages/cli/src/runtime/trace/http1-reassembler.ts. The parser is the one of http1.ts, or any other
-- of its type. A callback is what it is called with, in order.
use ac.Prelude.{
  length, ℕ, none, some, List, [], ◌∷◌, Option, String, ltb, eqb, if◌then◌else◌, keep, zero, suc,
  Bool, true, false, ◌||◌, not, ◌++◌, map,
}
use ac.Trace.Http1.{
  Http1Request, Http1Response, ParseResult, need_more, malformed, parsed, request_message,
  response_message,
}
use ac.Trace.Bytes.{Bytes}
use ac.Prelude.Text.{codes}

abbrev pub Upstream : Type 0
Upstream = String × ℕ

pub record Http1Exchange : Type 0 where
  pub session_id : ℕ
  pub upstream : Upstream
  pub request : Http1Request
  pub response : Option Http1Response
  pub started_at : ℕ
  pub ended_at : ℕ

pub data Callback : Type 0 where
  on_request_start : (session_id started_at : ℕ) → Callback
  on_exchange : Http1Exchange → Callback

pub record PendingRequest : Type 0 where
  pub request : Http1Request
  pub started_at : ℕ

pub record Session : Type 0 where
  pub id : ℕ
  pub upstream : Upstream
  pub client_buf : Bytes
  pub server_buf : Bytes
  pub pending : List PendingRequest
  pub last_client_ts : ℕ
  pub last_server_ts : ℕ
  pub poisoned : Bool

pub record ProxyChunk : Type 0 where
  pub session_id : ℕ
  pub ts : ℕ
  pub to_upstream : Bool
  pub upstream : Upstream
  pub bytes : Bytes

abbrev pub max_direction_buffer : ℕ
max_direction_buffer = 33554432

-- The request in the place of one that a response has none of.
abbrev pub unknown_request : Http1Request
unknown_request = record {
  method = codes "UNKNOWN";
  target = [];
  version = codes "HTTP/1.1";
  headers = [];
  body = [];
  decoded_body = [];
}

abbrev pub new_session : ProxyChunk → Session
new_session chunk = record {
  id = chunk.session_id;
  upstream = chunk.upstream;
  client_buf = [];
  server_buf = [];
  pending = [];
  last_client_ts = chunk.ts;
  last_server_ts = chunk.ts;
  poisoned = false;
}

abbrev pub exchange_of : Session → Http1Request → ℕ → Option Http1Response → ℕ → Callback
exchange_of s request started_at response ended_at = on_exchange (record {
  session_id = s.id;
  upstream = s.upstream;
  request = request;
  response = response;
  started_at = started_at;
  ended_at = ended_at;
})

-- The oldest request that waits, or none, for the response; and those that wait still.
abbrev pub answer : Session → Http1Response → List PendingRequest → Callback × List PendingRequest
answer s r [] = (exchange_of s unknown_request s.last_server_ts (some r) s.last_server_ts, [])
answer s r (p ∷ ps) = (exchange_of s p.request p.started_at (some r) s.last_server_ts, ps)

abbrev pub Drained : Type 0
Drained = Session × List Callback

abbrev pub calling : Callback → Drained → Drained
calling c d = (d.0, c ∷ d.1)

-- One round of drainClient; `again` is the rest of the loop.
abbrev pub client_round : (Session → Drained) → Session → ParseResult → Drained
client_round again s malformed = (record s { client_buf = [] }, [])
client_round again s need_more = (s, [])
client_round again s (parsed (response_message r) rest) = again (record s { client_buf = rest })
client_round again s (parsed (request_message r) rest) =
    calling (on_request_start s.id s.last_client_ts) (
      again (record s {
        pending = s.pending ++ record { request = r; started_at = s.last_client_ts } ∷ [];
        client_buf = rest;
      }))

abbrev pub server_round : (Session → Drained) → Session → ParseResult → Drained
server_round again s malformed = (record s { server_buf = [] }, [])
server_round again s need_more = (s, [])
server_round again s (parsed (request_message r) rest) = again (record s { server_buf = rest })
server_round again s (parsed (response_message r) rest) =
    calling (answer s r s.pending).0
      (again (record s { pending = (answer s r s.pending).1; server_buf = rest }))

abbrev pub poison_if_full : Session → Session
poison_if_full s =
    if ltb max_direction_buffer (length s.client_buf)
      || ltb max_direction_buffer (length s.server_buf)
    then record s { poisoned = true; client_buf = []; server_buf = [] }
    else s

unfoldable pub get_session : ℕ → List Session → Option Session
get_session id [] = none
get_session id (s ∷ ss) = let rest = get_session id ss in if eqb s.id id then some s else rest

unfoldable pub put_session : Session → List Session → List Session
put_session t [] = t ∷ []
put_session t (s ∷ ss) = let rest = put_session t ss in if eqb s.id t.id then t ∷ ss else s ∷ rest

unfoldable pub delete_session : ℕ → List Session → List Session
delete_session id ss = keep (λ s. not (eqb s.id id)) ss

unfoldable pub session_for : ProxyChunk → List Session → Session
unfolding get_session
session_for chunk ss = elim (get_session chunk.session_id ss) [
  | none ↦ new_session chunk
  | some s ↦ s
]

abbrev pub Reassembled : Type 0
Reassembled = List Session × List Callback

abbrev pub unanswered : Session → List PendingRequest → List Callback
unanswered s [] = []
unanswered s (p ∷ ps) = exchange_of s p.request p.started_at none p.started_at ∷ unanswered s ps

module _ (parse : Bytes → ParseResult) where
  -- An empty buffer ends the loop as one does that needs more.
  abbrev pub next_in : Bytes → ParseResult
  next_in [] = need_more
  next_in (c ∷ cs) = parse (c ∷ cs)

  -- The loops, with the rounds that they may take; each takes a byte off the buffer at least.
  unfoldable pub drain_client : ℕ → Session → Drained
  drain_client zero s = (s, [])
  drain_client (suc rounds) s = client_round (drain_client rounds) s (next_in s.client_buf)

  unfoldable pub drain_server : ℕ → Session → Drained
  drain_server zero s = (s, [])
  drain_server (suc rounds) s = server_round (drain_server rounds) s (next_in s.server_buf)

  abbrev pub all_client : Session → Drained
  all_client s = drain_client (length s.client_buf) s

  abbrev pub all_server : Session → Drained
  all_server s = drain_server (length s.server_buf) s

  abbrev pub take_chunk : ProxyChunk → Session → Drained
  take_chunk chunk s =
      if chunk.to_upstream
      then all_client
          (record s { client_buf = s.client_buf ++ chunk.bytes; last_client_ts = chunk.ts })
      else all_server
          (record s { server_buf = s.server_buf ++ chunk.bytes; last_server_ts = chunk.ts })

  unfoldable pub ingest : ProxyChunk → List Session → Reassembled
  unfolding drain_client drain_server session_for put_session
  ingest chunk ss =
      let s = session_for chunk ss in
      if s.poisoned
      then (ss, [])
      else (put_session (poison_if_full (take_chunk chunk s).0) ss, (take_chunk chunk s).1)

  -- The last drains and the requests that have no response.
  abbrev pub flushed : Session → List Callback
  flushed s =
      let (t, started) = all_client s in
      let (u, exchanged) = all_server t in started ++ (exchanged ++ unanswered u u.pending)

  abbrev pub closing : ℕ → List Session → Option Session → Reassembled
  closing id ss none = (ss, [])
  closing id ss (some s) = (delete_session id ss, if s.poisoned then [] else flushed s)

  unfoldable pub close_session : ℕ → List Session → Reassembled
  unfolding drain_client drain_server get_session delete_session
  close_session id ss = closing id ss (get_session id ss)

  abbrev pub and_close : ℕ → Reassembled → Reassembled
  and_close id (ss, called) = let (left, more) = close_session id ss in (left, called ++ more)

  abbrev pub close_each : List ℕ → Reassembled → Reassembled
  close_each [] r = r
  close_each (id ∷ ids) r = close_each ids (and_close id r)

  unfoldable pub close_all : List Session → Reassembled
  unfolding close_session
  close_all ss = close_each (map (λ (s : Session). s.id) ss) (ss, [])
