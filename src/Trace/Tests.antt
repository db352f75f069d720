-- ===== src/Trace/Tests.antt =====
-- The trace of packages/cli/src/runtime/trace at concrete bytes.
use ac.Prelude.Text.{codes, is_space}
use ac.Prelude.{
  ℕ, none, some, List, [], ◌∷◌, map, ◌≡◌, refl, leb, if◌then◌else◌, ◌+◌, ◌-◌, ◌*◌, Bool, true,
  false, ◌&&◌, ◌++◌, arith, length, All,
}
use ac.Trace.Exchanges.{
  run, Event, chunk_came, connection_closed, IsHealthy, exchanges_match, chunk_calls,
}
use ac.Trace.Framing.{parse_http1_message-IsParser}
use ac.Trace.Drains.{starts_of, answers_of}
use ac.Trace.Body.{parse_http1_message}
use ac.Trace.Http1.{
  Platform, Http1Request, Http1Response, request_message, response_message, need_more, parsed,
}
use ac.Trace.Bytes.{Bytes, crlf, double_crlf}
use ac.Trace.Pairing.{due}
use ac.Prelude.Codes.{Text}
use ac.Trace.Ends.{drain_client-ends}
use ac.Trace.Reassembler.{
  Session, new_session, get_session, next_in, drain_client, all_client, ingest, drain_server,
}
use ac.Trace.Stability.{IsStable, parse_http1_message-IsStable}
use ac.Trace.Cutting.{Reads}
use ac.Trace.Chunking.{client_bytes, requests_of, take_client, take_client-whole, HasRoom}
use ac.Trace.Responses.{HasResponse, ReadsResponses, GivesOut, drain_server-GivesOut}

-- Node, for ASCII and decimal numbers, without zlib.
abbrev to_lower : ℕ → ℕ
to_lower c = if leb b'A' c && leb c b'Z' then c + 32 else c

abbrev decimal_value : ℕ → Text → ℕ
decimal_value so_far [] = so_far
decimal_value so_far (c ∷ cs) = decimal_value (so_far * 10 + (c - b'0')) cs

abbrev node : Platform
node = record {
  utf8 = λ bs. bs;
  lower_case = map to_lower;
  natural = λ t. some (decimal_value 0 t);
  gunzip = λ bs. none;
  inflate = λ bs. none;
  brotli_decompress = λ bs. none;
}

abbrev get_bytes : Bytes
get_bytes = codes "GET /v1 HTTP/1.1" ++ crlf ++ codes "Host: a" ++ double_crlf

abbrev ok_head : Bytes
ok_head = codes "HTTP/1.1 200 OK" ++ crlf ++ codes "Transfer-Encoding: Chunked" ++ double_crlf

abbrev ok_body : Bytes
ok_body = codes "2" ++ crlf ++ codes "hi" ++ crlf ++ codes "0" ++ double_crlf

abbrev get_request : Http1Request
get_request = record {
  method = codes "GET";
  target = codes "/v1";
  version = codes "HTTP/1.1";
  headers = (codes "host", codes "a") ∷ [];
  body = [];
  decoded_body = [];
}

read_get :
    parse_http1_message node (get_bytes ++ codes "GE")
    ≡ parsed (request_message get_request) (codes "GE")
unfolding parse_http1_message is_space
read_get = refl

abbrev ok_response : Http1Response
ok_response = record {
  version = codes "HTTP/1.1";
  status = 200;
  reason = codes "OK";
  headers = (codes "transfer-encoding", codes "Chunked") ∷ [];
  body = codes "hi";
  decoded_body = codes "hi";
}

read_ok : parse_http1_message node (ok_head ++ ok_body) ≡ parsed (response_message ok_response) []
unfolding parse_http1_message is_space
read_ok = refl

wait_for_body : parse_http1_message node (ok_head ++ codes "2") ≡ need_more
unfolding parse_http1_message is_space
wait_for_body = refl

-- A response without framing is read up to the end of what came so far.
cut_short :
    parse_http1_message node (codes "HTTP/1.1 200 OK" ++ double_crlf ++ codes "ha")
    ≡ parsed
        (response_message (record {
          version = codes "HTTP/1.1";
          status = 200;
          reason = codes "OK";
          headers = [];
          body = codes "ha";
          decoded_body = codes "ha";
        }))
        []
unfolding parse_http1_message is_space
cut_short = refl

abbrev chunk : Bool → ℕ → Bytes → Event
chunk to_upstream ts bytes = chunk_came (record {
  session_id = 7;
  ts = ts;
  to_upstream = to_upstream;
  upstream = ("api", 443);
  bytes = bytes;
})

abbrev events : List Event
events =
    chunk true 10 get_bytes
    ∷ chunk true 20 get_bytes
    ∷ chunk false 30 ok_head
    ∷ chunk false 40 ok_body
    ∷ connection_closed 7
    ∷ []

parse_http1_message-IsStable_example : IsStable (parse_http1_message node)
parse_http1_message-IsStable_example = parse_http1_message-IsStable node

healthy : IsHealthy (parse_http1_message node) events []
unfolding parse_http1_message is_space ingest get_session
healthy = (refl, tt)

exchanges_match_example :
    (starts_of 7 (run (parse_http1_message node) events []).1
      ≡ answers_of 7 (run (parse_http1_message node) events []).1
        ++ due 7 (run (parse_http1_message node) events []).0)
    × All HasResponse (chunk_calls (parse_http1_message node) events [])
exchanges_match_example =
    exchanges_match (parse_http1_message node) (parse_http1_message-IsParser node) events 7 healthy

-- Two requests wait and one response has come.
abbrev asked : Session
asked =
    record (new_session (record {
      session_id = 7;
      ts = 10;
      to_upstream = true;
      upstream = ("api", 443);
      bytes = [];
    })) {
      pending =
          record { request = get_request; started_at = 10 }
          ∷ record { request = get_request; started_at = 20 }
          ∷ [];
      server_buf = ok_head ++ ok_body;
    }

one_response : ReadsResponses (parse_http1_message node) asked.server_buf (ok_response ∷ []) []
unfolding parse_http1_message is_space
one_response = ([], refl, (refl, refl))

drain_server-GivesOut_example :
    GivesOut asked (ok_response ∷ []) [] (drain_server (parse_http1_message node) 100 asked)
drain_server-GivesOut_example =
    drain_server-GivesOut (parse_http1_message node) (parse_http1_message-IsParser node)
      (ok_response ∷ []) 100 asked [] (omega arith) one_response

abbrev waiting : Session
waiting =
    record (new_session (record {
      session_id = 7;
      ts = 10;
      to_upstream = true;
      upstream = ("api", 443);
      bytes = [];
    })) { client_buf = get_bytes ++ codes "GE" }

drain_client-ends_example :
    (drain_client (parse_http1_message node) 100 waiting
      ≡ all_client (parse_http1_message node) waiting)
    × (next_in
          (parse_http1_message node)
          (all_client (parse_http1_message node) waiting).0.client_buf
        ≡ need_more)
drain_client-ends_example =
    drain_client-ends (parse_http1_message node) (parse_http1_message-IsParser node) 100 waiting
      (omega arith)

-- A request that is cut in the middle.
abbrev pieces : List (ℕ × Bytes)
pieces =
    (1, codes "GET /v1 HT")
    ∷ (2, codes "TP/1.1" ++ crlf ++ codes "Host: a" ++ double_crlf ++ codes "G")
    ∷ (3, codes "E")
    ∷ []

abbrev opened : Session
opened =
    new_session
      (record { session_id = 7; ts = 1; to_upstream = true; upstream = ("api", 443); bytes = [] })

one_request : Reads (parse_http1_message node) (client_bytes pieces) (get_request ∷ []) (codes "GE")
unfolding parse_http1_message is_space
one_request = (codes "GE", refl, (refl, refl))

opened_room : HasRoom opened (length (client_bytes pieces))
opened_room = record { healthy = refl; client_fits = omega arith; server_fits = omega arith }

take_client-whole_example :
    (requests_of (take_client (parse_http1_message node) pieces opened).pending ≡ get_request ∷ [])
    × ((take_client (parse_http1_message node) pieces opened).client_buf ≡ codes "GE")
take_client-whole_example =
    take_client-whole (parse_http1_message node) (parse_http1_message-IsParser node)
      (parse_http1_message-IsStable node) pieces opened (get_request ∷ []) (codes "GE") opened_room
      refl one_request
