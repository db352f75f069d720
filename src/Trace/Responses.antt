-- ===== src/Trace/Responses.antt =====
-- The responses in the exchanges that packages/cli/src/runtime/trace/http1-reassembler.ts reports.
use ac.Trace.Reassembler.{
  Callback, on_request_start, on_exchange, Session, answer, exchange_of, unknown_request,
  client_round, server_round, drain_client, drain_server, take_chunk, ingest, Reassembled, Drained,
  PendingRequest, ProxyChunk, next_in, session_for,
}
use ac.Trace.Framing.{IsParser}
use ac.Trace.Loops.{next_in-takes_bytes}
use ac.Trace.Http1.{
  Http1Response, request_message, response_message, ParseResult, need_more, malformed, parsed,
}
use ac.Trace.Bytes.{Bytes}
use ac.Prelude.{
  if_lem, is_some, length, All, ℕ, zero, suc, ◌≡◌, refl, true, some, List, [], ◌∷◌, ◌++◌, ◌≤◌, sym,
  ap, ◌∙◌, subst, arith,
}

-- An exchange has its response.
abbrev pub HasResponse : Callback → Type 0
HasResponse (on_request_start i t) = Unit
HasResponse (on_exchange e) = is_some e.response ≡ true

answer-HasResponse :
    (s : Session) (r : Http1Response) (ps : List PendingRequest) → HasResponse (answer s r ps).0
answer-HasResponse s r [] = refl
answer-HasResponse s r (p ∷ ps) = refl

module _ (again : Session → Drained) (rest : (s : Session) → All HasResponse (again s).1) where
  client_round-HasResponse :
      (s : Session) (r : ParseResult) → All HasResponse (client_round again s r).1
  client_round-HasResponse s malformed = tt
  client_round-HasResponse s need_more = tt
  client_round-HasResponse s (parsed (response_message r) bs) = rest _
  client_round-HasResponse s (parsed (request_message r) bs) = (tt, rest _)

  server_round-HasResponse :
      (s : Session) (r : ParseResult) → All HasResponse (server_round again s r).1
  server_round-HasResponse s malformed = tt
  server_round-HasResponse s need_more = tt
  server_round-HasResponse s (parsed (request_message r) bs) = rest _
  server_round-HasResponse s (parsed (response_message r) bs) =
      (answer-HasResponse s r s.pending, rest _)

-- The exchanges for these responses, by the requests that wait, the first for the first. A response
-- that has no request left gets the placeholder.
abbrev pub paired : Session → List PendingRequest → List Http1Response → List Callback
paired s ps [] = []
paired s [] (r ∷ rs) =
    exchange_of s unknown_request s.last_server_ts (some r) s.last_server_ts ∷ paired s [] rs
paired s (p ∷ ps) (r ∷ rs) =
    exchange_of s p.request p.started_at (some r) s.last_server_ts ∷ paired s ps rs

abbrev pub without_first : List PendingRequest → List Http1Response → List PendingRequest
without_first ps [] = ps
without_first [] (r ∷ rs) = []
without_first (p ∷ ps) (r ∷ rs) = without_first ps rs

-- The bytes are these responses, one after the other, and what is left holds no complete message.
abbrev pub ReadsResponses : (Bytes → ParseResult) → Bytes → List Http1Response → Bytes → Type 0
ReadsResponses parse bs [] left = (bs ≡ left) × (next_in parse bs ≡ need_more)
ReadsResponses parse bs (r ∷ rs) left =
    (rest : Bytes) × (next_in parse bs ≡ parsed (response_message r) rest)
    × ReadsResponses parse rest rs left

module _ (parse : Bytes → ParseResult) where
  drain_client-HasResponse :
      (rounds : ℕ) (s : Session) → All HasResponse (drain_client parse rounds s).1
  unfolding drain_client
  drain_client-HasResponse zero s = tt
  drain_client-HasResponse (suc rounds) s =
      client_round-HasResponse (drain_client parse rounds) (drain_client-HasResponse rounds) s
        (next_in parse s.client_buf)

  drain_server-HasResponse :
      (rounds : ℕ) (s : Session) → All HasResponse (drain_server parse rounds s).1
  unfolding drain_server
  drain_server-HasResponse zero s = tt
  drain_server-HasResponse (suc rounds) s =
      server_round-HasResponse (drain_server parse rounds) (drain_server-HasResponse rounds) s
        (next_in parse s.server_buf)

  take_chunk-HasResponse :
      (chunk : ProxyChunk) (s : Session) → All HasResponse (take_chunk parse chunk s).1
  take_chunk-HasResponse chunk s =
      if_lem (λ (d : Drained). All HasResponse d.1) chunk.to_upstream _ _
        (drain_client-HasResponse (length (s.client_buf ++ chunk.bytes))
          (record s { client_buf = s.client_buf ++ chunk.bytes; last_client_ts = chunk.ts }))
        (drain_server-HasResponse (length (s.server_buf ++ chunk.bytes))
          (record s { server_buf = s.server_buf ++ chunk.bytes; last_server_ts = chunk.ts }))

  pub ingest-HasResponse :
      (chunk : ProxyChunk) (ss : List Session) → All HasResponse (ingest parse chunk ss).1
  unfolding ingest
  ingest-HasResponse chunk ss =
      if_lem (λ (r : Reassembled). All HasResponse r.1) (session_for chunk ss).poisoned (ss, []) _
        tt (take_chunk-HasResponse chunk (session_for chunk ss))

-- All these responses are given out, and `left` is what is left of the bytes.
abbrev pub GivesOut : Session → List Http1Response → Bytes → Drained → Type 0
GivesOut s rs left d =
    (d.1 ≡ paired s s.pending rs)
    × (d.0.pending ≡ without_first s.pending rs)
    × (d.0.server_buf ≡ left)

module _ (parse : Bytes → ParseResult) (law : IsParser parse) where
  answered_next :
      (s : Session) (ps : List PendingRequest) (r : Http1Response) (rs : List Http1Response)
      → (paired s ps (r ∷ rs) ≡ (answer s r ps).0 ∷ paired s (answer s r ps).1 rs)
        × (without_first ps (r ∷ rs) ≡ without_first (answer s r ps).1 rs)
  answered_next s [] r [] = (refl, refl)
  answered_next s [] r (q ∷ rs) = (refl, refl)
  answered_next s (p ∷ ps) r rs = (refl, refl)

  paired-buffers :
      (s : Session) (qs : List PendingRequest) (b : Bytes) (ps : List PendingRequest)
      (rs : List Http1Response)
      → paired (record s { pending = qs; server_buf = b }) ps rs ≡ paired s ps rs
  paired-buffers s qs b ps [] = refl
  paired-buffers s qs b [] (r ∷ rs) =
      ap (λ cs. exchange_of s unknown_request s.last_server_ts (some r) s.last_server_ts ∷ cs)
        (paired-buffers s qs b [] rs)
  paired-buffers s qs b (p ∷ ps) (r ∷ rs) =
      ap (λ cs. exchange_of s p.request p.started_at (some r) s.last_server_ts ∷ cs)
        (paired-buffers s qs b ps rs)

  -- The loop on the server's bytes, where these are responses one after the other: the first goes to
  -- the request that has waited longest, in an exchange with that request and its time, the next to
  -- the next, and one that has no request left to the placeholder; these exchanges are all that is
  -- reported, the requests that have no response yet wait on, and the rest of the bytes is left.
  pub drain_server-GivesOut :
      (rs : List Http1Response) (rounds : ℕ) (s : Session) (left : Bytes)
      → length s.server_buf ≤ rounds
      → ReadsResponses parse s.server_buf rs left
      → GivesOut s rs left (drain_server parse rounds s)
  unfolding drain_server
  drain_server-GivesOut [] zero s left l h = (refl, refl, h.0)
  drain_server-GivesOut (r ∷ rs) zero s left l h =
      absurd
        (omega (arith, next_in-takes_bytes parse law s.server_buf (response_message r) h.0 h.1))
  drain_server-GivesOut [] (suc rounds) s left l h =
      subst (λ p. GivesOut s [] left (server_round (drain_server parse rounds) s p)) (sym h.1)
        (refl, refl, h.0)
  drain_server-GivesOut (r ∷ rs) (suc rounds) s left l h =
      let t : Session = record s { pending = (answer s r s.pending).1; server_buf = h.0 } in
      let rest : GivesOut t rs left (drain_server parse rounds t) =
        drain_server-GivesOut rs rounds t left
          (omega
            (arith, l, next_in-takes_bytes parse law s.server_buf (response_message r) h.0 h.1))
          h.2 in
      let (calls, waits) = answered_next s s.pending r rs in
      subst (λ p. GivesOut s (r ∷ rs) left (server_round (drain_server parse rounds) s p)) (sym h.1)
        (
          ap (λ cs. (answer s r s.pending).0 ∷ cs)
                (rest.0 ∙ paired-buffers s (answer s r s.pending).1 h.0 (answer s r s.pending).1 rs)
              ∙ sym calls,
          rest.1 ∙ sym waits,
          rest.2,
        )
