-- ===== src/Trace/Loops.antt =====
-- The loops drainClient and drainServer of packages/cli/src/runtime/trace/http1-reassembler.ts:
-- what they call.
use ac.Prelude.{length, ℕ, [], ◌∷◌, is_empty, All, zero, suc, ◌<◌, ◌≡◌, refl, false, ◌++◌}
use ac.Trace.Framing.{IsParser}
use ac.Trace.Drains.{
  HasTarget, Drains, Drains-refl, Drains-trans, buffer-Drains, started-Drains, answered-Drains,
}
use ac.Trace.Http1.{
  Http1Request, Http1Message, request_message, response_message, ParseResult, need_more, malformed,
  parsed,
}
use ac.Trace.Reassembler.{
  on_request_start, Session, answer, Drained, client_round, server_round, next_in, drain_client,
  drain_server,
}
use ac.Trace.Bytes.{Bytes}

module _ (parse : Bytes → ParseResult) (law : IsParser parse) where
  next_in-has_target :
      (bs : Bytes) (r : Http1Request) (rest : Bytes)
      → next_in parse bs ≡ parsed (request_message r) rest
      → is_empty r.target ≡ false
  next_in-has_target [] r rest h = cc
  next_in-has_target (c ∷ cs) r rest h = law.has_target (c ∷ cs) r rest h

  pub next_in-takes_bytes :
      (bs : Bytes) (m : Http1Message) (rest : Bytes)
      → next_in parse bs ≡ parsed m rest
      → length rest < length bs
  next_in-takes_bytes [] m rest h = cc
  next_in-takes_bytes (c ∷ cs) m rest h = law.takes_bytes (c ∷ cs) m rest h

  client_round-Drains :
      (again : Session → Drained)
      → ((s : Session) → All HasTarget s.pending → Drains s (again s))
      → (s : Session) (r : ParseResult) → next_in parse s.client_buf ≡ r
      → All HasTarget s.pending
      → Drains s (client_round again s r)
  client_round-Drains again f s malformed e h =
      buffer-Drains s (record s { client_buf = [] }) refl refl h
  client_round-Drains again f s need_more e h = Drains-refl s h
  client_round-Drains again f s (parsed (response_message r) rest) e h =
      let t : Session = record s { client_buf = rest } in
      Drains-trans s t [] (again t) (buffer-Drains s t refl refl h) (f t h)
  client_round-Drains again f s (parsed (request_message r) rest) e h =
      let t : Session = record s {
        pending = s.pending ++ record { request = r; started_at = s.last_client_ts } ∷ [];
        client_buf = rest;
      } in
      let began : Drains s (t, on_request_start s.id s.last_client_ts ∷ []) =
        started-Drains s r rest (next_in-has_target s.client_buf r rest e) h in
      Drains-trans s t (on_request_start s.id s.last_client_ts ∷ []) (again t) began
        (f t began.have_targets)

  pub drain_client-Drains :
      (rounds : ℕ) (s : Session) → All HasTarget s.pending → Drains s (drain_client parse rounds s)
  unfolding drain_client
  drain_client-Drains zero s h = Drains-refl s h
  drain_client-Drains (suc rounds) s h =
      client_round-Drains (drain_client parse rounds) (drain_client-Drains rounds) s
        (next_in parse s.client_buf) refl h

  server_round-Drains :
      (again : Session → Drained)
      → ((s : Session) → All HasTarget s.pending → Drains s (again s))
      → (s : Session) (r : ParseResult) → All HasTarget s.pending
      → Drains s (server_round again s r)
  server_round-Drains again f s malformed h =
      buffer-Drains s (record s { server_buf = [] }) refl refl h
  server_round-Drains again f s need_more h = Drains-refl s h
  server_round-Drains again f s (parsed (request_message r) rest) h =
      let t : Session = record s { server_buf = rest } in
      Drains-trans s t [] (again t) (buffer-Drains s t refl refl h) (f t h)
  server_round-Drains again f s (parsed (response_message r) rest) h =
      let t : Session = record s { pending = (answer s r s.pending).1; server_buf = rest } in
      let ended : Drains s (t, (answer s r s.pending).0 ∷ []) =
        answered-Drains s r rest s.pending refl h in
      Drains-trans s t ((answer s r s.pending).0 ∷ []) (again t) ended (f t ended.have_targets)

  pub drain_server-Drains :
      (rounds : ℕ) (s : Session) → All HasTarget s.pending → Drains s (drain_server parse rounds s)
  unfolding drain_server
  drain_server-Drains zero s h = Drains-refl s h
  drain_server-Drains (suc rounds) s h =
      server_round-Drains (drain_server parse rounds) (drain_server-Drains rounds) s
        (next_in parse s.server_buf) h
