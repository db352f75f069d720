-- ===== src/Trace/Ends.antt =====
-- When the loops drainClient and drainServer of packages/cli/src/runtime/trace/http1-reassembler.ts
-- end.
use ac.Prelude.{length, ℕ, [], ◌∷◌, zero, suc, ◌≤◌, ◌<◌, ◌≡◌, refl, sym, ap, ◌++◌, arith}
use ac.Trace.Loops.{next_in-takes_bytes}
use ac.Trace.Framing.{IsParser}
use ac.Trace.Http1.{
  Http1Message, request_message, response_message, ParseResult, need_more, malformed, parsed,
}
use ac.Trace.Reassembler.{
  on_request_start, Session, answer, Drained, calling, client_round, server_round, next_in,
  drain_client, drain_server, all_client, all_server,
}
use ac.Trace.Bytes.{Bytes}

module _ (parse : Bytes → ParseResult) (law : IsParser parse) where
  next_in-empty : (bs : Bytes) → length bs ≤ 0 → next_in parse bs ≡ need_more
  next_in-empty [] h = refl
  next_in-empty (c ∷ cs) h = absurd (omega arith)

  client_round-same :
      (f g : Session → Drained) (s : Session) (r : ParseResult)
      → ((m : Http1Message) (t : Session) → r ≡ parsed m t.client_buf → f t ≡ g t)
      → client_round f s r ≡ client_round g s r
  client_round-same f g s malformed h = refl
  client_round-same f g s need_more h = refl
  client_round-same f g s (parsed (response_message r) rest) h =
      h (response_message r) (record s { client_buf = rest }) refl
  client_round-same f g s (parsed (request_message r) rest) h =
      ap (calling (on_request_start s.id s.last_client_ts)) (
        h (request_message r)
          (record s {
            pending = s.pending ++ record { request = r; started_at = s.last_client_ts } ∷ [];
            client_buf = rest;
          })
          refl)

  client_round-settles :
      (again : Session → Drained) (s : Session) (r : ParseResult)
      → next_in parse s.client_buf ≡ r
      → ((m : Http1Message) (t : Session)
          → r ≡ parsed m t.client_buf
          → next_in parse (again t).0.client_buf ≡ need_more)
      → next_in parse (client_round again s r).0.client_buf ≡ need_more
  client_round-settles again s malformed e h = refl
  client_round-settles again s need_more e h = e
  client_round-settles again s (parsed (response_message r) rest) e h =
      h (response_message r) (record s { client_buf = rest }) refl
  client_round-settles again s (parsed (request_message r) rest) e h =
      h (request_message r)
        (record s {
          pending = s.pending ++ record { request = r; started_at = s.last_client_ts } ∷ [];
          client_buf = rest;
        })
        refl

  drain_client-rounds :
      (m n : ℕ) (s : Session)
      → length s.client_buf ≤ m
      → length s.client_buf ≤ n
      → drain_client parse m s ≡ drain_client parse n s
  unfolding drain_client
  drain_client-rounds zero zero s h k = refl
  drain_client-rounds zero (suc n) s h k =
      sym (ap (client_round (drain_client parse n) s) (next_in-empty s.client_buf h))
  drain_client-rounds (suc m) zero s h k =
      ap (client_round (drain_client parse m) s) (next_in-empty s.client_buf k)
  drain_client-rounds (suc m) (suc n) s h k =
      client_round-same (drain_client parse m) (drain_client parse n) s (next_in parse s.client_buf)
        λ x t e.
          let shorter : length t.client_buf < length s.client_buf =
            next_in-takes_bytes parse law s.client_buf x t.client_buf e in
          drain_client-rounds m n t (omega arith) (omega arith)

  drain_client-settles :
      (m : ℕ) (s : Session)
      → length s.client_buf ≤ m
      → next_in parse (drain_client parse m s).0.client_buf ≡ need_more
  unfolding drain_client
  drain_client-settles zero s h = next_in-empty s.client_buf h
  drain_client-settles (suc m) s h =
      client_round-settles (drain_client parse m) s (next_in parse s.client_buf) refl λ x t e.
        let shorter : length t.client_buf < length s.client_buf =
          next_in-takes_bytes parse law s.client_buf x t.client_buf e in
        drain_client-settles m t (omega arith)

  -- The loop drainClient ends: after as many rounds as the buffer has bytes, further rounds change
  -- nothing, and what is left in the buffer is no complete message.
  pub drain_client-ends :
      (rounds : ℕ) (s : Session)
      → length s.client_buf ≤ rounds
      → (drain_client parse rounds s ≡ all_client parse s)
        × (next_in parse (all_client parse s).0.client_buf ≡ need_more)
  drain_client-ends rounds s h = (
    drain_client-rounds rounds (length s.client_buf) s h (omega arith),
    drain_client-settles (length s.client_buf) s (omega arith),
  )

  server_round-same :
      (f g : Session → Drained) (s : Session) (r : ParseResult)
      → ((m : Http1Message) (t : Session) → r ≡ parsed m t.server_buf → f t ≡ g t)
      → server_round f s r ≡ server_round g s r
  server_round-same f g s malformed h = refl
  server_round-same f g s need_more h = refl
  server_round-same f g s (parsed (request_message r) rest) h =
      h (request_message r) (record s { server_buf = rest }) refl
  server_round-same f g s (parsed (response_message r) rest) h =
      ap (calling ((answer s r s.pending).0)) (
        h (response_message r) (record s { pending = (answer s r s.pending).1; server_buf = rest })
          refl)

  server_round-settles :
      (again : Session → Drained) (s : Session) (r : ParseResult)
      → next_in parse s.server_buf ≡ r
      → ((m : Http1Message) (t : Session)
          → r ≡ parsed m t.server_buf
          → next_in parse (again t).0.server_buf ≡ need_more)
      → next_in parse (server_round again s r).0.server_buf ≡ need_more
  server_round-settles again s malformed e h = refl
  server_round-settles again s need_more e h = e
  server_round-settles again s (parsed (request_message r) rest) e h =
      h (request_message r) (record s { server_buf = rest }) refl
  server_round-settles again s (parsed (response_message r) rest) e h =
      h (response_message r) (record s { pending = (answer s r s.pending).1; server_buf = rest })
        refl

  drain_server-rounds :
      (m n : ℕ) (s : Session)
      → length s.server_buf ≤ m
      → length s.server_buf ≤ n
      → drain_server parse m s ≡ drain_server parse n s
  unfolding drain_server
  drain_server-rounds zero zero s h k = refl
  drain_server-rounds zero (suc n) s h k =
      sym (ap (server_round (drain_server parse n) s) (next_in-empty s.server_buf h))
  drain_server-rounds (suc m) zero s h k =
      ap (server_round (drain_server parse m) s) (next_in-empty s.server_buf k)
  drain_server-rounds (suc m) (suc n) s h k =
      server_round-same (drain_server parse m) (drain_server parse n) s (next_in parse s.server_buf)
        λ x t e.
          let shorter : length t.server_buf < length s.server_buf =
            next_in-takes_bytes parse law s.server_buf x t.server_buf e in
          drain_server-rounds m n t (omega arith) (omega arith)

  drain_server-settles :
      (m : ℕ) (s : Session)
      → length s.server_buf ≤ m
      → next_in parse (drain_server parse m s).0.server_buf ≡ need_more
  unfolding drain_server
  drain_server-settles zero s h = next_in-empty s.server_buf h
  drain_server-settles (suc m) s h =
      server_round-settles (drain_server parse m) s (next_in parse s.server_buf) refl λ x t e.
        let shorter : length t.server_buf < length s.server_buf =
          next_in-takes_bytes parse law s.server_buf x t.server_buf e in
        drain_server-settles m t (omega arith)

  -- The loop drainServer ends: after as many rounds as the buffer has bytes, further rounds change
  -- nothing, and what is left in the buffer is no complete message.
  pub drain_server-ends :
      (rounds : ℕ) (s : Session)
      → length s.server_buf ≤ rounds
      → (drain_server parse rounds s ≡ all_server parse s)
        × (next_in parse (all_server parse s).0.server_buf ≡ need_more)
  drain_server-ends rounds s h = (
    drain_server-rounds rounds (length s.server_buf) s h (omega arith),
    drain_server-settles (length s.server_buf) s (omega arith),
  )
