-- ===== src/Trace/Chunking.antt =====
-- The requests that packages/cli/src/runtime/trace/http1-reassembler.ts reads out of the client's
-- bytes, however the proxy cuts these into chunks.
use ac.Prelude.{
  length, ℕ, List, [], ◌∷◌, ◌≡◌, refl, ◌++◌, map, arith, zero, suc, ◌≤◌, sym, ap, ◌∙◌, subst,
  append-nil, append_assoc, if◌then◌else◌, length-append, ◌+◌, false,
}
use ac.Trace.Framing.{IsParser}
use ac.Trace.Http1.{Http1Request, request_message, ParseResult, need_more}
use ac.Trace.Stability.{IsStable}
use ac.Trace.Reassembler.{
  PendingRequest, Session, next_in, drain_client, all_client, Drained, client_round,
  max_direction_buffer, poison_if_full,
}
use ac.Trace.Bytes.{Bytes}
use ac.Prelude.Codes.{same}
use ac.Trace.Loops.{next_in-takes_bytes}
use ac.Trace.Cutting.{Reads, Halves, Reads-cut}

abbrev pub client_bytes : List (ℕ × Bytes) → Bytes
client_bytes [] = []
client_bytes ((ts, bytes) ∷ cs) = bytes ++ client_bytes cs

abbrev pub requests_of : List PendingRequest → List Http1Request
requests_of ps = map (λ (p : PendingRequest). p.request) ps

module _ (parse : Bytes → ParseResult) where
  -- What `ingest` makes of the session of one chunk of the client.
  abbrev pub client_chunk : ℕ → Bytes → Session → Session
  client_chunk ts bytes s =
      if s.poisoned
      then s
      else poison_if_full
          (all_client parse
            (record s { client_buf = s.client_buf ++ bytes; last_client_ts = ts })).0

  -- And of the client's chunks, one after the other.
  unfoldable pub take_client : List (ℕ × Bytes) → Session → Session
  unfolding drain_client
  take_client [] s = s
  take_client ((ts, bytes) ∷ cs) s = take_client cs (client_chunk ts bytes s)

-- A session that is not given up, and whose buffers stay within the limit with more bytes of the client.
pub record HasRoom (s : Session) (more : ℕ) : Type 0 where
  pub healthy : s.poisoned ≡ false
  pub client_fits : length s.client_buf + more ≤ max_direction_buffer
  pub server_fits : length s.server_buf ≤ max_direction_buffer

poison_if_full-fits :
    (s : Session)
    → length s.client_buf ≤ max_direction_buffer
    → length s.server_buf ≤ max_direction_buffer
    → poison_if_full s ≡ s
poison_if_full-fits s c d = ground (arith, c, d)

module _ (parse : Bytes → ParseResult) (law : IsParser parse) (stable : IsStable parse) where
  requests_of-append :
      (ps qs : List PendingRequest) → requests_of (ps ++ qs) ≡ requests_of ps ++ requests_of qs
  requests_of-append [] qs = refl
  requests_of-append (p ∷ ps) qs = ap (λ xs. p.request ∷ xs) (requests_of-append ps qs)

  abbrev Took : List Http1Request → Bytes → Session → Drained → Type 0
  Took rs left s d =
      (requests_of d.0.pending ≡ requests_of s.pending ++ rs)
      × (d.0.client_buf ≡ left)
      × (d.0.server_buf ≡ s.server_buf)
      × (d.0.poisoned ≡ s.poisoned)

  -- The loop reads what there is to read.
  drain_client-Took :
      (rs : List Http1Request) (rounds : ℕ) (s : Session) (left : Bytes)
      → length s.client_buf ≤ rounds
      → Reads parse s.client_buf rs left
      → Took rs left s (drain_client parse rounds s)
  unfolding drain_client
  drain_client-Took [] zero s left l h = (sym (append-nil (requests_of s.pending)), h.0, refl, refl)
  drain_client-Took (r ∷ rs) zero s left l h =
      absurd (omega (arith, next_in-takes_bytes parse law s.client_buf (request_message r) h.0 h.1))
  drain_client-Took [] (suc rounds) s left l h =
      subst (λ p. Took [] left s (client_round (drain_client parse rounds) s p)) (sym h.1)
        (sym (append-nil (requests_of s.pending)), h.0, refl, refl)
  drain_client-Took (r ∷ rs) (suc rounds) s left l h =
      let p : PendingRequest = record { request = r; started_at = s.last_client_ts } in
      let t : Session = record s { pending = s.pending ++ p ∷ []; client_buf = h.0 } in
      let rest : Took rs left t (drain_client parse rounds t) =
        drain_client-Took rs rounds t left
          (omega (arith, next_in-takes_bytes parse law s.client_buf (request_message r) h.0 h.1))
          h.2 in
      subst (λ q. Took (r ∷ rs) left s (client_round (drain_client parse rounds) s q)) (sym h.1)
        (
          rest.0
              ∙ ap (λ xs. xs ++ rs) (requests_of-append s.pending (p ∷ []))
              ∙ append_assoc (requests_of s.pending) (r ∷ []) rs,
          rest.1,
          rest.2,
          rest.3,
        )

  Reads-settled :
      (rs : List Http1Request) (bs left : Bytes)
      → Reads parse bs rs left
      → next_in parse left ≡ need_more
  Reads-settled [] bs left h = subst (λ x. next_in parse x ≡ need_more) h.0 h.1
  Reads-settled (r ∷ rs) bs left h = Reads-settled rs h.0 left h.2

  Reads-nothing :
      (rs : List Http1Request) (bs left : Bytes)
      → next_in parse bs ≡ need_more
      → Reads parse bs rs left
      → (rs ≡ []) × (bs ≡ left)
  Reads-nothing [] bs left e h = (refl, h.0)
  Reads-nothing (r ∷ rs) bs left e h = absurd (ground (arith, e, h.1))

  Reads-shrinks :
      (rs : List Http1Request) (bs left : Bytes) → Reads parse bs rs left → length left ≤ length bs
  Reads-shrinks [] bs left h = rw h.0 (omega arith)
  Reads-shrinks (r ∷ rs) bs left h = omega (
    arith,
    next_in-takes_bytes parse law bs (request_message r) h.0 h.1,
    Reads-shrinks rs h.0 left h.2,
  )

  -- A chunk within the limit reads what the bytes so far hold.
  client_chunk-Took :
      (ts more : ℕ) (bytes : Bytes) (s : Session) (rs : List Http1Request) (left : Bytes)
      → HasRoom s (length bytes + more)
      → Reads parse (s.client_buf ++ bytes) rs left
      → HasRoom (client_chunk parse ts bytes s) more
        × (requests_of (client_chunk parse ts bytes s).pending ≡ requests_of s.pending ++ rs)
        × ((client_chunk parse ts bytes s).client_buf ≡ left)
  client_chunk-Took ts more bytes s rs left room h =
      let t : Session = record s { client_buf = s.client_buf ++ bytes; last_client_ts = ts } in
      let d : Drained = all_client parse t in
      let took : Took rs left t d =
        drain_client-Took rs (length t.client_buf) t left (omega arith) h in
      let fits : length left + more ≤ max_direction_buffer = omega (
        arith,
        room.client_fits,
        length-append s.client_buf bytes,
        Reads-shrinks rs (s.client_buf ++ bytes) left h,
      ) in
      let whole : client_chunk parse ts bytes s ≡ d.0 =
        subst (λ b. (if b then s else poison_if_full d.0) ≡ d.0) (sym room.healthy)
          (poison_if_full-fits d.0 (rw took.1 (omega (arith, fits)))
            (rw took.2 room.server_fits)) in
      rw whole (
        record {
          healthy = took.3 ∙ room.healthy;
          client_fits = rw took.1 fits;
          server_fits = rw took.2 room.server_fits;
        },
        took.0,
        took.1,
      )

  -- The requests that the client's bytes are made of are read one after the other into the session,
  -- with the same bytes left over, however the bytes are cut into chunks: at whichever places, within
  -- a request or between two. The bytes hold requests only, none of them malformed; the session is not
  -- given up, its buffers are within the limit, and so are the bytes of the client with those that
  -- wait in their buffer.
  pub take_client-whole :
      (cs : List (ℕ × Bytes)) (s : Session) (rs : List Http1Request) (left : Bytes)
      → HasRoom s (length (client_bytes cs))
      → next_in parse s.client_buf ≡ need_more
      → Reads parse (s.client_buf ++ client_bytes cs) rs left
      → (requests_of (take_client parse cs s).pending ≡ requests_of s.pending ++ rs)
        × ((take_client parse cs s).client_buf ≡ left)
  unfolding take_client
  take_client-whole [] s rs left room e h =
      let (none_left, same) =
        Reads-nothing rs s.client_buf left e
          (subst (λ x. Reads parse x rs left) (append-nil s.client_buf) h) in
      (
        sym (append-nil (requests_of s.pending))
            ∙ ap (λ xs. requests_of s.pending ++ xs) (sym none_left),
        same,
      )
  take_client-whole ((ts, bytes) ∷ cs) s rs left room e h =
      let halves : Halves parse (s.client_buf ++ bytes) (client_bytes cs) rs left =
        Reads-cut parse law stable (s.client_buf ++ bytes) (client_bytes cs) rs left (
          subst (λ x. Reads parse x rs left)
            (sym (append_assoc s.client_buf bytes (client_bytes cs))) h) in
      let t : Session = client_chunk parse ts bytes s in
      let (roomy, read, left_over) =
        client_chunk-Took ts (length (client_bytes cs)) bytes s halves.first halves.between
          (record {
            healthy = room.healthy;
            client_fits = omega (arith, room.client_fits, length-append bytes (client_bytes cs));
            server_fits = room.server_fits;
          })
          halves.reads_first in
      let after_it : (requests_of (take_client parse cs t).pending
            ≡ requests_of t.pending ++ halves.second)
          × ((take_client parse cs t).client_buf ≡ left) =
        take_client-whole cs t halves.second left roomy
          (subst (λ x. next_in parse x ≡ need_more) (sym left_over)
            (Reads-settled halves.first (s.client_buf ++ bytes) halves.between halves.reads_first))
          (subst (λ x. Reads parse (x ++ client_bytes cs) halves.second left) (sym left_over)
            halves.reads_second) in
      (
        after_it.0
            ∙ ap (λ xs. xs ++ halves.second) read
            ∙ append_assoc (requests_of s.pending) halves.first halves.second
            ∙ ap (λ xs. requests_of s.pending ++ xs) (sym halves.all_read),
        after_it.1,
      )
