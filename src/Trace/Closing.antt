-- ===== src/Trace/Closing.antt =====
-- What packages/cli/src/runtime/trace/http1-reassembler.ts calls for one chunk and for a session that
-- closes.
use ac.Prelude.{
  length, ℕ, none, some, List, [], ◌∷◌, Option, eqb, if◌then◌else◌, if_lem, eqb_iff, Bool-cases,
  Option-cases, All, ◌≡◌, refl, sym, subst, inl, inr, false, ◌++◌, map, arith,
}
use ac.Trace.Loops.{drain_client-Drains, drain_server-Drains}
use ac.Trace.Framing.{IsParser}
use ac.Trace.Drains.{times, starts_of, answers_of, HasTarget, Drains, Drains-trans, buffer-Drains}
use ac.Trace.Http1.{ParseResult}
use ac.Trace.Reassembler.{
  Callback, PendingRequest, Session, ProxyChunk, Drained, poison_if_full, get_session, put_session,
  delete_session, session_for, Reassembled, unanswered, all_client, all_server, take_chunk, ingest,
  flushed, closing, close_session, close_each, close_all,
}
use ac.Trace.Bytes.{Bytes}
use ac.Trace.Pairing.{
  due, AllTargeted, get_session-id, get_session-All, Pairs, Pairs-refl, Pairs-trans, put-Pairs,
  poison_if_full-id, poison_if_full-pending, get_session-delete_session_same,
  get_session-delete_session_other, delete-Pairs,
}

unanswered_starts :
    (k : ℕ) (u : Session) (ps : List PendingRequest) → starts_of k (unanswered u ps) ≡ []
unanswered_starts k u [] = refl
unanswered_starts k u (p ∷ ps) = unanswered_starts k u ps

unanswered_answers :
    (u : Session) (ps : List PendingRequest)
    → All HasTarget ps
    → answers_of u.id (unanswered u ps) ≡ times ps
unanswered_answers u [] h = refl
unanswered_answers u (p ∷ ps) h = ground (arith, h.0, unanswered_answers u ps h.1)

unanswered_others :
    (k : ℕ) (u : Session) (ps : List PendingRequest)
    → eqb u.id k ≡ false
    → answers_of k (unanswered u ps) ≡ []
unanswered_others k u [] n = refl
unanswered_others k u (p ∷ ps) n = ground (arith, n, unanswered_others k u ps n)

unanswered-Drains :
    (u : Session)
    → All HasTarget u.pending
    → Drains u (record u { pending = [] }, unanswered u u.pending)
unanswered-Drains u h = record {
  same_id = refl;
  balanced = rw (unanswered_starts u.id u u.pending, unanswered_answers u u.pending h) refl;
  others_quiet = λ k n. (unanswered_starts k u u.pending, unanswered_others k u u.pending n);
  have_targets = tt;
}

-- A session was not given up for its size.
abbrev pub IsKept : Option Session → Type 0
IsKept none = Unit
IsKept (some s) = s.poisoned ≡ false

abbrev pub IsHealthyAt : ℕ → List Session → Type 0
IsHealthyAt id ss = IsKept (get_session id ss)

module _ (parse : Bytes → ParseResult) (law : IsParser parse) where
  as_before :
      (s t : Session) (d : Drained)
      → t.id ≡ s.id
      → t.pending ≡ s.pending
      → All HasTarget s.pending
      → Drains t d
      → Drains s d
  as_before s t d i p h k = Drains-trans s t [] d (buffer-Drains s t i p h) k

  take_chunk-Drains :
      (chunk : ProxyChunk) (s : Session)
      → All HasTarget s.pending
      → Drains s (take_chunk parse chunk s)
  take_chunk-Drains chunk s h =
      let c : Session = record s {
        client_buf = s.client_buf ++ chunk.bytes;
        last_client_ts = chunk.ts;
      } in
      let u : Session = record s {
        server_buf = s.server_buf ++ chunk.bytes;
        last_server_ts = chunk.ts;
      } in
      elim (Bool-cases chunk.to_upstream) [
        | inl e ↦ rw e (
            as_before s c (all_client parse c) refl refl h
              (drain_client-Drains parse law (length c.client_buf) c h))
        | inr e ↦ rw e (
            as_before s u (all_server parse u) refl refl h
              (drain_server-Drains parse law (length u.server_buf) u h))
      ]

  session_for-due :
      (chunk : ProxyChunk) (ss : List Session)
      → AllTargeted ss
      → ((session_for chunk ss).id ≡ chunk.session_id)
        × (due chunk.session_id ss ≡ times (session_for chunk ss).pending)
        × All HasTarget (session_for chunk ss).pending
  unfolding session_for
  session_for-due chunk ss v = elim (Option-cases (get_session chunk.session_id ss)) [
    | inl e ↦ rw (session_for, due, e) (refl, refl, tt)
    | inr (s, e) ↦
        rw (session_for, due, e)
          (get_session-id chunk.session_id ss s e, refl, get_session-All chunk.session_id ss s v e)
  ]

  pub ingest-Pairs :
      (chunk : ProxyChunk) (ss : List Session) → AllTargeted ss → Pairs ss (ingest parse chunk ss)
  unfolding ingest
  ingest-Pairs chunk ss v =
      let s : Session = session_for chunk ss in
      let found : (s.id ≡ chunk.session_id)
          × (due chunk.session_id ss ≡ times s.pending)
          × All HasTarget s.pending =
        session_for-due chunk ss v in
      let d : Drained = take_chunk parse chunk s in
      let taken : Pairs ss (put_session (poison_if_full d.0) ss, d.1) =
        put-Pairs s (poison_if_full d.0) ss d (take_chunk-Drains chunk s found.2)
          (poison_if_full-id d.0) (poison_if_full-pending d.0) (rw found.0 found.1) v in
      if_lem (λ (r : Reassembled). Pairs ss r) s.poisoned (ss, [])
        (put_session (poison_if_full d.0) ss, d.1) (Pairs-refl ss v) taken

  flushed-Drains :
      (s : Session)
      → All HasTarget s.pending
      → Drains s
          (record (all_server parse (all_client parse s).0).0 { pending = [] }, flushed parse s)
  flushed-Drains s h =
      let d1 : Drained = all_client parse s in
      let first : Drains s d1 = drain_client-Drains parse law (length s.client_buf) s h in
      let d2 : Drained = all_server parse d1.0 in
      let second : Drains d1.0 d2 =
        drain_server-Drains parse law (length d1.0.server_buf) d1.0 first.have_targets in
      Drains-trans s d1.0 d1.1 _ first
        (Drains-trans d1.0 d2.0 d2.1 _ second (unanswered-Drains d2.0 second.have_targets))

  pub close_session-Pairs :
      (id : ℕ) (ss : List Session)
      → AllTargeted ss
      → IsHealthyAt id ss
      → Pairs ss (close_session parse id ss)
  unfolding close_session
  close_session-Pairs id ss v g = elim (Option-cases (get_session id ss)) [
    | inl e ↦ rw (close_session, e) (Pairs-refl ss v)
    | inr (s, e) ↦
        let healthy : s.poisoned ≡ false = subst (λ o. IsKept o) e g in
        let own : s.id ≡ id = get_session-id id ss s e in
        let d : Drained =
          (record (all_server parse (all_client parse s).0).0 { pending = [] }, flushed parse s) in
        let waits : due s.id ss ≡ times s.pending =
          subst (λ i. due i ss ≡ times s.pending) (sym own) (rw (due, e) refl) in
        let gone : Pairs ss (delete_session s.id ss, flushed parse s) =
          delete-Pairs s ss d (flushed-Drains s (get_session-All id ss s v e)) refl waits v in
        subst (λ o. Pairs ss (closing parse id ss o)) (sym e)
          (subst (λ b. Pairs ss (delete_session id ss, if b then [] else flushed parse s))
            (sym healthy) (subst (λ i. Pairs ss (delete_session i ss, flushed parse s)) own gone))
  ]

  delete_session-IsHealthyAt :
      (k id : ℕ) (ss : List Session) → IsHealthyAt k ss → IsHealthyAt k (delete_session id ss)
  delete_session-IsHealthyAt k id ss g = elim (Bool-cases (eqb id k)) [
    | inl e ↦
        subst (λ i. IsKept (get_session i (delete_session id ss))) ((eqb_iff id k).0 e)
          (subst IsKept (sym (get_session-delete_session_same id ss)) tt)
    | inr n ↦ subst IsKept (sym (get_session-delete_session_other k id ss n)) g
  ]

  close_session-IsHealthyAt :
      (k id : ℕ) (ss : List Session)
      → IsHealthyAt k ss
      → IsHealthyAt k (close_session parse id ss).0
  unfolding close_session
  close_session-IsHealthyAt k id ss g = elim (Option-cases (get_session id ss)) [
    | inl e ↦ subst (λ o. IsHealthyAt k (closing parse id ss o).0) (sym e) g
    | inr (s, e) ↦
        subst (λ o. IsHealthyAt k (closing parse id ss o).0) (sym e)
          (delete_session-IsHealthyAt k id ss g)
  ]

  close_each-Pairs :
      (ids : List ℕ) (ss ts : List Session) (xs : List Callback)
      → Pairs ss (ts, xs)
      → ((k : ℕ) → IsHealthyAt k ts)
      → Pairs ss (close_each parse ids (ts, xs))
  close_each-Pairs [] ss ts xs h g = h
  close_each-Pairs (id ∷ ids) ss ts xs h g =
      let r : Reassembled = close_session parse id ts in
      close_each-Pairs ids ss r.0 (xs ++ r.1)
        (Pairs-trans ss ts xs r h (close_session-Pairs id ts h.targeted (g id)))
        (λ k. close_session-IsHealthyAt k id ts (g k))

  pub close_all-Pairs :
      (ss : List Session)
      → AllTargeted ss
      → ((k : ℕ) → IsHealthyAt k ss)
      → Pairs ss (close_all parse ss)
  unfolding close_all
  close_all-Pairs ss v g =
      close_each-Pairs (map (λ (s : Session). s.id) ss) ss ss [] (Pairs-refl ss v) g
