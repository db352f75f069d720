-- ===== src/Trace/Drains.antt =====
-- What the drain loops of packages/cli/src/runtime/trace/http1-reassembler.ts do to one session.
use ac.Prelude.{
  ℕ, List, [], ◌∷◌, eqb, if◌then◌else◌, is_empty, All, All-append, ◌≡◌, refl, sym, ap, ◌∙◌, subst,
  false, ◌&&◌, not, ◌++◌, map, append-nil, append_assoc, arith,
}
use ac.Trace.Http1.{Http1Request, Http1Response}
use ac.Trace.Reassembler.{
  Callback, on_request_start, on_exchange, PendingRequest, Session, answer, Drained,
}
use ac.Trace.Bytes.{Bytes}

abbrev pub times : List PendingRequest → List ℕ
times ps = map (λ (p : PendingRequest). p.started_at) ps

-- The times of the requests that a session reports as started.
abbrev pub starts_of : ℕ → List Callback → List ℕ
starts_of id [] = []
starts_of id (on_request_start i t ∷ cs) =
    let rest = starts_of id cs in if eqb i id then t ∷ rest else rest
starts_of id (on_exchange e ∷ cs) = starts_of id cs

-- The times of the requests that a session reports as ended. A response without a request, which has
-- no target, is none of them.
abbrev pub answers_of : ℕ → List Callback → List ℕ
answers_of id [] = []
answers_of id (on_request_start i t ∷ cs) = answers_of id cs
answers_of id (on_exchange e ∷ cs) =
    let rest = answers_of id cs in
    if eqb e.session_id id && not (is_empty e.request.target) then e.started_at ∷ rest else rest

abbrev pub HasTarget : PendingRequest → Type 0
HasTarget p = is_empty p.request.target ≡ false

-- The requests that waited and those that started are, in order, those that ended and those that
-- wait.
pub record Drains (s : Session) (d : Drained) : Type 0 where
  pub same_id : d.0.id ≡ s.id
  pub balanced : times s.pending ++ starts_of s.id d.1 ≡ answers_of s.id d.1 ++ times d.0.pending
  pub others_quiet : (k : ℕ) → eqb s.id k ≡ false → (starts_of k d.1 ≡ []) × (answers_of k d.1 ≡ [])
  pub have_targets : All HasTarget d.0.pending

pub starts_of-append :
    (k : ℕ) (xs ys : List Callback) → starts_of k (xs ++ ys) ≡ starts_of k xs ++ starts_of k ys
starts_of-append k [] ys = refl
starts_of-append k (on_request_start i t ∷ xs) ys = ground (arith, starts_of-append k xs ys)
starts_of-append k (on_exchange e ∷ xs) ys = starts_of-append k xs ys

pub answers_of-append :
    (k : ℕ) (xs ys : List Callback) → answers_of k (xs ++ ys) ≡ answers_of k xs ++ answers_of k ys
answers_of-append k [] ys = refl
answers_of-append k (on_request_start i t ∷ xs) ys = answers_of-append k xs ys
answers_of-append k (on_exchange e ∷ xs) ys = ground (arith, answers_of-append k xs ys)

-- Two stretches in a row.
pub balance_trans :
    (held waiting left s1 s2 a1 a2 : List ℕ)
    → held ++ s1 ≡ a1 ++ waiting
    → waiting ++ s2 ≡ a2 ++ left
    → held ++ (s1 ++ s2) ≡ (a1 ++ a2) ++ left
balance_trans held waiting left s1 s2 a1 a2 h k =
    sym (append_assoc held s1 s2)
    ∙ ap (λ xs. xs ++ s2) h
    ∙ append_assoc a1 waiting s2
    ∙ ap (λ xs. a1 ++ xs) k
    ∙ sym (append_assoc a1 a2 left)

pub Drains-refl : (s : Session) → All HasTarget s.pending → Drains s (s, [])
Drains-refl s h = record {
  same_id = refl;
  balanced = append-nil (times s.pending);
  others_quiet = λ k n. (refl, refl);
  have_targets = h;
}

pub Drains-trans :
    (s t : Session) (xs : List Callback) (d : Drained)
    → Drains s (t, xs)
    → Drains t d
    → Drains s (d.0, xs ++ d.1)
Drains-trans s t xs d h k = record {
  same_id = k.same_id ∙ h.same_id;
  balanced =
      rw (starts_of-append s.id xs d.1, answers_of-append s.id xs d.1)
        (balance_trans (times s.pending) (times t.pending) (times d.0.pending) (starts_of s.id xs)
          (starts_of s.id d.1) (answers_of s.id xs) (answers_of s.id d.1) h.balanced
          (subst (λ i. times t.pending ++ starts_of i d.1 ≡ answers_of i d.1 ++ times d.0.pending)
            h.same_id k.balanced));
  others_quiet = λ i n.
      let first : (starts_of i xs ≡ []) × (answers_of i xs ≡ []) = h.others_quiet i n in
      let second : (starts_of i d.1 ≡ []) × (answers_of i d.1 ≡ []) =
        k.others_quiet i (subst (λ j. eqb j i ≡ false) (sym h.same_id) n) in
      (
        starts_of-append i xs d.1 ∙ rw (first.0, second.0) refl,
        answers_of-append i xs d.1 ∙ rw (first.1, second.1) refl,
      );
  have_targets = k.have_targets;
}

times-append : (ps qs : List PendingRequest) → times (ps ++ qs) ≡ times ps ++ times qs
times-append [] qs = refl
times-append (p ∷ ps) qs = ap (λ xs. p.started_at ∷ xs) (times-append ps qs)

-- A change that neither calls nor touches the pending requests.
pub buffer-Drains :
    (s t : Session)
    → t.id ≡ s.id
    → t.pending ≡ s.pending
    → All HasTarget s.pending
    → Drains s (t, [])
buffer-Drains s t i p h = record {
  same_id = i;
  balanced = rw p (append-nil (times s.pending));
  others_quiet = λ k n. (refl, refl);
  have_targets = rw p h;
}

pub started-Drains :
    (s : Session) (r : Http1Request) (rest : Bytes)
    → is_empty r.target ≡ false
    → All HasTarget s.pending
    → Drains s (
      record s {
        pending = s.pending ++ record { request = r; started_at = s.last_client_ts } ∷ [];
        client_buf = rest;
      },
      on_request_start s.id s.last_client_ts ∷ [],
    )
started-Drains s r rest t h = record {
  same_id = refl;
  balanced =
      ground (
        arith,
        times-append s.pending (record { request = r; started_at = s.last_client_ts } ∷ []),
      );
  others_quiet = λ k n. ground (arith, n);
  have_targets =
      All-append HasTarget s.pending (record { request = r; started_at = s.last_client_ts } ∷ []) h
        (t, tt);
}

pub answered-Drains :
    (s : Session) (r : Http1Response) (rest : Bytes) (ps : List PendingRequest)
    → s.pending ≡ ps
    → All HasTarget ps
    → Drains s (record s { pending = (answer s r ps).1; server_buf = rest }, (answer s r ps).0 ∷ [])
answered-Drains s r rest [] e h = record {
  same_id = refl;
  balanced = rw e (ground arith);
  others_quiet = λ k n. ground (arith, n);
  have_targets = tt;
}
answered-Drains s r rest (p ∷ ps) e h = record {
  same_id = refl;
  balanced = rw e (ground (arith, h.0, append-nil (times ps)));
  others_quiet = λ k n. ground (arith, n);
  have_targets = h.1;
}
