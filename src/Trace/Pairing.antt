-- ===== src/Trace/Pairing.antt =====
-- How the two callbacks of packages/cli/src/runtime/trace/http1-reassembler.ts match over the sessions.
use ac.Prelude.{
  ℕ, none, some, List, [], ◌∷◌, eqb, Bool-cases, All, ◌≡◌, inl, inr, false, ◌++◌, arith, ap, subst,
  true, eqb_iff, All-keep, refl, ◌∙◌, not, append-nil,
}
use ac.Trace.Drains.{
  times, starts_of, answers_of, HasTarget, Drains, starts_of-append, answers_of-append,
  balance_trans,
}
use ac.Trace.Reassembler.{
  Session, get_session, put_session, Reassembled, Callback, Drained, poison_if_full, delete_session,
}

-- The times of the requests of a session that wait for their response.
abbrev pub due : ℕ → List Session → List ℕ
due id ss = elim (get_session id ss) [ none ↦ [] | some s ↦ times s.pending ]

abbrev pub AllTargeted : List Session → Type 0
AllTargeted ss = All (λ (s : Session). All HasTarget s.pending) ss

get_session-put_session_same :
    (t : Session) (ss : List Session) → get_session t.id (put_session t ss) ≡ some t
unfolding get_session put_session
get_session-put_session_same t [] = ground arith
get_session-put_session_same t (s ∷ ss) = ground (arith, get_session-put_session_same t ss)

get_session-put_session_other :
    (k : ℕ) (t : Session) (ss : List Session)
    → eqb t.id k ≡ false
    → get_session k (put_session t ss) ≡ get_session k ss
unfolding get_session put_session
get_session-put_session_other k t [] n = ground (arith, n)
get_session-put_session_other k t (s ∷ ss) n =
    ground (arith, n, get_session-put_session_other k t ss n)

get_session-here :
    (id : ℕ) (x : Session) (ss : List Session) (s : Session)
    → eqb x.id id ≡ true
    → get_session id (x ∷ ss) ≡ some s
    → x ≡ s
unfolding get_session
get_session-here id x ss s e h = ground (arith, h, e)

pub get_session-id :
    (id : ℕ) (ss : List Session) (s : Session) → get_session id ss ≡ some s → s.id ≡ id
unfolding get_session
get_session-id id [] s h = cc
get_session-id id (x ∷ ss) s h = elim (Bool-cases (eqb x.id id)) [
  | inl e ↦ ground (arith, h, e, ap (λ (x : Session). x.id) (get_session-here id x ss s e h))
  | inr e ↦ get_session-id id ss s (ground (arith, h, e))
]

pub get_session-All :
    (id : ℕ) (ss : List Session) (s : Session)
    → AllTargeted ss
    → get_session id ss ≡ some s
    → All HasTarget s.pending
unfolding get_session
get_session-All id [] s v h = cc
get_session-All id (x ∷ ss) s v h = elim (Bool-cases (eqb x.id id)) [
  | inl e ↦ subst (λ (y : Session). All HasTarget y.pending) (get_session-here id x ss s e h) v.0
  | inr e ↦ get_session-All id ss s v.1 (ground (arith, h, e))
]

put_session-AllTargeted :
    (t : Session) (ss : List Session)
    → All HasTarget t.pending
    → AllTargeted ss
    → AllTargeted (put_session t ss)
unfolding put_session
put_session-AllTargeted t [] h v = (h, tt)
put_session-AllTargeted t (s ∷ ss) h v = ground (arith, h, v, put_session-AllTargeted t ss h v.1)

-- A stretch of calls: for each session, what waited and what started is what ended and what waits.
pub record Pairs (ss : List Session) (r : Reassembled) : Type 0 where
  pub matched : (k : ℕ) → due k ss ++ starts_of k r.1 ≡ answers_of k r.1 ++ due k r.0
  pub targeted : AllTargeted r.0

pub Pairs-refl : (ss : List Session) → AllTargeted ss → Pairs ss (ss, [])
Pairs-refl ss v = record { matched = λ k. append-nil (due k ss); targeted = v }

pub Pairs-trans :
    (ss ts : List Session) (xs : List Callback) (r : Reassembled)
    → Pairs ss (ts, xs)
    → Pairs ts r
    → Pairs ss (r.0, xs ++ r.1)
Pairs-trans ss ts xs r h g = record {
  matched = λ k.
      rw (starts_of-append k xs r.1, answers_of-append k xs r.1)
        (balance_trans (due k ss) (due k ts) (due k r.0) (starts_of k xs) (starts_of k r.1)
          (answers_of k xs) (answers_of k r.1) (h.matched k) (g.matched k));
  targeted = g.targeted;
}

-- A session's own calls, where the other sessions stay as they are.
session-Pairs :
    (s : Session) (ss ts : List Session) (d : Drained)
    → Drains s d
    → due s.id ss ≡ times s.pending
    → due s.id ts ≡ times d.0.pending
    → ((k : ℕ) → eqb s.id k ≡ false → due k ts ≡ due k ss)
    → AllTargeted ts
    → Pairs ss (ts, d.1)
session-Pairs s ss ts d h b a others v = record {
  matched = λ k. elim (Bool-cases (eqb s.id k)) [
    | inl e ↦
        subst (λ i. due i ss ++ starts_of i d.1 ≡ answers_of i d.1 ++ due i ts)
          ((eqb_iff s.id k).0 e) (rw (b, a) h.balanced)
    | inr n ↦
        rw (others k n, (h.others_quiet k n).0, (h.others_quiet k n).1) (append-nil (due k ss))
  ];
  targeted = v;
}

pub put-Pairs :
    (s t : Session) (ss : List Session) (d : Drained)
    → Drains s d
    → t.id ≡ d.0.id
    → t.pending ≡ d.0.pending
    → due s.id ss ≡ times s.pending
    → AllTargeted ss
    → Pairs ss (put_session t ss, d.1)
put-Pairs s t ss d h i p b v =
    let own : t.id ≡ s.id = i ∙ h.same_id in
    session-Pairs s ss (put_session t ss) d h b
      (subst (λ j. due j (put_session t ss) ≡ times d.0.pending) own
        (rw (due, get_session-put_session_same t ss) (ap times p)))
      (λ k n. rw (due, get_session-put_session_other k t ss (rw own n)) refl)
      (put_session-AllTargeted t ss (rw p h.have_targets) v)

pub poison_if_full-id : (s : Session) → (poison_if_full s).id ≡ s.id
poison_if_full-id s = ground arith

pub poison_if_full-pending : (s : Session) → (poison_if_full s).pending ≡ s.pending
poison_if_full-pending s = ground arith

pub get_session-delete_session_same :
    (id : ℕ) (ss : List Session) → get_session id (delete_session id ss) ≡ none
unfolding get_session delete_session
get_session-delete_session_same id [] = refl
get_session-delete_session_same id (s ∷ ss) = ground (arith, get_session-delete_session_same id ss)

pub get_session-delete_session_other :
    (k id : ℕ) (ss : List Session)
    → eqb id k ≡ false
    → get_session k (delete_session id ss) ≡ get_session k ss
unfolding get_session delete_session
get_session-delete_session_other k id [] n = refl
get_session-delete_session_other k id (s ∷ ss) n =
    ground (arith, n, get_session-delete_session_other k id ss n)

pub delete-Pairs :
    (s : Session) (ss : List Session) (d : Drained)
    → Drains s d
    → d.0.pending ≡ []
    → due s.id ss ≡ times s.pending
    → AllTargeted ss
    → Pairs ss (delete_session s.id ss, d.1)
delete-Pairs s ss d h p b v =
    session-Pairs s ss (delete_session s.id ss) d h b
      (rw (due, get_session-delete_session_same s.id ss, p) refl)
      (λ k n. rw (due, get_session-delete_session_other k s.id ss n) refl)
      (unfold delete_session in All-keep _ (λ x. not (eqb x.id s.id)) ss v)
