-- ===== src/Broker/Delivery.antt =====
-- What every interleaving of the runners of `boundedParallel` keeps, in packages/core/src/broker.ts.
use ac.Broker.Pool.{takes, settles, returns, step, stop, HasReturned, IsOver}
-- How many items pass a test.
use ac.Broker.Pool.{Runner, ready, busy, returned, Pool, Step, Steps, items_of}
use ac.Prelude.{
  length, keep, ℕ, ◌+◌, ◌≡◌, refl, ap, ◌∙◌, Bool, List, [], ◌∷◌, ◌++◌, arith, length-append, All,
  suc, ◌*◌, ◌≤◌, ◌⊎◌, inl, inr, subst, append_assoc,
}

abbrev pub tally {ℓ} : {T : Type ℓ} → (T → Bool) → List T → ℕ
tally test xs = length (keep test xs)

pub tally-append {ℓ} :
    {T : Type ℓ} (test : T → Bool) (xs ys : List T)
    → tally test (xs ++ ys) ≡ tally test xs + tally test ys
tally-append test [] ys = omega arith
tally-append test (x ∷ xs) ys = ground (arith, tally-append test xs ys)

module _ {ℓ} {T : Type ℓ} where
  items_of-append : (rs ss : List (Runner T)) → items_of (rs ++ ss) ≡ items_of rs ++ items_of ss
  items_of-append [] ss = refl
  items_of-append (ready ∷ rs) ss = items_of-append rs ss
  items_of-append (busy x ∷ rs) ss = ap (λ xs. x ∷ xs) (items_of-append rs ss)
  items_of-append (returned ∷ rs) ss = items_of-append rs ss

  -- Settled, in flight and waiting.
  abbrev pub total : (T → Bool) → Pool T → ℕ
  total test p = tally test p.settled + (tally test (items_of p.runners) + tally test p.waiting)

  in_flight_total :
      (test : T → Bool) (before : List (Runner T)) (r : Runner T) (after : List (Runner T))
      → tally test (items_of (before ++ r ∷ after))
        ≡ tally test (items_of before)
          + (tally test (items_of (r ∷ [])) + tally test (items_of after))
  in_flight_total test before ready after = ground (
    arith,
    items_of-append before (ready ∷ after),
    tally-append test (items_of before) (items_of after),
  )
  in_flight_total test before (busy x) after = ground (
    arith,
    items_of-append before (busy x ∷ after),
    tally-append test (items_of before) (x ∷ items_of after),
  )
  in_flight_total test before returned after = ground (
    arith,
    items_of-append before (returned ∷ after),
    tally-append test (items_of before) (items_of after),
  )

  Step-total : (test : T → Bool) (p q : Pool T) → Step p q → total test q ≡ total test p
  Step-total test p q (takes x {xs} {settled} before after) =
      ground
        (arith, in_flight_total test before (busy x) after, in_flight_total test before ready after)
  Step-total test p q (settles x {xs} {settled} before after) = ground (
    arith,
    in_flight_total test before (busy x) after,
    in_flight_total test before ready after,
    tally-append test settled (x ∷ []),
  )
  Step-total test p q (returns before after) =
      ground
        (arith, in_flight_total test before returned after, in_flight_total test before ready after)

  pub Steps-total :
      (test : T → Bool) (n : ℕ) (p q : Pool T) → Steps n p q → total test q ≡ total test p
  Steps-total test n p q stop = refl
  Steps-total test n p q (step {n = k} {q = m} s rest) =
      Steps-total test k m q rest ∙ Step-total test p m s

  -- What is left to do, counted in steps.
  abbrev pub work : List (Runner T) → ℕ
  work [] = 0
  work (ready ∷ rs) = 1 + work rs
  work (busy x ∷ rs) = 2 + work rs
  work (returned ∷ rs) = work rs

  work-append : (rs ss : List (Runner T)) → work (rs ++ ss) ≡ work rs + work ss
  work-append [] ss = omega arith
  work-append (ready ∷ rs) ss = omega (arith, work-append rs ss)
  work-append (busy x ∷ rs) ss = omega (arith, work-append rs ss)
  work-append (returned ∷ rs) ss = work-append rs ss

  abbrev pub measure : Pool T → ℕ
  measure p = 3 * length p.waiting + work p.runners

  pub Step-measure : (p q : Pool T) → Step p q → suc (measure q) ≤ measure p
  Step-measure p q (takes x before after) =
      omega (arith, work-append before (busy x ∷ after), work-append before (ready ∷ after))
  Step-measure p q (settles x before after) =
      omega (arith, work-append before (busy x ∷ after), work-append before (ready ∷ after))
  Step-measure p q (returns before after) =
      omega (arith, work-append before (returned ∷ after), work-append before (ready ∷ after))

  pub Steps-measure : (n : ℕ) (p q : Pool T) → Steps n p q → n + measure q ≤ measure p
  Steps-measure n p q stop = omega arith
  Steps-measure n p q (step {n = k} {q = m} s rest) =
      omega (arith, Steps-measure k m q rest, Step-measure p m s)

  length-around :
      (before : List (Runner T)) (r s : Runner T) (after : List (Runner T))
      → length (before ++ r ∷ after) ≡ length (before ++ s ∷ after)
  length-around before r s after =
      omega (arith, length-append before (r ∷ after), length-append before (s ∷ after))

  Step-runners : (p q : Pool T) → Step p q → length q.runners ≡ length p.runners
  Step-runners p q (takes x before after) = length-around before (busy x) ready after
  Step-runners p q (settles x before after) = length-around before ready (busy x) after
  Step-runners p q (returns before after) = length-around before returned ready after

  pub Steps-runners : (n : ℕ) (p q : Pool T) → Steps n p q → length q.runners ≡ length p.runners
  Steps-runners n p q stop = refl
  Steps-runners n p q (step {n = k} {q = m} s rest) = Steps-runners k m q rest ∙ Step-runners p m s

  pub length-items_of-le : (rs : List (Runner T)) → length (items_of rs) ≤ length rs
  length-items_of-le [] = omega arith
  length-items_of-le (ready ∷ rs) = omega (arith, length-items_of-le rs)
  length-items_of-le (busy x ∷ rs) = omega (arith, length-items_of-le rs)
  length-items_of-le (returned ∷ rs) = omega (arith, length-items_of-le rs)

  -- A runner that has not returned can move.
  next-Step :
      (w s : List T) (before rs : List (Runner T))
      → let p : Pool T = record { waiting = w; runners = before ++ rs; settled = s } in
        All HasReturned rs ⊎ ((q : Pool T) × Step p q)
  next-Step w s before [] = inl tt
  next-Step [] s before (ready ∷ rs) = inr (_, returns before rs)
  next-Step (x ∷ w) s before (ready ∷ rs) = inr (_, takes x before rs)
  next-Step w s before (busy x ∷ rs) = inr (_, settles x before rs)
  next-Step w s before (returned ∷ rs) = elim (next-Step w s (before ++ returned ∷ []) rs) [
    | inl h ↦ inl (tt, h)
    | inr moves ↦ inr (
        subst
          (λ (ss : List (Runner T)).
            (q : Pool T) × Step (record { waiting = w; runners = ss; settled = s }) q)
          (append_assoc before (returned ∷ []) rs) moves)
  ]

  pub progress : (p : Pool T) → IsOver p ⊎ ((q : Pool T) × Step p q)
  progress p = next-Step p.waiting p.settled [] p.runners
