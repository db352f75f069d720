-- ===== src/Broker/Serial.antt =====
-- `boundedParallel` of packages/core/src/broker.ts with a concurrency of 1.
use ac.Broker.Pool.{
  takes, settles, returns, step, stop, ready, busy, Pool, start, Step, Steps, items_of,
}
use ac.Prelude.{
  length, length-append, ℕ, zero, suc, ◌≤◌, ◌≡◌, refl, ◌∙◌, List, [], ◌∷◌, ◌++◌, append_assoc,
  arith,
}

module _ {ℓ} {T : Type ℓ} where
  -- One runner, and the items in their order: settled, in flight, waiting.
  abbrev InOrder : List T → Pool T → Type ℓ
  InOrder items p =
      (length p.runners ≤ 1) × (p.settled ++ (items_of p.runners ++ p.waiting) ≡ items)

  Step-InOrder : (items : List T) (p q : Pool T) → Step p q → InOrder items p → InOrder items q
  Step-InOrder items p q (takes x [] []) h = (omega (arith, h.0), h.1)
  Step-InOrder items p q (settles x {xs} {settled} [] []) h =
      (omega (arith, h.0), append_assoc settled (x ∷ []) xs ∙ h.1)
  Step-InOrder items p q (returns [] []) h = (omega (arith, h.0), h.1)
  Step-InOrder items p q (takes x [] (r ∷ after)) h = absurd (omega (arith, h.0))
  Step-InOrder items p q (settles x [] (r ∷ after)) h = absurd (omega (arith, h.0))
  Step-InOrder items p q (returns [] (r ∷ after)) h = absurd (omega (arith, h.0))
  Step-InOrder items p q (takes x (r ∷ before) after) h =
      absurd (omega (arith, h.0, length-append before (ready ∷ after)))
  Step-InOrder items p q (settles x (r ∷ before) after) h =
      absurd (omega (arith, h.0, length-append before (busy x ∷ after)))
  Step-InOrder items p q (returns (r ∷ before) after) h =
      absurd (omega (arith, h.0, length-append before (ready ∷ after)))

  Steps-InOrder :
      (items : List T) (n : ℕ) (p q : Pool T) → Steps n p q → InOrder items p → InOrder items q
  Steps-InOrder items n p q stop h = h
  Steps-InOrder items n p q (step {n = k} {q = m} s rest) h =
      Steps-InOrder items k m q rest (Step-InOrder items p m s h)

  start-InOrder :
      (concurrency : ℕ) (items : List T) → concurrency ≤ 1 → InOrder items (start concurrency items)
  unfolding start
  start-InOrder zero [] h = (omega arith, refl)
  start-InOrder zero (x ∷ []) h = (omega arith, refl)
  start-InOrder zero (x ∷ y ∷ items) h = ground arith
  start-InOrder (suc c) [] h = ground arith
  start-InOrder (suc c) (x ∷ []) h = ground arith
  start-InOrder (suc c) (x ∷ y ∷ items) h = ground arith

  -- With a concurrency of 0 or 1 the items settle in their order: at every moment the settled ones,
  -- the one in flight and the waiting ones make up the given list.
  pub settles_in_order :
      (concurrency : ℕ) (items : List T) (n : ℕ) (p : Pool T)
      → concurrency ≤ 1
      → Steps n (start concurrency items) p
      → p.settled ++ (items_of p.runners ++ p.waiting) ≡ items
  settles_in_order c items n p h steps =
      (Steps-InOrder items n (start c items) p steps (start-InOrder c items h)).1
