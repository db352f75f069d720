-- ===== src/Broker/Fanout.antt =====
-- What `boundedParallel` of packages/core/src/broker.ts promises, whatever the order in which the
-- workers resolve.
use ac.Broker.Pool.{
  takes, settles, returns, step, stop, Runner, ready, busy, returned, Pool, repeat, effective_limit,
  start, Step, Steps, HasReturned, items_of, IsOver, in_flight,
}
use ac.Broker.Delivery.{
  tally, total, work, measure, Steps-total, Step-measure, Steps-measure, Steps-runners,
  length-items_of-le, progress,
}
use ac.Prelude.{
  leb, Bool-cases, length, length-append, All, ℕ, zero, suc, ◌+◌, ◌*◌, ◌≤◌, ◌<◌, ◌≡◌, refl, ap, ◌⊎◌,
  inl, inr, Bool, List, [], ◌∷◌, ◌++◌, map, arith, ◌∙◌,
}

effective_limit-positive : (c : ℕ) → 0 < effective_limit c
effective_limit-positive zero = omega arith
effective_limit-positive (suc c) = omega arith

work-repeat {ℓ} : (T : Type ℓ) (n : ℕ) → work (repeat {T = Runner T} n ready) ≡ n
work-repeat T zero = omega arith
work-repeat T (suc n) = omega (arith, work-repeat T n)

items_of-repeat {ℓ} : (T : Type ℓ) (n : ℕ) → items_of (repeat {T = Runner T} n ready) ≡ []
items_of-repeat T zero = refl
items_of-repeat T (suc n) = items_of-repeat T n

abbrev returns_of {ℓ} : {T : Type ℓ} → List (Runner T) → ℕ
returns_of [] = 0
returns_of (ready ∷ rs) = returns_of rs
returns_of (busy x ∷ rs) = returns_of rs
returns_of (returned ∷ rs) = suc (returns_of rs)

returns_of-repeat {ℓ} : (T : Type ℓ) (n : ℕ) → returns_of (repeat {T = Runner T} n ready) ≡ 0
returns_of-repeat T zero = refl
returns_of-repeat T (suc n) = returns_of-repeat T n

module _ {ℓ} {T : Type ℓ} where
  returns_of-append :
      (rs ss : List (Runner T)) → returns_of (rs ++ ss) ≡ returns_of rs + returns_of ss
  returns_of-append [] ss = omega arith
  returns_of-append (ready ∷ rs) ss = returns_of-append rs ss
  returns_of-append (busy x ∷ rs) ss = returns_of-append rs ss
  returns_of-append (returned ∷ rs) ss = omega (arith, returns_of-append rs ss)

  -- A runner returns only when nothing waits.
  abbrev IsManned : Pool T → Type 0
  IsManned p = (length p.waiting ≡ 0) ⊎ ((returns_of p.runners ≡ 0) × (0 < length p.runners))

  Step-IsManned : (p q : Pool T) → Step p q → IsManned p → IsManned q
  Step-IsManned p q (takes x before after) h = ground (
    arith,
    returns_of-append before (busy x ∷ after),
    returns_of-append before (ready ∷ after),
    length-append before (busy x ∷ after),
  )
  Step-IsManned p q (settles x before after) h = ground (
    arith,
    returns_of-append before (busy x ∷ after),
    returns_of-append before (ready ∷ after),
    length-append before (ready ∷ after),
  )
  Step-IsManned p q (returns before after) h = inl refl

  Steps-IsManned : (n : ℕ) (p q : Pool T) → Steps n p q → IsManned p → IsManned q
  Steps-IsManned n p q stop h = h
  Steps-IsManned n p q (step {n = k} {q = m} s rest) h =
      Steps-IsManned k m q rest (Step-IsManned p m s h)

  length-repeat : (n : ℕ) (r : Runner T) → length (repeat n r) ≡ n
  length-repeat zero r = omega arith
  length-repeat (suc n) r = omega (arith, length-repeat n r)

  items_of-map : (xs : List T) → items_of (map busy xs) ≡ xs
  items_of-map [] = refl
  items_of-map (x ∷ xs) = ap (λ ys. x ∷ ys) (items_of-map xs)

  length-busy : (xs : List T) → length (map busy xs) ≡ length xs
  length-busy [] = refl
  length-busy (x ∷ xs) = ap suc (length-busy xs)

  work-busy : (xs : List T) → work (map busy xs) ≡ 2 * length xs
  work-busy [] = omega arith
  work-busy (x ∷ xs) = omega (arith, work-busy xs)

  -- The pool at the start.
  record Fits (concurrency : ℕ) (items : List T) (p : Pool T) : Type ℓ where
    manned : IsManned p
    counted : (test : T → Bool) → total test p ≡ tally test items
    bounded : length p.runners ≤ effective_limit concurrency
    brief : measure p ≤ 4 * length items

  start-Fits : (concurrency : ℕ) (items : List T) → Fits concurrency items (start concurrency items)
  unfolding start
  start-Fits c items = elim (Bool-cases (leb (length items) (effective_limit c))) [
    | inl e ↦ rw e (record {
      manned = inl refl;
      counted = λ test. omega (arith, ap (tally test) (items_of-map items));
      bounded = ground (arith, length-busy items);
      brief = omega (arith, work-busy items);
    })
    | inr e ↦ rw e (record {
      manned = inr (
        returns_of-repeat T (effective_limit c),
        omega (arith, length-repeat (effective_limit c) ready, effective_limit-positive c),
      );
      counted = λ test. omega (arith, ap (tally test) (items_of-repeat T (effective_limit c)));
      bounded = omega (arith, length-repeat (effective_limit c) ready);
      brief = ground (arith, work-repeat T (effective_limit c));
    })
  ]

  returns_of-over : (rs : List (Runner T)) → All HasReturned rs → returns_of rs ≡ length rs
  returns_of-over [] h = refl
  returns_of-over (ready ∷ rs) h = elim h.0 [ ]
  returns_of-over (busy x ∷ rs) h = elim h.0 [ ]
  returns_of-over (returned ∷ rs) h = ap suc (returns_of-over rs h.1)

  items_of-over : (rs : List (Runner T)) → All HasReturned rs → items_of rs ≡ []
  items_of-over [] h = refl
  items_of-over (ready ∷ rs) h = elim h.0 [ ]
  items_of-over (busy x ∷ rs) h = elim h.0 [ ]
  items_of-over (returned ∷ rs) h = items_of-over rs h.1

  tally-nothing : (test : T → Bool) (xs : List T) → length xs ≡ 0 → tally test xs ≡ 0
  tally-nothing test [] h = refl
  tally-nothing test (x ∷ xs) h = omega arith

  -- Whenever all runners have returned, every item has settled exactly as often as it was given:
  -- any test counts as many settled items as given ones.
  pub settles_once :
      (concurrency : ℕ) (items : List T) (n : ℕ) (p : Pool T) (test : T → Bool)
      → Steps n (start concurrency items) p
      → IsOver p
      → tally test p.settled ≡ tally test items
  settles_once c items n p test steps over =
      let fits = start-Fits c items in
      let now : IsManned p = Steps-IsManned n (start c items) p steps fits.manned in
      let same : total test p ≡ tally test items =
        Steps-total test n (start c items) p steps ∙ fits.counted test in
      let spent : length p.waiting ≡ 0 = ground (arith, now, returns_of-over p.runners over) in
      omega (
        arith,
        same,
        tally-nothing test p.waiting spent,
        ap (tally test) (items_of-over p.runners over),
      )

  -- At every moment of every interleaving at most `max(1, concurrency)` workers are in flight, at
  -- most four steps for each item have been made, and either all runners have returned or another
  -- step is possible.
  pub always_bounded :
      (concurrency : ℕ) (items : List T) (n : ℕ) (p : Pool T)
      → Steps n (start concurrency items) p
      → (in_flight p ≤ effective_limit concurrency)
        × (n ≤ 4 * length items)
        × (IsOver p ⊎ ((q : Pool T) × Step p q))
  always_bounded c items n p steps =
      let fits = start-Fits c items in
      (
        omega (
          arith,
          fits.bounded,
          Steps-runners n (start c items) p steps,
          length-items_of-le p.runners,
        ),
        omega (arith, fits.brief, Steps-measure n (start c items) p steps),
        progress p,
      )

  finish :
      (fuel : ℕ) (p : Pool T) → measure p ≤ fuel → (n : ℕ) × (q : Pool T) × Steps n p q × IsOver q
  finish zero p h = elim (progress p) [
    | inl over ↦ (0, p, stop, over)
    | inr (q, s) ↦ absurd (omega (arith, Step-measure p q s))
  ]
  finish (suc fuel) p h = elim (progress p) [
    | inl over ↦ (0, p, stop, over)
    | inr (q, s) ↦
        let (n, r, rest, over) = finish fuel q (omega (arith, Step-measure p q s)) in
        (suc n, r, step s rest, over)
  ]

  -- A run to the end exists.
  pub ends :
      (concurrency : ℕ) (items : List T)
      → (n : ℕ) × (p : Pool T) × Steps n (start concurrency items) p × IsOver p
  ends c items = finish (measure (start c items)) (start c items) (omega arith)
