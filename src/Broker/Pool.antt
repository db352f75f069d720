-- ===== src/Broker/Pool.antt =====
-- `boundedParallel` of packages/core/src/broker.ts: its runners as a step relation, where a step is
-- what one runner does between two waits.
use ac.Prelude.{All, leb, if◌then◌else◌, length, ℕ, zero, suc, List, [], ◌∷◌, ◌++◌, map}

-- A runner is about to take an item, waits for the worker on an item, or has returned.
pub data Runner {ℓ} (T : Type ℓ) : Type ℓ where
  ready : Runner T
  busy : T → Runner T
  returned : Runner T

-- `items` from `next` on, the runners, and the items whose worker resolved or threw, in the order
-- in which they did.
pub record Pool {ℓ} (T : Type ℓ) : Type ℓ where
  pub waiting : List T
  pub runners : List (Runner T)
  pub settled : List T

abbrev pub repeat {ℓ} : {T : Type ℓ} → ℕ → T → List T
repeat zero x = []
repeat (suc n) x = x ∷ repeat n x

-- `Math.max(1, Math.floor(concurrency))`
abbrev pub effective_limit : ℕ → ℕ
effective_limit zero = 1
effective_limit (suc n) = suc n

module _ {ℓ} {T : Type ℓ} where
  -- All items at once where the limit allows it, else `limit` runners that take in turns.
  unfoldable pub start : ℕ → List T → Pool T
  start concurrency items =
      if leb (length items) (effective_limit concurrency)
      then record { waiting = []; runners = map busy items; settled = [] }
      else record {
        waiting = items;
        runners = repeat (effective_limit concurrency) ready;
        settled = [];
      }

  pub data Step : Pool T → Pool T → Type ℓ where
    takes :
        (x : T) {xs settled : List T} (before after : List (Runner T))
        → Step
            (record { waiting = x ∷ xs; runners = before ++ ready ∷ after; settled = settled })
            (record { waiting = xs; runners = before ++ busy x ∷ after; settled = settled })
    settles :
        (x : T) {xs settled : List T} (before after : List (Runner T))
        → Step
            (record { waiting = xs; runners = before ++ busy x ∷ after; settled = settled })
            (record {
              waiting = xs;
              runners = before ++ ready ∷ after;
              settled = settled ++ x ∷ [];
            })
    returns :
        {settled : List T} (before after : List (Runner T))
        → Step
            (record { waiting = []; runners = before ++ ready ∷ after; settled = settled })
            (record { waiting = []; runners = before ++ returned ∷ after; settled = settled })

  -- `n` steps.
  pub data Steps : ℕ → Pool T → Pool T → Type ℓ where
    stop : {p : Pool T} → Steps 0 p p
    step : {n : ℕ} {p q r : Pool T} → Step p q → Steps n q r → Steps (suc n) p r

  abbrev pub HasReturned : Runner T → Type 0
  HasReturned ready = ⊥
  HasReturned (busy x) = ⊥
  HasReturned returned = Unit

  -- `Promise.all(runners)` resolves.
  abbrev pub IsOver : Pool T → Type 0
  IsOver p = All HasReturned p.runners

  abbrev pub items_of : List (Runner T) → List T
  items_of [] = []
  items_of (ready ∷ rs) = items_of rs
  items_of (busy x ∷ rs) = x ∷ items_of rs
  items_of (returned ∷ rs) = items_of rs

  -- The workers in flight.
  abbrev pub in_flight : Pool T → ℕ
  in_flight p = length (items_of p.runners)
