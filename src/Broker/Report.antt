-- ===== src/Broker/Report.antt =====
-- The delivery report of `push` in packages/core/src/broker.ts.
use ac.Broker.Pool.{start, Pool, Steps, IsOver}
use ac.Broker.Fanout.{settles_once}
use ac.Broker.Delivery.{tally}
use ac.Broker.Push.{
  PushPayload, PushContext, Broker, FanoutTask, truthy, add_recipient, add_recipients, add_sender,
  recipients_by, recipients_of, tasks_of, push_collect, push_end,
}
use ac.Broker.Registry.{Registry, has}
use ac.Prelude.{length, All, ℕ, String, ◌≡◌, refl, Bool, false, none, some, List, [], ◌∷◌, arith}

-- After the fan-out, in whatever order the callbacks settle, `live` counts exactly the callbacks
-- of the push that resolve: one for each subscription of each recipient, whatever the others do.
pub report-live :
    (payload : PushPayload) (context : PushContext) (ts : ℕ) (b : Broker) (concurrency n : ℕ)
    (p : Pool FanoutTask) (reached : ℕ) (resolves : FanoutTask → Bool) (later : Registry)
    → Steps n (start concurrency (push_collect payload context ts b).0) p
    → IsOver p
    → (push_end payload context reached resolves p.settled later).live
      ≡ tally resolves (tasks_of (recipients_of payload context b.registry) b.registry)
unfolding push_collect push_end
report-live payload context ts b c n p reached resolves later steps over =
    settles_once c (tasks_of (recipients_of payload context b.registry) b.registry) n p resolves
      steps over

add_recipients_unknown :
    (reg : Registry) (out ns : List String)
    → All (λ a. has a reg ≡ false) ns
    → add_recipients reg out ns ≡ out
unfolding add_recipients add_recipient
add_recipients_unknown reg out [] h = refl
add_recipients_unknown reg out (n ∷ ns) h =
    let skips : add_recipient reg out n ≡ out = ground (arith, h.0) in
    rw skips (add_recipients_unknown reg out ns h.1)

-- A push to an explicit list in which no name is registered, with no sender, starts no delivery,
-- and still reports every name of the list as a target.
pub targets_unregistered :
    (payload : PushPayload) (names : List String) (ts : ℕ) (b : Broker)
    (resolves : FanoutTask → Bool) (settled : List FanoutTask) (later : Registry)
    → truthy payload.to ≡ none
    → All (λ a. has a b.registry ≡ false) names
    → let context : PushContext = record { from = none; recipients = some names } in
      ((push_collect payload context ts b).0 ≡ [])
      × ((push_end payload context 0 resolves settled later).targets ≡ length names)
unfolding push_collect push_end recipients_of recipients_by add_sender tasks_of
targets_unregistered payload names ts b resolves settled later t h =
    (ground (arith, t, add_recipients_unknown b.registry [] names h), ground (arith, t))
