-- ===== src/Broker/Reach.antt =====
-- Whom the fan-out of `push`, in packages/core/src/broker.ts, reaches, and how often.
use ac.Broker.Registry
use ac.Broker.Pool.{start, Pool, Steps, IsOver}
use ac.Broker.Registry.{get, Registry, has, includes_id}
use ac.Broker.Fanout.{settles_once}
use ac.Broker.Delivery.{tally, tally-append}
use ac.Broker.Push.{
  PushPayload, PushContext, Broker, FanoutTask, recipients_of, subscribers_of, tasks_for, tasks_of,
  push_collect,
}
use ac.Broker.Recipients.{is_addressed, recipients_of-IsDistinct, recipients_of_lem}
use ac.Prelude.{
  eqb, if◌then◌else◌, Bool-cases, All, includes, IsDistinct, ℕ, String, ◌≡◌, refl, inl, inr, Bool,
  true, false, ◌&&◌, List, [], ◌∷◌, arith, ◌==◌, eq_iff,
}

-- No callback stands twice in a set.
abbrev pub IsIdSet : List ℕ → Type 0
IsIdSet [] = Unit
IsIdSet (x ∷ xs) = (includes_id xs x ≡ false) × IsIdSet xs

abbrev pub is_task : String → ℕ → FanoutTask → Bool
is_task name sub t = t.name == name && eqb t.sub sub

abbrev one_if : Bool → ℕ
one_if true = 1
one_if false = 0

-- The callback is in the set of the member's state.
abbrev pub is_subscribed : String → ℕ → Registry → Bool
is_subscribed name sub reg = includes_id (subscribers_of (Registry.get name reg)) sub

tally-tasks_for :
    (n : String) (subs : List ℕ) (a : String) (s : ℕ)
    → IsIdSet subs
    → tally (is_task a s) (tasks_for n subs) ≡ one_if (n == a && includes_id subs s)
tally-tasks_for n [] a s h = ground arith
tally-tasks_for n (x ∷ xs) a s h = ground (arith, tally-tasks_for n xs a s h.1)

-- In each state of a registry.
abbrev pub HasIdSets : Registry → Type 0
HasIdSets reg = All (λ e. IsIdSet e.state.subscribers) reg

get-IsIdSet :
    (n : String) (reg : Registry) → HasIdSets reg → IsIdSet (subscribers_of (Registry.get n reg))
unfolding Registry.get
get-IsIdSet n [] h = tt
get-IsIdSet n (e ∷ es) h = elim (Bool-cases (e.key == n)) [
  | inl q ↦ rw q h.0
  | inr q ↦ rw q (get-IsIdSet n es h.1)
]

tally-tasks_of :
    (names : List String) (reg : Registry) (a : String) (s : ℕ)
    → IsDistinct names
    → HasIdSets reg
    → tally (is_task a s) (tasks_of names reg) ≡ one_if (includes names a && is_subscribed a s reg)
unfolding tasks_of
tally-tasks_of [] reg a s d h = refl
tally-tasks_of (n ∷ ns) reg a s d h =
    let subs = subscribers_of (Registry.get n reg) in
    ground (
      arith,
      tally-append (is_task a s) (tasks_for n subs) (tasks_of ns reg),
      tally-tasks_for n subs a s (get-IsIdSet n reg h),
      tally-tasks_of ns reg a s d.1 h,
      eq_iff n a,
      d.0,
    )

is_subscribed-has :
    (a : String) (s : ℕ) (reg : Registry) → is_subscribed a s reg ≡ true → has a reg ≡ true
unfolding has
is_subscribed-has a s reg h = ground arith

-- Where no callback stands twice in a set: once the fan-out of a push is over, in whatever order the
-- callbacks resolved or threw, a callback has been called under a name exactly once if the push
-- addresses the name and it was subscribed under it when the log had taken the message, and not at
-- all otherwise. A callback that is subscribed under two names is called once under each.
pub push-settles_once :
    (payload : PushPayload) (context : PushContext) (ts : ℕ) (b : Broker) (concurrency n : ℕ)
    (p : Pool FanoutTask) (name : String) (sub : ℕ)
    → HasIdSets b.registry
    → Steps n (start concurrency (push_collect payload context ts b).0) p
    → IsOver p
    → tally (is_task name sub) p.settled
      ≡ (if is_addressed payload context name && is_subscribed name sub b.registry then 1 else 0)
unfolding push_collect
push-settles_once payload context ts b c n p name sub h steps over =
    let names = recipients_of payload context b.registry in
    ground (
      arith,
      settles_once c (tasks_of names b.registry) n p (is_task name sub) steps over,
      tally-tasks_of names b.registry name sub (recipients_of-IsDistinct payload context b.registry)
          h,
      recipients_of_lem payload context b.registry name,
      is_subscribed-has name sub b.registry,
    )
