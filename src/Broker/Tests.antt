-- ===== src/Broker/Tests.antt =====
-- The broker of packages/core/src/broker.ts at concrete calls.
use ac.Broker.Registry
use ac.Broker.Pool.{
  start, step, stop, settles, takes, returns, ready, busy, returned, Pool, effective_limit, Step,
  Steps, IsOver, in_flight,
}
use ac.EventLog.Types.{Thread}
use ac.Broker.History.{
  Call, IsSound, register_call, seed_call, subscribe_call, unsubscribe_call, append_call,
  collect_call, run, Stays, first_registration_wins,
}
use ac.Broker.Registry.{get, Role, Entry, Registry, has, IdentityContext, register, subscribe}
use ac.Broker.Fanout.{always_bounded}
use ac.Broker.Delivery.{tally}
use ac.Broker.Lookup.{identity_enforced}
use ac.Broker.Push.{
  PushPayload, PushContext, Broker, FanoutTask, add_recipient, add_recipients, add_sender,
  recipients_by, recipients_of, tasks_of, push_collect,
}
use ac.Broker.Recipients.{is_addressed}
use ac.Broker.Reach.{is_task, is_subscribed, push-settles_once}
use ac.Prelude.{
  if◌then◌else◌, length, All, ℕ, ◌*◌, ◌≤◌, String, ◌≡◌, refl, ◌≢◌, ◌⊎◌, Bool, false, ◌&&◌, not,
  Option, none, some, List, [], ◌∷◌, arith, ◌==◌, eq_iff,
}

abbrev no_role : Option Role
no_role = none

abbrev entry_of : String → List ℕ → Entry
entry_of name subs = record {
  key = name;
  state = record {
    presence = record { name = name; connected = 0; created_at = 5; last_seen = 7; role = no_role };
    subscribers = subs;
  };
}

abbrev team : Registry
team = entry_of "ada" (1 ∷ []) ∷ entry_of "bob" (3 ∷ []) ∷ entry_of "cyd" (4 ∷ []) ∷ []

abbrev broker : Broker
broker = record { registry = team; event_log = [] }

abbrev to_bob : PushPayload
to_bob = record {
  to = some "bob";
  title = none;
  body = "ready?";
  level = none;
  thread = Thread.absent;
  other_data = [];
  attachments = [];
}

abbrev from_ada : PushContext
from_ada = record { from = some "ada"; recipients = none }

abbrev task : String → ℕ → FanoutTask
task name sub = record { name = name; sub = sub }

-- A direct message goes to its target, then to the sender's other sessions.
dm_tasks : (push_collect to_bob from_ada 20 broker).0 ≡ task "bob" 3 ∷ task "ada" 1 ∷ []
unfolding push_collect recipients_of recipients_by add_sender add_recipient add_recipients tasks_of
    Registry.get has
dm_tasks = refl

abbrev done_pool : Pool FanoutTask
done_pool = record {
  waiting = [];
  runners = returned ∷ returned ∷ [];
  settled = task "ada" 1 ∷ task "bob" 3 ∷ [];
}

-- The second callback resolves first.
two-Steps : Steps 4 (start 32 (task "bob" 3 ∷ task "ada" 1 ∷ [])) done_pool
unfolding start
two-Steps = step (settles (task "ada" 1) (busy (task "bob" 3) ∷ []) []) (
    step (settles (task "bob" 3) [] (ready ∷ []))
      (step (returns [] (ready ∷ [])) (step (returns (returned ∷ []) []) stop)))

dm-Steps : Steps 4 (start 32 (push_collect to_bob from_ada 20 broker).0) done_pool
dm-Steps = rw dm_tasks two-Steps

push-settles_once_example :
    tally (is_task "bob" 3) done_pool.settled
    ≡ (if is_addressed to_bob from_ada "bob" && is_subscribed "bob" 3 team then 1 else 0)
push-settles_once_example =
    push-settles_once to_bob from_ada 20 broker 32 4 done_pool "bob" 3
      ((refl, tt), ((refl, tt), ((refl, tt), tt))) dm-Steps (tt, (tt, tt))

abbrev bob_throws : FanoutTask → Bool
bob_throws t = not (t.name == "bob")

always_bounded_example :
    (in_flight done_pool ≤ effective_limit 32)
    × (4 ≤ 4 * length (task "bob" 3 ∷ task "ada" 1 ∷ []))
    × (IsOver done_pool ⊎ ((q : Pool FanoutTask) × Step done_pool q))
always_bounded_example = always_bounded 32 (task "bob" 3 ∷ task "ada" 1 ∷ []) 4 done_pool two-Steps

abbrev one_busy : Pool ℕ
one_busy = record { waiting = 9 ∷ []; runners = busy 8 ∷ []; settled = 7 ∷ [] }

serial-Steps : Steps 3 (start 1 (7 ∷ 8 ∷ 9 ∷ [])) one_busy
unfolding start
serial-Steps = step (takes 7 [] []) (step (settles 7 [] []) (step (takes 8 [] []) stop))

differs : (a b : String) → (a == b) ≡ false → a ≢ b
differs a b h e = ground (arith, eq_iff a b)

identity_enforced_example :
    let context : IdentityContext = record { name = some "cyd"; role = no_role } in
    (Registry.get "ada" (register "ada" context 30 team).1 ≡ Registry.get "ada" team)
    × (Registry.get "ada" (subscribe "ada" 6 context 30 team).1 ≡ Registry.get "ada" team)
identity_enforced_example =
    identity_enforced "ada" "cyd" no_role 6 30 team "ada" (differs "ada" "cyd" refl)

abbrev calls : List Call
calls =
    append_call to_bob from_ada "m1" 20
    ∷ subscribe_call "ada" 8 (record { name = some "ada"; role = no_role }) 21
    ∷ collect_call to_bob from_ada 20
    ∷ unsubscribe_call "ada" 1
    ∷ register_call "dan" (record { name = some "ada"; role = no_role }) 22
    ∷ seed_call (("eve", record { title = "qa"; description = "tests" }) ∷ []) 23
    ∷ []

team-IsSound : IsSound team
team-IsSound = record {
  keys_distinct = (refl, (refl, (refl, tt)));
  names_kept = (refl, (refl, (refl, tt)));
  id_sets = ((refl, tt), ((refl, tt), ((refl, tt), tt)));
}

ada_entry : Registry.get "ada" team ≡ some (entry_of "ada" (1 ∷ [])).state
unfolding Registry.get
ada_entry = refl

first_registration_wins_example :
    Stays "ada" (entry_of "ada" (1 ∷ [])).state (run calls broker).registry
first_registration_wins_example =
    first_registration_wins calls broker "ada" (entry_of "ada" (1 ∷ [])).state ada_entry

abbrev to_all : PushPayload
to_all = record to_bob { to = none }

unknown : All (λ a. has a team ≡ false) ("zed" ∷ "yan" ∷ [])
unfolding has Registry.get
unknown = (refl, (refl, tt))

abbrev nobody : PushContext
nobody = record { from = none; recipients = some ("zed" ∷ "yan" ∷ []) }
