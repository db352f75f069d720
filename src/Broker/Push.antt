-- ===== src/Broker/Push.antt =====
-- `push` of packages/core/src/broker.ts: up to its wait for the log, from there to the fan-out, which
-- is `start` of Broker.Pool on its tasks, and after the fan-out.
use ac.EventLog.Types.{Message, LogLevel, Thread}
use ac.EventLog.Memory.{append}
use ac.Objectives.Types.{Attachment}
use ac.Broker.Registry.{get, PresenceState, Registry, has, alter, see}
use ac.Prelude.{
  if◌then◌else◌, length, keep, includes, ℕ, String, Bool, ◌&&◌, not, Option, none, some, List, [],
  ◌∷◌, ◌++◌, map, ◌==◌,
}

-- `data` is its `thread` and the other entries, each with its JSON text.
pub record PushPayload : Type 0 where
  pub to : Option String
  pub title : Option String
  pub body : String
  pub level : Option LogLevel
  pub thread : Thread
  pub other_data : List (String × String)
  pub attachments : List Attachment

pub record PushContext : Type 0 where
  pub from : Option String
  pub recipients : Option (List String)

pub record Broker : Type 0 where
  pub registry : Registry
  pub event_log : List Message

pub record FanoutTask : Type 0 where
  pub name : String
  pub sub : ℕ

pub record DeliveryReport : Type 0 where
  pub live : ℕ
  pub targets : ℕ

abbrev pub level_or_info : Option LogLevel → LogLevel
level_or_info none = LogLevel.info
level_or_info (some level) = level

unfoldable pub message_of : PushPayload → PushContext → String → ℕ → Message
message_of payload context id ts = record {
  id = id;
  ts = ts;
  to = payload.to;
  from = context.from;
  title = payload.title;
  body = payload.body;
  level = level_or_info payload.level;
  thread = payload.thread;
  other_data = payload.other_data;
  attachments = payload.attachments;
}

-- `if (name)`: null and the empty text are false.
abbrev pub truthy : Option String → Option String
truthy none = none
truthy (some name) = if name == "" then none else some name

-- `const state = registry.get(name); if (state) recipients.add(state)`. The set of states is the
-- list of their keys.
unfoldable pub add_recipient : Registry → List String → String → List String
unfolding has
add_recipient reg out name =
    if has name reg && not (includes out name) then out ++ name ∷ [] else out

unfoldable pub add_recipients : Registry → List String → List String → List String
unfolding add_recipient
add_recipients reg out [] = out
add_recipients reg out (name ∷ names) = add_recipients reg (add_recipient reg out name) names

unfoldable pub add_sender : Registry → Option String → List String → List String
unfolding add_recipient
add_sender reg none out = out
add_sender reg (some name) out = add_recipient reg out name

abbrev pub sender_of : Option String → String → Option String
sender_of none target = none
sender_of (some from) target = if from == target then none else some from

-- By the target, the explicit list and the sender, where the empty text is none.
unfoldable pub recipients_by :
    Option String → Option (List String) → Option String → Registry → List String
unfolding add_sender add_recipients
recipients_by (some target) listed from reg =
    add_sender reg (sender_of from target) (add_recipient reg [] target)
recipients_by none (some names) from reg = add_sender reg from (add_recipients reg [] names)
recipients_by none none from reg = add_recipients reg [] (map (λ e. e.key) reg)

unfoldable pub recipients_of : PushPayload → PushContext → Registry → List String
unfolding recipients_by
recipients_of payload context reg =
    recipients_by (truthy payload.to) context.recipients (truthy context.from) reg

-- `state.presence.lastSeen = ts` for each recipient.
unfoldable pub see_all : ℕ → List String → Registry → Registry
see_all ts [] reg = reg
see_all ts (name ∷ names) reg = see_all ts names (alter name (see ts) reg)

abbrev pub subscribers_of : Option PresenceState → List ℕ
subscribers_of none = []
subscribers_of (some st) = st.subscribers

abbrev pub tasks_for : String → List ℕ → List FanoutTask
tasks_for name subs = map (λ sub. record { name = name; sub = sub }) subs

unfoldable pub tasks_of : List String → Registry → List FanoutTask
unfolding get
tasks_of [] reg = []
tasks_of (name ∷ names) reg = tasks_for name (subscribers_of (get name reg)) ++ tasks_of names reg

-- `push` up to its wait for the log.
unfoldable pub push_append : PushPayload → PushContext → String → ℕ → Broker → Broker
push_append payload context id ts b = record b {
  event_log = append (message_of payload context id ts) b.event_log;
}

-- From there to the fan-out, on the registry of the moment when the log has the message: the
-- recipients are seen, the tasks are collected.
unfoldable pub push_collect : PushPayload → PushContext → ℕ → Broker → List FanoutTask × Broker
push_collect payload context ts b =
    let names = recipients_of payload context b.registry in
    (tasks_of names b.registry, record b { registry = see_all ts names b.registry })

-- After the fan-out, on the registry of that moment: `resolves` tells whose callback did not throw.
unfoldable pub push_end :
    PushPayload
    → PushContext
    → ℕ
    → (FanoutTask → Bool)
    → List FanoutTask
    → Registry
    → DeliveryReport
push_end payload context reached resolves settled reg = record {
  live = length (keep resolves settled);
  targets = elim (truthy payload.to) [
    | some target ↦ if has target reg then 1 else 0
    | none ↦ elim context.recipients [ some names ↦ length names | none ↦ reached ]
  ];
}
