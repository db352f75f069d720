-- ===== src/Broker/History.antt =====
-- Histories of calls of the broker in packages/core/src/broker.ts.
use ac.Broker.Registry
use ac.Broker.Change.{
  alters, adds, same, next, Change, Changes, Changes-trans, register-Changes, subscribe-Changes,
  unsubscribe-Changes, seed_members-Changes, see_all-Changes,
}
use ac.Broker.Registry.{
  get, Role, PresenceState, Registry, alter, see, new_state, register_or_get, IdentityContext,
  register, seed_members, includes_id, subscribe, unsubscribe, Entry,
}
use ac.Broker.Lookup.{SamePresence, get-alter, get-snoc}
use ac.Broker.Push.{PushPayload, PushContext, Broker, push_append, push_collect, recipients_of}
use ac.Broker.Reach.{IsIdSet, HasIdSets}
use ac.Prelude.{
  ℕ, String, ◌≡◌, refl, some, List, [], ◌∷◌, ◌++◌, arith, Bool-cases, is_some, All, All-append,
  includes, IsDistinct, IsDistinct-snoc, ap, ◌∙◌, inl, inr, map, ◌==◌,
}

-- One call that writes. A push is two, before and after its wait for the log, so that others may come
-- between them; its fan-out changes nothing that the broker keeps.
pub data Call : Type 0 where
  register_call : String → IdentityContext → ℕ → Call
  seed_call : List (String × Role) → ℕ → Call
  subscribe_call : String → ℕ → IdentityContext → ℕ → Call
  unsubscribe_call : String → ℕ → Call
  append_call : PushPayload → PushContext → String → ℕ → Call
  collect_call : PushPayload → PushContext → ℕ → Call

abbrev in_registry : (Registry → Registry) → Broker → Broker
in_registry f b = record b { registry = f b.registry }

unfoldable pub perform : Call → Broker → Broker
perform (register_call name context now) = in_registry (λ reg. (register name context now reg).1)
perform (seed_call members now) = in_registry (seed_members members now)
perform (subscribe_call name callback context now) =
    in_registry (λ reg. (subscribe name callback context now reg).1)
perform (unsubscribe_call name callback) = in_registry (unsubscribe name callback)
perform (append_call payload context id ts) = push_append payload context id ts
perform (collect_call payload context ts) = λ b. (push_collect payload context ts b).1

unfoldable pub run : List Call → Broker → Broker
unfolding perform
run [] b = b
run (c ∷ cs) b = run cs (perform c b)

perform-Changes : (c : Call) (b : Broker) → Changes b.registry (perform c b).registry
unfolding perform push_append push_collect
perform-Changes (register_call name context now) b = register-Changes name context now b.registry
perform-Changes (seed_call members now) b = seed_members-Changes members now b.registry
perform-Changes (subscribe_call name callback context now) b =
    subscribe-Changes name callback context now b.registry
perform-Changes (unsubscribe_call name callback) b = unsubscribe-Changes name callback b.registry
perform-Changes (append_call payload context id ts) b = same
perform-Changes (collect_call payload context ts) b =
    see_all-Changes ts (recipients_of payload context b.registry) b.registry

run-Changes : (cs : List Call) (b : Broker) → Changes b.registry (run cs b).registry
unfolding run
run-Changes [] b = same
run-Changes (c ∷ cs) b =
    Changes-trans b.registry (perform c b).registry (run (c ∷ cs) b).registry (perform-Changes c b)
      (run-Changes cs (perform c b))

abbrev keys : Registry → List String
keys reg = map (λ e. e.key) reg

-- Each key stands once and is the name in its state, and no callback is subscribed twice.
pub record IsSound (reg : Registry) : Type 0 where
  pub keys_distinct : IsDistinct (keys reg)
  pub names_kept : All (λ e. e.state.presence.name ≡ e.key) reg
  pub id_sets : HasIdSets reg

keys-alter :
    (n : String) (f : PresenceState → PresenceState) (reg : Registry)
    → keys (alter n f reg) ≡ keys reg
unfolding alter
keys-alter n f [] = refl
keys-alter n f (e ∷ es) = ground (arith, keys-alter n f es)

module _ (P : Entry → Type 0) where
  All-alter :
      (n : String) (f : PresenceState → PresenceState) (reg : Registry)
      → ((e : Entry) → P e → P (record e { state = f e.state }))
      → All P reg
      → All P (alter n f reg)
  unfolding alter
  All-alter n f [] g h = tt
  All-alter n f (e ∷ es) g h = elim (Bool-cases (e.key == n)) [
    | inl q ↦ rw q (g e h.0, h.1)
    | inr q ↦ rw q (h.0, All-alter n f es g h.1)
  ]

includes-keys-get :
    (reg : Registry) (n : String) → includes (keys reg) n ≡ is_some (Registry.get n reg)
unfolding Registry.get
includes-keys-get [] n = refl
includes-keys-get (e ∷ es) n = ground (arith, includes-keys-get es n)

keys-snoc : (reg : Registry) (e : Entry) → keys (reg ++ e ∷ []) ≡ keys reg ++ e.key ∷ []
keys-snoc [] e = refl
keys-snoc (x ∷ xs) e = ap (λ ks. x.key ∷ ks) (keys-snoc xs e)

Change-IsSound : (r s : Registry) → Change r s → IsSound r → IsSound s
Change-IsSound r s (alters n f {reg} p q) h = record {
  keys_distinct = rw (keys-alter n f reg) h.keys_distinct;
  names_kept =
      All-alter (λ e. e.state.presence.name ≡ e.key) n f reg (λ e g. ground (arith, p e.state))
        h.names_kept;
  id_sets = All-alter (λ e. IsIdSet e.state.subscribers) n f reg (λ e g. q e.state g) h.id_sets;
}
Change-IsSound r s (adds n now role {reg} e) h = record {
  keys_distinct =
      rw (keys-snoc reg (record { key = n; state = new_state n now role }))
        (IsDistinct-snoc (keys reg) n h.keys_distinct (includes-keys-get reg n ∙ ap is_some e));
  names_kept = All-append _ reg _ h.names_kept (refl, tt);
  id_sets = All-append _ reg _ h.id_sets (tt, tt);
}

Changes-IsSound : (r s : Registry) → Changes r s → IsSound r → IsSound s
Changes-IsSound r s same h = h
Changes-IsSound r s (next {s = m} c cs) h = Changes-IsSound m s cs (Change-IsSound r m c h)

-- From a sound registry, the empty one among them, every history of calls ends in a sound one:
-- each name stands once, under the key that is its own name, and no callback is subscribed twice.
pub run_broker-IsSound :
    (cs : List Call) (b : Broker) → IsSound b.registry → IsSound (run cs b).registry
run_broker-IsSound cs b h = Changes-IsSound b.registry (run cs b).registry (run-Changes cs b) h

-- The entry of a name, with what registration fixed.
abbrev pub Stays : String → PresenceState → Registry → Type 0
Stays a st reg = (st' : PresenceState) × (Registry.get a reg ≡ some st') × SamePresence st st'

Change-Stays :
    (a : String) (st : PresenceState) (r s : Registry)
    → Change r s
    → Registry.get a r ≡ some st
    → Stays a st s
Change-Stays a st r s (alters n f {reg} p q) h = elim (Bool-cases (n == a)) [
  | inl e ↦ (f st, ground (arith, get-alter n f reg a, e, h), p st)
  | inr e ↦ (st, ground (arith, get-alter n f reg a, e, h), (refl, refl, refl))
]
Change-Stays a st r s (adds n now role {reg} e) h =
    let entry : Entry = record { key = n; state = new_state n now role } in
    (st, ground (arith, get-snoc reg entry a, h), (refl, refl, refl))

Changes-Stays :
    (a : String) (st : PresenceState) (r s : Registry)
    → Changes r s
    → Registry.get a r ≡ some st
    → Stays a st s
Changes-Stays a st r s same h = (st, h, (refl, refl, refl))
Changes-Stays a st r s (next {s = m} c cs) h =
    let (st1, at1, p) = Change-Stays a st r m c h in
    let (st2, at2, q) = Changes-Stays a st1 m s cs at1 in (st2, at2, ground arith)

-- A registered name stays registered whatever calls follow, with the time of creation and the role
-- of its first registration.
pub first_registration_wins :
    (cs : List Call) (b : Broker) (a : String) (st : PresenceState)
    → Registry.get a b.registry ≡ some st
    → Stays a st (run cs b).registry
first_registration_wins cs b a st h =
    Changes-Stays a st b.registry (run cs b).registry (run-Changes cs b) h
