-- ===== src/Broker/Lookup.antt =====
-- What the registrations of packages/core/src/registry.ts and broker.ts do to the entry of each name.
use mathlib.Core.Option
use ac.Broker.Registry
use ac.Broker.Registry.{
  get, Role, PresenceState, Entry, Registry, alter, see, new_state, register_or_get,
  IdentityContext, register, add_subscriber, subscribe,
}
use ac.Prelude.{
  if◌then◌else◌, is_some, ℕ, String, ◌≡◌, ◌≢◌, Option, none, some, [], ◌∷◌, ◌++◌, arith, ◌==◌,
  eq_iff,
}

pub get-alter :
    (n : String) (f : PresenceState → PresenceState) (reg : Registry) (a : String)
    → Registry.get a (alter n f reg)
      ≡ (if n == a then Option.map f (Registry.get a reg) else Registry.get a reg)
unfolding alter Registry.get
get-alter n f [] a = ground arith
get-alter n f (e ∷ es) a =
    ground (arith, get-alter n f es a, eq_iff n a, eq_iff e.key n, eq_iff e.key a, eq_iff a n)

pub get-snoc :
    (reg : Registry) (e : Entry) (a : String)
    → Registry.get a (reg ++ e ∷ []) ≡ (
        if is_some (Registry.get a reg)
        then Registry.get a reg
        else if e.key == a
        then some e.state
        else none)
unfolding Registry.get
get-snoc [] e a = ground arith
get-snoc (x ∷ xs) e a = ground (arith, get-snoc xs e a)

pub get-register_or_get :
    (n : String) (now : ℕ) (role : Option Role) (reg : Registry) (a : String)
    → Registry.get a (register_or_get n now role reg).1
      ≡ (if n == a then some (register_or_get n now role reg).0 else Registry.get a reg)
unfolding register_or_get
get-register_or_get n now role reg a = ground (
  arith,
  get-alter n (see now) reg a,
  get-snoc reg (record { key = n; state = new_state n now role }) a,
  eq_iff n a,
)

-- A caller who is authenticated as `c` leaves the entry of every other name as it was, whether
-- `register` and `subscribe` accept or refuse.
pub identity_enforced :
    (name c : String) (role : Option Role) (callback now : ℕ) (reg : Registry) (a : String)
    → a ≢ c
    → let context : IdentityContext = record { name = some c; role = role } in
      (Registry.get a (register name context now reg).1 ≡ Registry.get a reg)
      × (Registry.get a (subscribe name callback context now reg).1 ≡ Registry.get a reg)
unfolding register subscribe
identity_enforced name c role callback now reg a h = (
  ground (arith, get-register_or_get name now role reg a, eq_iff c name, eq_iff name a, eq_iff c a),
  ground (
    arith,
    get-register_or_get name now role reg a,
    get-alter name (add_subscriber callback) (register_or_get name now role reg).1 a,
    eq_iff c name,
    eq_iff name a,
    eq_iff c a,
  ),
)

-- A change that keeps the rest of a presence.
abbrev pub SamePresence : PresenceState → PresenceState → Type 0
SamePresence x y =
    (x.presence.name ≡ y.presence.name)
    × (x.presence.created_at ≡ y.presence.created_at)
    × (x.presence.role ≡ y.presence.role)
