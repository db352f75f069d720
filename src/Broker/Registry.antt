-- ===== src/Broker/Registry.antt =====
-- packages/core/src/registry.ts, and the registrations of packages/core/src/broker.ts.
use ac.Prelude.{
  eqb, if◌then◌else◌, is_some, Result, ok, err, length, keep, ℕ, String, Bool, false, ◌||◌, not,
  Option, none, some, List, [], ◌∷◌, ◌++◌, map, ◌==◌,
}

pub record Role : Type 0 where
  pub title : String
  pub description : String

pub record Presence : Type 0 where
  pub name : String
  pub connected : ℕ
  pub created_at : ℕ
  pub last_seen : ℕ
  pub role : Option Role

-- A subscriber is the identity of its callback; the set keeps the order of insertion.
pub record PresenceState : Type 0 where
  pub presence : Presence
  pub subscribers : List ℕ

-- The map `presences`: its keys in the order of insertion, with their states.
pub record Entry : Type 0 where
  pub key : String
  pub state : PresenceState

abbrev pub Registry : Type 0
Registry = List Entry

unfoldable pub get : String → Registry → Option PresenceState
get name [] = none
get name (e ∷ es) = let rest = get name es in if e.key == name then some e.state else rest

unfoldable pub has : String → Registry → Bool
unfolding get
has name reg = is_some (get name reg)

-- A change of the state object under a key.
unfoldable pub alter : String → (PresenceState → PresenceState) → Registry → Registry
alter name f [] = []
alter name f (e ∷ es) =
    let rest = alter name f es in
    if e.key == name then record e { state = f e.state } ∷ es else e ∷ rest

abbrev pub see : ℕ → PresenceState → PresenceState
see now st = record st { presence = record st.presence { last_seen = now } }

abbrev pub new_state : String → ℕ → Option Role → PresenceState
new_state name now role = record {
  presence = record { name = name; connected = 0; created_at = now; last_seen = now; role = role };
  subscribers = [];
}

unfoldable pub register_or_get : String → ℕ → Option Role → Registry → PresenceState × Registry
unfolding get alter
register_or_get name now role reg = elim (get name reg) [
  | some existing ↦ (see now existing, alter name (see now) reg)
  | none ↦
      (new_state name now role, reg ++ record { key = name; state = new_state name now role } ∷ [])
]

unfoldable pub list : Registry → List Presence
list reg = map (λ e. record e.state.presence { connected = length e.state.subscribers }) reg

-- `context.name`: absent, null or a name. The first two skip the check.
pub record IdentityContext : Type 0 where
  pub name : Option String
  pub role : Option Role

pub record PresenceIdentityError : Type 0 where
  pub target_name : String
  pub caller_name : String

abbrev pub assert_identity : String → Option String → Option PresenceIdentityError
assert_identity target none = none
assert_identity target (some name) =
    if name == target then none else some (record { target_name = target; caller_name = name })

pub record RegistrationResult : Type 0 where
  pub name : String
  pub registered_at : ℕ

unfoldable pub register :
    String
    → IdentityContext
    → ℕ
    → Registry
    → Result PresenceIdentityError RegistrationResult × Registry
register name context now reg = elim (assert_identity name context.name) [
  | some e ↦ (err e, reg)
  | none ↦
      let (st, reg') = register_or_get name now context.role reg in
      (ok (record { name = st.presence.name; registered_at = st.presence.created_at }), reg')
]

-- The name and role of each member of the team.
unfoldable pub seed_members : List (String × Role) → ℕ → Registry → Registry
seed_members [] now reg = reg
seed_members ((name, role) ∷ members) now reg =
    seed_members members now (register_or_get name now (some role) reg).1

abbrev pub includes_id : List ℕ → ℕ → Bool
includes_id [] a = false
includes_id (x ∷ xs) a = eqb x a || includes_id xs a

-- `subscribers.add` and `subscribers.delete`
abbrev pub add_subscriber : ℕ → PresenceState → PresenceState
add_subscriber callback st =
    if includes_id st.subscribers callback
    then st
    else record st { subscribers = st.subscribers ++ callback ∷ [] }

abbrev pub delete_subscriber : ℕ → PresenceState → PresenceState
delete_subscriber callback st = record st {
  subscribers = keep (λ s. not (eqb s callback)) st.subscribers;
}

unfoldable pub subscribe :
    String → ℕ → IdentityContext → ℕ → Registry → Result PresenceIdentityError (Unit {0}) × Registry
subscribe name callback context now reg = elim (assert_identity name context.name) [
  | some e ↦ (err e, reg)
  | none ↦
      let (_, reg') = register_or_get name now context.role reg in
      (ok tt, alter name (add_subscriber callback) reg')
]

-- The function that `subscribe` returns.
unfoldable pub unsubscribe : String → ℕ → Registry → Registry
unsubscribe name callback reg = alter name (delete_subscriber callback) reg

unfoldable pub has_member : String → Registry → Bool
unfolding has
has_member name reg = has name reg
