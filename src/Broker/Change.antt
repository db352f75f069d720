-- ===== src/Broker/Change.antt =====
-- How the operations of packages/core/src/broker.ts change the registry, one entry at a time.
use ac.Broker.Registry
use ac.Broker.Registry.{
  get, Role, PresenceState, Registry, alter, see, new_state, register_or_get, IdentityContext,
  assert_identity, register, seed_members, includes_id, add_subscriber, delete_subscriber,
  subscribe, unsubscribe,
}
use ac.Broker.Lookup.{SamePresence}
use ac.Broker.Push.{see_all}
use ac.Broker.Reach.{IsIdSet}
use ac.Prelude.{
  eqb, Option-cases, keep, ℕ, String, ◌≡◌, refl, inl, inr, Bool, false, ◌||◌, not, Option, none,
  some, List, [], ◌∷◌, ◌++◌, arith,
}

-- What a single change of the registry may be: another state under a key, or a new key.
pub data Change : Registry → Registry → Type 0 where
  alters :
      (n : String) (f : PresenceState → PresenceState) {reg : Registry}
      → ((st : PresenceState) → SamePresence st (f st))
      → ((st : PresenceState) → IsIdSet st.subscribers → IsIdSet (f st).subscribers)
      → Change reg (alter n f reg)
  adds :
      (n : String) (now : ℕ) (role : Option Role) {reg : Registry}
      → Registry.get n reg ≡ none
      → Change reg (reg ++ record { key = n; state = new_state n now role } ∷ [])

pub data Changes : Registry → Registry → Type 0 where
  same : {r : Registry} → Changes r r
  next : {r s t : Registry} → Change r s → Changes s t → Changes r t

pub Changes-trans : (r s t : Registry) → Changes r s → Changes s t → Changes r t
Changes-trans r s t same d = d
Changes-trans r s t (next {s = m} c cs) d = next c (Changes-trans m s t cs d)

includes_id-append :
    (xs ys : List ℕ) (a : ℕ) → includes_id (xs ++ ys) a ≡ (includes_id xs a || includes_id ys a)
includes_id-append [] ys a = refl
includes_id-append (x ∷ xs) ys a = ground (arith, includes_id-append xs ys a)

IsIdSet-snoc :
    (xs : List ℕ) (a : ℕ) → IsIdSet xs → includes_id xs a ≡ false → IsIdSet (xs ++ a ∷ [])
IsIdSet-snoc [] a h k = (refl, tt)
IsIdSet-snoc (x ∷ xs) a h k =
    ground (arith, IsIdSet-snoc xs a h.1, includes_id-append xs (a ∷ []) x)

includes_id-keep :
    (p : ℕ → Bool) (xs : List ℕ) (a : ℕ)
    → includes_id xs a ≡ false
    → includes_id (keep p xs) a ≡ false
includes_id-keep p [] a h = refl
includes_id-keep p (x ∷ xs) a h = ground (arith, includes_id-keep p xs a)

IsIdSet-keep : (p : ℕ → Bool) (xs : List ℕ) → IsIdSet xs → IsIdSet (keep p xs)
IsIdSet-keep p [] h = tt
IsIdSet-keep p (x ∷ xs) h = ground (arith, IsIdSet-keep p xs h.1, includes_id-keep p xs x h.0)

see-Change : (n : String) (now : ℕ) (reg : Registry) → Change reg (alter n (see now) reg)
see-Change n now reg = alters n (see now) (λ st. (refl, refl, refl)) (λ st h. h)

register_or_get-Changes :
    (n : String) (now : ℕ) (role : Option Role) (reg : Registry)
    → Changes reg (register_or_get n now role reg).1
unfolding register_or_get
register_or_get-Changes n now role reg = by_entry (Registry.get n reg) refl
  where
    by_entry :
        (o : Option PresenceState)
        → Registry.get n reg ≡ o
        → Changes reg (register_or_get n now role reg).1
    by_entry none e = rw (e, register_or_get) (next (adds n now role e) same)
    by_entry (some st) e = rw (e, register_or_get) (next (see-Change n now reg) same)

pub register-Changes :
    (n : String) (context : IdentityContext) (now : ℕ) (reg : Registry)
    → Changes reg (register n context now reg).1
unfolding register
register-Changes n context now reg = elim (Option-cases (assert_identity n context.name)) [
  | inr (e, q) ↦ rw (q, register) same
  | inl q ↦ rw (q, register) (register_or_get-Changes n now context.role reg)
]

add_subscriber-IsIdSet :
    (callback : ℕ) (st : PresenceState)
    → IsIdSet st.subscribers
    → IsIdSet (add_subscriber callback st).subscribers
add_subscriber-IsIdSet callback st h = ground (arith, IsIdSet-snoc st.subscribers callback h)

add_subscriber-SamePresence :
    (callback : ℕ) (st : PresenceState) → SamePresence st (add_subscriber callback st)
add_subscriber-SamePresence callback st = ground arith

pub subscribe-Changes :
    (n : String) (callback : ℕ) (context : IdentityContext) (now : ℕ) (reg : Registry)
    → Changes reg (subscribe n callback context now reg).1
unfolding subscribe
subscribe-Changes n callback context now reg =
    elim (Option-cases (assert_identity n context.name)) [
      | inr (e, q) ↦ rw (q, subscribe) same
      | inl q ↦
          rw (q, subscribe)
            (Changes-trans reg (register_or_get n now context.role reg).1 _
              (register_or_get-Changes n now context.role reg)
              (next
                (alters n (add_subscriber callback) (add_subscriber-SamePresence callback)
                  (add_subscriber-IsIdSet callback))
                same))
    ]

pub unsubscribe-Changes :
    (n : String) (callback : ℕ) (reg : Registry) → Changes reg (unsubscribe n callback reg)
unfolding unsubscribe
unsubscribe-Changes n callback reg =
    next
      (alters n (delete_subscriber callback) (λ st. (refl, refl, refl))
        (λ st h. IsIdSet-keep (λ s. not (eqb s callback)) st.subscribers h))
      same

pub seed_members-Changes :
    (members : List (String × Role)) (now : ℕ) (reg : Registry)
    → Changes reg (seed_members members now reg)
unfolding seed_members
seed_members-Changes [] now reg = same
seed_members-Changes ((name, role) ∷ members) now reg =
    Changes-trans reg (register_or_get name now (some role) reg).1 _
      (register_or_get-Changes name now (some role) reg)
      (seed_members-Changes members now (register_or_get name now (some role) reg).1)

pub see_all-Changes :
    (ts : ℕ) (names : List String) (reg : Registry) → Changes reg (see_all ts names reg)
unfolding see_all
see_all-Changes ts [] reg = same
see_all-Changes ts (n ∷ ns) reg =
    next (see-Change n ts reg) (see_all-Changes ts ns (alter n (see ts) reg))
