-- ===== src/Members/Appending.antt =====
-- What a new row does to the tables of apps/server/src/team-store.ts and tokens.ts.
use ac.Members.Creation.{AddMemberInput, add_member, row_of, with_row}
use ac.Tokens.Store.{TokenStore, InternalTokenRow, resolve, insert_row, find_by_hash, find_by_id}
use ac.Members.Governed.{IsGoverned}
use ac.Members.Admins.{Apart, admins, Loads}
use ac.Members.Permissions.{Presets, resolve_permissions}
use ac.Members.Store.{RawMemberRow, find_row, LoadedMember, TeamTables, row_to_loaded, find_by_name}
use ac.Prelude.{
  Bool-cases, Option-cases, All, All-append, ◌≤◌, String, ◌≡◌, refl, ◌⊎◌, inl, inr, true, none,
  some, List, [], ◌∷◌, ◌++◌, arith, ◌==◌, eq_iff, ok, Result-cases, ℕ, Bool, false,
}
use ac.Prelude.Sort.{IsOrdered}

find_row-last :
    (name : String) (rs : List RawMemberRow) (r : RawMemberRow)
    → find_row name rs ≡ none
    → (r.name == name) ≡ true
    → find_row name (rs ++ r ∷ []) ≡ some r
unfolding find_row
find_row-last name [] r h e = rw e refl
find_row-last name (x ∷ rs) r h e = elim (Bool-cases (x.name == name)) [
  | inl k ↦ absurd (ground (arith, h, k))
  | inr k ↦ rw k (find_row-last name rs r (ground (arith, h, k)) e)
]

find_by_hash-last :
    (hash : String) (rs : List InternalTokenRow) (r : InternalTokenRow)
    → find_by_hash hash rs ≡ none
    → (r.hash == hash) ≡ true
    → find_by_hash hash (rs ++ r ∷ []) ≡ some r
unfolding find_by_hash
find_by_hash-last hash [] r h e = rw e refl
find_by_hash-last hash (x ∷ rs) r h e = elim (Bool-cases (x.hash == hash)) [
  | inl k ↦ absurd (ground (arith, h, k))
  | inr k ↦ rw k (find_by_hash-last hash rs r (ground (arith, h, k)) e)
]

pub insert_row-find :
    (row : InternalTokenRow) (s : TokenStore)
    → (insert_row row s ≡ (none, s))
      ⊎ ((insert_row row s ≡ (some row, record s { tokens = s.tokens ++ row ∷ [] }))
          × (find_by_hash row.hash (s.tokens ++ row ∷ []) ≡ some row))
unfolding insert_row
insert_row-find row s = elim (Option-cases (find_by_hash row.hash s.tokens)) [
  | inr (r, h) ↦ inl (ground (arith, h))
  | inl h ↦ elim (Option-cases (find_by_id row.id s.tokens)) [
    | inr (r, k) ↦ inl (ground (arith, h, k))
    | inl k ↦ inr (
      ground (arith, h, k),
      find_by_hash-last row.hash s.tokens row h ((eq_iff row.hash row.hash).1 refl),
    )
  ]
]

All-Apart-last :
    (x : RawMemberRow) (rs : List RawMemberRow) (r : RawMemberRow)
    → All (Apart x) rs
    → Apart x r
    → All (Apart x) (rs ++ r ∷ [])
All-Apart-last x rs r h a = All-append (Apart x) rs (r ∷ []) h (a, tt)

IsOrdered-last :
    (rs : List RawMemberRow) (r : RawMemberRow)
    → find_row r.name rs ≡ none
    → IsOrdered Apart rs
    → IsOrdered Apart (rs ++ r ∷ [])
unfolding find_row
IsOrdered-last [] r h d = (tt, tt)
IsOrdered-last (x ∷ rs) r h d = elim (Bool-cases (x.name == r.name)) [
  | inl k ↦ absurd (ground (arith, h, k))
  | inr k ↦ (All-Apart-last x rs r d.0 k, IsOrdered-last rs r (ground (arith, h, k)) d.1)
]

admins-last :
    (presets : Presets) (rs : List RawMemberRow) (r : RawMemberRow)
    → admins presets rs ≤ admins presets (rs ++ r ∷ [])
admins-last presets [] r = omega arith
admins-last presets (x ∷ rs) r = omega (arith, admins-last presets rs r)

-- What `addMember` does when it succeeds.
pub add_member-ok :
    (input : AddMemberInput) (accepted : Bool) (now : ℕ) (s t : TeamTables) (m : LoadedMember)
    → add_member input accepted now s ≡ (ok m, t)
    → (t ≡ with_row (row_of input now s.members) s)
      × (find_row input.name s.members ≡ none)
      × (find_by_name input.name t ≡ ok (some m))
      × (resolve_permissions input.raw_permissions s.permission_presets ≡ ok m.permissions)
unfolding add_member
add_member-ok input false now s t m h = absurd (ground (arith, h))
add_member-ok input true now s t m h = elim (Option-cases (find_row input.name s.members)) [
  | inr (r, k) ↦ absurd (ground (arith, h, k))
  | inl k ↦ elim (Result-cases (resolve_permissions input.raw_permissions s.permission_presets)) [
    | inl (e, l) ↦ absurd (ground (arith, h, k, l))
    | inr (ps, l) ↦
        let row : RawMemberRow = row_of input now s.members in
        let found : find_row input.name (s.members ++ row ∷ []) ≡ some row =
          find_row-last input.name s.members row k ((eq_iff input.name input.name).1 refl) in
        let loaded : find_by_name input.name (with_row row s)
            ≡ ok (some (record { row = row; permissions = ps })) =
          unfold find_by_name row_to_loaded in ground (arith, found, l) in
        let team : t ≡ with_row row s = ground (arith, h, k, l, loaded) in
        let member : m ≡ record { row = row; permissions = ps } = ground (arith, h, k, l, loaded) in
        (team, k, rw (team, member) loaded, rw member l)
  ]
]

pub with_row-IsGoverned :
    (row : RawMemberRow) (s : TeamTables)
    → IsGoverned s
    → find_row row.name s.members ≡ none
    → Loads s.permission_presets row
    → IsGoverned (with_row row s)
with_row-IsGoverned row s v h l = record {
  all_load = All-append (Loads s.permission_presets) s.members (row ∷ []) v.all_load (l, tt);
  names_apart = IsOrdered-last s.members row h v.names_apart;
  one_admin = omega (arith, v.one_admin, admins-last s.permission_presets s.members row);
}

pub resolve-found :
    (hash_of : String → String) (raw_token : String) (later : ℕ) (s : TokenStore)
    (row : InternalTokenRow)
    → find_by_hash (hash_of raw_token) s.tokens ≡ some row
    → row.expires_at ≡ none
    → (row.hash == hash_of raw_token) ≡ true
    → resolve hash_of raw_token later s ≡ some row
unfolding resolve
resolve-found hash_of raw_token later s row f e k = ground (arith, f, e, k)
