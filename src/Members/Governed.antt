-- ===== src/Members/Governed.antt =====
-- That the team keeps an administrator under the routes of apps/server/src/app.ts, and what the
-- deletion of a preset does.
use ac.Files.Types.{Permission}
use ac.Prelude.{
  none, some, List, String, ok, length, keep, All, ◌+◌, ◌≤◌, ◌≡◌, refl, ◌∙◌, Bool, true, false,
  Bool-cases, Option-cases, Result, err, Result-cases, All-keep, inl, inr, not, Option, arith, ◌==◌,
  if_lem,
}
use ac.Members.Store.{
  has_admin, is_admin, members_of, RawMemberRow, LoadedMember, TeamTables, find_row, came_later,
  Server, Answered, removed, unless_last, delete_stmt, row_to_loaded, find_by_name, at_least_two,
  deleting, delete_member_route,
}
use ac.Members.Admins.{
  one_if, Apart, manages_members, admins, Loads, admins-order_by, load_all-admins, load_all-total,
  admins-remove,
}
use ac.Prelude.Sort.{order_by, IsOrdered, All-order_by, keep_pairs}
use ac.Members.Permissions.{resolve_permissions}

-- The permissions of every member resolve, names are distinct, and a member manages the members.
pub record IsGoverned (s : TeamTables) : Type 0 where
  pub all_load : All (Loads s.permission_presets) s.members
  pub names_apart : IsOrdered Apart s.members
  pub one_admin : 1 ≤ admins s.permission_presets s.members

-- On such a team, members() returns, and its result counts the administrators.
members_of-total :
    (s : TeamTables)
    → IsGoverned s
    → (ms : List LoadedMember) × (members_of s ≡ ok ms)
      × (length (keep is_admin ms) ≡ admins s.permission_presets s.members)
unfolding members_of
members_of-total s v =
    let (ms, h) =
      load_all-total s.permission_presets (order_by came_later s.members)
        (All-order_by came_later (Loads s.permission_presets) s.members v.all_load) in
    (
      ms,
      h,
      load_all-admins s.permission_presets (order_by came_later s.members) ms h
          ∙ admins-order_by s.permission_presets s.members,
    )

pub IsGoverned-has_admin : (s : TeamTables) → IsGoverned s → has_admin s ≡ ok true
unfolding has_admin
IsGoverned-has_admin s v =
    let (ms, h, n) = members_of-total s v in ground (arith, h, n, v.one_admin)

pub unless_last-IsGoverned :
    (guarded : Bool) (answer : Answered) (s : Server)
    → IsGoverned s.team
    → (guarded ≡ false → IsGoverned answer.1.team)
    → (2 ≤ admins s.team.permission_presets s.team.members → IsGoverned answer.1.team)
    → IsGoverned (unless_last guarded answer s).1.team
unless_last-IsGoverned false answer s v f g = f refl
unless_last-IsGoverned true answer s v f g =
    let (ms, h, n) = members_of-total s.team v in
    elim (Bool-cases (at_least_two ms)) [
      | inl e ↦ rw (unless_last, h, e) (g (ground (arith, n, e)))
      | inr e ↦ rw (unless_last, h, e) v
    ]

removed-IsGoverned :
    (name : String) (s : Server) (r : RawMemberRow)
    → IsGoverned s.team
    → find_row name s.team.members ≡ some r
    → 1 + one_if (manages_members s.team.permission_presets r)
      ≤ admins s.team.permission_presets s.team.members
    → IsGoverned (removed name s).team
unfolding delete_stmt
removed-IsGoverned name s r v h n = record {
  all_load =
      All-keep (Loads s.team.permission_presets) (λ x. not (x.name == name)) s.team.members
        v.all_load;
  names_apart = keep_pairs Apart (λ x. not (x.name == name)) s.team.members v.names_apart;
  one_admin =
      omega
        (arith, n, admins-remove s.team.permission_presets name s.team.members r v.names_apart h);
}

-- The row that a lookup by name gives, as it is loaded.
pub find_by_name-row :
    (name : String) (s : TeamTables) (m : LoadedMember)
    → find_by_name name s ≡ ok (some m)
    → (find_row name s.members ≡ some m.row)
      × (is_admin m ≡ manages_members s.permission_presets m.row)
unfolding find_by_name row_to_loaded
find_by_name-row name s m h = elim (Option-cases (find_row name s.members)) [
  | inl e ↦ absurd (ground (arith, h, e))
  | inr (r, e) ↦ elim (Result-cases (resolve_permissions r.raw_permissions s.permission_presets)) [
    | inl (x, k) ↦ absurd (ground (arith, h, e, k))
    | inr (ps, k) ↦
        let same : m ≡ record { row = r; permissions = ps } = ground (arith, h, e, k) in
        rw same (e, ground (arith, k))
  ]
]

deleting-IsGoverned :
    (name : String) (s : Server) (found : Result String (Option LoadedMember))
    → find_by_name name s.team ≡ found
    → IsGoverned s.team
    → IsGoverned (deleting name s found).1.team
deleting-IsGoverned name s (err e) h v = v
deleting-IsGoverned name s (ok none) h v = v
deleting-IsGoverned name s (ok (some m)) h v =
    let (row, admin) = find_by_name-row name s.team m h in
    unless_last-IsGoverned (is_admin m) (204, removed name s) s v
      (λ e. removed-IsGoverned name s m.row v row (ground (arith, e, admin, v.one_admin)))
      (λ n. removed-IsGoverned name s m.row v row (ground (arith, n)))

delete_member_route-kept :
    (caller : List Permission) (can_persist : Bool) (parsed_name : Option String) (s : Server)
    → IsGoverned s.team
    → IsGoverned (delete_member_route caller can_persist parsed_name s).1.team
unfolding delete_member_route
delete_member_route-kept caller can_persist none s v =
    if_lem (λ (r : Answered). IsGoverned r.1.team) _ (403, s) _ v
      (if_lem (λ (r : Answered). IsGoverned r.1.team) _ (501, s) _ v v)
delete_member_route-kept caller can_persist (some name) s v =
    if_lem (λ (r : Answered). IsGoverned r.1.team) _ (403, s) _ v
      (if_lem (λ (r : Answered). IsGoverned r.1.team) _ (501, s) _ v
        (deleting-IsGoverned name s (find_by_name name s.team) refl v))

-- Whoever asks, deleting a member leaves a team whose permissions resolve and which has an
-- administrator, where the team was such a one before. So `hasAdmin` answers true after it.
pub delete_member_route-IsGoverned :
    (caller : List Permission) (can_persist : Bool) (parsed_name : Option String) (s : Server)
    → IsGoverned s.team
    → IsGoverned (delete_member_route caller can_persist parsed_name s).1.team
      × (has_admin (delete_member_route caller can_persist parsed_name s).1.team ≡ ok true)
delete_member_route-IsGoverned caller can_persist parsed_name s v =
    let kept : IsGoverned (delete_member_route caller can_persist parsed_name s).1.team =
      delete_member_route-kept caller can_persist parsed_name s v in
    (kept, IsGoverned-has_admin (delete_member_route caller can_persist parsed_name s).1.team kept)
