-- ===== src/Members/Updating.antt =====
-- That PATCH /members/:name of apps/server/src/app.ts keeps an administrator.
use ac.Files.Types.{Permission, members_manage}
use ac.Prelude.{
  if◌then◌else◌, Bool-cases, sym, ℕ, none, some, List, [], ◌∷◌, String, if_lem, All, ◌+◌, ◌≤◌, ◌≡◌,
  Bool, Option, map, arith, Result, ok, err, refl, ap, ◌∙◌, true, ◌&&◌, not, Option-cases, inl, inr,
}
use ac.Members.Store.{
  is_admin, RawMemberRow, LoadedMember, find_row, UpdateMemberPatch, patched, if_member,
  update_stmt, Server, Answered, updated, if_valid, has_admin, find_by_name, or_kept, with_next,
  guarded_by, update_member_route, TeamTables, reread_updated, PatchStart, answered, with_target,
  patch_start, patch_finish,
}
use ac.Members.Admins.{
  one_if, Apart, manages_members, admins, Loads, admins-update, resolves, grants_manage,
}
use ac.Members.Governed.{IsGoverned, IsGoverned-has_admin, unless_last-IsGoverned, find_by_name-row}
use ac.Members.Permissions.{Presets, resolve_permissions, has_permission}
use ac.Prelude.Sort.{IsOrdered}

module _ (presets : Presets) (name : String) (patch : UpdateMemberPatch) (now : ℕ) where
  set_name : (r : RawMemberRow) → (if_member name (patched patch now) r).name ≡ r.name
  set_name r = ground arith

  All-update_stmt :
      (x : RawMemberRow) (rs : List RawMemberRow)
      → All (Apart x) rs
      → All
          (Apart (if_member name (patched patch now) x))
          (map (if_member name (patched patch now)) rs)
  All-update_stmt x [] h = tt
  All-update_stmt x (r ∷ rs) h = (rw (set_name x, set_name r) h.0, All-update_stmt x rs h.1)

  update_stmt-Apart :
      (rs : List RawMemberRow)
      → IsOrdered Apart rs
      → IsOrdered Apart (update_stmt name patch now rs)
  unfolding update_stmt
  update_stmt-Apart [] d = tt
  update_stmt-Apart (x ∷ rs) d = (All-update_stmt x rs d.0, update_stmt-Apart rs d.1)

  -- The entries of the patch, if it has any, are known.
  update_stmt-Loads :
      (rs : List RawMemberRow)
      → ((r : RawMemberRow) → Loads presets r → Loads presets (patched patch now r))
      → All (Loads presets) rs
      → All (Loads presets) (update_stmt name patch now rs)
  unfolding update_stmt
  update_stmt-Loads [] f h = tt
  update_stmt-Loads (x ∷ rs) f h =
      (if_lem (Loads presets) _ (patched patch now x) x (f x h.0) h.0, update_stmt-Loads rs f h.1)

updated-IsGoverned :
    (name : String) (patch : UpdateMemberPatch) (now : ℕ) (s : Server) (r : RawMemberRow)
    → IsGoverned s.team
    → find_row name s.team.members ≡ some r
    → ((q : RawMemberRow)
        → Loads s.team.permission_presets q
        → Loads s.team.permission_presets (patched patch now q))
    → 1 + one_if (manages_members s.team.permission_presets r)
      ≤ admins s.team.permission_presets s.team.members
        + one_if (manages_members s.team.permission_presets (patched patch now r))
    → IsGoverned (updated name patch now s).team
updated-IsGoverned name patch now s r v h f n = record {
  all_load = update_stmt-Loads s.team.permission_presets name patch now s.team.members f v.all_load;
  names_apart =
      update_stmt-Apart s.team.permission_presets name patch now s.team.members v.names_apart;
  one_admin =
      unfold update_stmt in
      omega (
        arith,
        n,
        admins-update s.team.permission_presets name (patched patch now) s.team.members r
            v.names_apart h,
      );
}

reread_updated-IsGoverned :
    (s : Server) (found : Result String (Option LoadedMember))
    → IsGoverned s.team
    → IsGoverned (reread_updated s found).1.team
reread_updated-IsGoverned s (err e) v = v
reread_updated-IsGoverned s (ok none) v = v
reread_updated-IsGoverned s (ok (some m)) v = v

-- The row is there or the store stays.
valid-IsGoverned :
    (accepted : Bool) (name : String) (patch : UpdateMemberPatch) (now : ℕ) (s : Server)
    → IsGoverned s.team
    → ((r : RawMemberRow)
        → find_row name s.team.members ≡ some r
        → IsGoverned (updated name patch now s).team)
    → IsGoverned (if_valid accepted name patch now s).1.team
valid-IsGoverned accepted name patch now s v w =
    elim (Option-cases (find_row name s.team.members)) [
      | inl e ↦ elim (Bool-cases accepted) [ inl k ↦ rw (k, e) v | inr k ↦ rw k v ]
      | inr (r, e) ↦
          if_lem (λ (x : Answered). IsGoverned x.1.team) _ _ (400, s)
            (reread_updated-IsGoverned (updated name patch now s) _ (w r e)) v
    ]

-- A member that was read is an administrator if the row of the name is now one's.
abbrev pub IsFresh : LoadedMember → String → TeamTables → Type 0
IsFresh target name s =
    (r : RawMemberRow)
    → find_row name s.members ≡ some r
    → manages_members s.permission_presets r ≡ true
    → is_admin target ≡ true

with_next-IsGoverned :
    (name : String) (patch : UpdateMemberPatch) (now : ℕ) (accepted : Bool) (s : Server)
    (m : LoadedMember) (raw : List String) (resolved : Result String (List Permission))
    → patch.raw_permissions ≡ some raw
    → resolve_permissions raw s.team.permission_presets ≡ resolved
    → IsFresh m name s.team
    → IsGoverned s.team
    → IsGoverned (with_next m (if_valid accepted name patch now s) s resolved).1.team
with_next-IsGoverned name patch now accepted s m raw (err x) e k a v = v
with_next-IsGoverned name patch now accepted s m raw (ok next) e k a v =
    let presets : Presets = s.team.permission_presets in
    let resolved : (q : RawMemberRow)
        → resolve_permissions (patched patch now q).raw_permissions presets ≡ ok next =
      λ q. ap (λ o. resolve_permissions (or_kept o q.raw_permissions) presets) e ∙ k in
    let answer : Answered = if_valid accepted name patch now s in
    let changed : ((r : RawMemberRow)
          → find_row name s.team.members ≡ some r
          → 1 + one_if (manages_members presets r)
            ≤ admins presets s.team.members
              + one_if (manages_members presets (patched patch now r)))
        → IsGoverned answer.1.team =
      λ n. valid-IsGoverned accepted name patch now s v (λ r h.
        updated-IsGoverned name patch now s r v h (λ q l. ap resolves (resolved q)) (n r h)) in
    let manages_next : (r : RawMemberRow)
        → manages_members presets (patched patch now r) ≡ has_permission members_manage next =
      λ r. ap grants_manage (resolved r) in
    unless_last-IsGoverned (is_admin m && not (has_permission members_manage next)) answer s v
      (λ g. changed (λ r h. elim (Bool-cases (manages_members presets r)) [
        | inl b ↦ ground (arith, g, b, a r h b, manages_next r, v.one_admin)
        | inr b ↦ ground (arith, b, v.one_admin)
      ]))
      (λ n. changed (λ r h. ground (arith, n)))

guarded_by-IsGoverned :
    (name : String) (patch : UpdateMemberPatch) (now : ℕ) (accepted : Bool) (s : Server)
    (m : LoadedMember) (o : Option (List String))
    → patch.raw_permissions ≡ o
    → IsFresh m name s.team
    → IsGoverned s.team
    → IsGoverned (guarded_by m (if_valid accepted name patch now s) s o).1.team
guarded_by-IsGoverned name patch now accepted s m none e a v =
    let presets : Presets = s.team.permission_presets in
    let same : (q : RawMemberRow)
        → resolve_permissions (patched patch now q).raw_permissions presets
          ≡ resolve_permissions q.raw_permissions presets =
      λ q. ap (λ o. resolve_permissions (or_kept o q.raw_permissions) presets) e in
    valid-IsGoverned accepted name patch now s v (λ r h.
      updated-IsGoverned name patch now s r v h (λ q l. ap resolves (same q) ∙ l)
        (omega (arith, v.one_admin, ap (λ x. one_if (grants_manage x)) (same r))))
guarded_by-IsGoverned name patch now accepted s m (some raw) e a v =
    with_next-IsGoverned name patch now accepted s m raw
      (resolve_permissions raw s.team.permission_presets) e refl a v

-- Whoever has the name and manages the members in the second team did so in the first.
abbrev pub IsUnpromoted : String → TeamTables → TeamTables → Type 0
IsUnpromoted name s later =
    (r : RawMemberRow)
    → find_row name later.members ≡ some r
    → manages_members later.permission_presets r ≡ true
    → (q : RawMemberRow) × (find_row name s.members ≡ some q)
      × (manages_members s.permission_presets q ≡ true)

found-IsFresh :
    (name : String) (s later : TeamTables) (m : LoadedMember)
    → find_by_name name s ≡ ok (some m)
    → IsUnpromoted name s later
    → IsFresh m name later
found-IsFresh name s later m h u r f a =
    let (row, admin) = find_by_name-row name s m h in
    let (q, found, manages) = u r f a in
    let own : some m.row ≡ some q = sym row ∙ found in
    let is_row : m.row ≡ q = ground (arith, own) in
    admin ∙ ap (λ x. manages_members s.permission_presets x) is_row ∙ manages

with_target-IsGoverned :
    (body : Option UpdateMemberPatch) (accepted : Bool) (name : String) (now : ℕ) (s later : Server)
    (found : Result String (Option LoadedMember))
    → find_by_name name s.team ≡ found
    → IsUnpromoted name s.team later.team
    → IsGoverned later.team
    → IsGoverned (patch_finish body accepted now later (with_target name found)).1.team
with_target-IsGoverned body accepted name now s later (err e) h u v = v
with_target-IsGoverned body accepted name now s later (ok none) h u v = v
with_target-IsGoverned none accepted name now s later (ok (some m)) h u v = v
with_target-IsGoverned (some patch) accepted name now s later (ok (some m)) h u v =
    guarded_by-IsGoverned name patch now accepted later m patch.raw_permissions refl
      (found-IsFresh name s.team later.team m h u) v

update_member_route-kept :
    (caller : List Permission) (can_persist : Bool) (name : String)
    (body : Option UpdateMemberPatch) (accepted : Bool) (now : ℕ) (s later : Server)
    → IsUnpromoted name s.team later.team
    → IsGoverned later.team
    → IsGoverned
        (update_member_route caller can_persist (some name) body accepted now s later).1.team
unfolding update_member_route patch_start
update_member_route-kept caller can_persist name body accepted now s later u v =
    if_lem (λ (p : PatchStart). IsGoverned (patch_finish body accepted now later p).1.team)
      (not (has_permission members_manage caller)) (answered 403)
      (if not can_persist then answered 501 else with_target name (find_by_name name s.team)) v
      (if_lem (λ (p : PatchStart). IsGoverned (patch_finish body accepted now later p).1.team)
        (not can_persist) (answered 501) (with_target name (find_by_name name s.team)) v
        (with_target-IsGoverned body accepted name now s later (find_by_name name s.team) refl u v))

-- Whatever the route that changes a member is asked, role, instructions or permissions, the team has an
-- administrator after it, and the permissions of every member resolve, where this was so when its
-- body was there, and the member had not become an administrator while the route waited for the body.
pub update_member_route-IsGoverned :
    (caller : List Permission) (can_persist : Bool) (name : String)
    (body : Option UpdateMemberPatch) (accepted : Bool) (now : ℕ) (s later : Server)
    → IsUnpromoted name s.team later.team
    → IsGoverned later.team
    → IsGoverned
        (update_member_route caller can_persist (some name) body accepted now s later).1.team
      × (has_admin
            (update_member_route caller can_persist (some name) body accepted now s later).1.team
          ≡ ok true)
update_member_route-IsGoverned caller can_persist name body accepted now s later u v =
    let kept : IsGoverned
        (update_member_route caller can_persist (some name) body accepted now s later).1.team =
      update_member_route-kept caller can_persist name body accepted now s later u v in
    (
      kept,
      IsGoverned-has_admin
          (update_member_route caller can_persist (some name) body accepted now s later).1.team
          kept,
    )
