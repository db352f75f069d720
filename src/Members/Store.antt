-- ===== src/Members/Store.antt =====
-- The presets and members of apps/server/src/team-store.ts, and the two routes of
-- apps/server/src/app.ts.
use ac.Prelude.Sort.{order_by}
use ac.Files.Types.{Permission, members_manage}
use ac.Tokens.Store.{TokenStore, revoke_all_for_member}
use ac.Prelude.{
  is_some, ℕ, none, some, List, [], ◌∷◌, String, ltb, if◌then◌else◌, Result, ok, err, length, keep,
  is_empty, Bool, not, Option, ◌++◌, map, ◌==◌, ◌&&◌,
}
use ac.Members.Permissions.{has_permission, Presets, resolve_permissions}

pub record RawMemberRow : Type 0 where
  pub name : String
  pub role_title : String
  pub role_description : String
  pub instructions : String
  pub raw_permissions : List String
  pub totp_secret : Option String
  pub totp_last_counter : ℕ
  pub insertion_order : ℕ
  pub created_at : ℕ
  pub updated_at : ℕ

pub record LoadedMember : Type 0 where
  pub row : RawMemberRow
  pub permissions : List Permission

pub record TeamTables : Type 0 where
  pub permission_presets : Presets
  pub members : List RawMemberRow

-- `rowToLoaded`; the secret stays as it is stored.
unfoldable pub row_to_loaded : Presets → RawMemberRow → Result String LoadedMember
row_to_loaded presets row = elim (resolve_permissions row.raw_permissions presets) [
  | err e ↦ err e
  | ok ps ↦ ok (record { row = row; permissions = ps })
]

unfoldable pub find_row : String → List RawMemberRow → Option RawMemberRow
find_row name [] = none
find_row name (r ∷ rs) = let rest = find_row name rs in if r.name == name then some r else rest

unfoldable pub find_by_name : String → TeamTables → Result String (Option LoadedMember)
find_by_name name s = elim (find_row name s.members) [
  | none ↦ ok none
  | some row ↦ elim (row_to_loaded s.permission_presets row) [ err e ↦ err e | ok m ↦ ok (some m) ]
]

unfoldable pub load_all : Presets → List RawMemberRow → Result String (List LoadedMember)
load_all presets [] = ok []
load_all presets (r ∷ rs) = elim (row_to_loaded presets r) [
  | err e ↦ err e
  | ok m ↦ elim (load_all presets rs) [ err e ↦ err e | ok ms ↦ ok (m ∷ ms) ]
]

abbrev pub came_later : RawMemberRow → RawMemberRow → Bool
came_later x y = ltb y.insertion_order x.insertion_order

-- `members()`
unfoldable pub members_of : TeamTables → Result String (List LoadedMember)
members_of s = load_all s.permission_presets (order_by came_later s.members)

abbrev pub is_admin : LoadedMember → Bool
is_admin m = has_permission members_manage m.permissions

unfoldable pub has_admin : TeamTables → Result String Bool
has_admin s = elim (members_of s) [ err e ↦ err e | ok ms ↦ ok (not (is_empty (keep is_admin ms))) ]

-- `setPreset` of a valid name, and `deletePreset`.
unfoldable pub set_preset : String → List Permission → TeamTables → TeamTables
set_preset name leaves s = record s {
  permission_presets = keep (λ p. not (p.0 == name)) s.permission_presets ++ (name, leaves) ∷ [];
}

unfoldable pub delete_preset : String → TeamTables → Bool × TeamTables
delete_preset name s = (
  not (is_empty (keep (λ p. p.0 == name) s.permission_presets)),
  record s { permission_presets = keep (λ p. not (p.0 == name)) s.permission_presets },
)

unfoldable pub delete_stmt : String → TeamTables → TeamTables
delete_stmt name s = record s { members = keep (λ r. not (r.name == name)) s.members }

pub record UpdateMemberPatch : Type 0 where
  pub role : Option (String × String)
  pub instructions : Option String
  pub raw_permissions : Option (List String)

abbrev pub or_kept : {A : Type 0} → Option A → A → A
or_kept none a = a
or_kept (some b) a = b

abbrev pub patched : UpdateMemberPatch → ℕ → RawMemberRow → RawMemberRow
patched patch now r = record r {
  role_title = (or_kept patch.role (r.role_title, r.role_description)).0;
  role_description = (or_kept patch.role (r.role_title, r.role_description)).1;
  instructions = or_kept patch.instructions r.instructions;
  raw_permissions = or_kept patch.raw_permissions r.raw_permissions;
  updated_at = now;
}

abbrev pub if_member : String → (RawMemberRow → RawMemberRow) → RawMemberRow → RawMemberRow
if_member name set r = if r.name == name then set r else r

-- `updateStmt`
unfoldable pub update_stmt : String → UpdateMemberPatch → ℕ → List RawMemberRow → List RawMemberRow
update_stmt name patch now rs = map (if_member name (patched patch now)) rs

-- What a route works on.
pub record Server : Type 0 where
  pub team : TeamTables
  pub tokens : TokenStore

-- The status of the answer.
abbrev pub Answered : Type 0
Answered = ℕ × Server

abbrev pub at_least_two : List LoadedMember → Bool
at_least_two ms = ltb 1 (length (keep is_admin ms))

abbrev pub removed : String → Server → Server
removed name s = record s {
  team = delete_stmt name s.team;
  tokens = (revoke_all_for_member name s.tokens).1;
}

abbrev pub unless_last : Bool → Answered → Server → Answered
unless_last guarded answer s =
    if guarded
    then elim (members_of s.team) [
      | err e ↦ (500, s)
      | ok ms ↦ if at_least_two ms then answer else (409, s)
    ]
    else answer

abbrev pub deleting : String → Server → Result String (Option LoadedMember) → Answered
deleting name s (err e) = (500, s)
deleting name s (ok none) = (404, s)
deleting name s (ok (some target)) = unless_last (is_admin target) (204, removed name s) s

-- DELETE /members/:name, for the name that NameSchema accepted, if it did; the caller's permissions,
-- and whether there is a hook that persists. The busy report of the member is forgotten too.
unfoldable pub delete_member_route : List Permission → Bool → Option String → Server → Answered
delete_member_route caller can_persist parsed_name s =
    if not (has_permission members_manage caller)
    then (403, s)
    else if not can_persist
    then (501, s)
    else elim parsed_name [
      | none ↦ (400, s)
      | some name ↦ deleting name s (find_by_name name s.team)
    ]

abbrev pub updated : String → UpdateMemberPatch → ℕ → Server → Server
updated name patch now s = record s {
  team = record (s.team) { members = update_stmt name patch now s.team.members };
}

-- `updateMember` reads the row again after the write; what it throws, the route answers with 400.
abbrev pub reread_updated : Server → Result String (Option LoadedMember) → Answered
reread_updated s (err e) = (400, s)
reread_updated s (ok none) = (400, s)
reread_updated s (ok (some m)) = (200, s)

-- `updateMember`, whose validators accept the patch or not.
abbrev pub if_valid : Bool → String → UpdateMemberPatch → ℕ → Server → Answered
if_valid accepted name patch now s =
    if accepted && is_some (find_row name s.team.members)
    then reread_updated (updated name patch now s)
        (find_by_name name (updated name patch now s).team)
    else (400, s)

-- The last administrator keeps the permission.
abbrev pub with_next : LoadedMember → Answered → Server → Result String (List Permission) → Answered
with_next target answer s (err e) = (400, s)
with_next target answer s (ok next) =
    unless_last (is_admin target && not (has_permission members_manage next)) answer s

abbrev pub guarded_by : LoadedMember → Answered → Server → Option (List String) → Answered
guarded_by target answer s none = answer
guarded_by target answer s (some raw) =
    with_next target answer s (resolve_permissions raw s.team.permission_presets)

-- What PATCH /members/:name has when it waits for its body: an answer, or the target that it read.
pub data PatchStart : Type 0 where
  answered : ℕ → PatchStart
  reads_body : (name : String) → LoadedMember → PatchStart

abbrev pub with_target : String → Result String (Option LoadedMember) → PatchStart
with_target name (err e) = answered 500
with_target name (ok none) = answered 404
with_target name (ok (some target)) = reads_body name target

unfoldable pub patch_start : List Permission → Bool → Option String → Server → PatchStart
patch_start caller can_persist parsed_name s =
    if not (has_permission members_manage caller)
    then answered 403
    else if not can_persist
    then answered 501
    else elim parsed_name [
      | none ↦ answered 400
      | some name ↦ with_target name (find_by_name name s.team)
    ]

-- The rest of the handler, on the team of the moment when the body is there. `accepted` is what the
-- validators of `updateMember` say of it.
abbrev pub patch_finish : Option UpdateMemberPatch → Bool → ℕ → Server → PatchStart → Answered
patch_finish body accepted now s (answered status) = (status, s)
patch_finish none accepted now s (reads_body name target) = (400, s)
patch_finish (some patch) accepted now s (reads_body name target) =
    guarded_by target (if_valid accepted name patch now s) s patch.raw_permissions

-- PATCH /members/:name, for the body that its schema accepted, if it did: it reads the member from
-- `s`, waits for the body, and goes on with `later`.
unfoldable pub update_member_route :
    List Permission
    → Bool
    → Option String
    → Option UpdateMemberPatch
    → Bool
    → ℕ
    → Server
    → Server
    → Answered
unfolding patch_start
update_member_route caller can_persist parsed_name body accepted now s later =
    patch_finish body accepted now later (patch_start caller can_persist parsed_name s)
