-- ===== src/Files/Access.antt =====
-- The permissions and the read methods of apps/server/src/files/filesystem-store.ts. `acl` is the
-- `ObjectiveAclProvider`, if there is one.
use ac.Prelude.Sort.{order_by}
use ac.Prelude.Codes.{same, Text}
use ac.Files.Types.{Permission, FsEntryRow, FilesystemStore, ViewerContext, is_file}
use ac.Files.Paths.{
  FsErrorCode, FsPath, normalize_path, owner_of, objective_of, not_found, invalid_input, forbidden,
  not_a_directory, is_a_directory, corrupt,
}
use ac.Files.Rows.{same_path, get_entry, has_grant, insert_grant}
use ac.Prelude.{
  ltb, eqb, if◌then◌else◌, Result, ok, err, keep, is_empty, ℕ, String, Bool, true, false, ◌&&◌,
  ◌||◌, not, Option, none, some, List, [], ◌∷◌, ◌≡◌, sym, subst,
}

abbrev pub is_members_manage : Permission → Bool
is_members_manage Permission.members_manage = true
is_members_manage _ = false

-- `permissions.includes('members.manage')`
abbrev pub manages : ViewerContext → Bool
manages viewer = not (is_empty (keep is_members_manage viewer.permissions))

abbrev pub Acl : Type 0
Acl = Option (Text → Text → Bool)

abbrev pub is_owner : Option Text → Text → Bool
is_owner none name = false
is_owner (some owner) name = same owner name

unfoldable pub owns_path : FsPath → ViewerContext → Bool
owns_path path viewer = is_owner (owner_of path) viewer.name

abbrev pub asks : Acl → Option Text → Text → Bool
asks none id name = false
asks (some is_member) none name = false
asks (some is_member) (some id) name = is_member id name

unfoldable pub is_objective_member : Acl → FsPath → ViewerContext → Bool
is_objective_member acl path viewer = asks acl (objective_of path) viewer.name

unfoldable pub can_write : Acl → FsPath → ViewerContext → Bool
unfolding owns_path is_objective_member
can_write acl path viewer =
    manages viewer || owns_path path viewer || is_objective_member acl path viewer

unfoldable pub can_read : Acl → FsPath → ViewerContext → FilesystemStore → Bool
unfolding owns_path is_objective_member
can_read acl path viewer s =
    manages viewer
    || owns_path path viewer
    || is_objective_member acl path viewer
    || has_grant path viewer.name s.grants

abbrev pub at_path {ℓ} : {A : Type ℓ} → Text → (FsErrorCode → A) → (FsPath → A) → A
at_path raw fails body = elim (normalize_path raw) [ err e ↦ fails e | ok path ↦ body path ]

-- What holds of the failure and of the call at every path holds of the call.
pub at_path_lem {ℓ κ} :
    {A : Type ℓ} (P : A → Type κ) (raw : Text) (fails : FsErrorCode → A) (body : FsPath → A)
    → ((e : FsErrorCode) → P (fails e))
    → ((path : FsPath) → P (body path))
    → P (at_path raw fails body)
at_path_lem P raw fails body h k =
    elim (normalize_path raw) as (λ r. P (elim r [ err e ↦ fails e | ok path ↦ body path ])) [
      | err e ↦ h e
      | ok path ↦ k path
    ]

pub at_path_ok {ℓ κ} :
    {A : Type ℓ} (P : A → Type κ) (raw : Text) (fails : FsErrorCode → A) (body : FsPath → A)
    (path : FsPath)
    → normalize_path raw ≡ ok path
    → P (body path)
    → P (at_path raw fails body)
at_path_ok P raw fails body path n h =
    subst (λ r. P (elim r [ err e ↦ fails e | ok path ↦ body path ])) (sym n) h

unfoldable pub stat :
    Acl → Text → ViewerContext → FilesystemStore → Result FsErrorCode (Option FsEntryRow)
stat acl raw viewer s = at_path raw err λ path.
    if is_empty path
    then err invalid_input
    else if can_read acl path viewer s
    then ok (get_entry path s.entries)
    else err forbidden

-- The order of names is that of SQLite's BINARY collation.
abbrev pub text_after : Text → Text → Bool
text_after [] b = false
text_after (x ∷ xs) [] = true
text_after (x ∷ xs) (y ∷ ys) = ltb y x || (eqb x y && text_after xs ys)

-- ORDER BY kind='file', name
abbrev pub goes_after : FsEntryRow → FsEntryRow → Bool
goes_after x y =
    is_file x.kind && not (is_file y.kind)
    || not (is_file y.kind && not (is_file x.kind)) && text_after x.name y.name

unfoldable pub children_of : FsPath → FilesystemStore → List FsEntryRow
children_of path s = order_by goes_after (keep (λ r. same_path r.parent_path path) s.entries)

-- `listHomesStmt`: the directories under the root, by name.
unfoldable pub homes_of : FilesystemStore → List FsEntryRow
homes_of s =
    order_by (λ x y. text_after x.name y.name)
      (keep (λ r. same_path r.parent_path [] && not (is_file r.kind)) s.entries)

unfoldable pub list : Text → ViewerContext → FilesystemStore → Result FsErrorCode (List FsEntryRow)
unfolding owns_path
list raw viewer s = at_path raw err λ path.
    if is_empty path
    then ok
        (if manages viewer then homes_of s else keep (λ r. same r.owner viewer.name) (homes_of s))
    else if not (manages viewer) && not (owns_path path viewer)
    then err forbidden
    else elim (get_entry path s.entries) [
      | none ↦ ok []
      | some target ↦ if is_file target.kind then err not_a_directory else ok (children_of path s)
    ]

-- ORDER BY updated_at DESC
abbrev pub older : FsEntryRow → FsEntryRow → Bool
older x y = ltb x.updated_at y.updated_at

unfoldable pub list_shared : ViewerContext → FilesystemStore → List FsEntryRow
list_shared viewer s = order_by older (keep (λ r. has_grant r.path viewer.name s.grants) s.entries)

unfoldable pub list_all_files :
    ViewerContext → FilesystemStore → Result FsErrorCode (List FsEntryRow)
list_all_files viewer s =
    if manages viewer
    then ok (order_by older (keep (λ r. is_file r.kind) s.entries))
    else err forbidden

-- `openReadStream`: the entry, and the hash whose bytes are streamed.
unfoldable pub open_read_stream :
    Acl → Text → ViewerContext → FilesystemStore → Result FsErrorCode (FsEntryRow × String)
unfolding stat
open_read_stream acl raw viewer s = elim (stat acl raw viewer s) [
  | err e ↦ err e
  | ok none ↦ err not_found
  | ok (some entry) ↦
      if is_file entry.kind
      then elim entry.content_hash [ none ↦ err corrupt | some hash ↦ ok (entry, hash) ]
      else err is_a_directory
]

-- `grant`
unfoldable pub grant :
    Text → Text → String → ℕ → FilesystemStore → Result FsErrorCode (Unit {0}) × FilesystemStore
grant raw viewer granted_via now s =
    at_path raw (λ e. (err e, s))
      λ path.
        if is_empty path
        then (err invalid_input, s)
        else if is_owner (owner_of path) viewer
        then (ok tt, s)
        else (ok tt, record s { grants = insert_grant path viewer now granted_via s.grants })
