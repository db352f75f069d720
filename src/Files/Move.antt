-- ===== src/Files/Move.antt =====
-- `move` of apps/server/src/files/filesystem-store.ts.
use ac.Files.Paths.{
  not_found, invalid_input, forbidden, FsErrorCode, exists, corrupt, FsPath, path_text, parent_of,
  is_ancestor_path,
}
use ac.Files.Directories.{Answer, ensure_directory_tree}
use ac.Files.Access.{Acl, can_write, at_path}
use ac.Prelude.Codes.{Text}
use ac.Files.Types.{FsEntryRow, GrantRow, FilesystemStore, ViewerContext, is_file}
use ac.Files.Rows.{same_path, get_entry, move_path, delete_grants_for_path, is_triple}
use ac.Prelude.{
  if◌then◌else◌, is_some, Result, ok, err, keep, is_empty, ℕ, Bool, false, ◌||◌, not, none, some,
  List, [], ◌∷◌, ◌++◌, map,
}

pub data Thrown : Type 0 where
  fs_error : FsErrorCode → Thrown
  sqlite_constraint : Thrown

abbrev pub Moved : Type 0
Moved = Result Thrown FsEntryRow × FilesystemStore

abbrev pub throws : FsErrorCode → FilesystemStore → Moved
throws e s = (err (fs_error e), s)

-- INSERT … SELECT of the grants under the new path; the primary key may refuse one.
abbrev pub copies_of : FsPath → FsPath → List GrantRow → List GrantRow
copies_of src dst gs =
    map (λ (g : GrantRow). record g { path = dst }) (keep (λ g. same_path g.path src) gs)

abbrev pub clashes : List GrantRow → List GrantRow → Bool
clashes [] gs = false
clashes (c ∷ cs) gs =
    not (is_empty (keep (is_triple c.path c.viewer c.granted_via) gs)) || clashes cs gs

abbrev pub moved_store : FsPath → FsPath → ℕ → FilesystemStore → FilesystemStore
moved_store src dst now s = record s {
  entries = move_path dst now src s.entries;
  grants = delete_grants_for_path src (s.grants ++ copies_of src dst s.grants);
}

-- The transaction, on the store in which the tree above the destination is there.
unfoldable pub move_row : FsPath → FsPath → ℕ → FilesystemStore → Moved
move_row src dst now s =
    if is_some (get_entry dst s.entries)
    then throws exists s
    else if clashes (copies_of src dst s.grants) s.grants
    then (err sqlite_constraint, s)
    else elim (get_entry dst (moved_store src dst now s).entries) [
      | none ↦ throws corrupt (moved_store src dst now s)
      | some moved ↦ (ok moved, moved_store src dst now s)
    ]

abbrev pub and_move : FsPath → FsPath → ℕ → Answer → Moved
and_move src dst now (err e, s) = throws e s
and_move src dst now (ok parent, s) = move_row src dst now s

abbrev pub move_checked : FsPath → FsPath → ViewerContext → ℕ → FilesystemStore → Moved
move_checked src dst writer now s =
    if is_ancestor_path (path_text src) (path_text dst)
    then throws invalid_input s
    else elim (get_entry src s.entries) [
      | none ↦ throws not_found s
      | some row ↦
          if not (is_file row.kind)
          then throws invalid_input s
          else and_move src dst now (ensure_directory_tree (parent_of dst) writer.name now s)
    ]

unfoldable pub move : Acl → Text → Text → ViewerContext → ℕ → FilesystemStore → Moved
unfolding move_row
move acl raw_src raw_dst writer now s =
    at_path raw_src (λ e. throws e s)
      λ src.
        at_path raw_dst (λ e. throws e s)
          λ dst.
            if same_path src dst
            then elim (get_entry src s.entries) [
              | none ↦ throws not_found s
              | some row ↦ (ok row, s)
            ]
            else if is_empty src || is_empty dst
            then throws invalid_input s
            else if not (can_write acl src writer) || not (can_write acl dst writer)
            then throws forbidden s
            else move_checked src dst writer now s
