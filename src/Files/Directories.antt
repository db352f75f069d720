-- ===== src/Files/Directories.antt =====
-- `ensureDirectoryTree`, `createDirectoryRow`, `mkdir` and `ensureHome` of
-- apps/server/src/files/filesystem-store.ts.
use ac.Files.Paths.{
  not_found, invalid_input, forbidden, FsErrorCode, not_a_directory, FsPath, parent_of, basename_of,
  owner_of, join_path,
}
use ac.Files.Access.{Acl, can_write, at_path}
use ac.Prelude.Codes.{Text}
use ac.Files.Types.{Kind, FsEntryRow, FilesystemStore, ViewerContext, is_file}
use ac.Files.Rows.{get_entry}
use ac.Prelude.{
  if◌then◌else◌, Result, ok, err, is_empty, ℕ, Bool, not, Option, none, some, [], ◌∷◌, ◌++◌,
}

abbrev pub Answer : Type 0
Answer = Result FsErrorCode FsEntryRow × FilesystemStore

abbrev pub insert_entry : FsEntryRow → FilesystemStore → FilesystemStore
insert_entry r s = record s { entries = s.entries ++ r ∷ [] }

abbrev pub directory_row : FsPath → Text → Text → ℕ → FsEntryRow
directory_row path owner writer now = record {
  path = path;
  parent_path = parent_of path;
  name = basename_of path;
  kind = Kind.directory;
  owner = owner;
  content_hash = none;
  size = none;
  mime_type = none;
  created_at = now;
  created_by = writer;
  updated_at = now;
}

-- The entry that stands for the root, which no row does.
abbrev pub root_row : FsEntryRow
root_row = record (directory_row [] [] [] 0) { owner = [] }

-- An owner, where it is no empty text.
abbrev pub owner_name : FsPath → Option Text
owner_name path = elim (owner_of path) [
  | none ↦ none
  | some [] ↦ none
  | some (c ∷ cs) ↦ some (c ∷ cs)
]

unfoldable pub create_directory_row : FsPath → Text → ℕ → FilesystemStore → Answer
create_directory_row path writer now s =
    if is_empty path then (err invalid_input, s) else elim (get_entry path s.entries) [
      | some existing ↦ if is_file existing.kind then (err not_a_directory, s) else (ok existing, s)
      | none ↦ elim (owner_name path) [
        | none ↦ (err invalid_input, s)
        | some owner ↦ let row = directory_row path owner writer now in (ok row, insert_entry row s)
      ]
    ]

-- The row is made once the tree above it is there.
abbrev pub and_create : FsPath → Text → ℕ → Answer → Answer
and_create path writer now (err e, s) = (err e, s)
and_create path writer now (ok parent, s) = create_directory_row path writer now s

unfoldable pub ensure_directory_tree : FsPath → Text → ℕ → FilesystemStore → Answer
unfolding create_directory_row
ensure_directory_tree [] writer now s = (ok root_row, s)
ensure_directory_tree (name ∷ parent) writer now s =
    let above = ensure_directory_tree parent writer now s in
    elim (get_entry (name ∷ parent) s.entries) [
      | some existing ↦ if is_file existing.kind then (err not_a_directory, s) else (ok existing, s)
      | none ↦ and_create (name ∷ parent) writer now above
    ]

-- The test of the parent without `recursive`.
abbrev pub parent_error : FsPath → FilesystemStore → Option FsErrorCode
parent_error [] s = none
parent_error (t ∷ p) s = elim (get_entry (t ∷ p) s.entries) [
  | none ↦ some not_found
  | some row ↦ if is_file row.kind then some not_a_directory else none
]

unfoldable pub mkdir : Acl → Text → ViewerContext → Bool → ℕ → FilesystemStore → Answer
unfolding ensure_directory_tree
mkdir acl raw writer recursive now s =
    at_path raw (λ e. (err e, s))
      λ path.
        if is_empty path
        then (err invalid_input, s)
        else if not (can_write acl path writer)
        then (err forbidden, s)
        else if recursive
        then ensure_directory_tree path writer.name now s
        else elim (parent_error (parent_of path) s) [
          | some e ↦ (err e, s)
          | none ↦ create_directory_row path writer.name now s
        ]

-- `joinPath('/', slotName)` may throw; the row takes the name as it is given.
unfoldable pub ensure_home :
    Text → ℕ → FilesystemStore → Result FsErrorCode (Unit {0}) × FilesystemStore
ensure_home slot_name now s = elim (join_path [] slot_name) [
  | err e ↦ (err e, s)
  | ok home ↦ elim (get_entry home s.entries) [
    | some row ↦ (ok tt, s)
    | none ↦ (
      ok tt,
      insert_entry
          (record (directory_row home slot_name slot_name now) {
            parent_path = [];
            name = slot_name;
          })
          s,
    )
  ]
]
