-- ===== src/Files/Write.antt =====
-- `writeFile` and `copyByBlobRef` of apps/server/src/files/filesystem-store.ts.
-- Where the entry is to go.
use ac.Files.Types.{
  error, Kind, FsEntryRow, BlobRow, FilesystemStore, ViewerContext, WriteCollisionStrategy,
  overwrite, suffix, is_file,
}
use ac.Prelude.Codes.{same, Text}
use ac.Files.Paths.{
  not_found, invalid_input, forbidden, FsErrorCode, exists, is_a_directory, corrupt, FsPath,
  parent_of, basename_of, join_path, dedupe_basename,
}
use ac.Files.Directories.{owner_name, ensure_directory_tree, Answer}
use ac.Files.Access.{Acl, can_write, can_read, at_path}
use ac.Files.Rows.{
  get_entry, update_entry_content, upsert_blob, inc_ref, decrement_and_maybe_drop_blob,
}
use ac.Prelude.{
  if◌then◌else◌, is_some, Result, ok, err, is_empty, ℕ, String, Bool, false, ◌||◌, not, Option,
  none, some, List, [], ◌∷◌, ◌++◌, ◌==◌,
}

pub data Placed : Type 0 where
  fresh : FsPath → (renamed : Bool) → Placed
  over : FsPath → FsEntryRow → Placed
  refused : FsErrorCode → Placed

-- The predicate of `dedupeBasename`, which throws where `joinPath` does.
abbrev pub taken_under : FsPath → FilesystemStore → Text → Result FsErrorCode Bool
taken_under parent s candidate = elim (join_path parent candidate) [
  | err e ↦ err e
  | ok p ↦ ok (is_some (get_entry p s.entries))
]

abbrev pub suffixed : FsPath → FsPath → FilesystemStore → Placed
suffixed parent path s = elim (dedupe_basename (basename_of path) (taken_under parent s)) [
  | err e ↦ refused e
  | ok new_name ↦ elim (join_path parent new_name) [
    | err e ↦ refused e
    | ok p ↦ fresh p (not (same (basename_of path) new_name))
  ]
]

-- The collision of the path with what is stored there.
unfoldable pub place : FsPath → WriteCollisionStrategy → FilesystemStore → Placed
place path collision s = elim (get_entry path s.entries) [
  | none ↦ fresh path false
  | some existing ↦ if not (is_file existing.kind) then refused is_a_directory else elim collision [
    | error ↦ refused exists
    | overwrite ↦ over path existing
    | suffix ↦ suffixed existing.parent_path path s
  ]
]

pub record Content : Type 0 where
  pub hash : String
  pub size : ℕ
  pub mime_type : String

abbrev pub file_row : FsPath → Text → Content → Text → ℕ → FsEntryRow
file_row path owner c writer now = record {
  path = path;
  parent_path = parent_of path;
  name = basename_of path;
  kind = Kind.file;
  owner = owner;
  content_hash = some c.hash;
  size = some c.size;
  mime_type = some c.mime_type;
  created_at = now;
  created_by = writer;
  updated_at = now;
}

-- `if (priorHash && priorHash !== hash)`
abbrev pub release : Option String → String → List BlobRow → List BlobRow
release none hash bs = bs
release (some prior) hash bs =
    if prior == "" || prior == hash then bs else decrement_and_maybe_drop_blob prior bs

abbrev pub Stored : Type 0
Stored = Result FsErrorCode (FsEntryRow × Bool) × FilesystemStore

-- The read after the transaction.
abbrev pub reread : FsPath → Bool → FilesystemStore → Stored
reread path renamed s = elim (get_entry path s.entries) [
  | none ↦ (err corrupt, s)
  | some row ↦ (ok (row, renamed), s)
]

abbrev pub overwritten : Content → ℕ → FsPath → FsEntryRow → FilesystemStore → FilesystemStore
overwritten c now path existing s = record s {
  entries = update_entry_content c.hash c.size c.mime_type now path s.entries;
  blobs = release existing.content_hash c.hash (inc_ref c.hash s.blobs);
}

abbrev pub added : Content → FsEntryRow → FilesystemStore → FilesystemStore
added c row s = record s { entries = s.entries ++ row ∷ []; blobs = inc_ref c.hash s.blobs }

-- The rest of the transaction on the store `s`; `before` is what a rollback restores.
unfoldable pub put_entry : Content → Text → ℕ → FilesystemStore → FilesystemStore → Placed → Stored
put_entry c writer now before s (refused e) = (err e, before)
put_entry c writer now before s (over path existing) =
    reread path false (overwritten c now path existing s)
put_entry c writer now before s (fresh path renamed) = elim (owner_name path) [
  | none ↦ (err invalid_input, before)
  | some owner ↦ reread path renamed (added c (file_row path owner c writer now) s)
]

abbrev pub and_path : FsPath → Answer → Result FsErrorCode FsPath × FilesystemStore
and_path path (err e, s) = (err e, s)
and_path path (ok parent, s) = (ok path, s)

-- `writeFile` up to the wait for the blob: the checks, and the directories above.
unfoldable pub write_start :
    Acl → Text → ViewerContext → ℕ → FilesystemStore → Result FsErrorCode FsPath × FilesystemStore
write_start acl raw writer now s =
    at_path raw (λ e. (err e, s))
      λ path.
        if is_empty path
        then (err invalid_input, s)
        else if not (can_write acl path writer)
        then (err forbidden, s)
        else and_path path (ensure_directory_tree (parent_of path) writer.name now s)

-- From there on, with the hash and size that the blob store gave.
unfoldable pub write_finish :
    FsPath → Content → ViewerContext → WriteCollisionStrategy → ℕ → FilesystemStore → Stored
unfolding place put_entry
write_finish path c writer collision now s =
    put_entry c writer.name now s (record s { blobs = upsert_blob c.hash c.size now s.blobs })
      (place path collision s)

abbrev pub and_put :
    String
    → ViewerContext
    → Result FsErrorCode (String × ℕ)
    → WriteCollisionStrategy
    → ℕ
    → Result FsErrorCode FsPath × FilesystemStore
    → Stored
and_put mime_type writer put collision now (err e, s) = (err e, s)
and_put mime_type writer (err e) collision now (ok path, s) = (err e, s)
and_put mime_type writer (ok (hash, size)) collision now (ok path, s) =
    write_finish path (record { hash = hash; size = size; mime_type = mime_type }) writer collision
      now s

-- `putFromBuffer` or `putFromStream`: the hash and the size, or its error.
unfoldable pub write_file :
    Acl
    → Text
    → String
    → ViewerContext
    → Result FsErrorCode (String × ℕ)
    → WriteCollisionStrategy
    → ℕ
    → FilesystemStore
    → Stored
unfolding write_start
write_file acl raw mime_type writer put collision now s =
    and_put mime_type writer put collision now (write_start acl raw writer now s)

abbrev pub octet_stream : String
octet_stream = "application/octet-stream"

abbrev pub mime_or : Option String → Option String → String
mime_or (some m) row = m
mime_or none (some m) = m
mime_or none none = octet_stream

-- A source row that has content, as the content of the copy.
abbrev pub content_of : Option String → FsEntryRow → Option Content
content_of mime_type row = elim row.content_hash [
  | none ↦ none
  | some hash ↦ if hash == "" then none else elim row.size [
    | none ↦ none
    | some size ↦
        some (record { hash = hash; size = size; mime_type = mime_or mime_type row.mime_type })
  ]
]

abbrev pub copy_content :
    FsPath
    → Content
    → ViewerContext
    → WriteCollisionStrategy
    → ℕ
    → Result FsErrorCode FsEntryRow × FilesystemStore
    → Stored
copy_content dst c viewer collision now (err e, s) = (err e, s)
copy_content dst c viewer collision now (ok parent, s) =
    put_entry c viewer.name now s s (place dst collision s)

unfoldable pub copy_by_blob_ref :
    Acl
    → Text
    → Text
    → Option String
    → WriteCollisionStrategy
    → ViewerContext
    → ℕ
    → FilesystemStore
    → Stored
unfolding put_entry place
copy_by_blob_ref acl raw_src raw_dst mime_type collision viewer now s =
    at_path raw_src (λ e. (err e, s))
      λ src.
        at_path raw_dst (λ e. (err e, s))
          λ dst.
            if is_empty dst
            then (err invalid_input, s)
            else if not (can_read acl src viewer s)
            then (err forbidden, s)
            else if not (can_write acl dst viewer)
            then (err forbidden, s)
            else elim (get_entry src s.entries) [
              | none ↦ (err not_found, s)
              | some row ↦
                  if not (is_file row.kind)
                  then (err is_a_directory, s)
                  else elim (content_of mime_type row) [
                    | none ↦ (err corrupt, s)
                    | some c ↦
                        copy_content dst c viewer collision now
                          (ensure_directory_tree (parent_of dst) viewer.name now s)
                  ]
            ]
