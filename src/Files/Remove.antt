-- ===== src/Files/Remove.antt =====
-- `remove` of apps/server/src/files/filesystem-store.ts.
use ac.Prelude.Sort.{order_by}
use ac.Files.Paths.{not_found, invalid_input, forbidden, FsErrorCode, not_empty, FsPath, path_text}
use ac.Files.Access.{Acl, can_write, at_path, children_of}
use ac.Prelude.Codes.{Text}
use ac.Files.Types.{FsEntryRow, BlobRow, FilesystemStore, ViewerContext, is_file}
use ac.Files.Rows.{
  same_path, get_entry, delete_entry, delete_grants_for_path, decrement_and_maybe_drop_blob,
}
use ac.Prelude.{
  ltb, leb, eqb, if◌then◌else◌, Result, ok, err, length, keep, is_empty, ℕ, ◌+◌, Bool, true, false,
  ◌&&◌, ◌||◌, not, none, some, List, [], ◌∷◌, ◌++◌, ◌==◌,
}

-- An ASCII letter without its case.
abbrev pub fold_case : ℕ → ℕ
fold_case c = if leb b'A' c && leb c b'Z' then c + 32 else c

-- SQLite's LIKE: `%` stands for any text, `_` for any character, and the case of ASCII letters does
-- not count.
unfoldable pub like : Text → Text → Bool
like [] [] = true
like [] (c ∷ cs) = false
like (p ∷ ps) [] = eqb p b'%' && like ps []
like (p ∷ ps) (c ∷ cs) =
    let none_of_it = like ps (c ∷ cs) in
    let some_of_it = like (p ∷ ps) cs in
    let next = like ps cs in
    if eqb p b'%'
    then none_of_it || some_of_it
    else (eqb p b'_' || eqb (fold_case p) (fold_case c)) && next

-- `${normalized}/%`
abbrev pub pattern_of : FsPath → Text
pattern_of path = path_text path ++ b'/' ∷ b'%' ∷ []

abbrev pub is_listed : FsPath → FsEntryRow → Bool
is_listed path r = same_path r.path path || like (pattern_of path) (path_text r.path)

abbrev pub shorter : FsEntryRow → FsEntryRow → Bool
shorter x y = ltb (length (path_text x.path)) (length (path_text y.path))

-- `listDescendantsStmt`: the longest path first.
unfoldable pub descendants_of : FsPath → List FsEntryRow → List FsEntryRow
unfolding like
descendants_of path es = order_by shorter (keep (is_listed path) es)

-- What the deletion of one row does to the blobs: a directory has no content.
abbrev pub drop_content : FsEntryRow → List BlobRow → List BlobRow
drop_content r bs =
    if is_file r.kind
    then elim r.content_hash [
      | none ↦ bs
      | some hash ↦ if hash == "" then bs else decrement_and_maybe_drop_blob hash bs
    ]
    else bs

unfoldable pub delete_row : FsEntryRow → FilesystemStore → FilesystemStore
delete_row r s = record {
  entries = delete_entry r.path s.entries;
  blobs = drop_content r s.blobs;
  grants = delete_grants_for_path r.path s.grants;
}

unfoldable pub delete_rows : List FsEntryRow → FilesystemStore → FilesystemStore
unfolding delete_row
delete_rows [] s = s
delete_rows (r ∷ rs) s = delete_rows rs (delete_row r s)

abbrev pub Removed : Type 0
Removed = Result FsErrorCode (Unit {0}) × FilesystemStore

unfoldable pub remove : Acl → Text → ViewerContext → Bool → FilesystemStore → Removed
unfolding delete_rows descendants_of
remove acl raw writer recursive s =
    at_path raw (λ e. (err e, s))
      λ path.
        if is_empty path
        then (err invalid_input, s)
        else if not (can_write acl path writer)
        then (err forbidden, s)
        else elim (get_entry path s.entries) [
          | none ↦ (err not_found, s)
          | some target ↦
              if is_file target.kind
              then (ok tt, delete_row (record target { path = path }) s)
              else if not (is_empty (children_of path s)) && not recursive
              then (err not_empty, s)
              else (ok tt, delete_rows (descendants_of path s.entries) s)
        ]
