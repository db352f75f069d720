-- ===== src/Files/SoundRemoval.antt =====
-- That `remove`, `move` and `grant` of apps/server/src/files/filesystem-store.ts keep the tables
-- sound.
use ac.Prelude.{
  none, some, List, [], ◌∷◌, Option-cases, Result, ok, err, All, ℕ, ◌+◌, ◌≤◌, String, ◌≡◌, refl, ap,
  ◌∙◌, inl, inr, Bool, not, arith, keep, All-keep,
}
use ac.Files.Counts.{
  is_text, names_hash, one_if, Apart, refcount_of-drop, references-delete_entry,
  references-move_path,
}
use ac.Files.Sound.{IsSound, Extends-IsSound, ensure_directory_tree-Extends}
use ac.Files.Move.{throws, Moved, moved_store, move_row, and_move, move}
use ac.Files.Remove.{
  descendants_of, drop_content, delete_row, delete_rows, Removed, remove, is_listed, shorter,
}
use ac.Files.Directories.{Answer, ensure_directory_tree}
use ac.Files.Access.{Acl, at_path_lem, grant}
use ac.Prelude.Codes.{Text}
use ac.Files.Types.{FsEntryRow, BlobRow, FilesystemStore, ViewerContext}
use ac.Files.Paths.{FsErrorCode, FsPath, parent_of}
use ac.Files.Unique.{
  same_path_refl, get_entry-absent, get_entry-delete_entry, keep-Apart, move_path-Apart,
  same_path-sym_false,
}
use ac.Files.Rows.{same_path, get_entry, delete_entry, refcount_of}
use ac.Prelude.Sort.{IsOrdered, All-order_by, order_by_pairs}

abbrev pub Found : List FsEntryRow → FsEntryRow → Type 0
Found es r = get_entry r.path es ≡ some r

All-Found_cons :
    (x : FsEntryRow) (es rs : List FsEntryRow)
    → All (Apart x) rs
    → All (Found es) rs
    → All (Found (x ∷ es)) rs
unfolding get_entry
All-Found_cons x es [] h f = tt
All-Found_cons x es (r ∷ rs) h f = (rw h.0 f.0, All-Found_cons x es rs h.1 f.1)

-- Where the paths are apart, every row is the one found at its path.
pub All-Found : (es : List FsEntryRow) → IsOrdered Apart es → All (Found es) es
unfolding get_entry
All-Found [] d = tt
All-Found (x ∷ es) d =
    (rw (same_path_refl x.path) refl, All-Found_cons x es es d.0 (All-Found es d.1))

drop_content-counted :
    (k : String) (r : FsEntryRow) (bs : List BlobRow)
    → refcount_of k bs ≤ refcount_of k (drop_content r bs) + one_if (names_hash k r)
drop_content-counted k r bs = elim (Option-cases r.content_hash) [
  | inl e ↦ ground (arith, e)
  | inr (h, e) ↦ ground (arith, e, refcount_of-drop k h bs)
]

pub delete_row-IsSound :
    (r q : FsEntryRow) (s : FilesystemStore)
    → IsSound s
    → get_entry r.path s.entries ≡ some q
    → q.content_hash ≡ r.content_hash
    → IsSound (delete_row r s)
unfolding delete_row
delete_row-IsSound r q s v h c = record {
  paths_apart =
      unfold delete_entry in
      keep-Apart (λ x. not (same_path x.path r.path)) s.entries v.paths_apart;
  counted = λ k. omega (
    arith,
    references-delete_entry k r.path s.entries q h,
    v.counted k,
    drop_content-counted k r s.blobs,
    ap (λ o. one_if (is_text k o)) c,
  );
}

still_Found :
    (r : FsEntryRow) (rs es : List FsEntryRow)
    → All (Apart r) rs
    → All (Found es) rs
    → All (Found (delete_entry r.path es)) rs
still_Found r [] es h f = tt
still_Found r (x ∷ rs) es h f =
    (get_entry-delete_entry x.path r.path es h.0 ∙ f.0, still_Found r rs es h.1 f.1)

pub delete_rows-IsSound :
    (rs : List FsEntryRow) (s : FilesystemStore)
    → IsSound s
    → IsOrdered Apart rs
    → All (Found s.entries) rs
    → IsSound (delete_rows rs s)
unfolding delete_rows
delete_rows-IsSound [] s v d f = v
delete_rows-IsSound (r ∷ rs) s v d f =
    delete_rows-IsSound rs (delete_row r s) (delete_row-IsSound r r s v f.0 refl) d.1
      (unfold delete_row in still_Found r rs s.entries d.0 f.1)

descendants-IsSound :
    (path : FsPath) (s : FilesystemStore)
    → IsSound s
    → IsSound (delete_rows (descendants_of path s.entries) s)
unfolding descendants_of
descendants-IsSound path s v =
    delete_rows-IsSound (descendants_of path s.entries) s v
      (order_by_pairs Apart shorter (λ x y h. same_path-sym_false x.path y.path h)
        (keep (is_listed path) s.entries) (keep-Apart (is_listed path) s.entries v.paths_apart))
      (All-order_by shorter (Found s.entries) (keep (is_listed path) s.entries)
        (All-keep (Found s.entries) (is_listed path) s.entries (All-Found s.entries v.paths_apart)))

pub remove-IsSound :
    (acl : Acl) (raw : Text) (writer : ViewerContext) (recursive : Bool) (s : FilesystemStore)
    → IsSound s
    → IsSound (remove acl raw writer recursive s).1
unfolding remove
remove-IsSound acl raw writer recursive s v =
    at_path_lem (λ (x : Removed). IsSound x.1) raw (λ e. (err e, s)) _ (λ e. v)
      λ path. elim (Option-cases (get_entry path s.entries)) [
        | inl e ↦ rw e (ground (arith, v))
        | inr (target, e) ↦
            let one : IsSound (delete_row (record target { path = path }) s) =
              delete_row-IsSound (record target { path = path }) target s v e refl in
            let all : IsSound (delete_rows (descendants_of path s.entries) s) =
              descendants-IsSound path s v in
            rw e (ground (arith, v, one, all))
      ]

moved_store-IsSound :
    (src dst : FsPath) (now : ℕ) (s : FilesystemStore)
    → IsSound s
    → get_entry dst s.entries ≡ none
    → IsSound (moved_store src dst now s)
moved_store-IsSound src dst now s v h = record {
  paths_apart =
      move_path-Apart dst src now s.entries v.paths_apart (get_entry-absent dst s.entries h);
  counted = λ k. omega (arith, references-move_path k dst src now s.entries, v.counted k);
}

move_row-IsSound :
    (src dst : FsPath) (now : ℕ) (s : FilesystemStore)
    → IsSound s
    → IsSound (move_row src dst now s).1
unfolding move_row
move_row-IsSound src dst now s v = elim (Option-cases (get_entry dst s.entries)) [
  | inl e ↦ rw e (ground (arith, v, moved_store-IsSound src dst now s v e))
  | inr (r, e) ↦ rw e v
]

and_move-IsSound :
    (src dst : FsPath) (now : ℕ) (made : Answer)
    → IsSound made.1
    → IsSound (and_move src dst now made).1
and_move-IsSound src dst now (err e, t) v = v
and_move-IsSound src dst now (ok parent, t) v = move_row-IsSound src dst now t v

pub move-IsSound :
    (acl : Acl) (raw_src raw_dst : Text) (writer : ViewerContext) (now : ℕ) (s : FilesystemStore)
    → IsSound s
    → IsSound (move acl raw_src raw_dst writer now s).1
unfolding move
move-IsSound acl raw_src raw_dst writer now s v =
    at_path_lem (λ (x : Moved). IsSound x.1) raw_src (λ e. throws e s) _ (λ e. v)
      λ src.
        at_path_lem (λ (x : Moved). IsSound x.1) raw_dst (λ e. throws e s) _ (λ e. v)
          λ dst.
            let made : Answer = ensure_directory_tree (parent_of dst) writer.name now s in
            let moved : IsSound (and_move src dst now made).1 = and_move-IsSound src dst now made (
              Extends-IsSound s made.1
                (ensure_directory_tree-Extends (parent_of dst) writer.name now s) v) in
            ground (arith, v, moved)

pub grant-IsSound :
    (raw viewer : Text) (via : String) (now : ℕ) (s : FilesystemStore)
    → IsSound s
    → IsSound (grant raw viewer via now s).1
unfolding grant
grant-IsSound raw viewer via now s v =
    at_path_lem (λ (x : Result FsErrorCode (Unit {0}) × FilesystemStore). IsSound x.1) raw
      (λ e. (err e, s)) _ (λ e. v) λ path. ground (arith, v, v.counted)
