-- ===== src/Files/Sound.antt =====
-- The two invariants of the tables of apps/server/src/files/filesystem-store.ts, and that making
-- directories keeps them.
use ac.Prelude.{
  none, some, ℕ, ◌≤◌, String, ◌≡◌, refl, ◌∙◌, Bool, [], ◌∷◌, arith, Option-cases, ok, err, inl, inr,
  Result-cases,
}
use ac.Files.Directories.{
  insert_entry, directory_row, create_directory_row, ensure_directory_tree, mkdir, ensure_home,
  Answer, and_create, owner_name,
}
use ac.Files.Access.{Acl, at_path_lem}
use ac.Prelude.Codes.{Text}
use ac.Files.Types.{FsEntryRow, FilesystemStore, ViewerContext}
use ac.Files.Counts.{references, Apart, references-append}
use ac.Files.Paths.{FsPath, join_path}
use ac.Files.Unique.{get_entry-append_found, append-Apart}
use ac.Files.Rows.{get_entry, refcount_of}
use ac.Prelude.Sort.{IsOrdered}

-- No two rows have the same path, and a blob counts at least as many references as there are rows
-- whose content it is.
pub record IsSound (s : FilesystemStore) : Type 0 where
  pub paths_apart : IsOrdered Apart s.entries
  pub counted : (hash : String) → references hash s.entries ≤ refcount_of hash s.blobs

-- The second store has the first one's rows and perhaps directories besides.
pub record Extends (s t : FilesystemStore) : Type 0 where
  pub blobs_kept : t.blobs ≡ s.blobs
  pub grants_kept : t.grants ≡ s.grants
  pub stays_apart : IsOrdered Apart s.entries → IsOrdered Apart t.entries
  pub same_references : (hash : String) → references hash t.entries ≡ references hash s.entries
  pub still_found :
      (path : FsPath) (r : FsEntryRow)
      → get_entry path s.entries ≡ some r
      → get_entry path t.entries ≡ some r

pub Extends-refl : (s : FilesystemStore) → Extends s s
Extends-refl s = record {
  blobs_kept = refl;
  grants_kept = refl;
  stays_apart = λ d. d;
  same_references = λ hash. refl;
  still_found = λ path r h. h;
}

pub Extends-trans : (s t u : FilesystemStore) → Extends s t → Extends t u → Extends s u
Extends-trans s t u h k = record {
  blobs_kept = k.blobs_kept ∙ h.blobs_kept;
  grants_kept = k.grants_kept ∙ h.grants_kept;
  stays_apart = λ d. k.stays_apart (h.stays_apart d);
  same_references = λ hash. k.same_references hash ∙ h.same_references hash;
  still_found = λ path r e. k.still_found path r (h.still_found path r e);
}

pub Extends-IsSound : (s t : FilesystemStore) → Extends s t → IsSound s → IsSound t
Extends-IsSound s t h v = record {
  paths_apart = h.stays_apart v.paths_apart;
  counted = λ hash. rw (h.same_references hash, h.blobs_kept) (v.counted hash);
}

pub insert_entry-Extends :
    (r : FsEntryRow) (s : FilesystemStore)
    → r.content_hash ≡ none
    → get_entry r.path s.entries ≡ none
    → Extends s (insert_entry r s)
insert_entry-Extends r s c h = record {
  blobs_kept = refl;
  grants_kept = refl;
  stays_apart = λ d. append-Apart s.entries r d h;
  same_references = λ hash. ground (arith, references-append hash s.entries r, c);
  still_found = λ path q e. get_entry-append_found path s.entries r q e;
}

create_directory_row-Extends :
    (path : FsPath) (writer : Text) (now : ℕ) (s : FilesystemStore)
    → Extends s (create_directory_row path writer now s).1
unfolding create_directory_row
create_directory_row-Extends path writer now s =
    let same : Extends s s = Extends-refl s in
    elim (Option-cases (get_entry path s.entries)) [
      | inr (row, e) ↦ rw e (ground (arith, same))
      | inl e ↦ elim (Option-cases (owner_name path)) [
        | inl o ↦ rw (e, o) (ground (arith, same))
        | inr (owner, o) ↦
            rw (e, o)
              (ground
                (arith, same, insert_entry-Extends (directory_row path owner writer now) s refl e))
      ]
    ]

and_create-Extends :
    (path : FsPath) (writer : Text) (now : ℕ) (s : FilesystemStore) (above : Answer)
    → Extends s above.1
    → Extends s (and_create path writer now above).1
and_create-Extends path writer now s (err e, t) h = h
and_create-Extends path writer now s (ok row, t) h =
    Extends-trans s t (create_directory_row path writer now t).1 h
      (create_directory_row-Extends path writer now t)

pub ensure_directory_tree-Extends :
    (path : FsPath) (writer : Text) (now : ℕ) (s : FilesystemStore)
    → Extends s (ensure_directory_tree path writer now s).1
unfolding ensure_directory_tree
ensure_directory_tree-Extends [] writer now s = Extends-refl s
ensure_directory_tree-Extends (name ∷ parent) writer now s = ground (
  arith,
  Extends-refl s,
  and_create-Extends (name ∷ parent) writer now s (ensure_directory_tree parent writer now s)
      (ensure_directory_tree-Extends parent writer now s),
)

pub mkdir-Extends :
    (acl : Acl) (raw : Text) (writer : ViewerContext) (recursive : Bool) (now : ℕ)
    (s : FilesystemStore)
    → Extends s (mkdir acl raw writer recursive now s).1
unfolding mkdir
mkdir-Extends acl raw writer recursive now s =
    at_path_lem (λ (x : Answer). Extends s x.1) raw (λ e. (err e, s)) _ (λ e. Extends-refl s)
      λ path.
        let same : Extends s s = Extends-refl s in
        let tree : Extends s (ensure_directory_tree path writer.name now s).1 =
          ensure_directory_tree-Extends path writer.name now s in
        let row : Extends s (create_directory_row path writer.name now s).1 =
          create_directory_row-Extends path writer.name now s in
        ground (arith, same, tree, row)

pub ensure_home-Extends :
    (slot_name : Text) (now : ℕ) (s : FilesystemStore) → Extends s (ensure_home slot_name now s).1
unfolding ensure_home
ensure_home-Extends slot_name now s = elim (Result-cases (join_path [] slot_name)) [
  | inl (e, h) ↦ rw (ensure_home, h) (Extends-refl s)
  | inr (home, h) ↦ elim (Option-cases (get_entry home s.entries)) [
    | inl n ↦
        rw (ensure_home, h, n)
          (insert_entry-Extends
            (record (directory_row home slot_name slot_name now) {
              parent_path = [];
              name = slot_name;
            })
            s refl n)
    | inr (row, n) ↦ rw (ensure_home, h, n) (Extends-refl s)
  ]
]
