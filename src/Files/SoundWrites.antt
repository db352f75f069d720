-- ===== src/Files/SoundWrites.antt =====
-- That `writeFile` and `copyByBlobRef` of apps/server/src/files/filesystem-store.ts keep the tables
-- sound.
use ac.Prelude.{
  none, some, List, ok, ℕ, ◌+◌, ◌≤◌, String, ◌≡◌, true, false, Option, arith, Option-cases,
  Result-cases, refl, sym, subst, inl, inr, Bool, Result, err, eq_refl,
}
use ac.Files.Counts.{
  is_text, one_if, refcount_of-upsert_blob, refcount_of-inc_ref, refcount_of-drop,
  has_blob_row-upsert_blob, references-append, references-update_entry_content,
  has_blob_row-refcount_of, references-get_entry,
}
use ac.Files.Sound.{IsSound, Extends, Extends-refl, Extends-IsSound, ensure_directory_tree-Extends}
use ac.Prelude.Codes.{Text}
use ac.Files.Types.{BlobRow, FilesystemStore, WriteCollisionStrategy, FsEntryRow, ViewerContext}
use ac.Files.Write.{
  Placed, fresh, over, refused, taken_under, suffixed, place, Content, release, put_entry, added,
  file_row, reread, overwritten, write_finish, Stored, write_start, content_of, copy_content,
  copy_by_blob_ref,
}
use ac.Files.Paths.{FsPath, join_path, basename_of, dedupe_basename, FsErrorCode, parent_of}
use ac.Files.Rows.{
  get_entry, refcount_of, has_blob_row, with_content, update_entry_content, upsert_blob, inc_ref,
}
use ac.Files.Directories.{owner_name, Answer, ensure_directory_tree}
use ac.Files.Ancestors.{dedupe_basename-free}
use ac.Files.Unique.{append-Apart, update-Apart}
use ac.Files.Access.{Acl, at_path_lem}

-- What the placement of an entry says about the rows.
abbrev pub IsPlaced : List FsEntryRow → Placed → Type 0
IsPlaced es (refused e) = Unit
IsPlaced es (over path r) = get_entry path es ≡ some r
IsPlaced es (fresh path renamed) = get_entry path es ≡ none

taken_under-free :
    (parent : FsPath) (s : FilesystemStore) (name : Text) (p : FsPath)
    → taken_under parent s name ≡ ok false
    → join_path parent name ≡ ok p
    → get_entry p s.entries ≡ none
taken_under-free parent s name p h j = ground (arith, h, j)

suffixed-IsPlaced :
    (parent path : FsPath) (s : FilesystemStore) → IsPlaced s.entries (suffixed parent path s)
suffixed-IsPlaced parent path s =
    elim (Result-cases (dedupe_basename (basename_of path) (taken_under parent s))) [
      | inl (e, h) ↦ rw (IsPlaced, h) tt
      | inr (name, h) ↦ elim (Result-cases (join_path parent name)) [
        | inl (e, j) ↦ rw (IsPlaced, h, j) tt
        | inr (p, j) ↦
            rw (IsPlaced, h, j)
              (taken_under-free parent s name p
                (dedupe_basename-free (basename_of path) (taken_under parent s) name h) j)
      ]
    ]

pub place-IsPlaced :
    (path : FsPath) (collision : WriteCollisionStrategy) (s : FilesystemStore)
    → IsPlaced s.entries (place path collision s)
unfolding place
place-IsPlaced path collision s = elim (Option-cases (get_entry path s.entries)) [
  | inl e ↦ rw (IsPlaced, e) e
  | inr (r, e) ↦ rw (IsPlaced, e) (ground (arith, e, suffixed-IsPlaced r.parent_path path s))
]

release-counted :
    (k : String) (prior : Option String) (hash : String) (bs : List BlobRow)
    → refcount_of k bs ≤ refcount_of k (release prior hash bs) + one_if (is_text k prior)
release-counted k none hash bs = ground arith
release-counted k (some prior) hash bs = ground (arith, refcount_of-drop k prior bs)

pub reread_store :
    (path : FsPath) (renamed : Bool) (s : FilesystemStore) → (reread path renamed s).1 ≡ s
reread_store path renamed s = ground arith

over-IsSound :
    (c : Content) (now : ℕ) (s : FilesystemStore) (path : FsPath) (r : FsEntryRow)
    → IsSound s
    → has_blob_row c.hash s.blobs ≡ true
    → get_entry path s.entries ≡ some r
    → IsSound (overwritten c now path r s)
over-IsSound c now s path r v f h = record {
  paths_apart =
      unfold update_entry_content in
      update-Apart path (with_content c.hash c.size c.mime_type now) (λ q. refl) s.entries
        v.paths_apart;
  counted = λ k. omega (
    arith,
    references-update_entry_content k c.hash c.size c.mime_type now path s.entries r v.paths_apart
        h,
    v.counted k,
    refcount_of-inc_ref k c.hash s.blobs f,
    release-counted k r.content_hash c.hash (inc_ref c.hash s.blobs),
  );
}

fresh-IsSound :
    (c : Content) (s : FilesystemStore) (r : FsEntryRow)
    → IsSound s
    → has_blob_row c.hash s.blobs ≡ true
    → r.content_hash ≡ some c.hash
    → get_entry r.path s.entries ≡ none
    → IsSound (added c r s)
fresh-IsSound c s r v f n h = record {
  paths_apart = append-Apart s.entries r v.paths_apart h;
  counted = λ k. ground (
    arith,
    references-append k s.entries r,
    v.counted k,
    refcount_of-inc_ref k c.hash s.blobs f,
    n,
  );
}

pub put_entry-IsSound :
    (c : Content) (writer : Text) (now : ℕ) (before s : FilesystemStore) (placed : Placed)
    → IsSound before
    → IsSound s
    → has_blob_row c.hash s.blobs ≡ true
    → IsPlaced s.entries placed
    → IsSound (put_entry c writer now before s placed).1
unfolding put_entry
put_entry-IsSound c writer now before s (refused e) b v f h = b
put_entry-IsSound c writer now before s (over path r) b v f h =
    subst IsSound (sym (reread_store path false (overwritten c now path r s)))
      (over-IsSound c now s path r v f h)
put_entry-IsSound c writer now before s (fresh path renamed) b v f h =
    elim (Option-cases (owner_name path)) [
      | inl e ↦ rw (put_entry, e) b
      | inr (owner, e) ↦
          let row : FsEntryRow = file_row path owner c writer now in
          rw (put_entry, e)
            (subst IsSound (sym (reread_store path renamed (added c row s)))
              (fresh-IsSound c s row v f refl h))
    ]

pub write_finish-IsSound :
    (path : FsPath) (c : Content) (writer : ViewerContext) (collision : WriteCollisionStrategy)
    (now : ℕ) (s : FilesystemStore)
    → IsSound s
    → IsSound (write_finish path c writer collision now s).1
unfolding write_finish
write_finish-IsSound path c writer collision now s v =
    let t : FilesystemStore = record s { blobs = upsert_blob c.hash c.size now s.blobs } in
    put_entry-IsSound c writer.name now s t (place path collision s) v
      (record {
        paths_apart = v.paths_apart;
        counted =
            λ k. omega (arith, v.counted k, refcount_of-upsert_blob k c.hash c.size now s.blobs);
      })
      (has_blob_row-upsert_blob c.hash c.size now s.blobs) (place-IsPlaced path collision s)

pub write_start-Extends :
    (acl : Acl) (raw : Text) (writer : ViewerContext) (now : ℕ) (s : FilesystemStore)
    → Extends s (write_start acl raw writer now s).1
unfolding write_start
write_start-Extends acl raw writer now s =
    at_path_lem (λ (x : Result FsErrorCode FsPath × FilesystemStore). Extends s x.1) raw
      (λ e. (err e, s)) _ (λ e. Extends-refl s)
      λ path.
        let same : Extends s s = Extends-refl s in
        let tree : Extends s (ensure_directory_tree (parent_of path) writer.name now s).1 =
          ensure_directory_tree-Extends (parent_of path) writer.name now s in
        ground (arith, same, tree)

content_of-hash :
    (mime_type : Option String) (row : FsEntryRow) (c : Content)
    → content_of mime_type row ≡ some c
    → row.content_hash ≡ some c.hash
content_of-hash mime_type row c h = ground (arith, h)

-- The blob of a row that is there has a row of its own.
pub stored-has_blob_row :
    (s t : FilesystemStore) (path : FsPath) (row : FsEntryRow) (hash : String)
    → IsSound s
    → t.blobs ≡ s.blobs
    → get_entry path s.entries ≡ some row
    → row.content_hash ≡ some hash
    → has_blob_row hash t.blobs ≡ true
stored-has_blob_row s t path row hash v b h c = rw b (
    has_blob_row-refcount_of hash s.blobs (
      ground
        (arith, references-get_entry hash path s.entries row h, v.counted hash, c, eq_refl hash)))

copy_content-IsSound :
    (dst : FsPath) (c : Content) (viewer : ViewerContext) (collision : WriteCollisionStrategy)
    (now : ℕ) (made : Answer)
    → IsSound made.1
    → has_blob_row c.hash made.1.blobs ≡ true
    → IsSound (copy_content dst c viewer collision now made).1
copy_content-IsSound dst c viewer collision now (err e, t) v f = v
copy_content-IsSound dst c viewer collision now (ok parent, t) v f =
    put_entry-IsSound c viewer.name now t t (place dst collision t) v v f
      (place-IsPlaced dst collision t)

copied-IsSound :
    (dst src : FsPath) (row : FsEntryRow) (mime_type : Option String) (viewer : ViewerContext)
    (collision : WriteCollisionStrategy) (now : ℕ) (s : FilesystemStore) (c : Content)
    → IsSound s
    → get_entry src s.entries ≡ some row
    → content_of mime_type row ≡ some c
    → IsSound
        (copy_content dst c viewer collision now
          (ensure_directory_tree (parent_of dst) viewer.name now s)).1
copied-IsSound dst src row mime_type viewer collision now s c v h k =
    let made : Answer = ensure_directory_tree (parent_of dst) viewer.name now s in
    let grown : Extends s made.1 =
      ensure_directory_tree-Extends (parent_of dst) viewer.name now s in
    copy_content-IsSound dst c viewer collision now made (Extends-IsSound s made.1 grown v) (
      stored-has_blob_row s made.1 src row c.hash v grown.blobs_kept h
        (content_of-hash mime_type row c k))

pub copy_by_blob_ref-IsSound :
    (acl : Acl) (raw_src raw_dst : Text) (mime_type : Option String)
    (collision : WriteCollisionStrategy) (viewer : ViewerContext) (now : ℕ) (s : FilesystemStore)
    → IsSound s
    → IsSound (copy_by_blob_ref acl raw_src raw_dst mime_type collision viewer now s).1
unfolding copy_by_blob_ref
copy_by_blob_ref-IsSound acl raw_src raw_dst mime_type collision viewer now s v =
    at_path_lem (λ (x : Stored). IsSound x.1) raw_src (λ e. (err e, s)) _ (λ e. v)
      λ src.
        at_path_lem (λ (x : Stored). IsSound x.1) raw_dst (λ e. (err e, s)) _ (λ e. v)
          λ dst. elim (Option-cases (get_entry src s.entries)) [
            | inl e ↦ rw e (ground (arith, v))
            | inr (row, e) ↦ elim (Option-cases (content_of mime_type row)) [
              | inl k ↦ rw (e, k) (ground (arith, v))
              | inr (c, k) ↦
                  rw (e, k)
                    (ground (
                      arith,
                      v,
                      copied-IsSound dst src row mime_type viewer collision now s c v e k,
                    ))
            ]
          ]
