-- ===== src/Files/Protection.antt =====
-- What the methods of apps/server/src/files/filesystem-store.ts do to the row at a path that the
-- caller may not write.
use ac.Prelude.{
  some, Bool-cases, ℕ, ◌≡◌, ap, inl, inr, true, false, arith, Option-cases, Result, ok, err,
  Result-cases, refl, sym, ◌∙◌, subst, String, Option,
}
use ac.Files.History.{
  run, Operation, finishing, removing, making, homing, starting, writing, copying, moving, granting,
}
use ac.Files.Access.{Acl, can_write, at_path_lem, grant}
use ac.Files.Move.{move, throws, Moved, moved_store, move_row, and_move}
use ac.Prelude.Codes.{Text}
use ac.Files.Types.{FsEntryRow, FilesystemStore, ViewerContext, WriteCollisionStrategy}
use ac.Files.Write.{
  place, Content, put_entry, added, Placed, fresh, over, refused, taken_under, suffixed, file_row,
  overwritten, and_path, write_start, write_finish, Stored, and_put, write_file, content_of,
  copy_content, copy_by_blob_ref,
}
use ac.Files.Paths.{FsPath, FsErrorCode, basename_of, join_path, dedupe_basename, parent_of}
use ac.Files.Rows.{
  same_path, same_path_iff, get_entry, with_content, upsert_blob, update_entry_content,
}
use ac.Files.Directories.{Answer, owner_name, ensure_directory_tree}
use ac.Files.SoundWrites.{reread_store, write_start-Extends}
use ac.Files.Unique.{get_entry-append_found, get_entry-update, get_entry-move_path}
use ac.Files.Sound.{Extends, ensure_directory_tree-Extends, mkdir-Extends, ensure_home-Extends}

-- The path of the second half of a write is one that the first half admitted.
abbrev pub IsAdmitted : Acl → ViewerContext → Operation → Type 0
IsAdmitted acl viewer (finishing path c collision) = can_write acl path viewer ≡ true
IsAdmitted acl viewer (removing raw recursive) = ⊥
IsAdmitted acl viewer operation = Unit

module _ (acl : Acl) (viewer : ViewerContext) (q : FsPath) (r : FsEntryRow)
    (closed : can_write acl q viewer ≡ false) where
  other_path : (path : FsPath) → can_write acl path viewer ≡ true → same_path path q ≡ false
  other_path path h = elim (Bool-cases (same_path path q)) [
    | inl e ↦
        ground (arith, h, closed, ap (λ p. can_write acl p viewer) ((same_path_iff path q).0 e))
    | inr e ↦ e
  ]

  abbrev Stays : FilesystemStore → Type 0
  Stays s = get_entry q s.entries ≡ some r

  -- A row is overwritten where the caller may write.
  abbrev IsOpen : Placed → Type 0
  IsOpen (over path old) = can_write acl path viewer ≡ true
  IsOpen placed = Unit

  suffixed-IsOpen : (parent path : FsPath) (s : FilesystemStore) → IsOpen (suffixed parent path s)
  suffixed-IsOpen parent path s =
      elim (Result-cases (dedupe_basename (basename_of path) (taken_under parent s))) [
        | inl (e, h) ↦ rw (IsOpen, h) tt
        | inr (name, h) ↦ elim (Result-cases (join_path parent name)) [
          | inl (e, j) ↦ rw (IsOpen, h, j) tt
          | inr (p, j) ↦ rw (IsOpen, h, j) tt
        ]
      ]

  place-IsOpen :
      (path : FsPath) (collision : WriteCollisionStrategy) (s : FilesystemStore)
      → can_write acl path viewer ≡ true
      → IsOpen (place path collision s)
  unfolding place
  place-IsOpen path collision s w = elim (Option-cases (get_entry path s.entries)) [
    | inl e ↦ rw (IsOpen, e) tt
    | inr (old, e) ↦ rw (IsOpen, e) (ground (arith, w, suffixed-IsOpen old.parent_path path s))
  ]

  placed-Stays :
      (c : Content) (now : ℕ) (before s : FilesystemStore) (placed : Placed)
      → IsOpen placed
      → Stays before
      → Stays s
      → Stays (put_entry c viewer.name now before s placed).1
  unfolding put_entry update_entry_content
  placed-Stays c now before s (refused e) w b h = b
  placed-Stays c now before s (over path old) w b h =
      subst Stays (sym (reread_store path false (overwritten c now path old s))) (
        get_entry-update q path (with_content c.hash c.size c.mime_type now) s.entries (λ x. refl)
          (other_path path w)
        ∙ h)
  placed-Stays c now before s (fresh path renamed) w b h = elim (Option-cases (owner_name path)) [
    | inl e ↦ rw (put_entry, e) b
    | inr (owner, e) ↦
        let row : FsEntryRow = file_row path owner c viewer.name now in
        rw (put_entry, e)
          (subst Stays (sym (reread_store path renamed (added c row s)))
            (get_entry-append_found q s.entries row r h))
  ]

  write_finish-Stays :
      (path : FsPath) (c : Content) (collision : WriteCollisionStrategy) (now : ℕ)
      (s : FilesystemStore)
      → can_write acl path viewer ≡ true
      → Stays s
      → Stays (write_finish path c viewer collision now s).1
  unfolding write_finish
  write_finish-Stays path c collision now s w h =
      placed-Stays c now s (record s { blobs = upsert_blob c.hash c.size now s.blobs })
        (place path collision s) (place-IsOpen path collision s w) h h

  abbrev AdmitsPath : Result FsErrorCode FsPath × FilesystemStore → Type 0
  AdmitsPath (err e, s) = Unit
  AdmitsPath (ok path, s) = can_write acl path viewer ≡ true

  and_path-AdmitsPath :
      (path : FsPath) (made : Answer)
      → can_write acl path viewer ≡ true
      → AdmitsPath (and_path path made)
  and_path-AdmitsPath path (err e, s) w = tt
  and_path-AdmitsPath path (ok row, s) w = w

  write_start-AdmitsPath :
      (raw : Text) (now : ℕ) (s : FilesystemStore) → AdmitsPath (write_start acl raw viewer now s)
  unfolding write_start
  write_start-AdmitsPath raw now s =
      at_path_lem AdmitsPath raw (λ e. (err e, s)) _ (λ e. tt)
        λ path. elim (Bool-cases (can_write acl path viewer)) [
          | inl e ↦
              let admitted : AdmitsPath
                  (and_path path (ensure_directory_tree (parent_of path) viewer.name now s)) =
                and_path-AdmitsPath path (ensure_directory_tree (parent_of path) viewer.name now s)
                  e in
              ground (arith, e, admitted)
          | inr e ↦ rw (AdmitsPath, e) (ground (arith, e))
        ]

  and_put-Stays :
      (mime_type : String) (put : Result FsErrorCode (String × ℕ))
      (collision : WriteCollisionStrategy) (now : ℕ)
      (made : Result FsErrorCode FsPath × FilesystemStore)
      → AdmitsPath made
      → Stays made.1
      → Stays (and_put mime_type viewer put collision now made).1
  and_put-Stays mime_type put collision now (err e, s) w h = h
  and_put-Stays mime_type (err e) collision now (ok path, s) w h = h
  and_put-Stays mime_type (ok (hash, size)) collision now (ok path, s) w h =
      write_finish-Stays path (record { hash = hash; size = size; mime_type = mime_type }) collision
        now s w h

  Extends-Stays : (s t : FilesystemStore) → Extends s t → Stays s → Stays t
  Extends-Stays s t g h = g.still_found q r h

  copy_content-Stays :
      (dst : FsPath) (c : Content) (collision : WriteCollisionStrategy) (now : ℕ) (made : Answer)
      → can_write acl dst viewer ≡ true
      → Stays made.1
      → Stays (copy_content dst c viewer collision now made).1
  copy_content-Stays dst c collision now (err e, t) w h = h
  copy_content-Stays dst c collision now (ok parent, t) w h =
      placed-Stays c now t t (place dst collision t) (place-IsOpen dst collision t w) h h

  copy_by_blob_ref-Stays :
      (raw_src raw_dst : Text) (mime_type : Option String) (collision : WriteCollisionStrategy)
      (now : ℕ) (s : FilesystemStore)
      → Stays s
      → Stays (copy_by_blob_ref acl raw_src raw_dst mime_type collision viewer now s).1
  unfolding copy_by_blob_ref
  copy_by_blob_ref-Stays raw_src raw_dst mime_type collision now s h =
      at_path_lem (λ (x : Stored). Stays x.1) raw_src (λ e. (err e, s)) _ (λ e. h)
        λ src.
          at_path_lem (λ (x : Stored). Stays x.1) raw_dst (λ e. (err e, s)) _ (λ e. h)
            λ dst. elim (Bool-cases (can_write acl dst viewer)) [
              | inr w ↦ rw w (ground (arith, h))
              | inl w ↦
                  let made : Answer = ensure_directory_tree (parent_of dst) viewer.name now s in
                  let grown : Stays made.1 =
                    Extends-Stays s made.1
                      (ensure_directory_tree-Extends (parent_of dst) viewer.name now s) h in
                  elim (Option-cases (get_entry src s.entries)) [
                    | inl e ↦ rw (w, e) (ground (arith, h))
                    | inr (row, e) ↦ elim (Option-cases (content_of mime_type row)) [
                      | inl k ↦ rw (w, e, k) (ground (arith, h))
                      | inr (c, k) ↦
                          rw (w, e, k)
                            (ground (arith, h, copy_content-Stays dst c collision now made w grown))
                    ]
                  ]
            ]

  move_row-Stays :
      (src dst : FsPath) (now : ℕ) (s : FilesystemStore)
      → can_write acl src viewer ≡ true
      → can_write acl dst viewer ≡ true
      → Stays s
      → Stays (move_row src dst now s).1
  unfolding move_row
  move_row-Stays src dst now s w x h =
      let moved : Stays (moved_store src dst now s) =
        get_entry-move_path q dst src now s.entries (other_path dst x) (other_path src w) ∙ h in
      ground (arith, h, moved)

  and_move-Stays :
      (src dst : FsPath) (now : ℕ) (made : Answer)
      → can_write acl src viewer ≡ true
      → can_write acl dst viewer ≡ true
      → Stays made.1
      → Stays (and_move src dst now made).1
  and_move-Stays src dst now (err e, t) w x h = h
  and_move-Stays src dst now (ok parent, t) w x h = move_row-Stays src dst now t w x h

  move-Stays :
      (raw_src raw_dst : Text) (now : ℕ) (s : FilesystemStore)
      → Stays s
      → Stays (move acl raw_src raw_dst viewer now s).1
  unfolding move
  move-Stays raw_src raw_dst now s h =
      at_path_lem (λ (x : Moved). Stays x.1) raw_src (λ e. throws e s) _ (λ e. h)
        λ src.
          at_path_lem (λ (x : Moved). Stays x.1) raw_dst (λ e. throws e s) _ (λ e. h)
            λ dst.
              let made : Answer = ensure_directory_tree (parent_of dst) viewer.name now s in
              let grown : Stays made.1 =
                Extends-Stays s made.1
                  (ensure_directory_tree-Extends (parent_of dst) viewer.name now s) h in
              ground (arith, h, and_move-Stays src dst now made, grown)

  grant-Stays :
      (raw name : Text) (granted_via : String) (now : ℕ) (s : FilesystemStore)
      → Stays s
      → Stays (grant raw name granted_via now s).1
  unfolding grant
  grant-Stays raw name granted_via now s h =
      at_path_lem (λ (x : Result FsErrorCode (Unit {0}) × FilesystemStore). Stays x.1) raw
        (λ e. (err e, s)) _ (λ e. h) λ path. ground (arith, h)

  -- The row at a path that the caller may not write stays as it is, whatever the caller does but
  -- `remove`: content, owner and path. The second half of a write is for a path that the first half
  -- admitted, which is one that the caller may write.
  pub run-protects :
      (now : ℕ) (operation : Operation) (s : FilesystemStore)
      → IsAdmitted acl viewer operation
      → get_entry q s.entries ≡ some r
      → get_entry q (run acl viewer now operation s).entries ≡ some r
  unfolding run
  run-protects now (making raw recursive) s a h =
      Extends-Stays s _ (mkdir-Extends acl raw viewer recursive now s) h
  run-protects now (homing slot_name) s a h =
      Extends-Stays s _ (ensure_home-Extends slot_name now s) h
  run-protects now (starting raw) s a h =
      Extends-Stays s _ (write_start-Extends acl raw viewer now s) h
  run-protects now (finishing path c collision) s a h =
      write_finish-Stays path c collision now s a h
  run-protects now (writing raw mime_type put collision) s a h =
      unfold write_file in
      and_put-Stays mime_type put collision now (write_start acl raw viewer now s)
        (write_start-AdmitsPath raw now s)
        (Extends-Stays s _ (write_start-Extends acl raw viewer now s) h)
  run-protects now (copying raw_src raw_dst mime_type collision) s a h =
      copy_by_blob_ref-Stays raw_src raw_dst mime_type collision now s h
  run-protects now (moving raw_src raw_dst) s a h = move-Stays raw_src raw_dst now s h
  run-protects now (removing raw recursive) s a h = absurd a
  run-protects now (granting raw name granted_via) s a h = grant-Stays raw name granted_via now s h
