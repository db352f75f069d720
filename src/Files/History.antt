-- ===== src/Files/History.antt =====
-- Every sequence of calls of the methods of apps/server/src/files/filesystem-store.ts, by any members
-- under any membership of the objectives. The two halves of `writeFile` are calls of their own, so
-- that others may come between them, and the second half may be for any path and content.
use ac.Prelude.{
  some, List, [], ◌∷◌, Result, ok, err, ℕ, String, ◌≡◌, refl, Bool, true, Option, arith,
}
use ac.Files.Sound.{IsSound, Extends-IsSound, mkdir-Extends, ensure_home-Extends}
use ac.Files.Remove.{remove}
use ac.Files.Directories.{mkdir, ensure_home}
use ac.Files.Access.{Acl, grant}
use ac.Files.Move.{move}
use ac.Files.SoundWrites.{
  write_finish-IsSound, write_start-Extends, stored-has_blob_row, copy_by_blob_ref-IsSound,
}
use ac.Prelude.Codes.{Text}
use ac.Files.SoundRemoval.{remove-IsSound, move-IsSound, grant-IsSound}
use ac.Files.Types.{FsEntryRow, FilesystemStore, ViewerContext, WriteCollisionStrategy}
use ac.Files.Write.{Content, write_start, write_finish, and_put, write_file, copy_by_blob_ref}
use ac.Files.Paths.{FsErrorCode, FsPath}
use ac.Files.Rows.{get_entry, has_blob_row}

pub data Operation : Type 0 where
  making : (raw : Text) → (recursive : Bool) → Operation
  homing : (slot_name : Text) → Operation
  starting : (raw : Text) → Operation
  finishing : (path : FsPath) → Content → WriteCollisionStrategy → Operation
  writing :
      (raw : Text)
      → (mime_type : String) → Result FsErrorCode (String × ℕ)
      → WriteCollisionStrategy
      → Operation
  copying :
      (raw_src raw_dst : Text) → (mime_type : Option String) → WriteCollisionStrategy → Operation
  moving : (raw_src raw_dst : Text) → Operation
  removing : (raw : Text) → (recursive : Bool) → Operation
  granting : (raw viewer : Text) → (granted_via : String) → Operation

unfoldable pub run : Acl → ViewerContext → ℕ → Operation → FilesystemStore → FilesystemStore
unfolding mkdir ensure_home write_start write_finish write_file copy_by_blob_ref move remove grant
run acl viewer now (making raw recursive) s = (mkdir acl raw viewer recursive now s).1
run acl viewer now (homing slot_name) s = (ensure_home slot_name now s).1
run acl viewer now (starting raw) s = (write_start acl raw viewer now s).1
run acl viewer now (finishing path c collision) s = (write_finish path c viewer collision now s).1
run acl viewer now (writing raw mime_type put collision) s =
    (write_file acl raw mime_type viewer put collision now s).1
run acl viewer now (copying raw_src raw_dst mime_type collision) s =
    (copy_by_blob_ref acl raw_src raw_dst mime_type collision viewer now s).1
run acl viewer now (moving raw_src raw_dst) s = (move acl raw_src raw_dst viewer now s).1
run acl viewer now (removing raw recursive) s = (remove acl raw viewer recursive s).1
run acl viewer now (granting raw name granted_via) s = (grant raw name granted_via now s).1

pub record Call : Type 0 where
  pub acl : Acl
  pub viewer : ViewerContext
  pub now : ℕ
  pub operation : Operation

unfoldable pub run_all : List Call → FilesystemStore → FilesystemStore
unfolding run
run_all [] s = s
run_all (c ∷ cs) s = run_all cs (run c.acl c.viewer c.now c.operation s)

abbrev pub empty_store : FilesystemStore
empty_store = record { entries = []; blobs = []; grants = [] }

and_put-IsSound :
    (mime_type : String) (writer : ViewerContext) (put : Result FsErrorCode (String × ℕ))
    (collision : WriteCollisionStrategy) (now : ℕ)
    (made : Result FsErrorCode FsPath × FilesystemStore)
    → IsSound made.1
    → IsSound (and_put mime_type writer put collision now made).1
and_put-IsSound mime_type writer put collision now (err e, s) v = v
and_put-IsSound mime_type writer (err e) collision now (ok path, s) v = v
and_put-IsSound mime_type writer (ok (hash, size)) collision now (ok path, s) v =
    write_finish-IsSound path (record { hash = hash; size = size; mime_type = mime_type }) writer
      collision now s v

pub run-IsSound :
    (acl : Acl) (viewer : ViewerContext) (now : ℕ) (operation : Operation) (s : FilesystemStore)
    → IsSound s
    → IsSound (run acl viewer now operation s)
unfolding run
run-IsSound acl viewer now (making raw recursive) s v =
    Extends-IsSound s _ (mkdir-Extends acl raw viewer recursive now s) v
run-IsSound acl viewer now (homing slot_name) s v =
    Extends-IsSound s _ (ensure_home-Extends slot_name now s) v
run-IsSound acl viewer now (starting raw) s v =
    Extends-IsSound s _ (write_start-Extends acl raw viewer now s) v
run-IsSound acl viewer now (finishing path c collision) s v =
    write_finish-IsSound path c viewer collision now s v
run-IsSound acl viewer now (writing raw mime_type put collision) s v =
    unfold write_file in
    and_put-IsSound mime_type viewer put collision now (write_start acl raw viewer now s)
      (Extends-IsSound s _ (write_start-Extends acl raw viewer now s) v)
run-IsSound acl viewer now (copying raw_src raw_dst mime_type collision) s v =
    copy_by_blob_ref-IsSound acl raw_src raw_dst mime_type collision viewer now s v
run-IsSound acl viewer now (moving raw_src raw_dst) s v =
    move-IsSound acl raw_src raw_dst viewer now s v
run-IsSound acl viewer now (removing raw recursive) s v =
    remove-IsSound acl raw viewer recursive s v
run-IsSound acl viewer now (granting raw name granted_via) s v =
    grant-IsSound raw name granted_via now s v

-- After every sequence of calls from a sound store, no two rows have the same path, and for each hash
-- the blob's row counts at least as many references as there are rows whose content it is. The second
-- half of a write may come at any time after the first, with other calls between them.
pub run_all-IsSound :
    (calls : List Call) (s : FilesystemStore) → IsSound s → IsSound (run_all calls s)
unfolding run_all
run_all-IsSound [] s v = v
run_all-IsSound (c ∷ cs) s v =
    run_all-IsSound cs (run c.acl c.viewer c.now c.operation s)
      (run-IsSound c.acl c.viewer c.now c.operation s v)

pub empty_store-IsSound : IsSound empty_store
empty_store-IsSound = record { paths_apart = tt; counted = λ hash. omega arith }

-- After every sequence of calls from the empty store, a row that has content has the row of its blob
-- in fs_blobs, also where several rows share it. The file on the disk is another matter: the store
-- deletes it when the blob's row goes, and a write that waits may have counted on it.
pub run_all-has_blob_row :
    (calls : List Call) (path : FsPath) (row : FsEntryRow) (hash : String)
    → get_entry path (run_all calls empty_store).entries ≡ some row
    → row.content_hash ≡ some hash
    → has_blob_row hash (run_all calls empty_store).blobs ≡ true
run_all-has_blob_row calls path row hash h c =
    let s : FilesystemStore = run_all calls empty_store in
    stored-has_blob_row s s path row hash (run_all-IsSound calls empty_store empty_store-IsSound)
      refl h c
