-- ===== src/Files/Tests.antt =====
-- The file system of apps/server/src/files at concrete calls.
use ac.Prelude.Text.{codes, is_space}
use ac.Prelude.{none, some, List, [], ◌∷◌, false, true, refl, ◌≡◌, ok, ℕ, arith, All, ◌++◌}
use ac.Files.Types.{error, FsEntryRow, FilesystemStore, ViewerContext, overwrite}
use ac.Files.History.{
  Call, run, empty_store, Operation, homing, writing, copying, removing, run_all, moving,
  run_all-IsSound, empty_store-IsSound,
}
use ac.Files.Text.{joined, split}
use ac.Prelude.Codes.{Text}
use ac.Files.Write.{file_row, place, put_entry, write_start, write_finish}
use ac.Files.Paths.{
  FsPath, is_segment, pieces, normalize_path, owner_of, join_path, path_text, starts_with,
}
use ac.Files.Rows.{
  get_entry, refcount_of, has_blob_row, upsert_blob, inc_ref, decrement_and_maybe_drop_blob,
  delete_entry, update_entry_content,
}
use ac.Files.Remove.{like, descendants_of, delete_rows, pattern_of, remove}
use ac.Files.Directories.{ensure_directory_tree, insert_entry, directory_row}
use ac.Files.Access.{owns_path, can_write, can_read, children_of}
use ac.Files.Sound.{IsSound}
use ac.Files.Removal.{like-pattern_of, IsPlain, IsLower}
use ac.Files.Protection.{run-protects}
use ac.Prelude.Sort.{order_by}
use ac.Files.PathLaws.{IsValid, normalize_path_idem}

abbrev ada : ViewerContext
ada = record { name = codes "ada"; permissions = [] }

abbrev bob : ViewerContext
bob = record { name = codes "bob"; permissions = [] }

abbrev call : ViewerContext → ℕ → Operation → Call
call viewer now operation = record { acl = none; viewer = viewer; now = now; operation = operation }

abbrev put_one : Text → Operation
put_one raw = writing raw "text/plain" (ok ("h1", 5)) overwrite

-- Two rows come to share a blob, and one of them is removed.
abbrev calls : List Call
calls =
    call ada 1 (homing (codes "ada"))
    ∷ call ada 2 (put_one (codes "/ada/notes/a.txt"))
    ∷ call ada 3 (copying (codes "/ada/notes/a.txt") (codes "/ada/b.txt") none error)
    ∷ call ada 4 (removing (codes "/ada/notes") true)
    ∷ []

abbrev shared : FilesystemStore
shared = run_all calls empty_store

abbrev b_path : FsPath
b_path = codes "b.txt" ∷ codes "ada" ∷ []

abbrev b_row : FsEntryRow
b_row =
    file_row b_path (codes "ada") (record { hash = "h1"; size = 5; mime_type = "text/plain" })
      (codes "ada") 3

found : get_entry b_path shared.entries ≡ some b_row
unfolding run_all run get_entry normalize_path pieces split is_segment joined join_path owner_of
    can_write can_read owns_path ensure_directory_tree write_start write_finish place put_entry
    upsert_blob inc_ref descendants_of delete_rows decrement_and_maybe_drop_blob refcount_of
    has_blob_row like is_space children_of order_by delete_entry remove update_entry_content
found = refl

bob_barred : can_write none b_path bob ≡ false
unfolding can_write owns_path owner_of
bob_barred = refl

named : normalize_path (codes "/ada") ≡ ok (codes "ada" ∷ [])
unfolding normalize_path pieces split is_segment is_space
named = refl

run_all-IsSound_example : IsSound shared
run_all-IsSound_example = run_all-IsSound calls empty_store empty_store-IsSound

-- Bob tries to take the file.
run-protects_example :
    get_entry b_path
      (run none bob 5 (moving (codes "/ada/b.txt") (codes "/bob/b.txt")) shared).entries
    ≡ some b_row
run-protects_example =
    run-protects none bob b_path b_row (bob_barred) 5
      (moving (codes "/ada/b.txt") (codes "/bob/b.txt")) shared tt found

abbrev home : FsPath
home = codes "ada" ∷ []

abbrev home_row : FsEntryRow
home_row = directory_row home (codes "ada") (codes "ada") 1

abbrev homed : FilesystemStore
homed = insert_entry home_row empty_store

abbrev a_path : FsPath
a_path = codes "a" ∷ []

abbrev a_b_path : FsPath
a_b_path = codes "b" ∷ a_path

a_IsPlain : All IsPlain (path_text a_path)
unfolding joined
a_IsPlain = (
  (λ e. absurd (omega arith), λ e. absurd (omega arith), refl),
  ((λ e. absurd (omega arith), λ e. absurd (omega arith), refl), tt),
)

a_b_IsLower : All IsLower (path_text a_b_path)
unfolding joined
a_b_IsLower = (refl, (refl, (refl, (refl, tt))))

like-pattern_of_example :
    like (pattern_of a_path) (path_text a_b_path)
    ≡ starts_with (path_text a_b_path) (path_text a_path ++ codes "/")
like-pattern_of_example = like-pattern_of a_path a_b_path a_IsPlain a_b_IsLower

normalize_path_idem_example : IsValid home × (normalize_path (path_text home) ≡ ok home)
normalize_path_idem_example = normalize_path_idem (codes "/ada") home named

a_IsValid : IsValid a_path
unfolding joined is_segment is_space
a_IsValid = record { segments = refl; short = omega arith }

a_b_IsValid : IsValid a_b_path
unfolding joined is_segment is_space
a_b_IsValid = record { segments = refl; short = omega arith }

-- With the home of a member whose name has an underscore goes what another home holds.
abbrev two_homes : List Call
two_homes =
    call ada 1 (homing (codes "a_b"))
    ∷ call (record { name = codes "axb"; permissions = [] }) 1 (put_one (codes "/axb/f"))
    ∷ call (record { name = codes "a_b"; permissions = [] }) 2 (removing (codes "/a_b") false)
    ∷ []

other_home_emptied :
    get_entry (codes "f" ∷ codes "axb" ∷ []) (run_all two_homes empty_store).entries ≡ none
unfolding run_all run get_entry normalize_path pieces split is_segment joined join_path owner_of
    can_write can_read owns_path ensure_directory_tree write_start write_finish place put_entry
    upsert_blob inc_ref descendants_of delete_rows decrement_and_maybe_drop_blob refcount_of
    has_blob_row like is_space children_of order_by delete_entry remove update_entry_content
other_home_emptied = refl

-- The same content written twice stays counted after the only row of it is removed.
abbrev written_twice : List Call
written_twice =
    call ada 1 (put_one (codes "/ada/a.txt"))
    ∷ call ada 2 (put_one (codes "/ada/a.txt"))
    ∷ call ada 3 (removing (codes "/ada/a.txt") false)
    ∷ []

blob_kept : refcount_of "h1" (run_all written_twice empty_store).blobs ≡ 1
unfolding run_all run get_entry normalize_path pieces split is_segment joined join_path owner_of
    can_write can_read owns_path ensure_directory_tree write_start write_finish place put_entry
    upsert_blob inc_ref descendants_of delete_rows decrement_and_maybe_drop_blob refcount_of
    has_blob_row like is_space children_of order_by delete_entry remove update_entry_content
blob_kept = refl
