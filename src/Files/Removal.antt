-- ===== src/Files/Removal.antt =====
-- What `remove` of apps/server/src/files/filesystem-store.ts takes away.
use ac.Prelude.{
  List, [], ◌∷◌, keep, is_empty, ◌≡◌, refl, Bool, true, ◌||◌, not, arith, All, ℕ, ◌≢◌, ◌&&◌, ◌++◌,
  ok, All-append, append_assoc, err,
}
use ac.Files.Remove.{like, pattern_of, fold_case, Removed}
use ac.Files.Types.{FsEntryRow, FilesystemStore, is_file}
use ac.Files.Paths.{FsPath, path_text, starts_with}
use ac.Files.Rows.{same_path}
use ac.Prelude.Codes.{Text}

-- A row of the list stands at the path.
abbrev pub is_at : List FsEntryRow → FsEntryRow → Bool
is_at rs x = not (is_empty (keep (λ r. same_path x.path r.path) rs))

-- What a removal takes away: of a file, the row at the path; of a directory, what is listed too.
abbrev pub is_removed : FsPath → FsEntryRow → FsEntryRow → Bool
is_removed path target x =
    same_path x.path path || not (is_file target.kind) && like (pattern_of path) (path_text x.path)

-- Every character stands for itself in a pattern, whatever its case.
abbrev pub IsPlain : ℕ → Type 0
IsPlain c = (c ≢ b'%') × (c ≢ b'_') × (fold_case c ≡ c)

abbrev pub IsLower : ℕ → Type 0
IsLower c = fold_case c ≡ c

like_any : (u : Text) → like (b'%' ∷ []) u ≡ true
unfolding like
like_any [] = refl
like_any (c ∷ u) = ground (arith, like_any u)

like_plain :
    (t u : Text) → All IsPlain t → All IsLower u → like (t ++ b'%' ∷ []) u ≡ starts_with u t
unfolding like
like_plain [] u h k = like_any u
like_plain (p ∷ t) [] h k = ground (arith, h.0.0)
like_plain (p ∷ t) (c ∷ u) h k =
    rw (h.0.2, k.0) (ground (arith, h.0.0, h.0.1, like_plain t u h.1 k.1))

abbrev pub RemovesExactly : FsPath → FsEntryRow → FilesystemStore → Removed → Type 0
RemovesExactly path target s (err e, t) = t ≡ s
RemovesExactly path target s (ok done, t) =
    t.entries ≡ keep (λ x. not (is_removed path target x)) s.entries

-- For a path of lower-case letters without underscores, and rows whose paths have no capital letters,
-- the pattern lists exactly the rows whose path text begins with the directory's and a slash.
pub like-pattern_of :
    (path q : FsPath)
    → All IsPlain (path_text path)
    → All IsLower (path_text q)
    → like (pattern_of path) (path_text q) ≡ starts_with (path_text q) (path_text path ++ b'/' ∷ [])
like-pattern_of path q h k = rw (← append_assoc (path_text path) (b'/' ∷ []) (b'%' ∷ [])) (
    like_plain (path_text path ++ b'/' ∷ []) (path_text q)
      (All-append IsPlain (path_text path) (b'/' ∷ []) h
        (((λ e. absurd (omega arith)), (λ e. absurd (omega arith)), refl), tt))
      k)
