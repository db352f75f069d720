-- ===== src/Files/Unique.antt =====
-- What a lookup by path finds after the statements of apps/server/src/files/filesystem-store.ts, and
-- that they keep the paths apart, as the primary key of `fs_entries` does.
use ac.Prelude.{
  Bool, none, some, List, [], ◌∷◌, Bool-cases, keep, All, All-append, ℕ, ◌≡◌, refl, sym, ap, ◌∙◌,
  inl, inr, true, false, ◌++◌, map, arith,
}
use ac.Files.Types.{FsEntryRow}
use ac.Files.Counts.{Apart, get_entry-here, map-if_path-absent, All-Apart}
use ac.Files.Paths.{FsPath}
use ac.Files.Rows.{same_path, same_path_iff, get_entry, delete_entry, if_path, move_path, with_path}
use ac.Prelude.Sort.{IsOrdered, keep_pairs}

pub same_path_refl : (p : FsPath) → same_path p p ≡ true
same_path_refl p = (same_path_iff p p).1 refl

pub same_path-sym_false : (p q : FsPath) → same_path p q ≡ false → same_path q p ≡ false
same_path-sym_false p q h = ground (arith, same_path_iff p q, same_path_iff q p)

-- A path that is not found stands in no row.
pub get_entry-absent :
    (path : FsPath) (es : List FsEntryRow)
    → get_entry path es ≡ none
    → All (λ r. same_path r.path path ≡ false) es
unfolding get_entry
get_entry-absent path [] h = tt
get_entry-absent path (x ∷ es) h = ground (arith, get_entry-absent path es, h)

pub get_entry-path :
    (path : FsPath) (es : List FsEntryRow) (r : FsEntryRow)
    → get_entry path es ≡ some r
    → r.path ≡ path
unfolding get_entry
get_entry-path path [] r h = cc
get_entry-path path (x ∷ es) r h = elim (Bool-cases (same_path x.path path)) [
  | inl e ↦
      ap (λ (q : FsEntryRow). q.path) (sym (get_entry-here path x es r e h))
      ∙ (same_path_iff x.path path).0 e
  | inr e ↦ get_entry-path path es r (ground (arith, e, h))
]

pub get_entry-append :
    (path : FsPath) (es : List FsEntryRow) (r : FsEntryRow)
    → same_path r.path path ≡ false
    → get_entry path (es ++ r ∷ []) ≡ get_entry path es
unfolding get_entry
get_entry-append path [] r h = ground (arith, h)
get_entry-append path (x ∷ es) r h = ground (arith, get_entry-append path es r h)

pub get_entry-append_found :
    (path : FsPath) (es : List FsEntryRow) (r q : FsEntryRow)
    → get_entry path es ≡ some q
    → get_entry path (es ++ r ∷ []) ≡ some q
unfolding get_entry
get_entry-append_found path [] r q h = cc
get_entry-append_found path (x ∷ es) r q h = ground (arith, get_entry-append_found path es r q, h)

-- A change of the rows at one path that keeps that path leaves what other paths find.
pub get_entry-update :
    (path at : FsPath) (set : FsEntryRow → FsEntryRow) (es : List FsEntryRow)
    → ((r : FsEntryRow) → (set r).path ≡ r.path)
    → same_path at path ≡ false
    → get_entry path (map (if_path at set) es) ≡ get_entry path es
unfolding get_entry
get_entry-update path at set [] keeps h = refl
get_entry-update path at set (x ∷ es) keeps h = elim (Bool-cases (same_path x.path at)) [
  | inl e ↦
      let other : same_path x.path path ≡ false =
        ground (arith, same_path_iff x.path at, same_path_iff x.path path, same_path_iff at path) in
      rw (e, keeps x, other) (get_entry-update path at set es keeps h)
  | inr e ↦ rw e (ground (arith, get_entry-update path at set es keeps h))
]

pub get_entry-delete_entry :
    (path at : FsPath) (es : List FsEntryRow)
    → same_path at path ≡ false
    → get_entry path (delete_entry at es) ≡ get_entry path es
unfolding get_entry delete_entry
get_entry-delete_entry path at [] h = refl
get_entry-delete_entry path at (x ∷ es) h = ground (
  arith,
  get_entry-delete_entry path at es h,
  same_path_iff x.path at,
  same_path_iff x.path path,
  same_path_iff at path,
)

pub get_entry-delete_entry_gone :
    (path : FsPath) (es : List FsEntryRow) → get_entry path (delete_entry path es) ≡ none
unfolding get_entry delete_entry
get_entry-delete_entry_gone path [] = refl
get_entry-delete_entry_gone path (x ∷ es) = ground (arith, get_entry-delete_entry_gone path es)

pub get_entry-move_path :
    (path dst src : FsPath) (now : ℕ) (es : List FsEntryRow)
    → same_path dst path ≡ false
    → same_path src path ≡ false
    → get_entry path (move_path dst now src es) ≡ get_entry path es
unfolding get_entry move_path
get_entry-move_path path dst src now [] h k = refl
get_entry-move_path path dst src now (x ∷ es) h k = elim (Bool-cases (same_path x.path src)) [
  | inl e ↦
      let other : same_path x.path path ≡ false =
        ground
          (arith, same_path_iff x.path src, same_path_iff x.path path, same_path_iff src path) in
      rw (e, h, other) (get_entry-move_path path dst src now es h k)
  | inr e ↦ rw e (ground (arith, get_entry-move_path path dst src now es h k))
]

Apart-append :
    (es : List FsEntryRow) (r : FsEntryRow)
    → IsOrdered Apart es
    → All (λ x. same_path x.path r.path ≡ false) es
    → IsOrdered Apart (es ++ r ∷ [])
Apart-append [] r d h = (tt, tt)
Apart-append (x ∷ es) r d h =
    (All-append (Apart x) es (r ∷ []) d.0 (h.0, tt), Apart-append es r d.1 h.1)

pub append-Apart :
    (es : List FsEntryRow) (r : FsEntryRow)
    → IsOrdered Apart es
    → get_entry r.path es ≡ none
    → IsOrdered Apart (es ++ r ∷ [])
append-Apart es r d h = Apart-append es r d (get_entry-absent r.path es h)

module _ (at : FsPath) (set : FsEntryRow → FsEntryRow)
    (keeps : (r : FsEntryRow) → (set r).path ≡ r.path) where
  if_path-path : (r : FsEntryRow) → (if_path at set r).path ≡ r.path
  if_path-path r = ground (arith, keeps r)

  All-update :
      (x : FsEntryRow) (es : List FsEntryRow)
      → All (Apart x) es
      → All (Apart (if_path at set x)) (map (if_path at set) es)
  All-update x [] h = tt
  All-update x (y ∷ es) h = (rw (if_path-path x, if_path-path y) h.0, All-update x es h.1)

  pub update-Apart :
      (es : List FsEntryRow) → IsOrdered Apart es → IsOrdered Apart (map (if_path at set) es)
  update-Apart [] d = tt
  update-Apart (x ∷ es) d = (All-update x es d.0, update-Apart es d.1)

pub keep-Apart :
    (p : FsEntryRow → Bool) (es : List FsEntryRow)
    → IsOrdered Apart es
    → IsOrdered Apart (keep p es)
keep-Apart p es d = keep_pairs Apart p es d

module _ (dst src : FsPath) (now : ℕ) where
  All-move_path :
      (x : FsEntryRow) (es : List FsEntryRow)
      → same_path x.path dst ≡ false
      → All (Apart x) es
      → All (Apart x) (map (if_path src (with_path dst now)) es)
  All-move_path x [] n h = tt
  All-move_path x (y ∷ es) n h = ground (arith, All-move_path x es n h.1, n, h.0)

  All-dst :
      (x : FsEntryRow) (es : List FsEntryRow)
      → All (λ r. same_path r.path dst ≡ false) es
      → All (Apart (with_path dst now x)) es
  All-dst x [] h = tt
  All-dst x (y ∷ es) h = (same_path-sym_false y.path dst h.0, All-dst x es h.1)

  pub move_path-Apart :
      (es : List FsEntryRow)
      → IsOrdered Apart es
      → All (λ r. same_path r.path dst ≡ false) es
      → IsOrdered Apart (move_path dst now src es)
  unfolding move_path
  move_path-Apart [] d h = tt
  move_path-Apart (x ∷ es) d h = elim (Bool-cases (same_path x.path src)) [
    | inl e ↦
        rw (e, map-if_path-absent src (with_path dst now) es (All-Apart x src es e d.0))
          (All-dst x es h.1, d.1)
    | inr e ↦ rw e (All-move_path x es h.0 d.0, move_path-Apart es d.1 h.1)
  ]
