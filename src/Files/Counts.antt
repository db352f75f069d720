-- ===== src/Files/Counts.antt =====
-- How the statements of apps/server/src/files/filesystem-store.ts change the number of rows that
-- name a blob, and the number that the blob's own row keeps.
use ac.Prelude.{
  ℕ, String, Bool, none, some, List, [], ◌∷◌, Bool-cases, ◌+◌, ◌≤◌, ◌≡◌, refl, inl, inr, true,
  false, ◌||◌, ◌++◌, arith, ◌==◌, eq_iff, eq_refl, ◌&&◌, All, ap, Option, map,
}
use ac.Files.Types.{FsEntryRow, BlobRow}
use ac.Files.Rows.{
  same_path, refcount_of, has_blob_row, upsert_blob, inc_ref, dec_ref, delete_zero_blob,
  decrement_and_maybe_drop_blob, get_entry, delete_entry, update_entry_content, move_path,
  same_path_iff, if_path, with_content,
}
use ac.Files.Paths.{FsPath}
use ac.Prelude.Sort.{IsOrdered}

abbrev pub is_text : String → Option String → Bool
is_text hash none = false
is_text hash (some h) = h == hash

abbrev pub names_hash : String → FsEntryRow → Bool
names_hash hash r = is_text hash r.content_hash

abbrev pub one_if : Bool → ℕ
one_if true = 1
one_if false = 0

-- The rows whose content is the blob.
abbrev pub references : String → List FsEntryRow → ℕ
references hash [] = 0
references hash (r ∷ rs) = one_if (names_hash hash r) + references hash rs

-- No two rows share their path, the primary key.
abbrev pub Apart : FsEntryRow → FsEntryRow → Type 0
Apart x y = same_path x.path y.path ≡ false

module _ (k : String) where
  pub refcount_of-append :
      (bs : List BlobRow) (b : BlobRow)
      → b.refcount ≡ 0
      → refcount_of k (bs ++ b ∷ []) ≡ refcount_of k bs
  unfolding refcount_of
  refcount_of-append [] b z = ground (arith, z)
  refcount_of-append (x ∷ bs) b z = ground (arith, refcount_of-append bs b z)

  pub refcount_of-upsert_blob :
      (hash : String) (size now : ℕ) (bs : List BlobRow)
      → refcount_of k (upsert_blob hash size now bs) ≡ refcount_of k bs
  unfolding upsert_blob
  refcount_of-upsert_blob hash size now bs = ground (
    arith,
    refcount_of-append bs (record { hash = hash; size = size; refcount = 0; created_at = now })
        refl,
  )

  refcount_of-inc_ref_any :
      (hash : String) (bs : List BlobRow)
      → refcount_of k (inc_ref hash bs)
        ≡ refcount_of k bs + one_if (hash == k && has_blob_row hash bs)
  unfolding refcount_of inc_ref has_blob_row
  refcount_of-inc_ref_any hash [] = ground arith
  refcount_of-inc_ref_any hash (x ∷ bs) =
      ground
        (arith, refcount_of-inc_ref_any hash bs, eq_iff x.hash hash, eq_iff x.hash k, eq_iff hash k)

  pub refcount_of-inc_ref :
      (hash : String) (bs : List BlobRow)
      → has_blob_row hash bs ≡ true
      → refcount_of k (inc_ref hash bs) ≡ refcount_of k bs + one_if (hash == k)
  refcount_of-inc_ref hash bs h = ground (arith, refcount_of-inc_ref_any hash bs, h)

  refcount_of-dec_ref :
      (hash : String) (bs : List BlobRow)
      → refcount_of k bs ≤ refcount_of k (dec_ref hash bs) + one_if (hash == k)
  unfolding refcount_of dec_ref
  refcount_of-dec_ref hash [] = omega arith
  refcount_of-dec_ref hash (x ∷ bs) =
      ground
        (arith, refcount_of-dec_ref hash bs, eq_iff x.hash hash, eq_iff x.hash k, eq_iff hash k)

  refcount_of-delete_zero_blob :
      (hash : String) (bs : List BlobRow)
      → refcount_of k bs ≤ refcount_of k (delete_zero_blob hash bs)
  unfolding refcount_of delete_zero_blob
  refcount_of-delete_zero_blob hash [] = omega arith
  refcount_of-delete_zero_blob hash (x ∷ bs) = ground (
    arith,
    refcount_of-delete_zero_blob hash bs,
    eq_iff x.hash hash,
    eq_iff x.hash k,
    eq_iff hash k,
  )

  pub refcount_of-drop :
      (hash : String) (bs : List BlobRow)
      → refcount_of k bs
        ≤ refcount_of k (decrement_and_maybe_drop_blob hash bs) + one_if (hash == k)
  unfolding decrement_and_maybe_drop_blob
  refcount_of-drop hash bs =
      ground
        (arith, refcount_of-dec_ref hash bs, refcount_of-delete_zero_blob hash (dec_ref hash bs))

pub has_blob_row-append :
    (hash : String) (bs : List BlobRow) (b : BlobRow)
    → has_blob_row hash (bs ++ b ∷ []) ≡ (has_blob_row hash bs || b.hash == hash)
unfolding has_blob_row
has_blob_row-append hash [] b = ground arith
has_blob_row-append hash (x ∷ bs) b = ground (arith, has_blob_row-append hash bs b)

pub has_blob_row-upsert_blob :
    (hash : String) (size now : ℕ) (bs : List BlobRow)
    → has_blob_row hash (upsert_blob hash size now bs) ≡ true
unfolding upsert_blob
has_blob_row-upsert_blob hash size now bs = ground (
  arith,
  has_blob_row-append hash bs (record { hash = hash; size = size; refcount = 0; created_at = now }),
  eq_refl hash,
)

-- A blob that is counted is there.
pub has_blob_row-refcount_of :
    (hash : String) (bs : List BlobRow) → 1 ≤ refcount_of hash bs → has_blob_row hash bs ≡ true
unfolding has_blob_row refcount_of
has_blob_row-refcount_of hash [] h = absurd (omega arith)
has_blob_row-refcount_of hash (x ∷ bs) h = ground (arith, has_blob_row-refcount_of hash bs)

-- The row that a lookup finds first.
pub get_entry-here :
    (path : FsPath) (x : FsEntryRow) (es : List FsEntryRow) (r : FsEntryRow)
    → same_path x.path path ≡ true
    → get_entry path (x ∷ es) ≡ some r
    → x ≡ r
unfolding get_entry
get_entry-here path x es r e h = ground (arith, e, h)

pub same_path-apart :
    (p q path : FsPath) → same_path p q ≡ false → same_path p path ≡ true → same_path q path ≡ false
same_path-apart p q path h e =
    ground (arith, same_path_iff p q, same_path_iff p path, same_path_iff q path)

pub map-if_path-absent :
    (path : FsPath) (set : FsEntryRow → FsEntryRow) (es : List FsEntryRow)
    → All (λ r. same_path r.path path ≡ false) es
    → map (if_path path set) es ≡ es
map-if_path-absent path set [] h = refl
map-if_path-absent path set (x ∷ es) h =
    rw h.0 (ap (λ rs. x ∷ rs) (map-if_path-absent path set es h.1))

pub All-Apart :
    (x : FsEntryRow) (path : FsPath) (es : List FsEntryRow)
    → same_path x.path path ≡ true
    → All (Apart x) es
    → All (λ r. same_path r.path path ≡ false) es
All-Apart x path [] e h = tt
All-Apart x path (y ∷ es) e h =
    (same_path-apart x.path y.path path h.0 e, All-Apart x path es e h.1)

module _ (k : String) where
  pub references-append :
      (es : List FsEntryRow) (r : FsEntryRow)
      → references k (es ++ r ∷ []) ≡ references k es + one_if (names_hash k r)
  references-append [] r = omega arith
  references-append (x ∷ es) r = omega (arith, references-append es r)

  pub references-get_entry :
      (path : FsPath) (es : List FsEntryRow) (r : FsEntryRow)
      → get_entry path es ≡ some r
      → one_if (names_hash k r) ≤ references k es
  unfolding get_entry
  references-get_entry path [] r h = cc
  references-get_entry path (x ∷ es) r h = elim (Bool-cases (same_path x.path path)) [
    | inl e ↦ omega (arith, ap (λ q. one_if (names_hash k q)) (get_entry-here path x es r e h))
    | inr e ↦ ground (arith, references-get_entry path es r, e)
  ]

  references-delete_entry_le :
      (path : FsPath) (es : List FsEntryRow) → references k (delete_entry path es) ≤ references k es
  unfolding delete_entry
  references-delete_entry_le path [] = omega arith
  references-delete_entry_le path (x ∷ es) = ground (arith, references-delete_entry_le path es)

  pub references-delete_entry :
      (path : FsPath) (es : List FsEntryRow) (r : FsEntryRow)
      → get_entry path es ≡ some r
      → references k (delete_entry path es) + one_if (names_hash k r) ≤ references k es
  unfolding get_entry delete_entry
  references-delete_entry path [] r h = cc
  references-delete_entry path (x ∷ es) r h = elim (Bool-cases (same_path x.path path)) [
    | inl e ↦ rw e (
        omega (
          arith,
          ap (λ q. one_if (names_hash k q)) (get_entry-here path x es r e h),
          references-delete_entry_le path es,
        ))
    | inr e ↦ rw e (omega (arith, references-delete_entry path es r (ground (arith, e, h))))
  ]

  pub references-move_path :
      (dst src : FsPath) (now : ℕ) (es : List FsEntryRow)
      → references k (move_path dst now src es) ≡ references k es
  unfolding move_path
  references-move_path dst src now [] = refl
  references-move_path dst src now (x ∷ es) = ground (arith, references-move_path dst src now es)

  pub references-update_entry_content :
      (hash : String) (size : ℕ) (mime_type : String) (now : ℕ) (path : FsPath)
      (es : List FsEntryRow) (r : FsEntryRow)
      → IsOrdered Apart es
      → get_entry path es ≡ some r
      → references k (update_entry_content hash size mime_type now path es)
          + one_if (names_hash k r)
        ≡ references k es + one_if (hash == k)
  unfolding update_entry_content get_entry
  references-update_entry_content hash size mime_type now path [] r d h = cc
  references-update_entry_content hash size mime_type now path (x ∷ es) r d h =
      elim (Bool-cases (same_path x.path path)) [
        | inl e ↦
            rw
              (
                e,
                map-if_path-absent path (with_content hash size mime_type now) es
                    (All-Apart x path es e d.0),
              )
              (omega (arith, ap (λ q. one_if (names_hash k q)) (get_entry-here path x es r e h)))
        | inr e ↦ rw e (
            omega (
              arith,
              references-update_entry_content hash size mime_type now path es r d.1
                  (ground (arith, e, h)),
            ))
      ]
