-- ===== src/Files/Rows.antt =====
-- The statements of apps/server/src/files/filesystem-store.ts on its three tables.
use ac.Prelude.Codes.{same, Text, same_iff}
use ac.Files.Types.{FsEntryRow, BlobRow, GrantRow}
use ac.Files.Paths.{FsPath, parent_of, basename_of}
use ac.Prelude.{
  eqb, if◌then◌else◌, keep, is_empty, ℕ, ◌+◌, ◌-◌, String, ◌≡◌, refl, ◌↔◌, Bool, true, false, ◌&&◌,
  ◌||◌, not, Option, none, some, List, [], ◌∷◌, ◌++◌, map, arith, ◌==◌,
}

abbrev pub same_path : FsPath → FsPath → Bool
same_path [] [] = true
same_path [] (t ∷ q) = false
same_path (s ∷ p) [] = false
same_path (s ∷ p) (t ∷ q) = same s t && same_path p q

pub same_path_iff : (p q : FsPath) → (same_path p q ≡ true) ↔ (p ≡ q)
same_path_iff [] [] = (λ h. refl, λ e. refl)
same_path_iff [] (t ∷ q) = ((λ h. cc), λ e. cc)
same_path_iff (s ∷ p) [] = ((λ h. cc), λ e. cc)
same_path_iff (s ∷ p) (t ∷ q) = ground (arith, same_path_iff p q, same_iff s t)

unfoldable pub get_entry : FsPath → List FsEntryRow → Option FsEntryRow
get_entry path [] = none
get_entry path (r ∷ rs) =
    let rest = get_entry path rs in if same_path r.path path then some r else rest

unfoldable pub delete_entry : FsPath → List FsEntryRow → List FsEntryRow
delete_entry path es = keep (λ r. not (same_path r.path path)) es

abbrev pub if_path : FsPath → (FsEntryRow → FsEntryRow) → FsEntryRow → FsEntryRow
if_path path set r = if same_path r.path path then set r else r

abbrev pub with_content : String → ℕ → String → ℕ → FsEntryRow → FsEntryRow
with_content hash size mime_type now r = record r {
  content_hash = some hash;
  size = some size;
  mime_type = some mime_type;
  updated_at = now;
}

-- `updateEntryContentStmt`
unfoldable pub update_entry_content :
    String → ℕ → String → ℕ → FsPath → List FsEntryRow → List FsEntryRow
update_entry_content hash size mime_type now path es =
    map (if_path path (with_content hash size mime_type now)) es

abbrev pub with_path : FsPath → ℕ → FsEntryRow → FsEntryRow
with_path dst now r = record r {
  path = dst;
  parent_path = parent_of dst;
  name = basename_of dst;
  updated_at = now;
}

-- `movePathStmt`
unfoldable pub move_path : FsPath → ℕ → FsPath → List FsEntryRow → List FsEntryRow
move_path dst now src es = map (if_path src (with_path dst now)) es

unfoldable pub delete_grants_for_path : FsPath → List GrantRow → List GrantRow
delete_grants_for_path path gs = keep (λ g. not (same_path g.path path)) gs

abbrev pub is_grant : FsPath → Text → GrantRow → Bool
is_grant path viewer g = same_path g.path path && same g.viewer viewer

unfoldable pub has_grant : FsPath → Text → List GrantRow → Bool
has_grant path viewer gs = not (is_empty (keep (is_grant path viewer) gs))

abbrev pub is_triple : FsPath → Text → String → GrantRow → Bool
is_triple path viewer via g = is_grant path viewer g && g.granted_via == via

-- ON CONFLICT DO NOTHING
unfoldable pub insert_grant : FsPath → Text → ℕ → String → List GrantRow → List GrantRow
insert_grant path viewer now via gs =
    if is_empty (keep (is_triple path viewer via) gs)
    then gs ++ record { path = path; viewer = viewer; granted_at = now; granted_via = via } ∷ []
    else gs

unfoldable pub refcount_of : String → List BlobRow → ℕ
refcount_of hash [] = 0
refcount_of hash (b ∷ bs) =
    let rest = refcount_of hash bs in if b.hash == hash then b.refcount else rest

unfoldable pub has_blob_row : String → List BlobRow → Bool
has_blob_row hash [] = false
has_blob_row hash (b ∷ bs) = b.hash == hash || has_blob_row hash bs

unfoldable pub upsert_blob : String → ℕ → ℕ → List BlobRow → List BlobRow
unfolding has_blob_row
upsert_blob hash size now bs =
    if has_blob_row hash bs
    then bs
    else bs ++ record { hash = hash; size = size; refcount = 0; created_at = now } ∷ []

abbrev pub if_blob : String → (ℕ → ℕ) → BlobRow → BlobRow
if_blob hash f b = if b.hash == hash then record b { refcount = f b.refcount } else b

unfoldable pub inc_ref : String → List BlobRow → List BlobRow
inc_ref hash bs = map (if_blob hash (λ n. n + 1)) bs

unfoldable pub dec_ref : String → List BlobRow → List BlobRow
dec_ref hash bs = map (if_blob hash (λ n. n - 1)) bs

unfoldable pub delete_zero_blob : String → List BlobRow → List BlobRow
delete_zero_blob hash bs = keep (λ b. not (b.hash == hash && eqb b.refcount 0)) bs

-- `decrementAndMaybeDropBlob`, and the same steps in `remove`.
unfoldable pub decrement_and_maybe_drop_blob : String → List BlobRow → List BlobRow
unfolding dec_ref delete_zero_blob refcount_of
decrement_and_maybe_drop_blob hash bs =
    let bs' = dec_ref hash bs in
    if eqb (refcount_of hash bs') 0 then delete_zero_blob hash bs' else bs'
