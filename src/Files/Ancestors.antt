-- ===== src/Files/Ancestors.antt =====
-- `isAncestorPath` and `dedupeBasename` of apps/server/src/files/paths.ts.
use ac.Files.Text.{joined, Lacks, split, split-joined}
use ac.Prelude.Codes.{same, Text, same_iff, same_refl}
use ac.Files.Paths.{
  starts_with, FsErrorCode, FsPath, path_text, is_segment, all_segments, is_ancestor_path,
  dedupe_loop, dedupe_basename,
}
use ac.Prelude.{
  All, ◌≡◌, refl, ap, ◌∙◌, ◌⊎◌, inl, inr, Bool, true, false, ◌&&◌, List, [], ◌∷◌, ◌++◌, append-nil,
  append_assoc, arith, Bool-cases, Result, ok, backwards, ℕ, zero, suc, ◌+◌, sym, ◌≢◌,
}
use ac.Files.PathLaws.{IsValid, all_segments-Lacks, backwards-ne-nil}

-- The segments of one path begin those of another.
abbrev pub begins : List Text → List Text → Bool
begins [] ss = true
begins (t ∷ ts) [] = false
begins (t ∷ ts) (s ∷ ss) = same t s && begins ts ss

-- Up to the next slash the texts must agree, whatever follows.
starts_with-segment :
    (s t xs ys : Text)
    → Lacks b'/' s
    → Lacks b'/' t
    → (xs ≡ []) ⊎ ((zs : Text) × (xs ≡ b'/' ∷ zs))
    → starts_with (s ++ xs) (t ++ b'/' ∷ ys) ≡ (same t s && starts_with xs (b'/' ∷ ys))
starts_with-segment [] [] xs ys hs ht k = refl
starts_with-segment [] (d ∷ ds) xs ys hs ht (inl e) = rw e refl
starts_with-segment [] (d ∷ ds) xs ys hs ht (inr (zs, e)) = rw e (ground (arith, ht.0))
starts_with-segment (c ∷ cs) [] xs ys hs ht k = ground (arith, hs.0)
starts_with-segment (c ∷ cs) (d ∷ ds) xs ys hs ht k =
    ground (arith, starts_with-segment cs ds xs ys hs.1 ht.1 k)

joined-cases : (ss : List Text) → (joined ss ≡ []) ⊎ ((zs : Text) × (joined ss ≡ b'/' ∷ zs))
unfolding joined
joined-cases [] = inl refl
joined-cases (s ∷ ss) = inr (s ++ joined ss, refl)

abbrev is_longer : List Text → List Text → Bool
is_longer [] [] = false
is_longer [] (s ∷ ss) = true
is_longer (t ∷ ts) [] = false
is_longer (t ∷ ts) (s ∷ ss) = is_longer ts ss

starts_with-joined :
    (ts ss : List Text)
    → All (Lacks b'/') ts
    → All (Lacks b'/') ss
    → starts_with (joined ss) (joined ts ++ b'/' ∷ []) ≡ (begins ts ss && is_longer ts ss)
unfolding joined
starts_with-joined [] [] h k = refl
starts_with-joined [] (s ∷ ss) h k = refl
starts_with-joined (t ∷ ts) [] h k = refl
starts_with-joined (t ∷ []) (s ∷ ss) h k = rw append-nil (
    starts_with-segment s t (joined ss) [] k.0 h.0 (joined-cases ss)
    ∙ ap (λ b. same t s && b) (starts_with-joined [] ss tt k.1)
    ∙ ground arith)
starts_with-joined (t ∷ u ∷ ts) (s ∷ ss) h k = rw (append_assoc) (
    starts_with-segment s t (joined ss) (u ++ joined ts ++ b'/' ∷ []) k.0 h.0 (joined-cases ss)
    ∙ ground (arith, starts_with-joined (u ∷ ts) ss h.1 k.1))

begins_refl : (ss : List Text) → begins ss ss ≡ true
begins_refl [] = refl
begins_refl (s ∷ ss) = ground (arith, same_refl s, begins_refl ss)

begins-longer : (ts ss : List Text) → begins ts ss ≡ true → (ts ≡ ss) ⊎ (is_longer ts ss ≡ true)
begins-longer [] [] h = inl refl
begins-longer [] (s ∷ ss) h = inr refl
begins-longer (t ∷ ts) [] h = cc
begins-longer (t ∷ ts) (s ∷ ss) h = ground (arith, begins-longer ts ss, same_iff t s, h)

joined-injective :
    (ts ss : List Text)
    → ts ≢ []
    → ss ≢ []
    → All (Lacks b'/') ts
    → All (Lacks b'/') ss
    → joined ts ≡ joined ss
    → ts ≡ ss
joined-injective ts ss n m h k e = cc (split-joined ts n h, split-joined ss m k, ap (split b'/') e)

is_ancestor-joined :
    (ts ss : List Text)
    → ts ≢ []
    → ss ≢ []
    → All (Lacks b'/') ts
    → All (Lacks b'/') ss
    → same (joined ts) (b'/' ∷ []) ≡ false
    → is_ancestor_path (joined ts) (joined ss) ≡ begins ts ss
unfolding is_ancestor_path
is_ancestor-joined ts ss n m h k r = elim (Bool-cases (same (joined ts) (joined ss))) [
  | inl e ↦
      let equal : ts ≡ ss =
        joined-injective ts ss n m h k ((same_iff (joined ts) (joined ss)).0 e) in
      rw e (rw equal (sym (begins_refl ss)))
  | inr e ↦
      let apart : ts ≢ ss =
        λ q. ground (arith, e, same_refl (joined ts), ap (λ xs. same (joined ts) (joined xs)) q) in
      rw (e, r) (ground (arith, starts_with-joined ts ss h k, begins-longer ts ss, apart))
]

not_root :
    (s : Text) (ss : List Text) → is_segment s ≡ true → same (joined (s ∷ ss)) (b'/' ∷ []) ≡ false
unfolding joined is_segment
not_root [] ss h = cc
not_root (c ∷ cs) ss h = ground arith

joined-not_root :
    (ss : List Text) → ss ≢ [] → all_segments ss ≡ true → same (joined ss) (b'/' ∷ []) ≡ false
joined-not_root [] n h = absurd (n refl)
joined-not_root (s ∷ ss) n h = not_root s ss (ground (arith, h))

under_root :
    (ss : List Text)
    → ss ≢ []
    → all_segments ss ≡ true
    → is_ancestor_path (joined ss) (b'/' ∷ []) ≡ begins ss []
unfolding is_ancestor_path joined is_segment
under_root [] n h = absurd (n refl)
under_root ([] ∷ ss) n h = cc
under_root ((c ∷ cs) ∷ ss) n h = ground arith

-- On normalized paths the test on the texts is the test on the tree: the first path is an ancestor of
-- the second, or equal, exactly if its segments begin the other's.
pub is_ancestor_path-begins :
    (p q : FsPath)
    → IsValid p
    → IsValid q
    → is_ancestor_path (path_text p) (path_text q) ≡ begins (backwards p) (backwards q)
is_ancestor_path-begins [] q v w = unfold is_ancestor_path in ground arith
is_ancestor_path-begins (s ∷ p) [] v w =
    under_root (backwards (s ∷ p)) (backwards-ne-nil s p) v.segments
is_ancestor_path-begins (s ∷ p) (t ∷ q) v w =
    is_ancestor-joined (backwards (s ∷ p)) (backwards (t ∷ q)) (backwards-ne-nil s p)
      (backwards-ne-nil t q) (all_segments-Lacks _ v.segments) (all_segments-Lacks _ w.segments)
      (joined-not_root (backwards (s ∷ p)) (backwards-ne-nil s p) v.segments)

-- The name that `dedupeBasename` gives, if it gives one, is not taken.
dedupe_loop-free :
    (taken : Text → Result FsErrorCode Bool) (name : Text) (rounds i : ℕ) (found : Text)
    → dedupe_loop taken name rounds i ≡ ok found
    → taken found ≡ ok false
unfolding dedupe_loop
dedupe_loop-free taken name zero i found h = cc
dedupe_loop-free taken name (suc rounds) i found h =
    ground (arith, dedupe_loop-free taken name rounds (i + 1) found, h)

pub dedupe_basename-free :
    (name : Text) (taken : Text → Result FsErrorCode Bool) (found : Text)
    → dedupe_basename name taken ≡ ok found
    → taken found ≡ ok false
unfolding dedupe_basename
dedupe_basename-free name taken found h =
    ground (arith, dedupe_loop-free taken name 9999 1 found, h)
