-- ===== src/Files/PathLaws.antt =====
-- What normalization and the ancestor test of apps/server/src/files/paths.ts give.
use ac.Files.Text.{joined, split, Lacks, split-joined, length-joined-keep-le, length-joined-split}
use ac.Prelude.Codes.{Text}
use ac.Files.Paths.{
  FsPath, max_path_length, path_text, is_segment_char, every, is_segment, all_segments, is_absolute,
  pieces, normalize_path,
}
use ac.Prelude.{
  eqb, ok, length, keep, length-append, is_empty, backwards, All, backwards-backwards, ℕ, ◌≤◌, ◌≡◌,
  refl, ap, ◌∙◌, ◌≢◌, true, false, not, List, [], ◌∷◌, arith,
}

-- A path that `normalizePath` can return.
pub record IsValid (p : FsPath) : Type 0 where
  pub segments : all_segments (backwards p) ≡ true
  pub short : length (path_text p) ≤ max_path_length

is_segment_char-slash : (c : ℕ) → is_segment_char c ≡ true → c ≢ b'/'
is_segment_char-slash c h e = ground (arith, e)

every-Lacks : (s : Text) → every is_segment_char s ≡ true → Lacks b'/' s
every-Lacks [] h = tt
every-Lacks (c ∷ cs) h =
    (is_segment_char-slash c (ground (arith, h)), every-Lacks cs (ground (arith, h)))

pub is_segment-Lacks : (s : Text) → is_segment s ≡ true → Lacks b'/' s
unfolding is_segment
is_segment-Lacks s h = every-Lacks s (ground (arith, h))

is_segment-nonempty : (s : Text) → is_segment s ≡ true → is_empty s ≡ false
unfolding is_segment
is_segment-nonempty s h = ground (arith, h)

pub all_segments-Lacks : (ss : List Text) → all_segments ss ≡ true → All (Lacks b'/') ss
all_segments-Lacks [] h = tt
all_segments-Lacks (s ∷ ss) h =
    (is_segment-Lacks s (ground (arith, h)), all_segments-Lacks ss (ground (arith, h)))

keep-all_segments : (ss : List Text) → all_segments ss ≡ true → keep (λ s. not (is_empty s)) ss ≡ ss
keep-all_segments [] h = refl
keep-all_segments (s ∷ ss) h = ground (arith, is_segment-nonempty s, keep-all_segments ss)

pieces-joined : (ss : List Text) → ss ≢ [] → all_segments ss ≡ true → pieces (joined ss) ≡ ss
unfolding pieces
pieces-joined ss n h = rw (split-joined ss n (all_segments-Lacks ss h)) (keep-all_segments ss h)

normalize-joined :
    (ss : List Text)
    → ss ≢ []
    → all_segments ss ≡ true
    → length (joined ss) ≤ max_path_length
    → normalize_path (joined ss) ≡ ok (backwards ss)
unfolding normalize_path joined
normalize-joined [] n h l = absurd (n refl)
normalize-joined (s ∷ ss) n h l = ground (arith, pieces-joined (s ∷ ss) n h, h, l)

pub backwards-ne-nil : (s : Text) (p : FsPath) → backwards (s ∷ p) ≢ []
backwards-ne-nil s p e = absurd (omega (arith, ap length e, length-append (backwards p) (s ∷ [])))

-- A normalized path is its own normalization: its text normalizes to the path itself.
pub normalize_path-path_text : (p : FsPath) → IsValid p → normalize_path (path_text p) ≡ ok p
normalize_path-path_text [] v = unfold normalize_path pieces split in refl
normalize_path-path_text (s ∷ p) v =
    normalize-joined (backwards (s ∷ p)) (backwards-ne-nil s p) v.segments v.short
    ∙ ap ok (backwards-backwards (s ∷ p))

short_pieces : (raw : Text) → is_absolute raw ≡ true → length (joined (pieces raw)) ≤ length raw
unfolding pieces split
short_pieces [] h = cc
short_pieces (c ∷ cs) h =
    let e : eqb c b'/' ≡ true = h in
    rw e (
      omega (
        arith,
        length-joined-keep-le (λ s. not (is_empty s)) (split b'/' cs),
        length-joined-split b'/' cs,
      ))

length-path_text :
    (ss : List Text) (n : ℕ)
    → length (joined ss) ≤ n
    → 1 ≤ n
    → length (path_text (backwards ss)) ≤ n
length-path_text [] n h k = omega arith
length-path_text (s ∷ ss) n h k = by_shape (backwards (s ∷ ss)) (backwards-backwards (s ∷ ss))
  where
    by_shape : (p : FsPath) → backwards p ≡ s ∷ ss → length (path_text p) ≤ n
    by_shape [] e = cc
    by_shape (t ∷ p) e = rw e h

-- What `normalizePath` accepts is a valid path, and normalizing it again changes nothing.
pub normalize_path_idem :
    (raw : Text) (p : FsPath)
    → normalize_path raw ≡ ok p
    → IsValid p × (normalize_path (path_text p) ≡ ok p)
unfolding normalize_path
normalize_path_idem raw p h = (valid, normalize_path-path_text p valid)
  where
    found :
        (p ≡ backwards (pieces raw))
        × (all_segments (pieces raw) ≡ true)
        × (length raw ≤ max_path_length)
        × (is_absolute raw ≡ true)
        × (1 ≤ length raw)
    found = ground (arith, h)

    valid : IsValid p
    valid = rw found.0 (record {
      segments = rw (backwards-backwards (pieces raw)) found.1;
      short =
          length-path_text (pieces raw) max_path_length
            (omega (arith, short_pieces raw found.3, found.2)) (omega arith);
    })
