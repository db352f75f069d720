-- ===== src/Files/Paths.antt =====
-- apps/server/src/files/paths.ts. A normalized path is the list of its segments, the last one
-- first, so that the parent is the tail; `path_text` is the text that the source keeps.
use ac.Prelude.Text.{is_space}
use ac.Files.Text.{joined, split}
use ac.Prelude.Codes.{same, Text}
use ac.Prelude.{
  ltb, leb, eqb, if◌then◌else◌, Result, ok, err, length, keep, is_empty, backwards, ℕ, zero, suc,
  ◌+◌, ◌/◌, ◌%◌, Bool, true, false, ◌&&◌, ◌||◌, not, Option, none, some, List, [], ◌∷◌, ◌++◌,
}

pub data FsErrorCode : Type 0 where
  not_found exists not_a_directory is_a_directory not_empty : FsErrorCode
  forbidden invalid_input too_large corrupt : FsErrorCode

abbrev pub FsPath : Type 0
FsPath = List Text

abbrev pub max_path_length : ℕ
max_path_length = 1024

abbrev pub max_segment_length : ℕ
max_segment_length = 255

abbrev pub path_text : FsPath → Text
path_text [] = b'/' ∷ []
path_text (s ∷ p) = joined (backwards (s ∷ p))

abbrev within : ℕ → ℕ → ℕ → Bool
within lo hi c = leb lo c && leb c hi

-- [a-zA-Z0-9._\- ]
abbrev pub is_segment_char : ℕ → Bool
is_segment_char c =
    within b'a' b'z' c
    || within b'A' b'Z' c
    || within b'0' b'9' c
    || eqb c b'.'
    || eqb c b'_'
    || eqb c b'-'
    || eqb c b' '

abbrev pub every : (ℕ → Bool) → Text → Bool
every p [] = true
every p (c ∷ cs) = p c && every p cs

abbrev pub last_is_space : Text → Bool
last_is_space [] = false
last_is_space (c ∷ []) = is_space c
last_is_space (c ∷ d ∷ cs) = last_is_space (d ∷ cs)

abbrev pub first_is_space : Text → Bool
first_is_space [] = false
first_is_space (c ∷ cs) = is_space c

-- `seg.trim() === seg`
abbrev pub is_trimmed : Text → Bool
is_trimmed s = not (first_is_space s) && not (last_is_space s)

-- The tests of the loop over the segments; each failure is `invalid_input`.
unfoldable pub is_segment : Text → Bool
is_segment s =
    not (same s (b'.' ∷ []) || same s (b'.' ∷ b'.' ∷ []))
    && leb (length s) max_segment_length
    && is_trimmed s
    && (every is_segment_char s && not (is_empty s))

abbrev pub all_segments : List Text → Bool
all_segments [] = true
all_segments (s ∷ ss) = is_segment s && all_segments ss

abbrev pub is_absolute : Text → Bool
is_absolute [] = false
is_absolute (c ∷ cs) = eqb c b'/'

-- `raw.split('/').filter((s) => s.length > 0)`
unfoldable pub pieces : Text → List Text
pieces raw = keep (λ s. not (is_empty s)) (split b'/' raw)

unfoldable pub normalize_path : Text → Result FsErrorCode FsPath
normalize_path raw =
    if is_empty raw
    then err invalid_input
    else if ltb max_path_length (length raw)
    then err invalid_input
    else if not (is_absolute raw)
    then err invalid_input
    else if all_segments (pieces raw)
    then ok (backwards (pieces raw))
    else err invalid_input

-- `parentOf` and `basenameOf`; the root is its own parent and has no name.
abbrev pub parent_of : FsPath → FsPath
parent_of [] = []
parent_of (s ∷ p) = p

abbrev pub basename_of : FsPath → Text
basename_of [] = []
basename_of (s ∷ p) = s

-- "objectives" and "obj:"
abbrev pub objective_namespace_segment : Text
objective_namespace_segment =
    b'o' ∷ b'b' ∷ b'j' ∷ b'e' ∷ b'c' ∷ b't' ∷ b'i' ∷ b'v' ∷ b'e' ∷ b's' ∷ []

abbrev pub objective_owner_prefix : Text
objective_owner_prefix = b'o' ∷ b'b' ∷ b'j' ∷ b':' ∷ []

-- By the segments in the order of the text.
abbrev pub owner_from : List Text → Option Text
owner_from [] = none
owner_from (s ∷ []) = some s
owner_from (s ∷ t ∷ ss) =
    if same s objective_namespace_segment then some (objective_owner_prefix ++ t) else some s

unfoldable pub owner_of : FsPath → Option Text
owner_of p = owner_from (backwards p)

abbrev pub objective_from : List Text → Option Text
objective_from [] = none
objective_from (s ∷ []) = none
objective_from (s ∷ t ∷ ss) = if same s objective_namespace_segment then some t else none

-- The `id` of `parseObjectiveNamespacePath`.
unfoldable pub objective_of : FsPath → Option Text
objective_of p = objective_from (backwards p)

-- `joinPath(parent, part)`
unfoldable pub join_path : FsPath → Text → Result FsErrorCode FsPath
unfolding normalize_path pieces
join_path parent part =
    let collected = backwards parent ++ pieces part in
    if is_empty collected then ok [] else normalize_path (joined collected)

abbrev pub starts_with : Text → Text → Bool
starts_with t [] = true
starts_with [] (c ∷ cs) = false
starts_with (d ∷ ds) (c ∷ cs) = eqb d c && starts_with ds cs

unfoldable pub is_ancestor_path : Text → Text → Bool
is_ancestor_path ancestor descendant =
    if same ancestor descendant
    then true
    else if same ancestor (b'/' ∷ [])
    then true
    else starts_with descendant (ancestor ++ b'/' ∷ [])

-- `lastIndexOf('.')`: what stands before the last dot, and the rest from it on.
unfoldable pub at_last_dot : Text → Option (Text × Text)
at_last_dot [] = none
at_last_dot (c ∷ cs) = elim (at_last_dot cs) [
  | some (stem, ext) ↦ some (c ∷ stem, ext)
  | none ↦ if eqb c b'.' then some ([], c ∷ cs) else none
]

-- `stem` and `ext`: a dot at the very beginning is none.
abbrev pub stem_and_ext : Text → Text × Text
stem_and_ext name = elim (at_last_dot name) [
  | some (c ∷ stem, ext) ↦ (c ∷ stem, ext)
  | some ([], ext) ↦ (name, [])
  | none ↦ (name, [])
]

-- A number in decimal; a number has fewer digits than its successor.
decimal_from : ℕ → ℕ → Text → Text
decimal_from zero n out = out
decimal_from (suc fuel) n out =
    let more = decimal_from fuel (n / 10) ((b'0' + n % 10) ∷ out) in
    if ltb n 10 then (b'0' + n) ∷ out else more

unfoldable pub decimal : ℕ → Text
unfolding decimal_from
decimal n = decimal_from (suc n) n []

abbrev pub candidate_of : Text → ℕ → Text
candidate_of name i = let (stem, ext) = stem_and_ext name in stem ++ b'-' ∷ (decimal i ++ ext)

-- The loop of `dedupeBasename`, with the rounds that are left. `taken` may throw.
unfoldable pub dedupe_loop :
    (Text → Result FsErrorCode Bool) → Text → ℕ → ℕ → Result FsErrorCode Text
dedupe_loop taken name zero i = err exists
dedupe_loop taken name (suc rounds) i =
    let again = dedupe_loop taken name rounds (i + 1) in
    elim (taken (candidate_of name i)) [
      | err e ↦ err e
      | ok true ↦ again
      | ok false ↦ ok (candidate_of name i)
    ]

unfoldable pub dedupe_basename : Text → (Text → Result FsErrorCode Bool) → Result FsErrorCode Text
unfolding dedupe_loop
dedupe_basename name taken = elim (taken name) [
  | err e ↦ err e
  | ok true ↦ dedupe_loop taken name 9999 1
  | ok false ↦ ok name
]
