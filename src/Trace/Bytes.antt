-- ===== src/Trace/Bytes.antt =====
-- The searches that packages/cli/src/runtime/trace/http1.ts makes of a buffer and of a line.
use ac.Prelude.Codes.{Text}
use ac.Prelude.{
  length, ℕ, none, some, List, [], ◌∷◌, Option, leb, eqb, if◌then◌else◌, Option-cases, zero, suc,
  ◌+◌, ◌≤◌, ◌≡◌, inl, inr, Bool, false, ◌&&◌, ◌||◌, arith,
}

abbrev pub Bytes : Type 0
Bytes = List ℕ

abbrev pub crlf : Bytes
crlf = 13 ∷ 10 ∷ []

abbrev pub double_crlf : Bytes
double_crlf = 13 ∷ 10 ∷ 13 ∷ 10 ∷ []

-- What follows the pattern, where the bytes begin with it.
abbrev pub after : Bytes → Bytes → Option Bytes
after [] bs = some bs
after (p ∷ ps) [] = none
after (p ∷ ps) (b ∷ bs) = let rest = after ps bs in if eqb p b then rest else none

abbrev pub before_it : ℕ → Option (Bytes × Bytes) → Option (Bytes × Bytes)
before_it b none = none
before_it b (some (xs, ys)) = some (b ∷ xs, ys)

-- `indexOf`: what stands before the first occurrence of the pattern, and what after it.
unfoldable pub cut : Bytes → Bytes → Option (Bytes × Bytes)
cut pattern [] = none
cut pattern (b ∷ bs) =
    let later = cut pattern bs in
    elim (after pattern (b ∷ bs)) [ some rest ↦ some ([], rest) | none ↦ before_it b later ]

unfoldable pub drop : ℕ → Bytes → Bytes
drop zero bs = bs
drop (suc n) [] = []
drop (suc n) (b ∷ bs) = drop n bs

pub length-drop : (n : ℕ) (bs : Bytes) → length (drop n bs) ≤ length bs
unfolding drop
length-drop zero bs = omega arith
length-drop (suc n) [] = omega arith
length-drop (suc n) (b ∷ bs) = omega (arith, length-drop n bs)

pub length-after :
    (pattern bs rest : Bytes)
    → after pattern bs ≡ some rest
    → length rest + length pattern ≡ length bs
length-after [] bs rest h = ground (arith, h)
length-after (p ∷ ps) [] rest h = cc
length-after (p ∷ ps) (b ∷ bs) rest h = ground (arith, h, length-after ps bs rest)

-- What a cut gives is shorter than the bytes by the pattern and what stands before it.
pub length-cut :
    (pattern bs xs ys : Bytes)
    → cut pattern bs ≡ some (xs, ys)
    → length xs + length pattern + length ys ≡ length bs
unfolding cut
length-cut pattern [] xs ys h = cc
length-cut pattern (b ∷ bs) xs ys h = elim (Option-cases (after pattern (b ∷ bs))) [
  | inr (rest, e) ↦ ground (arith, h, e, length-after pattern (b ∷ bs) rest e)
  | inl e ↦ elim (Option-cases (cut pattern bs)) [
    | inl k ↦ ground (arith, h, e, k)
    | inr ((zs, ws), k) ↦ ground (arith, h, e, k, length-cut pattern bs zs ws k)
  ]
]

-- \s of the characters that a line of ASCII has.
abbrev pub is_white : ℕ → Bool
is_white c = leb 9 c && leb c 13 || eqb c b' '

-- `\s*`: the text after the white space that it begins with.
unfoldable pub skip_white : Text → Text
skip_white [] = []
skip_white (c ∷ cs) = let rest = skip_white cs in if is_white c then rest else c ∷ cs

-- `\S+\s+`: the word and what follows the white space after it, where both are there.
unfoldable pub word : Text → Text × Text
word [] = ([], [])
word (c ∷ cs) = let more = word cs in if is_white c then ([], c ∷ cs) else (c ∷ more.0, more.1)

abbrev pub begins_white : Text → Bool
begins_white [] = false
begins_white (c ∷ cs) = is_white c

abbrev pub is_digit : ℕ → Bool
is_digit c = leb b'0' c && leb c b'9'
