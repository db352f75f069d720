-- ===== src/Channels/Slug.antt =====
-- `validateSlug` of apps/server/src/channels.ts, and the slug grammar of its header comment.
use ac.Channels.Types.{ChannelsErrorCode, invalid_input}
use ac.Prelude.{
  ltb, leb, eqb, if◌then◌else◌, length, All, ℕ, ◌+◌, ◌≤◌, String, ◌≡◌, ◌⊎◌, inl, Bool, true, false,
  ◌&&◌, ◌||◌, not, Option, none, some, List, [], ◌∷◌, arith, ◌==◌, refl, subst, ◌≢◌, ◌↔◌, eq_iff,
}
use ac.Prelude.Text.{codes}

-- `s.length` counts UTF-16 code units: two for a code point past the basic plane.
abbrev pub utf16_length : List ℕ → ℕ
utf16_length [] = 0
utf16_length (c ∷ cs) = (if ltb c 0x10000 then 1 else 2) + utf16_length cs

-- [a-z0-9]
abbrev pub is_alnum : ℕ → Bool
is_alnum c = leb b'a' c && leb c b'z' || leb b'0' c && leb c b'9'

-- (?:[a-z0-9]|-(?!-))*[a-z0-9]$ : the last character ends the match, every other is one round of
-- the loop.
unfoldable pub matches_rest : List ℕ → Bool
matches_rest [] = false
matches_rest (c ∷ []) = is_alnum c
matches_rest (c ∷ d ∷ cs) = (is_alnum c || eqb c b'-' && not (eqb d b'-')) && matches_rest (d ∷ cs)

-- SLUG_PATTERN: one character from its second branch, or two and more from its first.
unfoldable pub slug_pattern : List ℕ → Bool
unfolding matches_rest
slug_pattern [] = false
slug_pattern (c ∷ []) = is_alnum c
slug_pattern (c ∷ d ∷ cs) = is_alnum c && matches_rest (d ∷ cs)

abbrev pub slug_max : ℕ
slug_max = 32

-- The error, or none.
unfoldable pub validate_slug : String → Option ChannelsErrorCode
unfolding slug_pattern
validate_slug slug =
    let cs = codes slug in
    if slug == ""
    then some invalid_input
    else if ltb slug_max (utf16_length cs)
    then some invalid_input
    else if slug_pattern cs
    then none
    else some invalid_input

-- The grammar of the header comment: the characters, the two ends, the dashes, the length.
abbrev pub IsSlugChar : ℕ → Type 0
IsSlugChar c = (is_alnum c ≡ true) ⊎ (c ≡ b'-')

abbrev pub NoDoubleDash : List ℕ → Type 0
NoDoubleDash [] = Unit
NoDoubleDash (c ∷ []) = Unit
NoDoubleDash (c ∷ d ∷ cs) = ¬ ((c ≡ b'-') × (d ≡ b'-')) × NoDoubleDash (d ∷ cs)

abbrev pub StartsAlnum : List ℕ → Type 0
StartsAlnum [] = ⊥
StartsAlnum (c ∷ cs) = is_alnum c ≡ true

abbrev pub EndsAlnum : List ℕ → Type 0
EndsAlnum [] = ⊥
EndsAlnum (c ∷ []) = is_alnum c ≡ true
EndsAlnum (c ∷ d ∷ cs) = EndsAlnum (d ∷ cs)

pub record IsSlug (cs : List ℕ) : Type 0 where
  pub chars : All IsSlugChar cs
  pub starts : StartsAlnum cs
  pub ends : EndsAlnum cs
  pub dashes : NoDoubleDash cs
  pub bounded : length cs ≤ slug_max

-- After the first character: the pattern's loop accepts exactly the grammar.
rest_sound :
    (c : ℕ) (cs : List ℕ)
    → matches_rest (c ∷ cs) ≡ true
    → All IsSlugChar (c ∷ cs) × EndsAlnum (c ∷ cs) × NoDoubleDash (c ∷ cs)
unfolding matches_rest
rest_sound c [] h = ((inl h, tt), h, tt)
rest_sound c (d ∷ cs) h =
    let (chars, ends, dashes) = rest_sound d cs (ground arith) in
    ((ground arith, chars), ends, (λ p. ground arith, dashes))

rest_complete :
    (c : ℕ) (cs : List ℕ)
    → All IsSlugChar (c ∷ cs)
    → EndsAlnum (c ∷ cs)
    → NoDoubleDash (c ∷ cs)
    → matches_rest (c ∷ cs) ≡ true
unfolding matches_rest
rest_complete c [] h e n = e
rest_complete c (d ∷ cs) h e n = ground (arith, rest_complete d cs h.1 e n.1)

pattern_sound :
    (cs : List ℕ)
    → slug_pattern cs ≡ true
    → All IsSlugChar cs × StartsAlnum cs × EndsAlnum cs × NoDoubleDash cs
unfolding slug_pattern
pattern_sound [] h = cc
pattern_sound (c ∷ []) h = ((inl h, tt), h, h, tt)
pattern_sound (c ∷ d ∷ cs) h =
    let (chars, ends, dashes) = rest_sound d cs (ground arith) in
    let first : is_alnum c ≡ true = ground arith in
    ((inl first, chars), first, ends, (λ p. ground arith, dashes))

pattern_complete :
    (cs : List ℕ)
    → All IsSlugChar cs
    → StartsAlnum cs
    → EndsAlnum cs
    → NoDoubleDash cs
    → slug_pattern cs ≡ true
unfolding slug_pattern
pattern_complete [] h s e n = absurd s
pattern_complete (c ∷ []) h s e n = e
pattern_complete (c ∷ d ∷ cs) h s e n = ground (arith, rest_complete d cs h.1 e n.1)

length-le-utf16_length : (cs : List ℕ) → length cs ≤ utf16_length cs
length-le-utf16_length [] = omega arith
length-le-utf16_length (c ∷ cs) = ground (arith, length-le-utf16_length cs)

utf16_length-ascii : (cs : List ℕ) → All IsSlugChar cs → utf16_length cs ≡ length cs
utf16_length-ascii [] h = refl
utf16_length-ascii (c ∷ cs) h = ground (arith, utf16_length-ascii cs h.1)

-- `validateSlug` accepts a text exactly if it is a slug by the grammar of the header comment: 1 to
-- 32 characters, each a lower-case letter, a digit or a dash, a letter or digit at both ends, and
-- no two dashes in a row.
pub validate_slug_iff : (slug : String) → (validate_slug slug ≡ none) ↔ IsSlug (codes slug)
unfolding validate_slug
validate_slug_iff slug = (sound, complete)
  where
    sound : validate_slug slug ≡ none → IsSlug (codes slug)
    sound h =
        let (chars, starts, ends, dashes) = pattern_sound (codes slug) (ground arith) in
        record {
          chars = chars;
          starts = starts;
          ends = ends;
          dashes = dashes;
          bounded = ground (arith, length-le-utf16_length (codes slug));
        }

    nonempty : StartsAlnum (codes slug) → slug ≢ ""
    nonempty h e = subst (λ s. StartsAlnum (codes s)) e h

    complete : IsSlug (codes slug) → validate_slug slug ≡ none
    complete v = ground (
      arith,
      nonempty v.starts,
      eq_iff slug "",
      utf16_length-ascii (codes slug) v.chars,
      v.bounded,
      pattern_complete (codes slug) v.chars v.starts v.ends v.dashes,
    )
