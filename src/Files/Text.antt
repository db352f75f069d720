-- ===== src/Files/Text.antt =====
-- The texts of apps/server/src/files/paths.ts, as lists of UTF-16 code units.
use ac.Prelude.{
  eqb, if◌then◌else◌, Bool-cases, length, keep, length-append, All, ℕ, suc, ◌+◌, ◌≤◌, ◌≡◌, refl, ap,
  ◌∙◌, ◌≢◌, inl, inr, Bool, List, [], ◌∷◌, ◌++◌, append-nil, arith,
}
use ac.Prelude.Codes.{Text}

-- `split(sep)`: the pieces between the separators, one at least.
abbrev pub onto_first : ℕ → List Text → List Text
onto_first c [] = (c ∷ []) ∷ []
onto_first c (x ∷ xs) = (c ∷ x) ∷ xs

unfoldable pub split : ℕ → Text → List Text
split sep [] = [] ∷ []
split sep (c ∷ cs) = let rest = split sep cs in if eqb c sep then [] ∷ rest else onto_first c rest

-- `'/' + pieces.join('/')` for one piece at least.
unfoldable pub joined : List Text → Text
joined [] = []
joined (s ∷ ss) = b'/' ∷ (s ++ joined ss)

abbrev pub Lacks : ℕ → Text → Type 0
Lacks sep [] = Unit
Lacks sep (c ∷ cs) = (c ≢ sep) × Lacks sep cs

split-Lacks-append :
    (sep : ℕ) (a b : Text) → Lacks sep a → split sep (a ++ sep ∷ b) ≡ a ∷ split sep b
unfolding split
split-Lacks-append sep [] b h = ground arith
split-Lacks-append sep (c ∷ cs) b h = ground (arith, split-Lacks-append sep cs b h.1)

split-Lacks : (sep : ℕ) (a : Text) → Lacks sep a → split sep a ≡ a ∷ []
unfolding split
split-Lacks sep [] h = refl
split-Lacks sep (c ∷ cs) h = ground (arith, split-Lacks sep cs h.1)

split-rest :
    (s : Text) (ss : List Text)
    → Lacks b'/' s
    → All (Lacks b'/') ss
    → split b'/' (s ++ joined ss) ≡ s ∷ ss
unfolding joined
split-rest s [] h k = rw append-nil (split-Lacks b'/' s h)
split-rest s (t ∷ ts) h k =
    split-Lacks-append b'/' s (t ++ joined ts) h ∙ ap (λ xs. s ∷ xs) (split-rest t ts k.0 k.1)

-- Splitting joined pieces gives them back, behind the empty piece before the first separator.
pub split-joined :
    (ss : List Text) → ss ≢ [] → All (Lacks b'/') ss → split b'/' (joined ss) ≡ [] ∷ ss
unfolding joined split
split-joined [] n h = absurd (n refl)
split-joined (s ∷ ss) n h = ap (λ xs. [] ∷ xs) (split-rest s ss h.0 h.1)

pub length-joined-split : (sep : ℕ) (t : Text) → length (joined (split sep t)) ≡ length t + 1
unfolding joined split
length-joined-split sep [] = omega arith
length-joined-split sep (c ∷ cs) = elim (Bool-cases (eqb c sep)) [
  | inl e ↦ rw e (omega (arith, length-joined-split sep cs))
  | inr e ↦ rw e (onto (split sep cs) (length-joined-split sep cs))
]
  where
    onto :
        (xs : List Text)
        → length (joined xs) ≡ length cs + 1
        → length (joined (onto_first c xs)) ≡ suc (length cs) + 1
    onto [] h = omega (arith, h)
    onto (x ∷ xs) h = omega (arith, h)

pub length-joined-keep-le :
    (p : Text → Bool) (ss : List Text) → length (joined (keep p ss)) ≤ length (joined ss)
unfolding joined
length-joined-keep-le p [] = omega arith
length-joined-keep-le p (s ∷ ss) = elim (Bool-cases (p s)) [
  | inl e ↦ rw e (
      omega (
        arith,
        length-append s (joined (keep p ss)),
        length-append s (joined ss),
        length-joined-keep-le p ss,
      ))
  | inr e ↦ rw e (omega (arith, length-append s (joined ss), length-joined-keep-le p ss))
]

pub split-All-Lacks : (sep : ℕ) (t : Text) → All (Lacks sep) (split sep t)
unfolding split
split-All-Lacks sep [] = (tt, tt)
split-All-Lacks sep (c ∷ cs) = elim (Bool-cases (eqb c sep)) [
  | inl e ↦ rw e (tt, split-All-Lacks sep cs)
  | inr e ↦ rw e (onto (split sep cs) (split-All-Lacks sep cs) (ground (arith, e)))
]
  where
    onto : (xs : List Text) → All (Lacks sep) xs → c ≢ sep → All (Lacks sep) (onto_first c xs)
    onto [] h n = ((n, tt), tt)
    onto (x ∷ xs) h n = ((n, h.0), h.1)
