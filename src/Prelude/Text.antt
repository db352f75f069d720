-- ===== src/Prelude/Text.antt =====
-- `String.prototype.trim` and `Number.prototype.toString(36)`, as the program uses them.
use Prim.Native.Char.{code}
use Prim.Native.Nat.{◌+◌, ◌-◌, ℕ, zero, suc, ◌/◌, ◌%◌}
use Prim.Native.String
use Prim.Native.String.{String, [], ◌∷◌}
use mathlib.Core.Path.{◌≡◌, refl, ap, ◌∙◌}
use mathlib.Core.Bool.{Bool, false, ◌&&◌, ◌||◌}
use mathlib.Core.Logic.{inl, inr}
use text.Mathlib.Text.{◌==◌, char_at?}
use mathlib.Core.Option.{none, some}
use mathlib.Core.List.{List}
use ac.Prelude.Tests.{ltb, leb, eqb, if◌then◌else◌, Bool-cases}

-- The code points that `trim` removes: ECMAScript's WhiteSpace and LineTerminator.
unfoldable pub is_space : ℕ → Bool
is_space c =
    leb 9 c && leb c 13
    || eqb c 32
    || eqb c 0xa0
    || eqb c 0x1680
    || leb 0x2000 c && leb c 0x200a
    || eqb c 0x2028
    || eqb c 0x2029
    || eqb c 0x202f
    || eqb c 0x205f
    || eqb c 0x3000
    || eqb c 0xfeff

trim_start : String → String
unfolding is_space
trim_start [] = []
trim_start (c ∷ s) = let rest = trim_start s in if is_space (code c) then rest else c ∷ s

trim_end : String → String
unfolding is_space
trim_end [] = []
trim_end (c ∷ s) = let rest = trim_end s in if is_space (code c) && rest == "" then "" else c ∷ rest

unfoldable pub trim : String → String
unfolding trim_start trim_end
trim s = trim_end (trim_start s)

-- The text starts with no space.
abbrev StartsClean : String → Type 0
StartsClean [] = Unit
StartsClean (c ∷ s) = is_space (code c) ≡ false

trim_start-StartsClean : (s : String) → StartsClean (trim_start s)
unfolding trim_start
trim_start-StartsClean [] = tt
trim_start-StartsClean (c ∷ s) = elim (Bool-cases (is_space (code c))) [
  | inl h ↦ rw h (trim_start-StartsClean s)
  | inr h ↦ rw h h
]

trim_end-StartsClean : (s : String) → StartsClean s → StartsClean (trim_end s)
unfolding trim_end
trim_end-StartsClean [] h = tt
trim_end-StartsClean (c ∷ s) h = rw h h

trim_start_of_StartsClean : (s : String) → StartsClean s → trim_start s ≡ s
unfolding trim_start
trim_start_of_StartsClean [] h = refl
trim_start_of_StartsClean (c ∷ s) h = rw h

trim_end_idem : (s : String) → trim_end (trim_end s) ≡ trim_end s
unfolding trim_end
trim_end_idem [] = refl
trim_end_idem (c ∷ s) = elim (Bool-cases (is_space (code c) && trim_end s == "")) [
  | inl h ↦ rw h
  | inr h ↦ rw h (rw (trim_end_idem s) (rw h))
]

-- Trimming a trimmed text changes nothing.
pub trim_idem : (s : String) → trim (trim s) ≡ trim s
unfolding trim
trim_idem s =
    ap trim_end (trim_start_of_StartsClean _ (trim_end-StartsClean _ (trim_start-StartsClean s)))
    ∙ trim_end_idem (trim_start s)

-- The characters of a number in base 36, the last digit first on the stack `out`.
digit36 : ℕ → String
digit36 d = elim (char_at? "0123456789abcdefghijklmnopqrstuvwxyz" d) [ none ↦ "" | some c ↦ c ∷ [] ]

digits36 : ℕ → ℕ → String → String
unfolding digit36
digits36 zero n out = out
digits36 (suc fuel) n out =
    let longer = String.◌++◌ (digit36 (n % 36)) out in
    let rest = digits36 fuel (n / 36) longer in if ltb n 36 then longer else rest

-- `n.toString(36)`; a number has fewer digits than its successor.
unfoldable pub to_string36 : ℕ → String
unfolding digits36
to_string36 n = digits36 (suc n) n ""

-- The code points of a text.
abbrev pub codes : String → List ℕ
codes [] = List.[]
codes (c ∷ s) = List.◌∷◌ (code c) (codes s)

-- `slice(0, n)` counts UTF-16 units; half of a pair that is cut is stored as U+FFFD.
unfoldable pub slice_units : ℕ → String → String
slice_units n [] = ""
slice_units n (c ∷ s) =
    let one = slice_units (n - 1) s in
    let two = slice_units (n - 2) s in
    if eqb n 0
    then ""
    else if ltb (code c) 0x10000
    then c ∷ one
    else if eqb n 1
    then "�"
    else c ∷ two

unfoldable pub drop_units : ℕ → String → String
drop_units n [] = ""
drop_units n (c ∷ s) = let rest = drop_units (n - 1) s in if eqb n 0 then c ∷ s else rest

-- `length`, in UTF-16 units.
unfoldable pub length_units : String → ℕ
length_units [] = 0
length_units (c ∷ s) = (if ltb (code c) 0x10000 then 1 else 2) + length_units s
