-- ===== src/Prelude/Lists.antt =====
-- Lists measured by native numbers, and the Boolean searches that the program makes of its arrays.
use Prim.Native.Nat.{ℕ, zero, suc, ◌+◌, ◌≤◌, min}
use Prim.Native.String.{String}
use mathlib.Core.Path.{◌≡◌, refl, ap, sym, ◌∙◌}
use mathlib.Core.Logic.{inl, inr}
use mathlib.Core.Bool.{true, ◌&&◌, Bool, false, ◌||◌}
use mathlib.Core.List.{List, [], ◌∷◌, ◌++◌, append-nil, append_assoc}
use mathlib.Core.Option.{Option, none, some}
use native.Mathlib.Omega.{arith}
use text.Mathlib.Text.{◌==◌}
use text.Mathlib.TextEquality.{eq_iff}
use ac.Prelude.Tests.{if◌then◌else◌, Bool-cases}

module _ {ℓ} {A : Type ℓ} where
  abbrev pub length : List A → ℕ
  length [] = 0
  length (x ∷ xs) = suc (length xs)

  abbrev pub take : ℕ → List A → List A
  take zero xs = []
  take (suc n) [] = []
  take (suc n) (x ∷ xs) = x ∷ take n xs

  -- `Array.filter` by a Boolean test; one structural call under the test.
  abbrev pub keep : (A → Bool) → List A → List A
  keep p [] = []
  keep p (x ∷ xs) = let rest = keep p xs in if p x then x ∷ rest else rest

  pub length-append : (xs ys : List A) → length (xs ++ ys) ≡ length xs + length ys
  length-append [] ys = omega arith
  length-append (x ∷ xs) ys = omega (arith, length-append xs ys)

  pub length-take : (n : ℕ) (xs : List A) → length (take n xs) ≡ min n (length xs)
  length-take zero xs = omega arith
  length-take (suc n) [] = omega arith
  length-take (suc n) (x ∷ xs) = omega (arith, length-take n xs)

  pub keep-append : (p : A → Bool) (xs ys : List A) → keep p (xs ++ ys) ≡ keep p xs ++ keep p ys
  keep-append p [] ys = refl
  keep-append p (x ∷ xs) ys = ground (arith, keep-append p xs ys)

  pub length-keep-le : (p : A → Bool) (xs : List A) → length (keep p xs) ≤ length xs
  length-keep-le p [] = omega arith
  length-keep-le p (x ∷ xs) = ground (arith, length-keep-le p xs)

-- `xs.length === 0`
abbrev pub is_empty {ℓ} : {A : Type ℓ} → List A → Bool
is_empty [] = true
is_empty (x ∷ xs) = false

-- `xs ?? []`, and `Array.isArray(xs) ? xs : []` for an optional array.
abbrev pub or_empty {ℓ} : {A : Type ℓ} → Option (List A) → List A
or_empty none = []
or_empty (some xs) = xs

-- The items from the last to the first: a loop that counts down, and `Array.reverse`.
abbrev pub backwards {ℓ} : {A : Type ℓ} → List A → List A
backwards [] = []
backwards (x ∷ xs) = backwards xs ++ x ∷ []

-- A predicate of every item, by recursion, so that the tactics read and build it.
abbrev pub All {ℓ κ} : {A : Type ℓ} → (A → Type κ) → List A → Type κ
All P [] = Unit
All P (x ∷ xs) = P x × All P xs

module _ {ℓ κ} {A : Type ℓ} (P : A → Type κ) where
  pub All-of : (xs : List A) → ((x : A) → P x) → All P xs
  All-of [] f = tt
  All-of (x ∷ xs) f = (f x, All-of xs f)

  pub All-append : (xs ys : List A) → All P xs → All P ys → All P (xs ++ ys)
  All-append [] ys hx hy = hy
  All-append (x ∷ xs) ys hx hy = (hx.0, All-append xs ys hx.1 hy)

  pub All-keep : (p : A → Bool) (xs : List A) → All P xs → All P (keep p xs)
  All-keep p [] h = tt
  All-keep p (x ∷ xs) h = ground (arith, All-keep p xs h.1)

module _ {ℓ κ} {A : Type ℓ} (P : A → Type κ) where
  pub All-backwards : (xs : List A) → All P xs → All P (backwards xs)
  All-backwards [] h = tt
  All-backwards (x ∷ xs) h = All-append P (backwards xs) (x ∷ []) (All-backwards xs h.1) (h.0, tt)

  pub All-take : (n : ℕ) (xs : List A) → All P xs → All P (take n xs)
  All-take zero xs h = tt
  All-take (suc n) [] h = tt
  All-take (suc n) (x ∷ xs) h = (h.0, All-take n xs h.1)

  -- What is kept passes the test.
  pub All-keep_test :
      (test : A → Bool) (xs : List A) → ((x : A) → test x ≡ true → P x) → All P (keep test xs)
  All-keep_test test [] f = tt
  All-keep_test test (x ∷ xs) f = elim (Bool-cases (test x)) [
    | inl e ↦ rw e (f x e, All-keep_test test xs f)
    | inr e ↦ rw e (All-keep_test test xs f)
  ]

-- `Array.includes`, and `Set.has` for a set that is kept as the list of its items.
abbrev pub includes : List String → String → Bool
includes [] a = false
includes (x ∷ xs) a = x == a || includes xs a

-- No text stands twice.
abbrev pub IsDistinct : List String → Type 0
IsDistinct [] = Unit
IsDistinct (x ∷ xs) = (includes xs x ≡ false) × IsDistinct xs

pub includes-append :
    (xs ys : List String) (a : String) → includes (xs ++ ys) a ≡ (includes xs a || includes ys a)
includes-append [] ys a = refl
includes-append (x ∷ xs) ys a = ground (arith, includes-append xs ys a)

pub includes-keep-false :
    (p : String → Bool) (xs : List String) (a : String)
    → includes xs a ≡ false
    → includes (keep p xs) a ≡ false
includes-keep-false p [] a h = refl
includes-keep-false p (x ∷ xs) a h = ground (arith, includes-keep-false p xs a)

pub IsDistinct-keep :
    (p : String → Bool) (xs : List String) → IsDistinct xs → IsDistinct (keep p xs)
IsDistinct-keep p [] h = tt
IsDistinct-keep p (x ∷ xs) h =
    ground (arith, IsDistinct-keep p xs h.1, includes-keep-false p xs x h.0)

pub IsDistinct-snoc :
    (xs : List String) (a : String)
    → IsDistinct xs
    → includes xs a ≡ false
    → IsDistinct (xs ++ a ∷ [])
IsDistinct-snoc [] a h k = (refl, tt)
IsDistinct-snoc (x ∷ xs) a h k = ground (
  arith,
  IsDistinct-snoc xs a h.1,
  includes-append xs (a ∷ []) x,
  eq_iff x a,
  eq_iff a x,
  includes-append xs (a ∷ []) a,
)

pub IsDistinct-append :
    (xs ys : List String)
    → IsDistinct xs
    → IsDistinct ys
    → All (λ y. includes xs y ≡ false) ys
    → IsDistinct (xs ++ ys)
IsDistinct-append xs [] h k f = rw append-nil h
IsDistinct-append xs (y ∷ ys) h k f =
    rw (← append_assoc xs (y ∷ []) ys) (
      IsDistinct-append (xs ++ y ∷ []) ys (IsDistinct-snoc xs y h f.0) k.1 (fresh_after ys f.1 k.0))
  where
    fresh_after :
        (zs : List String)
        → All (λ z. includes xs z ≡ false) zs
        → includes zs y ≡ false
        → All (λ z. includes (xs ++ y ∷ []) z ≡ false) zs
    fresh_after [] g n = tt
    fresh_after (z ∷ zs) g n = (
      ground (arith, includes-append xs (y ∷ []) z, eq_iff y z, eq_iff z y),
      fresh_after zs g.1 (ground arith),
    )

module _ {ℓ} {A : Type ℓ} where
  pub keep-keep :
      (p q r : A → Bool) (xs : List A)
      → ((a : A) → r a ≡ (p a && q a))
      → keep q (keep p xs) ≡ keep r xs
  keep-keep p q r [] h = refl
  keep-keep p q r (x ∷ xs) h = ground (arith, keep-keep p q r xs h, h x)

  pub keep_all : (p : A → Bool) (xs : List A) → ((x : A) → p x ≡ true) → keep p xs ≡ xs
  keep_all p [] h = refl
  keep_all p (x ∷ xs) h = rw (h x) (ap (λ ys. x ∷ ys) (keep_all p xs h))

  pub keep-backwards : (p : A → Bool) (xs : List A) → keep p (backwards xs) ≡ backwards (keep p xs)
  keep-backwards p [] = refl
  keep-backwards p (x ∷ xs) = ground (
    arith,
    keep-append p (backwards xs) (x ∷ []),
    keep-backwards p xs,
    append-nil (backwards (keep p xs)),
  )

  -- Tests that agree on the items keep the same ones.
  pub keep_congr : (p q : A → Bool) (xs : List A) → All (λ x. p x ≡ q x) xs → keep p xs ≡ keep q xs
  keep_congr p q [] h = refl
  keep_congr p q (x ∷ xs) h = ground (arith, keep_congr p q xs h.1)

  pub keep_same : {p q : A → Bool} (xs : List A) → ((x : A) → p x ≡ q x) → keep p xs ≡ keep q xs
  keep_same {p} {q} xs h = keep_congr p q xs (All-of (λ x. p x ≡ q x) xs h)

  pub backwards-append : (xs ys : List A) → backwards (xs ++ ys) ≡ backwards ys ++ backwards xs
  backwards-append [] ys = sym (append-nil (backwards ys))
  backwards-append (x ∷ xs) ys =
      ap (λ zs. zs ++ x ∷ []) (backwards-append xs ys)
      ∙ append_assoc (backwards ys) (backwards xs) (x ∷ [])

  pub backwards-backwards : (xs : List A) → backwards (backwards xs) ≡ xs
  backwards-backwards [] = refl
  backwards-backwards (x ∷ xs) =
      backwards-append (backwards xs) (x ∷ []) ∙ ap (λ zs. x ∷ zs) (backwards-backwards xs)
