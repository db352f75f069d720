-- ===== src/Prelude/Sort.antt =====
-- ORDER BY, as the stores' statements use it.
use mathlib.Core.Path.{◌≡◌, refl, ap, sym, ◌∙◌}
use mathlib.Core.Bool.{Bool, true, false, ◌&&◌}
use mathlib.Core.Logic.{inl, inr}
use mathlib.Core.List.{List, [], ◌∷◌, ◌++◌, Perm, map}
use mathlib.Core.List.Perm
use ac.Prelude.Tests.{if◌then◌else◌, Bool-cases}
use Prim.Native.String.{String}
use native.Mathlib.Omega.{arith}
use ac.Prelude.Lists.{All, All-keep, All-backwards, backwards, keep, keep-keep, is_empty, includes}

-- Stable, as ROWID breaks the ties: `x` goes before the first `y` that must follow it.
module _ {ℓ} {A : Type ℓ} (follows : A → A → Bool) where
  unfoldable pub insert_before : A → List A → List A
  insert_before x [] = x ∷ []
  insert_before x (y ∷ ys) =
      let rest = insert_before x ys in if follows x y then y ∷ rest else x ∷ y ∷ ys

  unfoldable pub order_by : List A → List A
  unfolding insert_before
  order_by [] = []
  order_by (x ∷ xs) = insert_before x (order_by xs)

  insert_before-perm : (x : A) (ys : List A) → Perm (insert_before x ys) (x ∷ ys)
  unfolding insert_before
  insert_before-perm x [] = Perm.refl (x ∷ [])
  insert_before-perm x (y ∷ ys) = elim (Bool-cases (follows x y)) [
    | inl e ↦ rw e (Perm.trans (Perm.cons y (insert_before-perm x ys)) (Perm.swap x y ys))
    | inr e ↦ rw e (Perm.refl (x ∷ y ∷ ys))
  ]

  -- Ordering loses and invents no row.
  pub order_by-perm : (xs : List A) → Perm (order_by xs) xs
  unfolding order_by
  order_by-perm [] = Perm.refl []
  order_by-perm (x ∷ xs) =
      Perm.trans (insert_before-perm x (order_by xs)) (Perm.cons x (order_by-perm xs))

module _ {ℓ} {A : Type ℓ} (follows : A → A → Bool) (p : A → Bool) where
  is_empty-keep-insert_before :
      (x : A) (ys : List A)
      → is_empty (keep p (insert_before follows x ys)) ≡ is_empty (keep p (x ∷ ys))
  unfolding insert_before
  is_empty-keep-insert_before x [] = refl
  is_empty-keep-insert_before x (y ∷ ys) = ground (arith, is_empty-keep-insert_before x ys)

  -- Whether a kind of item occurs does not depend on the order.
  pub is_empty-keep-order_by :
      (xs : List A) → is_empty (keep p (order_by follows xs)) ≡ is_empty (keep p xs)
  unfolding order_by
  is_empty-keep-order_by [] = refl
  is_empty-keep-order_by (x ∷ xs) =
      ground (arith, is_empty-keep-insert_before x (order_by follows xs), is_empty-keep-order_by xs)

pub is_empty-keep-keep-order_by {ℓ} :
    {A : Type ℓ} (follows : A → A → Bool) (p q : A → Bool) (xs : List A)
    → is_empty (keep q (keep p (order_by follows xs))) ≡ is_empty (keep q (keep p xs))
is_empty-keep-keep-order_by follows p q xs =
    ap is_empty (keep-keep p q (λ a. p a && q a) (order_by follows xs) (λ a. refl))
    ∙ is_empty-keep-order_by follows (λ a. p a && q a) xs
    ∙ ap is_empty (sym (keep-keep p q (λ a. p a && q a) xs (λ a. refl)))

module _ {ℓ} {A : Type ℓ} (follows : A → A → Bool) (name : A → String) where
  includes-map-insert_before :
      (x : A) (ys : List A) (a : String)
      → includes (map name (insert_before follows x ys)) a ≡ includes (map name (x ∷ ys)) a
  unfolding insert_before
  includes-map-insert_before x [] a = refl
  includes-map-insert_before x (y ∷ ys) a = ground (arith, includes-map-insert_before x ys a)

  pub includes-map-order_by :
      (xs : List A) (a : String)
      → includes (map name (order_by follows xs)) a ≡ includes (map name xs) a
  unfolding order_by
  includes-map-order_by [] a = refl
  includes-map-order_by (x ∷ xs) a =
      ground
        (arith, includes-map-insert_before x (order_by follows xs) a, includes-map-order_by xs a)

-- Each item comes before all that follow it.
abbrev pub IsOrdered {ℓ κ} : {A : Type ℓ} → (A → A → Type κ) → List A → Type κ
IsOrdered R [] = Unit
IsOrdered R (x ∷ xs) = All (R x) xs × IsOrdered R xs

module _ {ℓ κ} {A : Type ℓ} (follows : A → A → Bool) (P : A → Type κ) where
  All-insert_before : (x : A) (ys : List A) → P x → All P ys → All P (insert_before follows x ys)
  unfolding insert_before
  All-insert_before x [] r h = (r, tt)
  All-insert_before x (y ∷ ys) r h = elim (Bool-cases (follows x y)) [
    | inl e ↦ rw e (h.0, All-insert_before x ys r h.1)
    | inr e ↦ rw e (r, h)
  ]

  pub All-order_by : (xs : List A) → All P xs → All P (order_by follows xs)
  unfolding order_by
  All-order_by [] h = tt
  All-order_by (x ∷ xs) h = All-insert_before x (order_by follows xs) h.0 (All-order_by xs h.1)

pub keep_pairs {ℓ κ} :
    {A : Type ℓ} (R : A → A → Type κ) (p : A → Bool) (xs : List A)
    → IsOrdered R xs
    → IsOrdered R (keep p xs)
keep_pairs R p [] d = tt
keep_pairs R p (x ∷ xs) d = elim (Bool-cases (p x)) [
  | inl e ↦ rw e (All-keep (R x) p xs d.0, keep_pairs R p xs d.1)
  | inr e ↦ rw e (keep_pairs R p xs d.1)
]

-- A relation between every two items, whichever comes first, survives the ordering.
module _ {ℓ κ} {A : Type ℓ} (R : A → A → Type κ) (follows : A → A → Bool)
    (R_sym : (x y : A) → R x y → R y x) where
  insert_before_pairs :
      (x : A) (ys : List A)
      → All (R x) ys
      → IsOrdered R ys
      → IsOrdered R (insert_before follows x ys)
  unfolding insert_before
  insert_before_pairs x [] h d = (tt, tt)
  insert_before_pairs x (y ∷ ys) h d = elim (Bool-cases (follows x y)) [
    | inl e ↦
        rw e (
          All-insert_before follows (R y) x ys (R_sym x y h.0) d.0,
          insert_before_pairs x ys h.1 d.1,
        )
    | inr e ↦ rw e (h, d)
  ]

  pub order_by_pairs : (xs : List A) → IsOrdered R xs → IsOrdered R (order_by follows xs)
  unfolding order_by
  order_by_pairs [] d = tt
  order_by_pairs (x ∷ xs) d =
      insert_before_pairs x (order_by follows xs) (All-order_by follows (R x) xs d.0)
        (order_by_pairs xs d.1)

module _ {ℓ κ} {A : Type ℓ} (R : A → A → Type κ) (follows : A → A → Bool)
    (R_trans : (x y z : A) → R x y → R y z → R x z) (after : (x y : A) → follows x y ≡ true → R y x)
    (before : (x y : A) → follows x y ≡ false → R x y) where
  All-trans : (x y : A) (zs : List A) → R x y → All (R y) zs → All (R x) zs
  All-trans x y [] r h = tt
  All-trans x y (z ∷ zs) r h = (R_trans x y z r h.0, All-trans x y zs r h.1)

  insert_before-IsOrdered :
      (x : A) (ys : List A) → IsOrdered R ys → IsOrdered R (insert_before follows x ys)
  unfolding insert_before
  insert_before-IsOrdered x [] h = (tt, tt)
  insert_before-IsOrdered x (y ∷ ys) h = elim (Bool-cases (follows x y)) [
    | inl e ↦
        rw e
          (All-insert_before follows (R y) x ys (after x y e) h.0, insert_before-IsOrdered x ys h.1)
    | inr e ↦ rw e ((before x y e, All-trans x y ys (before x y e) h.0), h)
  ]

  -- The result is in order.
  pub order_by-IsOrdered : (xs : List A) → IsOrdered R (order_by follows xs)
  unfolding order_by
  order_by-IsOrdered [] = tt
  order_by-IsOrdered (x ∷ xs) =
      insert_before-IsOrdered x (order_by follows xs) (order_by-IsOrdered xs)

-- Where every item must follow all that come after it, ordering turns the list round.
module _ {ℓ} {A : Type ℓ} (follows : A → A → Bool) where
  insert_before_last :
      (x : A) (ys : List A)
      → All (λ y. follows x y ≡ true) ys
      → insert_before follows x ys ≡ ys ++ x ∷ []
  unfolding insert_before
  insert_before_last x [] h = refl
  insert_before_last x (y ∷ ys) h = rw h.0 (ap (λ zs. y ∷ zs) (insert_before_last x ys h.1))

  pub order_by-backwards :
      (xs : List A) → IsOrdered (λ x y. follows x y ≡ true) xs → order_by follows xs ≡ backwards xs
  unfolding order_by
  order_by-backwards [] h = refl
  order_by-backwards (x ∷ xs) h =
      ap (insert_before follows x) (order_by-backwards xs h.1)
      ∙ insert_before_last x (backwards xs) (All-backwards _ xs h.0)
