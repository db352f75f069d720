-- ===== src/Members/Admins.antt =====
-- The administrators among the rows of apps/server/src/team-store.ts.
use ac.Files.Types.{Permission, members_manage}
use ac.Prelude.{
  ℕ, some, List, [], ◌∷◌, String, ok, err, length, keep, All, ◌+◌, ◌≡◌, refl, ap, ◌∙◌, Bool, true,
  false, not, arith, ◌==◌, Bool-cases, Result-cases, inl, inr, map, eq_iff, Result,
}
use ac.Members.Store.{
  is_admin, RawMemberRow, LoadedMember, row_to_loaded, find_row, load_all, came_later, if_member,
}
use ac.Members.Permissions.{has_permission, Presets, resolve_permissions}
use ac.Prelude.Sort.{insert_before, order_by, IsOrdered}

-- Every entry of the row's permissions is known.
abbrev pub resolves : Result String (List Permission) → Bool
resolves (err e) = false
resolves (ok ps) = true

abbrev pub loads : Presets → RawMemberRow → Bool
loads presets r = resolves (resolve_permissions r.raw_permissions presets)

abbrev pub grants_manage : Result String (List Permission) → Bool
grants_manage (err e) = false
grants_manage (ok ps) = has_permission members_manage ps

abbrev pub manages_members : Presets → RawMemberRow → Bool
manages_members presets r = grants_manage (resolve_permissions r.raw_permissions presets)

abbrev pub one_if : Bool → ℕ
one_if true = 1
one_if false = 0

abbrev pub admins : Presets → List RawMemberRow → ℕ
admins presets [] = 0
admins presets (r ∷ rs) = one_if (manages_members presets r) + admins presets rs

abbrev pub Loads : Presets → RawMemberRow → Type 0
Loads presets r = loads presets r ≡ true

-- No two rows have the same name, the primary key.
abbrev pub Apart : RawMemberRow → RawMemberRow → Type 0
Apart x y = (x.name == y.name) ≡ false

module _ (presets : Presets) where
  admins-insert_before :
      (x : RawMemberRow) (rs : List RawMemberRow)
      → admins presets (insert_before came_later x rs) ≡ admins presets (x ∷ rs)
  unfolding insert_before
  admins-insert_before x [] = refl
  admins-insert_before x (r ∷ rs) = ground (arith, admins-insert_before x rs)

  pub admins-order_by :
      (rs : List RawMemberRow) → admins presets (order_by came_later rs) ≡ admins presets rs
  unfolding order_by
  admins-order_by [] = refl
  admins-order_by (r ∷ rs) =
      admins-insert_before r (order_by came_later rs)
      ∙ ap (λ n. one_if (manages_members presets r) + n) (admins-order_by rs)

  row_to_loaded-admin :
      (r : RawMemberRow) (m : LoadedMember)
      → row_to_loaded presets r ≡ ok m
      → is_admin m ≡ manages_members presets r
  unfolding row_to_loaded
  row_to_loaded-admin r m h = elim (Result-cases (resolve_permissions r.raw_permissions presets)) [
    | inl (e, k) ↦ ground (arith, h, k)
    | inr (ps, k) ↦ ground (arith, h, k)
  ]

  row_to_loaded-total :
      (r : RawMemberRow) → Loads presets r → (m : LoadedMember) × (row_to_loaded presets r ≡ ok m)
  unfolding row_to_loaded
  row_to_loaded-total r h = elim (Result-cases (resolve_permissions r.raw_permissions presets)) [
    | inl (e, k) ↦ absurd (ground (arith, h, k))
    | inr (ps, k) ↦ (record { row = r; permissions = ps }, ground (arith, k))
  ]

  -- What is loaded counts as many administrators as the rows.
  pub load_all-admins :
      (rs : List RawMemberRow) (ms : List LoadedMember)
      → load_all presets rs ≡ ok ms
      → length (keep is_admin ms) ≡ admins presets rs
  unfolding load_all
  load_all-admins [] ms h = ground (arith, h)
  load_all-admins (r ∷ rs) ms h = elim (Result-cases (row_to_loaded presets r)) [
    | inl (e, k) ↦ absurd (ground (arith, h, k))
    | inr (m, k) ↦ elim (Result-cases (load_all presets rs)) [
      | inl (e, l) ↦ absurd (ground (arith, h, k, l))
      | inr (ns, l) ↦
          let all : ms ≡ m ∷ ns = ground (arith, h, k, l) in
          rw (all, ← row_to_loaded-admin r m k, ← load_all-admins rs ns l)
            (elim (Bool-cases (is_admin m)) [
              | inl e ↦ rw e (omega arith)
              | inr e ↦ rw e (omega arith)
            ])
    ]
  ]

  pub load_all-total :
      (rs : List RawMemberRow)
      → All (Loads presets) rs
      → (ms : List LoadedMember) × (load_all presets rs ≡ ok ms)
  unfolding load_all
  load_all-total [] h = ([], refl)
  load_all-total (r ∷ rs) h =
      let (m, k) = row_to_loaded-total r h.0 in
      let (ms, l) = load_all-total rs h.1 in (m ∷ ms, ground (arith, k, l))

  none-Apart :
      (x : RawMemberRow) (name : String) (rs : List RawMemberRow)
      → (x.name == name) ≡ true
      → All (Apart x) rs
      → All (λ r. (r.name == name) ≡ false) rs
  none-Apart x name [] e h = tt
  none-Apart x name (r ∷ rs) e h = (
    ground (arith, e, h.0, eq_iff x.name name, eq_iff r.name name, eq_iff x.name r.name),
    none-Apart x name rs e h.1,
  )

  pub keep-absent :
      (name : String) (rs : List RawMemberRow)
      → All (λ r. (r.name == name) ≡ false) rs
      → keep (λ x. not (x.name == name)) rs ≡ rs
  keep-absent name [] h = refl
  keep-absent name (r ∷ rs) h = rw h.0 (ap (λ xs. r ∷ xs) (keep-absent name rs h.1))

  pub update-absent :
      (name : String) (set : RawMemberRow → RawMemberRow) (rs : List RawMemberRow)
      → All (λ r. (r.name == name) ≡ false) rs
      → map (if_member name set) rs ≡ rs
  update-absent name set [] h = refl
  update-absent name set (r ∷ rs) h = rw h.0 (ap (λ xs. r ∷ xs) (update-absent name set rs h.1))

  find_row-here :
      (name : String) (x : RawMemberRow) (rs : List RawMemberRow) (r : RawMemberRow)
      → (x.name == name) ≡ true
      → find_row name (x ∷ rs) ≡ some r
      → x ≡ r
  unfolding find_row
  find_row-here name x rs r e h = ground (arith, h, e)

  pub admins-remove :
      (name : String) (rs : List RawMemberRow) (r : RawMemberRow)
      → IsOrdered Apart rs
      → find_row name rs ≡ some r
      → admins presets (keep (λ x. not (x.name == name)) rs) + one_if (manages_members presets r)
        ≡ admins presets rs
  unfolding find_row
  admins-remove name [] r d h = cc
  admins-remove name (x ∷ rs) r d h = elim (Bool-cases (x.name == name)) [
    | inl e ↦
        rw (e, keep-absent name rs (none-Apart x name rs e d.0))
          (omega
            (arith, ap (λ q. one_if (manages_members presets q)) (find_row-here name x rs r e h)))
    | inr e ↦ rw e (omega (arith, admins-remove name rs r d.1 (ground (arith, h, e))))
  ]

  pub admins-update :
      (name : String) (set : RawMemberRow → RawMemberRow) (rs : List RawMemberRow)
      (r : RawMemberRow)
      → IsOrdered Apart rs
      → find_row name rs ≡ some r
      → admins presets (map (if_member name set) rs) + one_if (manages_members presets r)
        ≡ admins presets rs + one_if (manages_members presets (set r))
  unfolding find_row
  admins-update name set [] r d h = cc
  admins-update name set (x ∷ rs) r d h = elim (Bool-cases (x.name == name)) [
    | inl e ↦
        let same : x ≡ r = find_row-here name x rs r e h in
        rw (e, update-absent name set rs (none-Apart x name rs e d.0))
          (omega (
            arith,
            ap (λ q. one_if (manages_members presets q)) same,
            ap (λ q. one_if (manages_members presets (set q))) same,
          ))
    | inr e ↦ rw e (omega (arith, admins-update name set rs r d.1 (ground (arith, h, e))))
  ]
