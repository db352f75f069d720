-- ===== src/Members/Deletion.antt =====
-- What `deletePreset` of apps/server/src/team-store.ts does to the members that name the preset.
use ac.Prelude.{
  none, some, List, [], ◌∷◌, String, Option-cases, ok, err, keep, is_empty, includes, ◌≡◌, refl,
  inl, inr, true, false, not, arith, ◌==◌, Bool-cases, Result-cases, ap, ◌∙◌, eq_iff,
}
use ac.Members.Store.{
  has_admin, RawMemberRow, LoadedMember, TeamTables, row_to_loaded, find_row, find_by_name,
  load_all, delete_preset, members_of, came_later,
}
use ac.Members.Admins.{loads, resolves}
use ac.Members.Permissions.{
  permissions, named, Presets, preset_of, leaves_of, collect, resolve_permissions,
}
use ac.Prelude.Sort.{order_by, is_empty-keep-order_by}

preset_of-deleted :
    (name : String) (presets : Presets)
    → preset_of name (keep (λ p. not (p.0 == name)) presets) ≡ none
unfolding preset_of
preset_of-deleted name [] = refl
preset_of-deleted name ((n, ps) ∷ presets) = ground (arith, preset_of-deleted name presets)

leaves_of-deleted :
    (name : String) (presets : Presets)
    → named name permissions ≡ none
    → leaves_of (keep (λ p. not (p.0 == name)) presets) name ≡ none
unfolding leaves_of
leaves_of-deleted name presets h = rw (leaves_of, h) (preset_of-deleted name presets)

collect-unknown :
    (presets : Presets) (name : String) (raw : List String)
    → leaves_of presets name ≡ none
    → includes raw name ≡ true
    → (e : String) × (collect presets raw ≡ err e)
unfolding collect
collect-unknown presets name [] h m = absurd (ground (arith, m))
collect-unknown presets name (x ∷ raw) h m = elim (Option-cases (leaves_of presets x)) [
  | inl k ↦ (x, rw (collect, k) refl)
  | inr (ps, k) ↦
      let other : (x == name) ≡ false = elim (Bool-cases (x == name)) [
        | inl e ↦ absurd (ground (arith, h, k, ap (leaves_of presets) ((eq_iff x name).0 e)))
        | inr e ↦ e
      ] in
      let (e, l) = collect-unknown presets name raw h (ground (arith, m, other)) in
      (e, rw (collect, k, l) refl)
]

resolve-unknown :
    (presets : Presets) (name : String) (raw : List String)
    → leaves_of presets name ≡ none
    → includes raw name ≡ true
    → (e : String) × (resolve_permissions raw presets ≡ err e)
unfolding resolve_permissions
resolve-unknown presets name raw h m =
    let (e, k) = collect-unknown presets name raw h m in (e, rw (resolve_permissions, k) refl)

load_all-unknown :
    (presets : Presets) (rs : List RawMemberRow) (ms : List LoadedMember)
    → load_all presets rs ≡ ok ms
    → is_empty (keep (λ r. not (loads presets r)) rs) ≡ true
unfolding load_all row_to_loaded
load_all-unknown presets [] ms h = refl
load_all-unknown presets (r ∷ rs) ms h =
    elim (Result-cases (resolve_permissions r.raw_permissions presets)) [
      | inl (e, k) ↦ absurd (ground (arith, h, k))
      | inr (ps, k) ↦ elim (Result-cases (load_all presets rs)) [
        | inl (e, l) ↦ absurd (ground (arith, h, k, l))
        | inr (ns, l) ↦ ground (arith, k, load_all-unknown presets rs ns l)
      ]
    ]

found_unloaded :
    (presets : Presets) (member : String) (rs : List RawMemberRow) (row : RawMemberRow)
    → find_row member rs ≡ some row
    → loads presets row ≡ false
    → is_empty (keep (λ r. not (loads presets r)) rs) ≡ false
unfolding find_row
found_unloaded presets member [] row h l = cc
found_unloaded presets member (r ∷ rs) row h l = elim (Bool-cases (r.name == member)) [
  | inl e ↦
      let same : r ≡ row = ground (arith, h, e) in
      let unloaded : loads presets r ≡ false = ap (loads presets) same ∙ l in rw unloaded refl
  | inr e ↦ ground (arith, found_unloaded presets member rs row (ground (arith, h, e)) l)
]

-- Deleting a preset that a member's permissions name makes the reads of that member throw, and with
-- them `members()` and `hasAdmin` for the whole team, whatever the other members are: the name is
-- unknown from then on. The preset's name is not that of a permission.
pub delete_preset-breaks :
    (name member : String) (s : TeamTables) (row : RawMemberRow)
    → named name permissions ≡ none
    → find_row member s.members ≡ some row
    → includes row.raw_permissions name ≡ true
    → ((e : String) × (find_by_name member (delete_preset name s).1 ≡ err e))
      × ((e : String) × (has_admin (delete_preset name s).1 ≡ err e))
unfolding delete_preset
delete_preset-breaks name member s row p h m =
    let presets : Presets = keep (λ p. not (p.0 == name)) s.permission_presets in
    let (e, k) =
      resolve-unknown presets name row.raw_permissions
        (leaves_of-deleted name s.permission_presets p) m in
    let unloaded : loads presets row ≡ false = ap resolves k in
    (
      (e, unfold find_by_name row_to_loaded in ground (arith, h, k)),
      elim (Result-cases (load_all presets (order_by came_later s.members))) [
        | inl (x, l) ↦ (x, unfold has_admin members_of in ground (arith, l))
        | inr (ms, l) ↦ absurd (
            ground (
              arith,
              load_all-unknown presets (order_by came_later s.members) ms l,
              is_empty-keep-order_by came_later (λ r. not (loads presets r)) s.members,
              found_unloaded presets member s.members row h unloaded,
            ))
      ],
    )
