-- ===== src/Members/Permissions.antt =====
-- `resolvePermissions` of apps/server/src/members.ts.
use ac.Files.Types.{
  Permission, team_manage, members_manage, objectives_create, objectives_cancel,
  objectives_reassign, objectives_watch, activity_read,
}
use ac.Prelude.{
  Bool, false, ◌||◌, if◌then◌else◌, Result, ok, err, keep, Option, none, some, String, List, [],
  ◌∷◌, ◌++◌, ◌==◌,
}

-- `PERMISSIONS`, in its order.
abbrev pub permissions : List Permission
permissions =
    team_manage ∷ members_manage ∷ objectives_create ∷ objectives_cancel ∷ objectives_reassign
    ∷ objectives_watch ∷ activity_read ∷ []

abbrev pub permission_name : Permission → String
permission_name team_manage = "team.manage"
permission_name members_manage = "members.manage"
permission_name objectives_create = "objectives.create"
permission_name objectives_cancel = "objectives.cancel"
permission_name objectives_reassign = "objectives.reassign"
permission_name objectives_watch = "objectives.watch"
permission_name activity_read = "activity.read"

abbrev pub named : String → List Permission → Option Permission
named entry [] = none
named entry (p ∷ ps) =
    let rest = named entry ps in if permission_name p == entry then some p else rest

abbrev pub has_permission : Permission → List Permission → Bool
has_permission p [] = false
has_permission p (q ∷ qs) = permission_name q == permission_name p || has_permission p qs

abbrev pub Presets : Type 0
Presets = List (String × List Permission)

unfoldable pub preset_of : String → Presets → Option (List Permission)
preset_of name [] = none
preset_of name ((n, ps) ∷ presets) =
    let rest = preset_of name presets in if n == name then some ps else rest

-- The leaves of one entry; a name that is neither a leaf nor a preset is an error.
unfoldable pub leaves_of : Presets → String → Option (List Permission)
unfolding preset_of
leaves_of presets entry = elim (named entry permissions) [
  | some p ↦ some (p ∷ [])
  | none ↦ preset_of entry presets
]

-- The leaves of all entries, or the first entry that is unknown.
unfoldable pub collect : Presets → List String → Result String (List Permission)
unfolding leaves_of
collect presets [] = ok []
collect presets (entry ∷ raw) = elim (leaves_of presets entry) [
  | none ↦ err entry
  | some ps ↦ elim (collect presets raw) [ err e ↦ err e | ok qs ↦ ok (ps ++ qs) ]
]

-- In the order of `PERMISSIONS`, each once.
unfoldable pub resolve_permissions : List String → Presets → Result String (List Permission)
unfolding collect
resolve_permissions raw presets = elim (collect presets raw) [
  | err e ↦ err e
  | ok set ↦ ok (keep (λ p. has_permission p set) permissions)
]
