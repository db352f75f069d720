-- ===== src/Members/Tests.antt =====
-- The members of apps/server/src/team-store.ts at a concrete team.
use ac.Files.Types.{members_manage, activity_read}
use ac.Tokens.Store.{TokenStore}
use ac.Members.Permissions.{resolve_permissions, collect, leaves_of, preset_of}
use ac.Members.Store.{
  has_admin, members_of, RawMemberRow, TeamTables, row_to_loaded, find_row, find_by_name, load_all,
  delete_preset, UpdateMemberPatch, Server, delete_member_route, update_member_route, Answered,
  update_stmt, patch_start,
}
use ac.Members.Updating.{update_member_route-IsGoverned}
use ac.Members.Governed.{IsGoverned, delete_member_route-IsGoverned}
use ac.Members.Deletion.{delete_preset-breaks}
use ac.Prelude.{ok, err, String, ◌≡◌, refl, true, none, some, [], ◌∷◌, arith, false}
use ac.Prelude.Sort.{order_by}
use ac.Members.Creation.{AddMemberInput, create_member_route}

abbrev ada : RawMemberRow
ada = record {
  name = "ada";
  role_title = "director";
  role_description = "";
  instructions = "";
  raw_permissions = "admin" ∷ [];
  totp_secret = none;
  totp_last_counter = 0;
  insertion_order = 0;
  created_at = 1;
  updated_at = 1;
}

abbrev bob : RawMemberRow
bob = record ada {
  name = "bob";
  role_title = "engineer";
  raw_permissions = "activity.read" ∷ [];
  insertion_order = 1;
}

abbrev team : TeamTables
team = record {
  permission_presets = ("admin", members_manage ∷ activity_read ∷ []) ∷ [];
  members = ada ∷ bob ∷ [];
}

abbrev tokens : TokenStore
tokens = record { tokens = []; last_touched = [] }

abbrev server : Server
server = record { team = team; tokens = tokens }

team-IsGoverned : IsGoverned team
unfolding resolve_permissions collect leaves_of preset_of
team-IsGoverned = record {
  all_load = (refl, (refl, tt));
  names_apart = ((refl, tt), (tt, tt));
  one_admin = omega arith;
}

delete_member_route-IsGoverned_example :
    IsGoverned (delete_member_route (members_manage ∷ []) true (some "ada") server).1.team
    × (has_admin (delete_member_route (members_manage ∷ []) true (some "ada") server).1.team
        ≡ ok true)
delete_member_route-IsGoverned_example =
    delete_member_route-IsGoverned (members_manage ∷ []) true (some "ada") server team-IsGoverned

abbrev demotion : UpdateMemberPatch
demotion = record {
  role = none;
  instructions = none;
  raw_permissions = some ("activity.read" ∷ []);
}

update_member_route-IsGoverned_example :
    IsGoverned
      (update_member_route
        (members_manage ∷ [])
        true
        (some "ada")
        (some demotion)
        true
        2
        server
        server).1.team
    × (has_admin
          (update_member_route
            (members_manage ∷ [])
            true
            (some "ada")
            (some demotion)
            true
            2
            server
            server).1.team
        ≡ ok true)
update_member_route-IsGoverned_example =
    update_member_route-IsGoverned (members_manage ∷ []) true "ada" (some demotion) true 2 server
      server (λ r h a. (r, h, a)) team-IsGoverned

-- While the route waits for the body, bob becomes an administrator and ada goes.
abbrev bob_leads : Server
bob_leads = record server {
  team = record team { members = record bob { raw_permissions = "admin" ∷ [] } ∷ [] };
}

-- Then the guard looks at what bob was, and the team is left without an administrator.
stale_guard :
    has_admin
      (update_member_route
        (members_manage ∷ [])
        true
        (some "bob")
        (some demotion)
        true
        2
        server
        bob_leads).1.team
    ≡ ok false
unfolding has_admin update_member_route patch_start find_by_name find_row row_to_loaded
    resolve_permissions collect leaves_of preset_of members_of load_all update_stmt
    ac.Prelude.Sort.order_by
stale_guard = refl

delete_preset-breaks_example :
    ((e : String) × (find_by_name "ada" (delete_preset "admin" team).1 ≡ err e))
    × ((e : String) × (has_admin (delete_preset "admin" team).1 ≡ err e))
unfolding find_row
delete_preset-breaks_example = delete_preset-breaks "admin" "ada" team ada refl refl refl

-- The last administrator can neither go nor lose the permission.
last_admin_stays : (delete_member_route (members_manage ∷ []) true (some "ada") server).0 ≡ 409
unfolding delete_member_route find_by_name find_row row_to_loaded resolve_permissions collect
    leaves_of preset_of members_of load_all ac.Prelude.Sort.order_by
last_admin_stays = refl

bob_goes : (delete_member_route (members_manage ∷ []) true (some "bob") server).0 ≡ 204
unfolding delete_member_route find_by_name find_row row_to_loaded resolve_permissions collect
    leaves_of preset_of
bob_goes = refl

abbrev carol : AddMemberInput
carol = record {
  name = "carol";
  role_title = "writer";
  role_description = "";
  instructions = "";
  raw_permissions = "admin" ∷ [];
  totp_secret = none;
}

abbrev after_carol : Answered
after_carol =
    create_member_route (λ t. t) "ada" (record { raw = "ac7_1"; id = "t1" }) 5 (members_manage ∷ [])
      true (some carol) true server
