-- ===== src/Channels/Tests.antt =====
-- Runs of the store of apps/server/src/channels.ts, and its theorems at concrete histories.
use ac.Channels.Store.{
  create, ChannelStore, get, get_by_slug, insert_channel, new_channel, general_row, role_of,
  is_member, recipient_names, admits, rename,
}
use ac.Channels.History.{
  fresh_store, fresh_store-IsSound, Call, create_call, rename_call, archive_call, add_call,
  remove_call, run_calls, run_calls-IsSound,
}
use ac.Channels.Invariant.{IsSound}
use ac.Channels.Membership.{archive, member_row, add_member, remove_member, added, add_member_route}
use ac.Channels.Rules.{
  has_admin, has_members, rename_needs_admin, archive_needs_admin, create-slug_held, reaches,
  recipient_names_lem, add_member_route-self_admin, remove_member-has_admin,
}
use ac.Channels.Slug.{validate_slug, IsSlug, validate_slug_iff}
use ac.Channels.Types.{ChannelMemberRole, Channel, invalid_input, ChannelsThrown}
use ac.Channels.Rows.{
  select_by_id, select_by_slug, slug_held, update_slug, set_archived, select_member, insert_member,
  delete_member, select_members,
}
use ac.Prelude.{err, ◌≡◌, refl, ◌↔◌, ◌⊎◌, true, false, none, some, List, [], ◌∷◌, arith, eq_iff}
use ac.Prelude.Text.{codes}
use ac.Prelude.Sort.{order_by}

-- All that a run computes with.
channel_runs : Unit {0}
unfolding run_calls create rename archive add_member remove_member insert_channel get get_by_slug
    validate_slug slug_held role_of is_member select_by_id select_by_slug update_slug set_archived
    insert_member select_member select_members delete_member order_by recipient_names
    add_member_route
channel_runs = tt

abbrev reuse : List Call
reuse =
    create_call "ops" "ann" 1 "c1"
    ∷ archive_call "c1" "ann" 2
    ∷ create_call "ops" "bob" 3 "c2"
    ∷ add_call "c2" "eve" ChannelMemberRole.member 4
    ∷ remove_call "c2" "bob"
    ∷ rename_call "c2" "ops--x" "bob"
    ∷ []

abbrev reused : ChannelStore
reused = run_calls reuse (fresh_store 0)

abbrev first_ops : Channel
first_ops = record (new_channel "c1" "ops" "ann" 1) { archived_at = some 2 }

abbrev second_ops : Channel
second_ops = new_channel "c2" "ops" "bob" 3

reused_rows :
    (reused.channels ≡ general_row 0 ∷ first_ops ∷ second_ops ∷ [])
    × (reused.channel_members
        ≡ member_row "c1" "ann" ChannelMemberRole.admin 1
          ∷ member_row "c2" "bob" ChannelMemberRole.admin 3
          ∷ member_row "c2" "eve" ChannelMemberRole.member 4
          ∷ [])
unfolding channel_runs
reused_rows = (refl, refl)

run_calls-IsSound_example : IsSound reused
run_calls-IsSound_example = run_calls-IsSound reuse (fresh_store 0) (fresh_store-IsSound 0)

validate_slug_iff_example : (validate_slug "ops-2" ≡ none) ↔ IsSlug (codes "ops-2")
validate_slug_iff_example = validate_slug_iff "ops-2"

bad_slugs :
    (validate_slug "" ≡ some invalid_input)
    × (validate_slug "-a" ≡ some invalid_input)
    × (validate_slug "a--b" ≡ some invalid_input)
    × (validate_slug "a-" ≡ some invalid_input)
    × (validate_slug "Ops" ≡ some invalid_input)
    × (validate_slug "abcdefghijklmnopqrstuvwxyz0123456" ≡ some invalid_input)
unfolding validate_slug
bad_slugs = (refl, refl, refl, refl, refl, refl)

ops_facts :
    (validate_slug "ops" ≡ none)
    × (get_by_slug "ops" reused ≡ some first_ops)
    × (slug_held "c3" "ops" reused.channels ≡ true)
unfolding channel_runs
ops_facts = (refl, refl, refl)

create-slug_held_example :
    (e : ChannelsThrown) × (create "ops" "eve" 5 "c3" reused ≡ (err e, reused))
create-slug_held_example = create-slug_held "ops" "eve" 5 "c3" reused ops_facts.2

eve_is_no_admin : admits (role_of "c2" "eve" reused) ≡ false
unfolding channel_runs
eve_is_no_admin = refl

rename_needs_admin_example : (rename "c2" "eves" "eve" reused).1 ≡ reused
rename_needs_admin_example = rename_needs_admin "c2" "eves" "eve" reused eve_is_no_admin

archive_needs_admin_example : (archive "c2" "eve" 9 reused).1 ≡ reused
archive_needs_admin_example = archive_needs_admin "c2" "eve" 9 reused eve_is_no_admin

recipient_names_lem_example :
    reaches (recipient_names "c2" reused) "ann" ≡ is_member "c2" "ann" reused
recipient_names_lem_example = recipient_names_lem "c2" reused "ann"

c2_has_admin : has_admin "c2" reused.channel_members ≡ true
unfolding channel_runs
c2_has_admin = refl

remove_member-has_admin_example :
    (has_members "c2" (remove_member "c2" "bob" reused).1.channel_members ≡ false)
    ⊎ (has_admin "c2" (remove_member "c2" "bob" reused).1.channel_members ≡ true)
remove_member-has_admin_example =
    remove_member-has_admin "c2" "bob" reused run_calls-IsSound_example c2_has_admin

abbrev open_ops : ChannelStore
open_ops = run_calls (create_call "ops" "ann" 1 "c1" ∷ []) (fresh_store 0)

open_ops_facts :
    (get_by_slug "ops" open_ops ≡ some (new_channel "c1" "ops" "ann" 1))
    × (get "c1" open_ops ≡ some (new_channel "c1" "ops" "ann" 1))
    × (is_member "c1" "eve" open_ops ≡ false)
unfolding channel_runs
open_ops_facts = (refl, refl, refl)

add_member_route-self_admin_example :
    let (answer, s') =
      add_member_route
        (λ name. true)
        "ops"
        "eve"
        (some (record { member = "eve"; role = ChannelMemberRole.admin }))
        7
        open_ops in
    (answer ≡ added) × (role_of "c1" "eve" s' ≡ some ChannelMemberRole.admin)
add_member_route-self_admin_example =
    add_member_route-self_admin (λ name. true) "ops" "eve" 7 open_ops
      (new_channel "c1" "ops" "ann" 1) open_ops_facts.0 open_ops_facts.1 refl
      (ground (arith, eq_iff "c1" "general")) open_ops_facts.2
