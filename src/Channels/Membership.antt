-- ===== src/Channels/Membership.antt =====
-- apps/server/src/channels.ts: `archive` and the changes of membership.
use ac.Channels.Types.{
  ChannelMemberRole, Channel, ChannelMember, not_found, forbidden, not_member, reserved, archived,
  vanished, is_admin, ChannelsThrown,
}
use ac.Channels.Store.{
  ChannelStore, general_channel_id, Reply, throws, get, role_of, admits, get_by_slug,
}
use ac.Channels.Rows.{set_archived, select_member, insert_member, delete_member, select_members}
use ac.Prelude.{
  if◌then◌else◌, is_some, ok, err, keep, ℕ, String, Bool, ◌&&◌, not, none, some, List, ◌==◌,
  is_empty, Option,
}

abbrev pub archive_found : String → String → ℕ → ChannelStore → Channel → Reply Channel
archive_found id actor now s channel =
    if is_some channel.archived_at
    then (ok channel, s)
    else if not (admits (role_of id actor s))
    then throws forbidden s
    else let s' : ChannelStore = record s { channels = set_archived now id s.channels } in
      elim (get id s') [ none ↦ (err vanished, s') | some closed ↦ (ok closed, s') ]

unfoldable pub archive : String → String → ℕ → ChannelStore → Reply Channel
archive id actor now s = if id == general_channel_id then throws reserved s else elim (get id s) [
  | none ↦ throws not_found s
  | some channel ↦ archive_found id actor now s channel
]

abbrev pub member_row : String → String → ChannelMemberRole → ℕ → ChannelMember
member_row channel_id member_name role now = record {
  channel_id = channel_id;
  member_name = member_name;
  role = role;
  joined_at = now;
}

unfoldable pub add_member :
    String → String → ChannelMemberRole → ℕ → ChannelStore → Reply (Unit {0})
add_member channel_id member_name role now s =
    if channel_id == general_channel_id then (ok tt, s) else elim (get channel_id s) [
      | none ↦ throws not_found s
      | some channel ↦ if is_some channel.archived_at then throws archived s else (
        ok tt,
        record s {
          channel_members =
              insert_member (member_row channel_id member_name role now) s.channel_members;
        },
      )
    ]

-- `others` of the last-admin guard, and the guard.
abbrev pub others_of : String → String → List ChannelMember → List ChannelMember
others_of channel_id member_name ms =
    keep (λ m. not (m.member_name == member_name)) (select_members channel_id ms)

abbrev pub orphans : String → String → ChannelMember → List ChannelMember → Bool
orphans channel_id member_name m ms =
    let others = others_of channel_id member_name ms in
    is_admin m.role && (is_empty (keep (λ o. is_admin o.role) others) && not (is_empty others))

unfoldable pub remove_member : String → String → ChannelStore → Reply (Unit {0})
remove_member channel_id member_name s =
    if channel_id == general_channel_id then throws reserved s else elim (get channel_id s) [
      | none ↦ throws not_found s
      | some channel ↦ elim (select_member channel_id member_name s.channel_members) [
        | none ↦ throws not_member s
        | some m ↦
            if orphans channel_id member_name m s.channel_members then throws forbidden s else (
              ok tt,
              record s { channel_members = delete_member channel_id member_name s.channel_members },
            )
      ]
    ]

-- apps/server/src/app.ts, POST /channels/:slug/members: what the handler answers.
pub data AddAnswer : Type 0 where
  no_such_channel only_admins no_such_member : AddAnswer
  failed : ChannelsThrown → AddAnswer
  added : AddAnswer

-- The body, when there is one; `role` has the schema's default in it.
pub record AddMemberBody : Type 0 where
  pub member : String
  pub role : ChannelMemberRole

abbrev answer_of : Reply (Unit {0}) → AddAnswer × ChannelStore
answer_of (err e, s) = (failed e, s)
answer_of (ok _, s) = (added, s)

abbrev target_of : String → Option AddMemberBody → String
target_of caller none = caller
target_of caller (some body) = body.member

abbrev role_for : Option AddMemberBody → ChannelMemberRole
role_for none = ChannelMemberRole.member
role_for (some body) = body.role

-- `team` tells whether a name is a member of the team.
unfoldable pub add_member_route :
    (String → Bool)
    → String
    → String
    → Option AddMemberBody
    → ℕ
    → ChannelStore
    → AddAnswer × ChannelStore
add_member_route team slug caller body now s =
    let target = target_of caller body in
    elim (get_by_slug slug s) [
      | none ↦ (no_such_channel, s)
      | some ch ↦
          if not (target == caller) && not (admits (role_of ch.id caller s))
          then (only_admins, s)
          else if not (target == caller) && not (team target)
          then (no_such_member, s)
          else answer_of (add_member ch.id target (role_for body) now s)
    ]
