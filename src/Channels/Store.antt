-- ===== src/Channels/Store.antt =====
-- apps/server/src/channels.ts: the channel store. A method takes the store and returns what it
-- returns or throws, with the store that it leaves.

use mathlib.Core.Option
use ac.Channels.Slug.{validate_slug}
use ac.Channels.Types.{
  ChannelMemberRole, Channel, ChannelMember, ChannelsErrorCode, not_found, slug_taken, forbidden,
  reserved, archived, ChannelsThrown, channels_error, sqlite_constraint, vanished, is_admin,
}
use ac.Channels.Rows.{
  select_by_id, select_by_slug, is_active, slug_held, update_slug, select_member, insert_member,
  select_members,
}
use ac.Prelude.{
  ltb, if◌then◌else◌, is_some, Result, ok, err, keep, ℕ, String, Bool, false, ◌&&◌, ◌||◌, not,
  Option, none, some, List, [], ◌∷◌, ◌++◌, map, ◌==◌,
}
use ac.Prelude.Sort.{order_by}

pub record ChannelStore : Type 0 where
  pub channels : List Channel
  pub channel_members : List ChannelMember

abbrev pub general_channel_id : String
general_channel_id = "general"

abbrev pub general_channel_slug : String
general_channel_slug = "general"

abbrev pub system_actor : String
system_actor = "__system__"

abbrev pub Reply : Type 0 → Type 0
Reply A = Result ChannelsThrown A × ChannelStore

abbrev pub throws : {A : Type 0} → ChannelsErrorCode → ChannelStore → Reply A
throws code s = (err (channels_error code), s)

unfoldable pub get : String → ChannelStore → Option Channel
get id s = select_by_id id s.channels

unfoldable pub get_by_slug : String → ChannelStore → Option Channel
get_by_slug slug s = select_by_slug slug s.channels

-- `insertChannelStmt`, which the primary key and the index on active slugs may refuse.
unfoldable pub insert_channel : Channel → ChannelStore → Option ChannelStore
insert_channel c s =
    if is_some (get c.id s) || slug_held c.id c.slug s.channels
    then none
    else some (record s { channels = s.channels ++ c ∷ [] })

abbrev pub new_channel : String → String → String → ℕ → Channel
new_channel id slug creator now = record {
  id = id;
  slug = slug;
  created_by = creator;
  created_at = now;
  archived_at = none;
}

abbrev pub general_row : ℕ → Channel
general_row = new_channel general_channel_id general_channel_slug system_actor

-- The constructor's `ensureGeneral`; `none` is the constraint failure that it would throw.
unfoldable pub ensure_general : ℕ → ChannelStore → Option ChannelStore
ensure_general now s =
    if is_some (get general_channel_id s) then some s else insert_channel (general_row now) s

-- ORDER BY created_at DESC
abbrev pub newest_first : List Channel → List Channel
newest_first = order_by (λ x y. ltb x.created_at y.created_at)

unfoldable pub list_all : ChannelStore → List Channel
list_all s = newest_first (keep is_active s.channels)

abbrev pub lists_for : String → ChannelStore → Channel → Bool
lists_for member_name s c =
    is_active c
    && (c.id == general_channel_id || is_some (select_member c.id member_name s.channel_members))

unfoldable pub list_for_member : String → ChannelStore → List Channel
list_for_member member_name s = newest_first (keep (lists_for member_name s) s.channels)

unfoldable pub role_of : String → String → ChannelStore → Option ChannelMemberRole
role_of channel_id member_name s =
    if channel_id == general_channel_id
    then some ChannelMemberRole.member
    else Option.map (λ m. m.role) (select_member channel_id member_name s.channel_members)

unfoldable pub is_member : String → String → ChannelStore → Bool
is_member channel_id member_name s =
    channel_id == general_channel_id
    || is_some (select_member channel_id member_name s.channel_members)

unfoldable pub list_members : String → ChannelStore → List ChannelMember
list_members id s = if id == general_channel_id then [] else select_members id s.channel_members

unfoldable pub recipient_names : String → ChannelStore → Option (List String)
recipient_names channel_id s =
    if channel_id == general_channel_id
    then none
    else some (map (λ m. m.member_name) (select_members channel_id s.channel_members))

abbrev pub admits : Option ChannelMemberRole → Bool
admits none = false
admits (some role) = is_admin role

-- `existing && existing.archivedAt === null`
abbrev pub holds_slug : Option Channel → Bool
holds_slug none = false
holds_slug (some c) = is_active c

-- The end of `create`: the two inserts and the read.
abbrev pub insert_with_admin :
    Channel → String → ℕ → ChannelStore → Option ChannelStore → Reply Channel
insert_with_admin c creator now s none = (err sqlite_constraint, s)
insert_with_admin c creator now s (some s') =
    let m : ChannelMember = record {
      channel_id = c.id;
      member_name = creator;
      role = ChannelMemberRole.admin;
      joined_at = now;
    } in
    let s'' : ChannelStore = record s' { channel_members = insert_member m s'.channel_members } in
    elim (get c.id s'') [ none ↦ (err vanished, s'') | some created ↦ (ok created, s'') ]

-- `id` is the UUID that `generateChannelId` draws.
unfoldable pub create : String → String → ℕ → String → ChannelStore → Reply Channel
create slug creator now id s = elim (validate_slug slug) [
  | some code ↦ throws code s
  | none ↦
      if slug == general_channel_slug
      then throws reserved s
      else if holds_slug (get_by_slug slug s)
      then throws slug_taken s
      else insert_with_admin (new_channel id slug creator now) creator now s
          (insert_channel (new_channel id slug creator now) s)
]

-- `collide && collide.id !== id && collide.archivedAt === null`
abbrev pub collides : String → Option Channel → Bool
collides id none = false
collides id (some c) = not (c.id == id) && is_active c

-- `updateSlugStmt`, which the index on active slugs may refuse, and the read.
abbrev pub write_slug : String → String → ChannelStore → Channel → Reply Channel
write_slug id slug s channel =
    if slug_held id slug s.channels
    then (err sqlite_constraint, s)
    else let s' : ChannelStore = record s { channels = update_slug slug id s.channels } in
      elim (get id s') [ none ↦ (err vanished, s') | some renamed ↦ (ok renamed, s') ]

abbrev pub rename_found : String → String → String → ChannelStore → Channel → Reply Channel
rename_found id new_slug actor s channel =
    if is_some channel.archived_at
    then throws archived s
    else if channel.slug == new_slug
    then (ok channel, s)
    else if not (admits (role_of id actor s))
    then throws forbidden s
    else if collides id (get_by_slug new_slug s)
    then throws slug_taken s
    else write_slug id new_slug s channel

unfoldable pub rename : String → String → String → ChannelStore → Reply Channel
rename id new_slug actor s = elim (validate_slug new_slug) [
  | some code ↦ throws code s
  | none ↦
      if id == general_channel_id || new_slug == general_channel_slug
      then throws reserved s
      else elim (get id s) [
        | none ↦ throws not_found s
        | some channel ↦ rename_found id new_slug actor s channel
      ]
]
