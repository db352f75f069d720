-- ===== src/Channels/Types.antt =====
-- The records of apps/server/src/channels.ts, and what its methods throw.
use ac.Prelude.{ℕ, String, Bool, true, false, Option}

pub data ChannelMemberRole : Type 0 where
  admin member : ChannelMemberRole

pub record Channel : Type 0 where
  pub id : String
  pub slug : String
  pub created_by : String
  pub created_at : ℕ
  pub archived_at : Option ℕ

pub record ChannelMember : Type 0 where
  pub channel_id : String
  pub member_name : String
  pub role : ChannelMemberRole
  pub joined_at : ℕ

pub data ChannelsErrorCode : Type 0 where
  not_found invalid_input slug_taken forbidden already_member not_member reserved archived :
      ChannelsErrorCode

-- A `ChannelsError`, a constraint failure of SQLite, or the plain `Error` at the end of `create`.
pub data ChannelsThrown : Type 0 where
  channels_error : ChannelsErrorCode → ChannelsThrown
  sqlite_constraint : ChannelsThrown
  vanished : ChannelsThrown

abbrev pub is_admin : ChannelMemberRole → Bool
is_admin ChannelMemberRole.admin = true
is_admin ChannelMemberRole.member = false
