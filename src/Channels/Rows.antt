-- ===== src/Channels/Rows.antt =====
-- The statements that apps/server/src/channels.ts runs on its two tables, which are lists of rows
-- in the order of their ROWID.
use ac.Channels.Types.{ChannelMemberRole, Channel, ChannelMember}
use ac.Prelude.{
  ltb, eqb, if◌then◌else◌, is_some, keep, ℕ, String, Bool, false, ◌&&◌, ◌||◌, not, Option, none,
  some, List, [], ◌∷◌, ◌++◌, ◌==◌,
}
use ac.Prelude.Sort.{order_by}

-- SELECT … FROM channels WHERE id = ?
unfoldable pub select_by_id : String → List Channel → Option Channel
select_by_id id [] = none
select_by_id id (c ∷ rows) = if c.id == id then some c else select_by_id id rows

-- SELECT … FROM channels WHERE slug = ? The index on slugs is partial and cannot serve this
-- statement, so the first row in the order of ROWID answers it, archived or not.
unfoldable pub select_by_slug : String → List Channel → Option Channel
select_by_slug slug [] = none
select_by_slug slug (c ∷ rows) = if c.slug == slug then some c else select_by_slug slug rows

abbrev pub is_active : Channel → Bool
is_active c = not (is_some c.archived_at)

-- The unique index on the slugs of active channels: whether another row than `id` holds the slug.
unfoldable pub slug_held : String → String → List Channel → Bool
slug_held id slug [] = false
slug_held id slug (c ∷ rows) =
    (is_active c && c.slug == slug && not (c.id == id)) || slug_held id slug rows

-- UPDATE channels SET slug = ? WHERE id = ?
unfoldable pub update_slug : String → String → List Channel → List Channel
update_slug slug id [] = []
update_slug slug id (c ∷ rows) =
    (if c.id == id then record c { slug = slug } else c) ∷ update_slug slug id rows

-- UPDATE channels SET archived_at = ? WHERE id = ?
unfoldable pub set_archived : ℕ → String → List Channel → List Channel
set_archived now id [] = []
set_archived now id (c ∷ rows) =
    (if c.id == id then record c { archived_at = some now } else c) ∷ set_archived now id rows

abbrev pub is_row_of : String → String → ChannelMember → Bool
is_row_of channel_id member_name m = m.channel_id == channel_id && m.member_name == member_name

-- SELECT … FROM channel_members WHERE channel_id = ? AND member_name = ?
unfoldable pub select_member : String → String → List ChannelMember → Option ChannelMember
select_member channel_id member_name [] = none
select_member channel_id member_name (m ∷ ms) =
    if is_row_of channel_id member_name m then some m else select_member channel_id member_name ms

-- INSERT OR IGNORE INTO channel_members
unfoldable pub insert_member : ChannelMember → List ChannelMember → List ChannelMember
unfolding select_member
insert_member m ms =
    if is_some (select_member m.channel_id m.member_name ms) then ms else ms ++ m ∷ []

-- DELETE FROM channel_members WHERE channel_id = ? AND member_name = ?
unfoldable pub delete_member : String → String → List ChannelMember → List ChannelMember
delete_member channel_id member_name = keep (λ m. not (is_row_of channel_id member_name m))

-- ORDER BY CASE role WHEN 'admin' THEN 0 ELSE 1 END, joined_at ASC: `y` goes in front of `x`.
abbrev pub role_rank : ChannelMemberRole → ℕ
role_rank ChannelMemberRole.admin = 0
role_rank ChannelMemberRole.member = 1

abbrev pub ranks_before : ChannelMember → ChannelMember → Bool
ranks_before x y =
    ltb (role_rank y.role) (role_rank x.role)
    || eqb (role_rank y.role) (role_rank x.role) && ltb y.joined_at x.joined_at

abbrev pub members_of : String → List ChannelMember → List ChannelMember
members_of channel_id = keep (λ m. m.channel_id == channel_id)

-- SELECT … FROM channel_members WHERE channel_id = ? ORDER BY …
unfoldable pub select_members : String → List ChannelMember → List ChannelMember
select_members channel_id ms = order_by ranks_before (members_of channel_id ms)
