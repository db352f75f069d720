-- ===== src/Channels/Rules.antt =====
-- What apps/server/src/channels.ts promises about admins, slugs and fan-out.
use ac.Channels.Store.{
  create, ChannelStore, general_channel_id, general_channel_slug, get, get_by_slug, insert_channel,
  role_of, is_member, recipient_names, admits, rename, holds_slug,
}
use ac.Channels.Membership.{
  archive, add_member, added, add_member_route, member_row, orphans, remove_member,
}
use ac.Channels.Slug.{validate_slug}
use ac.Channels.Types.{
  ChannelMemberRole, Channel, ChannelMember, ChannelsThrown, sqlite_constraint, is_admin,
  slug_taken, reserved, channels_error,
}
use ac.Channels.Rows.{
  is_active, slug_held, members_of, select_members, select_member, delete_member, ranks_before,
  is_row_of,
}
use ac.Prelude.{
  err, keep, is_empty, includes, ℕ, String, ◌≡◌, ◌≢◌, Bool, true, false, not, none, some, List,
  arith, eq_iff, Bool-cases, Option-cases, is_some, refl, inl, inr, Option, [], ◌∷◌, map, ◌==◌,
  eq_refl, ◌⊎◌, ◌&&◌,
}
use ac.Channels.Effects.{select_member-insert_member, IsKeyed}
use ac.Prelude.Sort.{includes-map-order_by, is_empty-keep-order_by, is_empty-keep-keep-order_by}
use ac.Channels.Change.{remove_member-Removal}
use ac.Channels.Invariant.{IsSound}

abbrev pub has_admin : String → List ChannelMember → Bool
has_admin id ms = not (is_empty (keep (λ m. is_admin m.role) (members_of id ms)))

abbrev pub has_members : String → List ChannelMember → Bool
has_members id ms = not (is_empty (members_of id ms))

-- Who is not an admin of a channel cannot rename it.
pub rename_needs_admin :
    (id slug actor : String) (s : ChannelStore)
    → admits (role_of id actor s) ≡ false
    → (rename id slug actor s).1 ≡ s
unfolding rename
rename_needs_admin id slug actor s h = ground arith

-- Nor archive it.
pub archive_needs_admin :
    (id actor : String) (now : ℕ) (s : ChannelStore)
    → admits (role_of id actor s) ≡ false
    → (archive id actor now s).1 ≡ s
unfolding archive
archive_needs_admin id actor now s h = ground arith

-- A slug that another active channel holds is never given to a new one: `create` throws and leaves
-- the store as it was.
pub create-slug_held :
    (slug creator : String) (now : ℕ) (id : String) (s : ChannelStore)
    → slug_held id slug s.channels ≡ true
    → (e : ChannelsThrown) × (create slug creator now id s ≡ (err e, s))
unfolding create insert_channel
create-slug_held slug creator now id s h = elim (Option-cases (validate_slug slug)) [
  | inr (code, bad) ↦ (channels_error code, rw (create, bad))
  | inl fine ↦ elim (Bool-cases (slug == general_channel_slug)) [
    | inl e ↦ (channels_error reserved, ground arith)
    | inr e ↦ elim (Bool-cases (holds_slug (get_by_slug slug s))) [
      | inl t ↦ (channels_error slug_taken, ground arith)
      | inr t ↦ (sqlite_constraint, ground arith)
    ]
  ]
]

-- An archived channel that comes first under a valid slug, other than general, hides the active one
-- from the check: `create` then throws the constraint failure of SQLite in place of `slug_taken`.
pub create-hidden_by_archived :
    (slug creator : String) (now : ℕ) (id : String) (s : ChannelStore) (c : Channel)
    → validate_slug slug ≡ none
    → slug ≢ general_channel_slug
    → get_by_slug slug s ≡ some c
    → is_active c ≡ false
    → slug_held id slug s.channels ≡ true
    → create slug creator now id s ≡ (err sqlite_constraint, s)
unfolding create insert_channel
create-hidden_by_archived slug creator now id s c v g f a h =
    ground (arith, eq_iff slug general_channel_slug)

includes-members_of :
    (id : String) (ms : List ChannelMember) (a : String)
    → includes (map (λ m. m.member_name) (members_of id ms)) a ≡ is_some (select_member id a ms)
unfolding select_member
includes-members_of id [] a = refl
includes-members_of id (m ∷ ms) a = ground (arith, includes-members_of id ms a)

-- Whether a fan-out list reaches `a`; no list stands for everybody.
abbrev pub reaches : Option (List String) → String → Bool
reaches none a = true
reaches (some names) a = includes names a

-- The fan-out of a channel reaches exactly its members: everybody in general, and in any other
-- channel those that the store holds.
pub recipient_names_lem :
    (id : String) (s : ChannelStore) (a : String)
    → reaches (recipient_names id s) a ≡ is_member id a s
unfolding recipient_names is_member select_members
recipient_names_lem id s a = ground (
  arith,
  includes-map-order_by ranks_before (λ (m : ChannelMember). m.member_name)
      (members_of id s.channel_members) a,
  includes-members_of id s.channel_members a,
)

-- The handler lets a caller who is no member of an active channel, other than general, join it as an
-- admin: the role of the body is taken also where the target is the caller.
pub add_member_route-self_admin :
    (team : String → Bool) (slug caller : String) (now : ℕ) (s : ChannelStore) (c : Channel)
    → get_by_slug slug s ≡ some c
    → get c.id s ≡ some c
    → is_active c ≡ true
    → c.id ≢ general_channel_id
    → is_member c.id caller s ≡ false
    → let (answer, s') =
        add_member_route team slug caller
          (some (record { member = caller; role = ChannelMemberRole.admin }))
          now
          s in
      (answer ≡ added) × (role_of c.id caller s' ≡ some ChannelMemberRole.admin)
unfolding add_member_route add_member role_of is_member
add_member_route-self_admin team slug caller now s c f g a n m =
    let row = member_row c.id caller ChannelMemberRole.admin now in
    let q = select_member-insert_member c.id caller row s.channel_members in
    (
      ground (arith, eq_refl caller, eq_iff c.id general_channel_id),
      ground (arith, eq_refl caller, eq_refl c.id, eq_iff c.id general_channel_id, q),
    )

-- The removal of `name` from `id`, seen by the reads of the guard.
delete_member-members_of :
    (id name : String) (ms : List ChannelMember)
    → members_of id (delete_member id name ms)
      ≡ keep (λ m. not (m.member_name == name)) (members_of id ms)
unfolding delete_member
delete_member-members_of id name [] = refl
delete_member-members_of id name (m ∷ ms) = ground (arith, delete_member-members_of id name ms)

absent_stays :
    (id name : String) (ms : List ChannelMember)
    → select_member id name ms ≡ none
    → keep (λ x. not (x.member_name == name)) (members_of id ms) ≡ members_of id ms
unfolding select_member
absent_stays id name [] h = refl
absent_stays id name (x ∷ ms) h = ground (arith, absent_stays id name ms)

-- Where the removed member is no admin, the admins stay.
admins_stay :
    (id name : String) (ms : List ChannelMember) (m : ChannelMember)
    → IsKeyed ms
    → select_member id name ms ≡ some m
    → is_admin m.role ≡ false
    → keep (λ x. is_admin x.role) (keep (λ x. not (x.member_name == name)) (members_of id ms))
      ≡ keep (λ x. is_admin x.role) (members_of id ms)
unfolding select_member
admins_stay id name [] m k h a = refl
admins_stay id name (x ∷ ms) m k h a = elim (Bool-cases (is_row_of id name x)) [
  | inl e ↦
      let first : x ≡ m = ground arith in
      let gone : select_member id name ms ≡ none =
        ground (arith, eq_iff x.channel_id id, eq_iff x.member_name name) in
      ground (arith, absent_stays id name ms gone)
  | inr e ↦ ground (arith, admins_stay id name ms m k.1)
]

-- The guard of `removeMember`, read on the stored rows.
orphans_lem :
    (id name : String) (m : ChannelMember) (ms : List ChannelMember)
    → orphans id name m ms ≡ (
        is_admin m.role
        && (not (has_admin id (delete_member id name ms))
            && has_members id (delete_member id name ms)))
unfolding select_members
orphans_lem id name m ms =
    let named = λ (x : ChannelMember). not (x.member_name == name) in
    let admins = λ (x : ChannelMember). is_admin x.role in
    ground (
      arith,
      is_empty-keep-keep-order_by ranks_before named admins (members_of id ms),
      is_empty-keep-order_by ranks_before named (members_of id ms),
      delete_member-members_of id name ms,
    )

after_removal :
    (id name : String) (ms : List ChannelMember) (m : ChannelMember)
    → IsKeyed ms
    → select_member id name ms ≡ some m
    → orphans id name m ms ≡ false
    → has_admin id ms ≡ true
    → (has_members id (delete_member id name ms) ≡ false)
      ⊎ (has_admin id (delete_member id name ms) ≡ true)
after_removal id name ms m k f o a = elim (Bool-cases (is_admin m.role)) [
  | inl boss ↦ ground (arith, orphans_lem id name m ms)
  | inr plain ↦ inr (rw (delete_member-members_of id name ms, admins_stay id name ms m k f plain) a)
]

-- After a removal from a sound store, refused or not, a channel that had an admin still has one, or
-- has no members.
pub remove_member-has_admin :
    (id name : String) (s : ChannelStore)
    → IsSound s
    → has_admin id s.channel_members ≡ true
    → (has_members id (remove_member id name s).1.channel_members ≡ false)
      ⊎ (has_admin id (remove_member id name s).1.channel_members ≡ true)
remove_member-has_admin id name s h a = elim (remove_member-Removal id name s) [
  | inl e ↦ inr (rw e a)
  | inr (m, g, f, o, e) ↦ rw e (after_removal id name s.channel_members m h.members_keyed f o a)
]
