-- ===== src/Channels/Change.antt =====
-- What a method of apps/server/src/channels.ts may do to the store, and that it does nothing else.
use ac.Channels.Membership.{member_row, orphans, archive_found, archive, add_member, remove_member}
use ac.Channels.Slug.{IsSlug, validate_slug, validate_slug_iff}
use ac.Channels.Types.{ChannelMemberRole, Channel, ChannelMember, ChannelsThrown}
use ac.Channels.Store.{
  ChannelStore, general_channel_id, Reply, get, insert_channel, new_channel, role_of, admits,
  insert_with_admin, create, general_channel_slug, get_by_slug, holds_slug, collides, write_slug,
  rename_found, rename,
}
use ac.Channels.Rows.{
  slug_held, update_slug, set_archived, select_member, insert_member, delete_member,
}
use ac.Prelude.{
  Bool-cases, is_some, ok, err, ℕ, String, ◌≡◌, refl, ap, ◌≢◌, inl, inr, true, false, ◌||◌, Option,
  none, some, [], ◌∷◌, ◌++◌, Option-cases, arith, ◌==◌, eq_iff, ◌⊎◌,
}
use ac.Prelude.Text.{codes}

pub data Change (s s' : ChannelStore) : Type 0 where
  same : s' ≡ s → Change s s'
  founded :
      (slug creator : String) (now : ℕ) (id : String)
      → get id s ≡ none
      → slug_held id slug s.channels ≡ false
      → IsSlug (codes slug)
      → s' ≡ record {
        channels = s.channels ++ new_channel id slug creator now ∷ [];
        channel_members =
            insert_member (member_row id creator ChannelMemberRole.admin now) s.channel_members;
      }
      → Change s s'
  renamed :
      (id slug actor : String)
      → id ≢ general_channel_id
      → admits (role_of id actor s) ≡ true
      → slug_held id slug s.channels ≡ false
      → IsSlug (codes slug)
      → s' ≡ record s { channels = update_slug slug id s.channels }
      → Change s s'
  closed :
      (id actor : String) (now : ℕ)
      → id ≢ general_channel_id
      → admits (role_of id actor s) ≡ true
      → s' ≡ record s { channels = set_archived now id s.channels }
      → Change s s'
  joined :
      (id name : String) (role : ChannelMemberRole) (now : ℕ)
      → id ≢ general_channel_id
      → s' ≡ record s {
        channel_members = insert_member (member_row id name role now) s.channel_members;
      }
      → Change s s'
  left :
      (id name : String) (m : ChannelMember)
      → id ≢ general_channel_id
      → select_member id name s.channel_members ≡ some m
      → orphans id name m s.channel_members ≡ false
      → s' ≡ record s { channel_members = delete_member id name s.channel_members }
      → Change s s'

-- The read at the end of a method leaves the store that was written.
read_leaves :
    (o : Option Channel) (s' : ChannelStore) (e : ChannelsThrown) (r : Reply Channel)
    → r ≡ elim o [ none ↦ (err e, s') | some c ↦ (ok c, s') ]
    → r.1 ≡ s'
read_leaves none s' e r h = ap (λ x. x.1) h
read_leaves (some c) s' e r h = ap (λ x. x.1) h

insert_with_admin-Change :
    (slug creator : String) (now : ℕ) (id : String) (s : ChannelStore)
    → IsSlug (codes slug)
    → Change s
        (insert_with_admin
          (new_channel id slug creator now)
          creator
          now
          s
          (insert_channel (new_channel id slug creator now) s)).1
unfolding insert_channel
insert_with_admin-Change slug creator now id s v =
    elim (Bool-cases (is_some (get id s) || slug_held id slug s.channels)) [
      | inl taken ↦ rw taken (same refl)
      | inr free ↦
          rw free
            (founded slug creator now id (ground arith) (ground arith) v (read_leaves _ _ _ _ refl))
    ]

valid-IsSlug : (slug : String) → validate_slug slug ≡ none → IsSlug (codes slug)
valid-IsSlug slug h = (validate_slug_iff slug).0 h

not_general : (id : String) → (id == general_channel_id) ≡ false → id ≢ general_channel_id
not_general id h = ground (arith, eq_iff id general_channel_id)

pub create-Change :
    (slug creator : String) (now : ℕ) (id : String) (s : ChannelStore)
    → Change s (create slug creator now id s).1
unfolding create
create-Change slug creator now id s = elim (Option-cases (validate_slug slug)) [
  | inr (code, bad) ↦ rw (create, bad) (same refl)
  | inl fine ↦
      rw (create, fine)
        (elim (Bool-cases (slug == general_channel_slug)) [
          | inl e ↦ rw e (same refl)
          | inr e ↦ rw e (elim (Bool-cases (holds_slug (get_by_slug slug s))) [
            | inl t ↦ rw t (same refl)
            | inr t ↦ rw t (insert_with_admin-Change slug creator now id s (valid-IsSlug slug fine))
          ])
        ])
]

write_slug-Change :
    (id slug actor : String) (s : ChannelStore) (c : Channel)
    → id ≢ general_channel_id
    → admits (role_of id actor s) ≡ true
    → IsSlug (codes slug)
    → Change s (write_slug id slug s c).1
write_slug-Change id slug actor s c g a v = elim (Bool-cases (slug_held id slug s.channels)) [
  | inl h ↦ rw h (same refl)
  | inr h ↦ rw h (renamed id slug actor g a h v (read_leaves _ _ _ _ refl))
]

rename_found-Change :
    (id slug actor : String) (s : ChannelStore) (c : Channel)
    → id ≢ general_channel_id
    → IsSlug (codes slug)
    → Change s (rename_found id slug actor s c).1
rename_found-Change id slug actor s c g v = elim (Bool-cases (is_some c.archived_at)) [
  | inl e ↦ rw e (same refl)
  | inr e ↦ rw e (elim (Bool-cases (c.slug == slug)) [
    | inl n ↦ rw n (same refl)
    | inr n ↦ rw n (elim (Bool-cases (admits (role_of id actor s))) [
      | inr a ↦ rw a (same refl)
      | inl a ↦ rw a (elim (Bool-cases (collides id (get_by_slug slug s))) [
        | inl t ↦ rw t (same refl)
        | inr t ↦ rw t (write_slug-Change id slug actor s c g a v)
      ])
    ])
  ])
]

pub rename-Change :
    (id slug actor : String) (s : ChannelStore) → Change s (rename id slug actor s).1
unfolding rename
rename-Change id slug actor s = elim (Option-cases (validate_slug slug)) [
  | inr (code, bad) ↦ rw (rename, bad) (same refl)
  | inl fine ↦
      rw (rename, fine)
        (elim (Bool-cases (id == general_channel_id || slug == general_channel_slug)) [
          | inl e ↦ rw e (same refl)
          | inr e ↦ rw e (elim (Option-cases (get id s)) [
            | inl h ↦ rw h (same refl)
            | inr (c, h) ↦ rw h (
                rename_found-Change id slug actor s c (not_general id (ground arith))
                  (valid-IsSlug slug fine))
          ])
        ])
]

archive_found-Change :
    (id actor : String) (now : ℕ) (s : ChannelStore) (c : Channel)
    → id ≢ general_channel_id
    → Change s (archive_found id actor now s c).1
archive_found-Change id actor now s c g = elim (Bool-cases (is_some c.archived_at)) [
  | inl e ↦ rw e (same refl)
  | inr e ↦ rw e (elim (Bool-cases (admits (role_of id actor s))) [
    | inr a ↦ rw a (same refl)
    | inl a ↦ rw a (closed id actor now g a (read_leaves _ _ _ _ refl))
  ])
]

pub archive-Change :
    (id actor : String) (now : ℕ) (s : ChannelStore) → Change s (archive id actor now s).1
unfolding archive
archive-Change id actor now s = elim (Bool-cases (id == general_channel_id)) [
  | inl e ↦ rw (archive, e) (same refl)
  | inr e ↦
      rw (archive, e)
        (elim (Option-cases (get id s)) [
          | inl h ↦ rw h (same refl)
          | inr (c, h) ↦ rw h (archive_found-Change id actor now s c (not_general id e))
        ])
]

pub add_member-Change :
    (id name : String) (role : ChannelMemberRole) (now : ℕ) (s : ChannelStore)
    → Change s (add_member id name role now s).1
unfolding add_member
add_member-Change id name role now s = elim (Bool-cases (id == general_channel_id)) [
  | inl e ↦ rw (add_member, e) (same refl)
  | inr e ↦
      rw (add_member, e)
        (elim (Option-cases (get id s)) [
          | inl h ↦ rw h (same refl)
          | inr (c, h) ↦ rw h (elim (Bool-cases (is_some c.archived_at)) [
            | inl t ↦ rw t (same refl)
            | inr t ↦ rw t (joined id name role now (not_general id e) refl)
          ])
        ])
]

-- `removeMember` leaves the store, or deletes the rows of a member past the last-admin guard.
abbrev pub Removal : String → String → ChannelStore → ChannelStore → Type 0
Removal id name s s' =
    (s' ≡ s)
    ⊎ ((m : ChannelMember) × (id ≢ general_channel_id)
        × (select_member id name s.channel_members ≡ some m)
        × (orphans id name m s.channel_members ≡ false)
        × (s' ≡ record s { channel_members = delete_member id name s.channel_members }))

pub remove_member-Removal :
    (id name : String) (s : ChannelStore) → Removal id name s (remove_member id name s).1
unfolding remove_member
remove_member-Removal id name s = elim (Bool-cases (id == general_channel_id)) [
  | inl e ↦ rw (remove_member, e) (inl refl)
  | inr e ↦
      rw (remove_member, e)
        (elim (Option-cases (get id s)) [
          | inl h ↦ rw h (inl refl)
          | inr (c, h) ↦ rw h (elim (Option-cases (select_member id name s.channel_members)) [
            | inl n ↦ rw n (inl refl)
            | inr (m, f) ↦ rw f (elim (Bool-cases (orphans id name m s.channel_members)) [
              | inl o ↦ rw o (inl refl)
              | inr o ↦ rw o (inr (m, not_general id e, refl, o, refl))
            ])
          ])
        ])
]

pub remove_member-Change :
    (id name : String) (s : ChannelStore) → Change s (remove_member id name s).1
remove_member-Change id name s = elim (remove_member-Removal id name s) [
  | inl e ↦ same e
  | inr (m, g, f, o, e) ↦ left id name m g f o e
]
