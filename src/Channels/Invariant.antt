-- ===== src/Channels/Invariant.antt =====
-- What every method of apps/server/src/channels.ts keeps true of the store.
use ac.Channels.Effects.{
  select_by_id-append, slug_held_of_row, slug_held-append, select_member-delete_member,
  select_member-insert_member, IsKeyed, insert_member-IsKeyed, delete_member-IsKeyed,
  select_by_id-update_slug, select_by_id-set_archived, slug_held-update_slug,
  slug_held-set_archived,
}
use ac.Channels.Membership.{member_row}
use ac.Channels.Slug.{IsSlug}
use ac.Channels.Types.{ChannelMemberRole, Channel, ChannelMember}
use ac.Channels.Store.{ChannelStore, general_channel_id, general_channel_slug, get, new_channel}
use ac.Channels.Rows.{
  select_by_id, is_active, slug_held, update_slug, set_archived, select_member, insert_member,
  delete_member,
}
use ac.Prelude.{
  Option-cases, ℕ, String, ◌≡◌, subst, ◌≢◌, inl, inr, true, false, none, some, [], ◌∷◌, ◌++◌, arith,
  eq_iff, Bool-cases, ◌==◌,
}
use ac.Prelude.Text.{codes}
use ac.Channels.Change.{Change, same, founded, renamed, joined, left, closed}

pub record IsSound (s : ChannelStore) : Type 0 where
  pub general_row_kept :
      (g : Channel) × (get general_channel_id s ≡ some g)
      × (g.slug ≡ general_channel_slug)
      × (g.archived_at ≡ none)
  pub slugs_valid : (id : String) (c : Channel) → get id s ≡ some c → IsSlug (codes c.slug)
  pub slugs_unique :
      (id : String) (c : Channel)
      → get id s ≡ some c
      → is_active c ≡ true
      → slug_held id c.slug s.channels ≡ false
  pub general_implicit :
      (name : String) → select_member general_channel_id name s.channel_members ≡ none
  pub members_keyed : IsKeyed s.channel_members

founded-IsSound :
    (slug creator : String) (now : ℕ) (id : String) (s : ChannelStore)
    → get id s ≡ none
    → slug_held id slug s.channels ≡ false
    → IsSlug (codes slug)
    → IsSound s
    → IsSound (record {
      channels = s.channels ++ new_channel id slug creator now ∷ [];
      channel_members =
          insert_member (member_row id creator ChannelMemberRole.admin now) s.channel_members;
    })
unfolding get
founded-IsSound slug creator now id s free held v h =
    let c = new_channel id slug creator now in
    let m = member_row id creator ChannelMemberRole.admin now in
    let (g, at_g, g_slug, g_active) = h.general_row_kept in
    record {
      general_row_kept = (
        g,
        ground (arith, select_by_id-append general_channel_id s.channels c),
        g_slug,
        g_active,
      );
      slugs_valid = λ j d e. elim (Option-cases (select_by_id j s.channels)) [
        | inl n ↦
            subst (λ t. IsSlug (codes t.slug)) {x = c} {y = d}
              (ground (arith, select_by_id-append j s.channels c)) v
        | inr (o, f) ↦ h.slugs_valid j d (ground (arith, select_by_id-append j s.channels c))
      ];
      slugs_unique = λ j d e a. ground (
        arith,
        select_by_id-append j s.channels c,
        slug_held-append j d.slug s.channels c,
        h.slugs_unique j d,
        slug_held_of_row id j s.channels d,
        eq_iff slug d.slug,
        eq_iff id j,
      );
      general_implicit = λ name. ground (
        arith,
        select_member-insert_member general_channel_id name m s.channel_members,
        h.general_implicit name,
        eq_iff id general_channel_id,
      );
      members_keyed = insert_member-IsKeyed m s.channel_members h.members_keyed;
    }

renamed_unique :
    (id slug : String) (s : ChannelStore)
    → slug_held id slug s.channels ≡ false
    → IsSound s
    → (j : String) (d : Channel) → select_by_id j (update_slug slug id s.channels) ≡ some d
    → is_active d ≡ true
    → slug_held j d.slug (update_slug slug id s.channels) ≡ false
unfolding get
renamed_unique id slug s held h j d e a =
    let q = select_by_id-update_slug slug id j s.channels in
    elim (Bool-cases (slug_held j d.slug (update_slug slug id s.channels))) [
      | inr free ↦ free
      | inl taken ↦ elim (slug_held-update_slug j d.slug slug id s.channels taken) [
        | inl before ↦ ground (arith, q, eq_iff id j, h.slugs_unique j d)
        | inr (t, other) ↦
            ground (arith, q, eq_iff id j, slug_held_of_row id j s.channels d, eq_iff j id)
      ]
    ]

renamed-IsSound :
    (id slug : String) (s : ChannelStore)
    → id ≢ general_channel_id
    → slug_held id slug s.channels ≡ false
    → IsSlug (codes slug)
    → IsSound s
    → IsSound (record s { channels = update_slug slug id s.channels })
unfolding get
renamed-IsSound id slug s n held v h =
    let (g, at_g, g_slug, g_active) = h.general_row_kept in
    record {
      general_row_kept = (
        g,
        ground (
          arith,
          select_by_id-update_slug slug id general_channel_id s.channels,
          eq_iff id general_channel_id,
        ),
        g_slug,
        g_active,
      );
      slugs_valid = λ j d e. elim (Bool-cases (id == j)) [
        | inl it ↦
            subst (λ t. IsSlug (codes t)) {x = slug} {y = d.slug}
              (ground (arith, select_by_id-update_slug slug id j s.channels)) v
        | inr other ↦
            h.slugs_valid j d (ground (arith, select_by_id-update_slug slug id j s.channels))
      ];
      slugs_unique = λ j d e a. renamed_unique id slug s held h j d e a;
      general_implicit = h.general_implicit;
      members_keyed = h.members_keyed;
    }

archived-IsSound :
    (id : String) (now : ℕ) (s : ChannelStore)
    → id ≢ general_channel_id
    → IsSound s
    → IsSound (record s { channels = set_archived now id s.channels })
unfolding get
archived-IsSound id now s n h =
    let (g, at_g, g_slug, g_active) = h.general_row_kept in
    record {
      general_row_kept = (
        g,
        ground (
          arith,
          select_by_id-set_archived now id general_channel_id s.channels,
          eq_iff id general_channel_id,
        ),
        g_slug,
        g_active,
      );
      slugs_valid = λ j d e. elim (Option-cases (select_by_id j s.channels)) [
        | inl none_there ↦ absurd (ground (arith, select_by_id-set_archived now id j s.channels))
        | inr (o, f) ↦
            subst (λ t. IsSlug (codes t)) {x = o.slug} {y = d.slug}
              (ground (arith, select_by_id-set_archived now id j s.channels)) (h.slugs_valid j o f)
      ];
      slugs_unique = λ j d e a.
          elim (Bool-cases (slug_held j d.slug (set_archived now id s.channels))) [
            | inr free ↦ free
            | inl taken ↦ ground (
              arith,
              slug_held-set_archived j d.slug now id s.channels taken,
              select_by_id-set_archived now id j s.channels,
              h.slugs_unique j d,
            )
          ];
      general_implicit = h.general_implicit;
      members_keyed = h.members_keyed;
    }

joined-IsSound :
    (id : String) (m : ChannelMember) (s : ChannelStore)
    → m.channel_id ≢ general_channel_id
    → IsSound s
    → IsSound (record s { channel_members = insert_member m s.channel_members })
unfolding get
joined-IsSound id m s n h = record {
  general_row_kept = h.general_row_kept;
  slugs_valid = h.slugs_valid;
  slugs_unique = h.slugs_unique;
  general_implicit = λ name. ground (
    arith,
    select_member-insert_member general_channel_id name m s.channel_members,
    h.general_implicit name,
    eq_iff m.channel_id general_channel_id,
  );
  members_keyed = insert_member-IsKeyed m s.channel_members h.members_keyed;
}

left-IsSound :
    (id name : String) (s : ChannelStore)
    → IsSound s
    → IsSound (record s { channel_members = delete_member id name s.channel_members })
unfolding get
left-IsSound id name s h = record {
  general_row_kept = h.general_row_kept;
  slugs_valid = h.slugs_valid;
  slugs_unique = h.slugs_unique;
  general_implicit = λ n. ground (
    arith,
    select_member-delete_member general_channel_id n id name s.channel_members,
    h.general_implicit n,
  );
  members_keyed = delete_member-IsKeyed id name s.channel_members h.members_keyed;
}

pub Change-IsSound : (s s' : ChannelStore) → Change s s' → IsSound s → IsSound s'
Change-IsSound s s' (same e) h = rw e h
Change-IsSound s s' (founded slug creator now id free held v e) h =
    rw e (founded-IsSound slug creator now id s free held v h)
Change-IsSound s s' (renamed id slug actor n a held v e) h =
    rw e (renamed-IsSound id slug s n held v h)
Change-IsSound s s' (closed id actor now n a e) h = rw e (archived-IsSound id now s n h)
Change-IsSound s s' (joined id name role now n e) h =
    rw e (joined-IsSound id (member_row id name role now) s n h)
Change-IsSound s s' (left id name m n f o e) h = rw e (left-IsSound id name s h)
