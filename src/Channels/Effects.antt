-- ===== src/Channels/Effects.antt =====
-- What the statements of apps/server/src/channels.ts do to its reads.
use ac.Channels.Types.{Channel, ChannelMember}
use ac.Channels.Rows.{
  select_by_id, is_active, slug_held, update_slug, set_archived, is_row_of, select_member,
  insert_member, delete_member,
}
use ac.Prelude.{
  if◌then◌else◌, is_some, ℕ, String, ◌≡◌, refl, ◌≢◌, ◌⊎◌, true, ◌&&◌, ◌||◌, not, Option, none, some,
  List, [], ◌∷◌, ◌++◌, arith, ◌==◌, eq_iff, eq_refl,
}

abbrev pub with_slug : String → Option Channel → Option Channel
with_slug slug none = none
with_slug slug (some c) = some (record c { slug = slug })

abbrev pub with_archived : ℕ → Option Channel → Option Channel
with_archived now none = none
with_archived now (some c) = some (record c { archived_at = some now })

pub select_by_id-id :
    (id : String) (rows : List Channel) (c : Channel) → select_by_id id rows ≡ some c → c.id ≡ id
unfolding select_by_id
select_by_id-id id [] c h = cc
select_by_id-id id (r ∷ rows) c h = ground (arith, eq_iff r.id id, select_by_id-id id rows c)

pub select_by_id-update_slug :
    (slug id j : String) (rows : List Channel)
    → select_by_id j (update_slug slug id rows)
      ≡ (if id == j then with_slug slug (select_by_id j rows) else select_by_id j rows)
unfolding select_by_id update_slug
select_by_id-update_slug slug id j [] = ground arith
select_by_id-update_slug slug id j (r ∷ rows) =
    ground
      (arith, eq_iff id j, eq_iff r.id id, eq_iff r.id j, select_by_id-update_slug slug id j rows)

pub select_by_id-set_archived :
    (now : ℕ) (id j : String) (rows : List Channel)
    → select_by_id j (set_archived now id rows)
      ≡ (if id == j then with_archived now (select_by_id j rows) else select_by_id j rows)
unfolding select_by_id set_archived
select_by_id-set_archived now id j [] = ground arith
select_by_id-set_archived now id j (r ∷ rows) =
    ground
      (arith, eq_iff id j, eq_iff r.id id, eq_iff r.id j, select_by_id-set_archived now id j rows)

pub select_by_id-append :
    (j : String) (rows : List Channel) (c : Channel)
    → select_by_id j (rows ++ c ∷ []) ≡ (
        if is_some (select_by_id j rows)
        then select_by_id j rows
        else if c.id == j
        then some c
        else none)
unfolding select_by_id
select_by_id-append j [] c = refl
select_by_id-append j (r ∷ rows) c = ground (arith, select_by_id-append j rows c)

-- An active row holds its slug against every other id.
pub slug_held_of_row :
    (id j : String) (rows : List Channel) (c : Channel)
    → select_by_id j rows ≡ some c
    → is_active c ≡ true
    → j ≢ id
    → slug_held id c.slug rows ≡ true
unfolding select_by_id slug_held
slug_held_of_row id j [] c h a n = cc
slug_held_of_row id j (r ∷ rows) c h a n =
    ground (arith, eq_iff r.id j, eq_iff r.id id, eq_refl c.slug, slug_held_of_row id j rows c)

pub slug_held-append :
    (id slug : String) (rows : List Channel) (c : Channel)
    → slug_held id slug (rows ++ c ∷ [])
      ≡ (slug_held id slug rows || (is_active c && c.slug == slug && not (c.id == id)))
unfolding slug_held
slug_held-append id slug [] c = ground arith
slug_held-append id slug (r ∷ rows) c = ground (arith, slug_held-append id slug rows c)

pub slug_held-update_slug :
    (j t slug id : String) (rows : List Channel)
    → slug_held j t (update_slug slug id rows) ≡ true
    → (slug_held j t rows ≡ true) ⊎ ((slug ≡ t) × (id ≢ j))
unfolding slug_held update_slug
slug_held-update_slug j t slug id [] h = cc
slug_held-update_slug j t slug id (r ∷ rows) h =
    ground
      (arith, eq_iff r.id id, eq_iff r.id j, eq_iff slug t, slug_held-update_slug j t slug id rows)

pub slug_held-set_archived :
    (j t : String) (now : ℕ) (id : String) (rows : List Channel)
    → slug_held j t (set_archived now id rows) ≡ true
    → slug_held j t rows ≡ true
unfolding slug_held set_archived
slug_held-set_archived j t now id [] h = cc
slug_held-set_archived j t now id (r ∷ rows) h =
    ground (arith, slug_held-set_archived j t now id rows)

pub select_member-append :
    (ch name : String) (ms : List ChannelMember) (m : ChannelMember)
    → select_member ch name (ms ++ m ∷ []) ≡ (
        if is_some (select_member ch name ms)
        then select_member ch name ms
        else if is_row_of ch name m
        then some m
        else none)
unfolding select_member
select_member-append ch name [] m = refl
select_member-append ch name (x ∷ ms) m = ground (arith, select_member-append ch name ms m)

pub select_member-delete_member :
    (ch name c n : String) (ms : List ChannelMember)
    → select_member ch name (delete_member c n ms)
      ≡ (if c == ch && n == name then none else select_member ch name ms)
unfolding select_member delete_member
select_member-delete_member ch name c n [] = ground arith
select_member-delete_member ch name c n (x ∷ ms) = ground (
  arith,
  eq_iff c ch,
  eq_iff n name,
  eq_iff x.channel_id c,
  eq_iff x.channel_id ch,
  eq_iff x.member_name n,
  eq_iff x.member_name name,
  select_member-delete_member ch name c n ms,
)

pub select_member-insert_member :
    (ch name : String) (m : ChannelMember) (ms : List ChannelMember)
    → select_member ch name (insert_member m ms) ≡ (
        if is_some (select_member ch name ms)
        then select_member ch name ms
        else if is_row_of ch name m
        then some m
        else none)
unfolding insert_member
select_member-insert_member ch name m ms =
    ground
      (arith, select_member-append ch name ms m, eq_iff m.channel_id ch, eq_iff m.member_name name)

-- The primary key of `channel_members`.
abbrev pub IsKeyed : List ChannelMember → Type 0
IsKeyed [] = Unit
IsKeyed (m ∷ ms) = (select_member m.channel_id m.member_name ms ≡ none) × IsKeyed ms

IsKeyed-snoc :
    (ms : List ChannelMember) (m : ChannelMember)
    → IsKeyed ms
    → select_member m.channel_id m.member_name ms ≡ none
    → IsKeyed (ms ++ m ∷ [])
unfolding select_member
IsKeyed-snoc [] m k h = (refl, tt)
IsKeyed-snoc (x ∷ ms) m k h = ground (
  arith,
  select_member-append x.channel_id x.member_name ms m,
  IsKeyed-snoc ms m k.1,
  eq_iff x.channel_id m.channel_id,
  eq_iff m.channel_id x.channel_id,
  eq_iff x.member_name m.member_name,
  eq_iff m.member_name x.member_name,
)

pub insert_member-IsKeyed :
    (m : ChannelMember) (ms : List ChannelMember) → IsKeyed ms → IsKeyed (insert_member m ms)
unfolding insert_member
insert_member-IsKeyed m ms k = ground (arith, IsKeyed-snoc ms m k)

pub delete_member-IsKeyed :
    (ch name : String) (ms : List ChannelMember) → IsKeyed ms → IsKeyed (delete_member ch name ms)
unfolding delete_member
delete_member-IsKeyed ch name [] k = tt
delete_member-IsKeyed ch name (m ∷ ms) k = ground (
  arith,
  delete_member-IsKeyed ch name ms k.1,
  select_member-delete_member m.channel_id m.member_name ch name ms,
)
