-- ===== src/Channels/History.antt =====
-- Histories of calls of the store in apps/server/src/channels.ts.
use ac.Channels.Store.{
  create, ChannelStore, general_channel_slug, get, insert_channel, general_row, ensure_general,
  rename,
}
use ac.Channels.Change.{
  Change, create-Change, rename-Change, archive-Change, add_member-Change, remove_member-Change,
}
use ac.Channels.Invariant.{IsSound, Change-IsSound}
use ac.Channels.Membership.{archive, add_member, remove_member}
use ac.Channels.Slug.{validate_slug, IsSlug, validate_slug_iff}
use ac.Channels.Types.{ChannelMemberRole}
use ac.Channels.Rows.{select_by_id, slug_held, select_member}
use ac.Prelude.Text.{codes}
use ac.Prelude.{ℕ, String, ◌≡◌, refl, subst, none, some, List, [], ◌∷◌, arith, eq_iff}

abbrev pub empty_store : ChannelStore
empty_store = record { channels = []; channel_members = [] }

-- The store that the constructor leaves on a new database.
abbrev pub fresh_store : ℕ → ChannelStore
fresh_store now = record { channels = general_row now ∷ []; channel_members = [] }

pub ensure_general_fresh : (now : ℕ) → ensure_general now empty_store ≡ some (fresh_store now)
unfolding ensure_general insert_channel get select_by_id slug_held
ensure_general_fresh now = refl

pub fresh_store-IsSound : (now : ℕ) → IsSound (fresh_store now)
unfolding get select_by_id slug_held select_member
fresh_store-IsSound now = record {
  general_row_kept = (general_row now, refl, refl, refl);
  slugs_valid = λ id c h.
      subst (λ t. IsSlug (codes t)) {x = general_channel_slug} {y = c.slug}
        (ground (arith, eq_iff "general" id)) ((validate_slug_iff "general").0 general_valid);
  slugs_unique = λ id c h a. ground (arith, eq_iff "general" id);
  general_implicit = λ name. refl;
  members_keyed = tt;
}
  where
    general_valid : validate_slug "general" ≡ none
    general_valid = unfold validate_slug in refl

-- One call of a method that writes.
pub data Call : Type 0 where
  create_call : String → String → ℕ → String → Call
  rename_call : String → String → String → Call
  archive_call : String → String → ℕ → Call
  add_call : String → String → ChannelMemberRole → ℕ → Call
  remove_call : String → String → Call

unfoldable pub perform : Call → ChannelStore → ChannelStore
perform (create_call slug creator now id) s = (create slug creator now id s).1
perform (rename_call id slug actor) s = (rename id slug actor s).1
perform (archive_call id actor now) s = (archive id actor now s).1
perform (add_call id name role now) s = (add_member id name role now s).1
perform (remove_call id name) s = (remove_member id name s).1

unfoldable pub run_calls : List Call → ChannelStore → ChannelStore
unfolding perform
run_calls [] s = s
run_calls (c ∷ cs) s = run_calls cs (perform c s)

pub perform-Change : (c : Call) (s : ChannelStore) → Change s (perform c s)
unfolding perform
perform-Change (create_call slug creator now id) s = create-Change slug creator now id s
perform-Change (rename_call id slug actor) s = rename-Change id slug actor s
perform-Change (archive_call id actor now) s = archive-Change id actor now s
perform-Change (add_call id name role now) s = add_member-Change id name role now s
perform-Change (remove_call id name) s = remove_member-Change id name s

-- From a sound store, the fresh one among them, every history of calls, those that throw
-- included, ends in a sound store: the general channel is there, active, under its slug and with
-- no stored members; every slug fits the grammar; no two active channels share a slug; and no
-- member stands twice in a channel.
pub run_calls-IsSound : (cs : List Call) (s : ChannelStore) → IsSound s → IsSound (run_calls cs s)
unfolding run_calls
run_calls-IsSound [] s h = h
run_calls-IsSound (c ∷ cs) s h =
    run_calls-IsSound cs (perform c s) (Change-IsSound s (perform c s) (perform-Change c s) h)
