-- ===== src/Objectives/Watching.antt =====
-- apps/server/src/objectives.ts: `updateWatchers` and `setAttachments`, which a terminal objective
-- allows too.
use ac.Prelude.{
  ℕ, String, Bool, ◌&&◌, ◌||◌, not, none, some, List, [], ◌∷◌, ◌++◌, ◌==◌, ok, err, map, keep,
  includes, if◌then◌else◌, or_empty, is_empty,
}
use ac.Objectives.Types.{
  Attachment, Objective, ObjectiveEventKind, UpdateWatchersRequest, objectives_error, not_found,
}
use ac.Objectives.Table.{ObjectivesStore, Mutation, get, append_events, commit}

-- The loops over `input.add` and `input.remove`: the test of the guards, then the push.
unfoldable pub push_unless : (String → Bool) → List String → List String → List String
push_unless skip out [] = out
push_unless skip out (w ∷ ws) =
    push_unless skip (if skip w || includes out w then out else out ++ w ∷ []) ws

abbrev pub to_add : UpdateWatchersRequest → Objective → List String
to_add input current =
    push_unless
      (λ w.
        w == ""
        || (w == current.assignee || w == current.originator)
        || includes current.watchers w)
      [] (or_empty input.add)

abbrev pub to_remove : UpdateWatchersRequest → Objective → List String
to_remove input current =
    push_unless (λ w. w == "" || not (includes current.watchers w)) [] (or_empty input.remove)

-- The current watchers but the removed, then the added.
abbrev pub next_watchers : List String → List String → List String → List String
next_watchers current adds removes = keep (λ w. not (includes removes w)) current ++ adds

abbrev pub set_watchers : List String → ℕ → Objective → Objective
set_watchers watchers now o = record o { watchers = watchers; updated_at = now }

abbrev pub watcher_kinds : List String → List String → List ObjectiveEventKind
watcher_kinds adds removes =
    map ObjectiveEventKind.watcher_added adds ++ map ObjectiveEventKind.watcher_removed removes

abbrev pub change_watchers :
    String → List String → List String → String → ℕ → ObjectivesStore → Objective → Mutation
change_watchers id adds removes actor now s current =
    if is_empty adds && is_empty removes
    then (ok (record { objective = current; events = [] }), s)
    else commit id (set_watchers (next_watchers current.watchers adds removes) now)
        (append_events id now actor (watcher_kinds adds removes)) s

unfoldable pub update_watchers :
    String → UpdateWatchersRequest → String → ℕ → ObjectivesStore → Mutation
update_watchers id input actor now s = elim (get id s) [
  | none ↦ (err (objectives_error not_found), s)
  | some current ↦
      change_watchers id (to_add input current) (to_remove input current) actor now s current
]

abbrev pub replace_attachments : List Attachment → ℕ → Objective → Objective
replace_attachments attachments now o = record o { attachments = attachments; updated_at = now }

-- The method returns the objective alone, so `events` is empty.
unfoldable pub set_attachments : String → List Attachment → ℕ → ObjectivesStore → Mutation
set_attachments id attachments now s = elim (get id s) [
  | none ↦ (err (objectives_error not_found), s)
  | some _ ↦ commit id (replace_attachments attachments now) [] s
]
