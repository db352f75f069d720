-- ===== src/Objectives/Tests.antt =====
-- Runs of the store of apps/server/src/objectives.ts, and its theorems at concrete histories.
use ac.Objectives.{
  collect_watchers, generate_objective_id, create, trimmed_reason, update, complete, cancel,
  reassign,
}
use ac.Prelude.{includes, ◌≡◌, refl, none, some, List, [], ◌∷◌, arith, eq_iff}
use ac.Prelude.Text.{trim, to_string36}
use ac.Objectives.History.{
  Call, create_call, update_call, complete_call, cancel_call, update_watchers_call, perform, run,
  run-IsSound, terminal_absorbs, identity_kept,
}
use ac.Objectives.Reports.{Reported, perform-Reported}
use ac.Objectives.Watching.{push_unless, update_watchers, set_attachments}
use ac.Objectives.Watchers.{watches_after, update_watchers-exact}
use ac.Objectives.Lifecycle.{SameOutcome, SameIdentity}
use ac.Objectives.Table.{ObjectivesStore, empty_store, get, reread, commit, with_open, insert}
use ac.Objectives.Invariant.{IsSound, empty_store-IsSound}
use ac.Objectives.Types.{ObjectiveStatus, Objective, CreateObjectiveRequest, to_blocked}
use ac.Objectives.Rows.{find_objective, update_row, events_of}

-- All that a run computes with.
store_runs : Unit {0}
unfolding run perform create update complete cancel reassign update_watchers set_attachments commit
    insert reread with_open get find_objective update_row events_of collect_watchers push_unless
    generate_objective_id trimmed_reason trim to_string36
store_runs = tt

abbrev smoke : CreateObjectiveRequest
smoke = record {
  title = " smoke tests ";
  outcome = "green on main";
  body = none;
  assignee = "ann";
  watchers = some ("bob" ∷ "ann" ∷ "bob" ∷ "" ∷ "dir" ∷ []);
  attachments = none;
}

abbrev opened : List Call
opened = create_call smoke "dir" 5 46655 ∷ []

abbrev smoke_row : Objective
smoke_row = record {
  id = "obj-zzz-1";
  title = "smoke tests";
  body = "";
  outcome = "green on main";
  status = ObjectiveStatus.active;
  assignee = "ann";
  originator = "dir";
  watchers = "bob" ∷ [];
  created_at = 5;
  updated_at = 5;
  completed_at = none;
  result = none;
  block_reason = none;
  attachments = [];
}

abbrev opened_store : ObjectivesStore
opened_store = run opened empty_store

opened_row : get "obj-zzz-1" opened_store ≡ some smoke_row
unfolding store_runs
opened_row = refl

opened_store-IsSound : IsSound opened_store
opened_store-IsSound = run-IsSound opened empty_store empty_store-IsSound

abbrev rest_of_day : List Call
rest_of_day =
    update_call "obj-zzz-1" (record { status = some to_blocked; block_reason = some " ci " }) "ann"
      6
    ∷ complete_call "obj-zzz-1" "  " "ann" 7
    ∷ complete_call "obj-zzz-1" "done" "ann" 8
    ∷ cancel_call "obj-zzz-1" none "dir" 9
    ∷ update_watchers_call "obj-zzz-1"
        (record { add = some ("eve" ∷ []); remove = some ("bob" ∷ []) }) "dir" 10
    ∷ []

abbrev done_row : Objective
done_row = record smoke_row {
  status = ObjectiveStatus.done;
  watchers = "eve" ∷ [];
  updated_at = 10;
  completed_at = some 8;
  result = some "done";
}

done_at_last : get "obj-zzz-1" (run rest_of_day opened_store) ≡ some done_row
unfolding store_runs
done_at_last = refl

run-IsSound_example : IsSound (run rest_of_day opened_store)
run-IsSound_example = run-IsSound rest_of_day opened_store opened_store-IsSound

terminal_absorbs_example :
    (p : Objective) × (get "obj-zzz-1" (run rest_of_day (run rest_of_day opened_store)) ≡ some p)
    × SameOutcome done_row p
terminal_absorbs_example =
    terminal_absorbs rest_of_day (run rest_of_day opened_store) "obj-zzz-1" done_row
      run-IsSound_example done_at_last refl

identity_kept_example :
    (p : Objective) × (get "obj-zzz-1" (run rest_of_day opened_store) ≡ some p)
    × SameIdentity smoke_row p
identity_kept_example =
    identity_kept rest_of_day opened_store "obj-zzz-1" smoke_row opened_store-IsSound opened_row

perform-Reported_example :
    Reported opened_store (perform (complete_call "obj-zzz-1" "ok" "ann" 8) opened_store)
perform-Reported_example =
    perform-Reported (complete_call "obj-zzz-1" "ok" "ann" 8) opened_store opened_store-IsSound

abbrev blocked_store : ObjectivesStore
blocked_store =
    run
      (update_call "obj-zzz-1" (record { status = some to_blocked; block_reason = some "ci" }) "ann"
          6
        ∷ [])
      opened_store

abbrev blocked_row : Objective
blocked_row = record smoke_row {
  status = ObjectiveStatus.blocked;
  block_reason = some "ci";
  updated_at = 6;
}

blocked_at_six : get "obj-zzz-1" blocked_store ≡ some blocked_row
unfolding store_runs
blocked_at_six = refl

trim_vpn : trim " vpn" ≡ "vpn"
unfolding trim
trim_vpn = refl

update_watchers-exact_example :
    (p : Objective) × (get "obj-zzz-1"
        (update_watchers "obj-zzz-1"
          (record { add = some ("eve" ∷ []); remove = none })
          "dir"
          6
          opened_store).1
      ≡ some p)
    × (includes p.watchers "eve"
        ≡ watches_after (record { add = some ("eve" ∷ []); remove = none }) smoke_row "eve")
update_watchers-exact_example =
    update_watchers-exact "obj-zzz-1" opened_store smoke_row
      (record { add = some ("eve" ∷ []); remove = none }) "dir" 6 "eve" opened_row
      (ground (arith, eq_iff "eve" ""))
