-- ===== src/Objectives/Audit.antt =====
-- The audit log of apps/server/src/objectives.ts: what the events of an objective say of it.
use ac.Prelude.{
  keep, All, includes, ℕ, String, ◌≡◌, refl, sym, ap, ◌∙◌, Bool, true, false, not, Option, none,
  some, List, [], ◌∷◌, ◌++◌, map, append-nil, append_assoc, arith, ◌==◌, eq_iff, keep-append,
  keep-keep,
}
use ac.Objectives.Lifecycle.{Step, move, finish, abandon, hand_over, watch, attach}
use ac.Objectives.Table.{append_events}
use ac.Objectives.Types.{ObjectiveStatus, Objective, ObjectiveEventKind, ObjectiveEvent}
use ac.Objectives.Watching.{next_watchers, watcher_kinds}

-- What the log says of an objective's status, assignee, watchers and result.
pub record AuditView : Type 0 where
  pub status : ObjectiveStatus
  pub assignee : String
  pub watchers : List String
  pub result : Option String

abbrev pub view_of : Objective → AuditView
view_of o = record {
  status = o.status;
  assignee = o.assignee;
  watchers = o.watchers;
  result = o.result;
}

abbrev pub before_creation : AuditView
before_creation = record {
  status = ObjectiveStatus.active;
  assignee = "";
  watchers = [];
  result = none;
}

abbrev pub replay_kind : AuditView → ObjectiveEventKind → AuditView
replay_kind v (ObjectiveEventKind.assigned title outcome assignee watchers) = record {
  status = ObjectiveStatus.active;
  assignee = assignee;
  watchers = [];
  result = none;
}
replay_kind v (ObjectiveEventKind.blocked reason) = record v { status = ObjectiveStatus.blocked }
replay_kind v ObjectiveEventKind.unblocked = record v { status = ObjectiveStatus.active }
replay_kind v (ObjectiveEventKind.completed result) = record v {
  status = ObjectiveStatus.done;
  result = some result;
}
replay_kind v (ObjectiveEventKind.cancelled reason) = record v {
  status = ObjectiveStatus.cancelled;
}
replay_kind v (ObjectiveEventKind.reassigned _ to _) = record v { assignee = to }
replay_kind v (ObjectiveEventKind.watcher_added name) = record v {
  watchers = v.watchers ++ name ∷ [];
}
replay_kind v (ObjectiveEventKind.watcher_removed name) = record v {
  watchers = keep (λ w. not (w == name)) v.watchers;
}

abbrev pub replay_kinds : AuditView → List ObjectiveEventKind → AuditView
replay_kinds v [] = v
replay_kinds v (k ∷ ks) = replay_kinds (replay_kind v k) ks

abbrev pub replay : AuditView → List ObjectiveEvent → AuditView
replay v [] = v
replay v (e ∷ es) = replay (replay_kind v e.kind) es

pub replay-append :
    (v : AuditView) (es fs : List ObjectiveEvent) → replay v (es ++ fs) ≡ replay (replay v es) fs
replay-append v [] fs = refl
replay-append v (e ∷ es) fs = replay-append (replay_kind v e.kind) es fs

pub replay-append_events :
    (v : AuditView) (id : String) (ts : ℕ) (actor : String) (ks : List ObjectiveEventKind)
    → replay v (append_events id ts actor ks) ≡ replay_kinds v ks
replay-append_events v id ts actor [] = refl
replay-append_events v id ts actor (k ∷ ks) = replay-append_events (replay_kind v k) id ts actor ks

replay_kinds-append :
    (v : AuditView) (ks ls : List ObjectiveEventKind)
    → replay_kinds v (ks ++ ls) ≡ replay_kinds (replay_kinds v ks) ls
replay_kinds-append v [] ls = refl
replay_kinds-append v (k ∷ ks) ls = replay_kinds-append (replay_kind v k) ks ls

-- The additions stand at the end of the watchers, in their order.
pub replay-added :
    (v : AuditView) (adds : List String)
    → replay_kinds v (map ObjectiveEventKind.watcher_added adds)
      ≡ record v { watchers = v.watchers ++ adds }
replay-added v [] = rw append-nil
replay-added v (a ∷ adds) =
    replay-added (record v { watchers = v.watchers ++ a ∷ [] }) adds ∙ rw append_assoc

keep-All : (p : String → Bool) (xs : List String) → All (λ a. p a ≡ true) xs → keep p xs ≡ xs
keep-All p [] h = refl
keep-All p (x ∷ xs) h = ground (arith, keep-All p xs h.1)

-- The removals leave the watchers that are not among them.
replay-removed :
    (v : AuditView) (removes : List String)
    → replay_kinds v (map ObjectiveEventKind.watcher_removed removes)
      ≡ record v { watchers = keep (λ w. not (includes removes w)) v.watchers }
replay-removed v [] =
    ap (λ ws. record v { watchers = ws }) (sym (keep-All (λ w. true) v.watchers (all_true _)))
  where
    all_true : (xs : List String) → All (λ a. true ≡ true) xs
    all_true [] = tt
    all_true (x ∷ xs) = (refl, all_true xs)
replay-removed v (r ∷ removes) =
    replay-removed (record v { watchers = keep (λ w. not (w == r)) v.watchers }) removes
    ∙ ap (λ ws. record v { watchers = ws })
        (keep-keep (λ w. not (w == r)) (λ w. not (includes removes w))
          (λ w. not (includes (r ∷ removes) w)) v.watchers
          (λ a. ground (arith, eq_iff a r, eq_iff r a)))

-- Names that are not watchers are not removed.
adds_survive :
    (ws adds removes : List String)
    → All (λ w. includes ws w ≡ false) adds
    → All (λ w. includes ws w ≡ true) removes
    → All (λ w. not (includes removes w) ≡ true) adds
adds_survive ws [] removes f r = tt
adds_survive ws (a ∷ adds) removes f r = (survives removes r, adds_survive ws adds removes f.1 r)
  where
    survives : (rs : List String) → All (λ w. includes ws w ≡ true) rs → not (includes rs a) ≡ true
    survives [] q = refl
    survives (x ∷ rs) q = ground (arith, survives rs q.1, eq_iff x a)

replay-watcher_kinds :
    (v : AuditView) (adds removes : List String)
    → All (λ w. includes v.watchers w ≡ false) adds
    → All (λ w. includes v.watchers w ≡ true) removes
    → replay_kinds v (watcher_kinds adds removes)
      ≡ record v { watchers = next_watchers v.watchers adds removes }
replay-watcher_kinds v adds removes f r =
    let kept = λ (w : String). not (includes removes w) in
    replay_kinds-append v (map ObjectiveEventKind.watcher_added adds)
      (map ObjectiveEventKind.watcher_removed removes)
    ∙ ap (λ u. replay_kinds u (map ObjectiveEventKind.watcher_removed removes))
        (replay-added v adds)
    ∙ replay-removed (record v { watchers = v.watchers ++ adds }) removes
    ∙ ap (λ ws. record v { watchers = ws })
        (keep-append kept v.watchers adds
          ∙ ap (λ ws. keep kept v.watchers ++ ws)
              (keep-All kept adds (adds_survive v.watchers adds removes f r)))

-- Replaying the events of a step takes the view of the objective before to the view after.
pub Step-replay :
    {o o' : Objective} {ks : List ObjectiveEventKind}
    → Step o o' ks
    → replay_kinds (view_of o) ks ≡ view_of o'
Step-replay (move ObjectiveStatus.active reason now a b c e k) = ground arith
Step-replay (move ObjectiveStatus.blocked reason now a b c e k) = ground arith
Step-replay (move ObjectiveStatus.done reason now a b c e k) = cc
Step-replay (move ObjectiveStatus.cancelled reason now a b c e k) = cc
Step-replay (finish r now a b e k) = ground arith
Step-replay (abandon r now a e k) = ground arith
Step-replay (hand_over to _ now a b e k) = ground arith
Step-replay {o} (watch adds removes now c r e k) =
    rw (k, e) (replay-watcher_kinds (view_of o) adds removes c.fresh r)
Step-replay (attach xs now e k) = ground arith
