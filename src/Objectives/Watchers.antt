-- ===== src/Objectives/Watchers.antt =====
-- What the loops of `create` and `updateWatchers` in apps/server/src/objectives.ts collect.
use ac.Prelude.{
  if◌then◌else◌, Bool-cases, Option-cases, All, All-append, includes, IsDistinct, includes-append,
  IsDistinct-snoc, ℕ, String, ◌≡◌, refl, ap, inl, inr, Bool, true, false, ◌&&◌, ◌||◌, not, List, [],
  ◌∷◌, ◌++◌, arith, ◌==◌, eq_iff, eq_refl, or_empty, keep, ◌≢◌, some, sym, ◌∙◌, is_empty,
}
use ac.Objectives.Watching.{
  push_unless, to_add, to_remove, update_watchers, next_watchers, set_watchers, watcher_kinds,
}
use ac.Objectives.Lifecycle.{CanWatch, watch}
use ac.Objectives.Refinement.{Outcome, refused, idle, commit-Outcome}
use ac.Objectives.Table.{ObjectivesStore, get, append_events}
use ac.Objectives.Types.{Objective, UpdateWatchersRequest, not_found, objectives_error}
use ac.Objectives.{collect_watchers}
use ac.Objectives.Effects.{get-committed, commit-eq-ok}

module _ (skip : String → Bool) where
  -- A name is collected exactly if it was there before, or is in the input and passes the guards.
  pub includes-push_unless :
      (out ws : List String) (a : String)
      → includes (push_unless skip out ws) a ≡ (includes out a || (includes ws a && not (skip a)))
  unfolding push_unless
  includes-push_unless out [] a = ground arith
  includes-push_unless out (w ∷ ws) a =
      let next = if skip w || includes out w then out else out ++ w ∷ [] in
      ground (arith, includes-push_unless next ws a, includes-append out (w ∷ []) a, eq_iff w a)

  -- Nothing is collected twice.
  pub push_unless-IsDistinct :
      (out ws : List String) → IsDistinct out → IsDistinct (push_unless skip out ws)
  unfolding push_unless
  push_unless-IsDistinct out [] h = h
  push_unless-IsDistinct out (w ∷ ws) h = elim (Bool-cases (skip w || includes out w)) [
    | inl e ↦ rw e (push_unless-IsDistinct out ws h)
    | inr e ↦
        rw e (push_unless-IsDistinct (out ++ w ∷ []) ws (IsDistinct-snoc out w h (ground arith)))
  ]

  -- What is collected passes the guards.
  pub push_unless-All :
      (out ws : List String)
      → All (λ w. skip w ≡ false) out
      → All (λ w. skip w ≡ false) (push_unless skip out ws)
  unfolding push_unless
  push_unless-All out [] h = h
  push_unless-All out (w ∷ ws) h = elim (Bool-cases (skip w || includes out w)) [
    | inl e ↦ rw e (push_unless-All out ws h)
    | inr e ↦
        rw e (push_unless-All (out ++ w ∷ []) ws (All-append _ out (w ∷ []) h (ground arith, tt)))
  ]

All-map {ℓ} :
    {P Q : String → Type ℓ} (xs : List String) → ((a : String) → P a → Q a) → All P xs → All Q xs
All-map [] f h = tt
All-map (x ∷ xs) f h = (f x h.0, All-map xs f h.1)

not-includes_self :
    (p : String → Bool) (xs : List String) (a : String)
    → p a ≡ true
    → All (λ w. p w ≡ false) xs
    → includes xs a ≡ false
not-includes_self p [] a h k = refl
not-includes_self p (x ∷ xs) a h k =
    ground (arith, eq_iff x a, not-includes_self p xs a h k.1, ap p)

to_add-CanWatch : (input : UpdateWatchersRequest) (o : Objective) → CanWatch o (to_add input o)
to_add-CanWatch input o =
    let skip =
      λ (w : String). w == "" || (w == o.assignee || w == o.originator) || includes o.watchers w in
    let passed = push_unless-All skip [] (or_empty input.add) tt in
    record {
      distinct = push_unless-IsDistinct skip [] (or_empty input.add) tt;
      named = not-includes_self skip _ "" (ground (arith, eq_refl "")) passed;
      not_originator =
          not-includes_self skip _ o.originator (ground (arith, eq_refl o.originator)) passed;
      fresh = All-map _ (λ a h. ground arith) passed;
    }

to_remove-watched :
    (input : UpdateWatchersRequest) (o : Objective)
    → All (λ w. includes o.watchers w ≡ true) (to_remove input o)
to_remove-watched input o =
    All-map _ (λ a h. ground arith)
      (push_unless-All (λ w. w == "" || not (includes o.watchers w)) [] (or_empty input.remove) tt)

pub update_watchers-Outcome :
    (id : String) (s : ObjectivesStore) (input : UpdateWatchersRequest) (actor : String) (now : ℕ)
    → Outcome id s (update_watchers id input actor now s)
unfolding update_watchers
update_watchers-Outcome id s input actor now = elim (Option-cases (get id s)) [
  | inl h ↦ refused (objectives_error not_found) (rw (h, update_watchers))
  | inr (o, h) ↦
      rw (h, update_watchers)
        (elim (Bool-cases (is_empty (to_add input o) && is_empty (to_remove input o))) [
          | inl e ↦ idle o h (rw e)
          | inr e ↦ rw e (
              commit-Outcome id s o _ _ now actor h (λ x. refl)
                (watch (to_add input o) (to_remove input o) now (to_add-CanWatch input o)
                  (to_remove-watched input o) refl refl))
        ])
]

-- A name that was seen, or is empty, is not collected by `create`.
pub collect_watchers-without :
    (a : String) (seen out ws : List String)
    → (a == "" || includes seen a) ≡ true
    → includes out a ≡ false
    → includes (collect_watchers seen out ws) a ≡ false
unfolding collect_watchers
collect_watchers-without a seen out [] h k = k
collect_watchers-without a seen out (w ∷ ws) h k = elim (Bool-cases (w == "" || includes seen w)) [
  | inl e ↦ rw e (collect_watchers-without a seen out ws h k)
  | inr e ↦ rw e (
      collect_watchers-without a (seen ++ w ∷ []) (out ++ w ∷ []) ws
        (ground (arith, includes-append seen (w ∷ []) a))
        (ground (arith, includes-append out (w ∷ []) a, eq_iff w a)))
]

-- Nothing is collected twice, as what is collected was seen.
pub collect_watchers-IsDistinct :
    (seen out ws : List String)
    → IsDistinct out
    → ((a : String) → includes seen a ≡ false → includes out a ≡ false)
    → IsDistinct (collect_watchers seen out ws)
unfolding collect_watchers
collect_watchers-IsDistinct seen out [] h k = h
collect_watchers-IsDistinct seen out (w ∷ ws) h k = elim (Bool-cases (w == "" || includes seen w)) [
  | inl e ↦ rw e (collect_watchers-IsDistinct seen out ws h k)
  | inr e ↦ rw e (
      collect_watchers-IsDistinct (seen ++ w ∷ []) (out ++ w ∷ []) ws
        (IsDistinct-snoc out w h (k w (ground arith)))
        (λ a n.
          ground (arith, includes-append seen (w ∷ []) a, includes-append out (w ∷ []) a, k a)))
]

includes-keep-not :
    (removes ws : List String) (a : String)
    → includes (keep (λ w. not (includes removes w)) ws) a
      ≡ (includes ws a && not (includes removes a))
includes-keep-not removes [] a = refl
includes-keep-not removes (w ∷ ws) a = ground (arith, includes-keep-not removes ws a, eq_iff w a)

-- Who watches after `updateWatchers`, in terms of the request and the objective before.
abbrev pub watches_after : UpdateWatchersRequest → Objective → String → Bool
watches_after input o a =
    includes o.watchers a && not (includes (or_empty input.remove) a)
    || not (includes o.watchers a)
      && (includes (or_empty input.add) a && not (a == o.assignee || a == o.originator))

next_watchers-exact :
    (input : UpdateWatchersRequest) (o : Objective) (a : String)
    → a ≢ ""
    → includes (next_watchers o.watchers (to_add input o) (to_remove input o)) a
      ≡ watches_after input o a
next_watchers-exact input o a h = ground (
  arith,
  includes-append (keep (λ w. not (includes (to_remove input o) w)) o.watchers) (to_add input o) a,
  includes-keep-not (to_remove input o) o.watchers a,
  includes-push_unless
      (λ (w : String). w == "" || (w == o.assignee || w == o.originator) || includes o.watchers w)
      [] (or_empty input.add) a,
  includes-push_unless (λ (w : String). w == "" || not (includes o.watchers w)) []
      (or_empty input.remove) a,
  eq_iff a "",
)

next_watchers_idle :
    (ws adds removes : List String) (a : String)
    → is_empty adds && is_empty removes ≡ true
    → includes (next_watchers ws adds removes) a ≡ includes ws a
next_watchers_idle ws [] [] a h =
    ground
      (arith, includes-append (keep (λ w. not (includes [] w)) ws) [] a, includes-keep-not [] ws a)
next_watchers_idle ws [] (r ∷ removes) a h = cc
next_watchers_idle ws (x ∷ adds) removes a h = cc

-- After `updateWatchers` on an objective that is there, a name, which is not the empty text, watches
-- it exactly if it watched and is not to be removed, or did not watch, is to be added, and is neither
-- the assignee nor the originator.
pub update_watchers-exact :
    (id : String) (s : ObjectivesStore) (o : Objective) (input : UpdateWatchersRequest)
    (actor : String) (now : ℕ) (a : String)
    → get id s ≡ some o
    → a ≢ ""
    → (p : Objective) × (get id (update_watchers id input actor now s).1 ≡ some p)
      × (includes p.watchers a ≡ watches_after input o a)
unfolding update_watchers
update_watchers-exact id s o input actor now a found h =
    let adds = to_add input o in
    let removes = to_remove input o in
    let next = next_watchers o.watchers adds removes in
    let set = set_watchers next now in
    let events = append_events id now actor (watcher_kinds adds removes) in
    elim (Bool-cases (is_empty adds && is_empty removes)) [
      | inl e ↦ (
        o,
        rw (found, update_watchers) (rw e found),
        sym (next_watchers_idle o.watchers adds removes a e) ∙ next_watchers-exact input o a h,
      )
      | inr e ↦ (
        set o,
        rw (found, update_watchers)
            (rw e (
              rw (commit-eq-ok id set (λ x. refl) s events o found)
                (get-committed id set (λ x. refl) s id events ∙ rw (eq_refl id) (rw found)))),
        next_watchers-exact input o a h,
      )
    ]
