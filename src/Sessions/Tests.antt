-- ===== src/Sessions/Tests.antt =====
-- The sessions of apps/server/src/sessions.ts at concrete calls.
use mathlib.Core.Option
use ac.Sessions.Store.{create, get, purge_expired, select, touch, delete}
use ac.Sessions.Spec.{
  Call, create_call, perform, run, purge_call, touch_call, delete_call, expires, follow_all,
  binding_of, get-follow,
}
use ac.Prelude.{◌≡◌, refl, none, some, List, [], ◌∷◌, map}

abbrev calls : List Call
calls =
    create_call "ada" (some "Firefox") "s-1" 1000
    ∷ create_call "bob" none "s-2" 2000
    ∷ touch_call "s-1" 500000000
    ∷ purge_call 604803000
    ∷ delete_call "s-9"
    ∷ []

-- The touched session outlives the purge, the other does not.
after_purge : map (λ r. r.id) (run calls []) ≡ "s-1" ∷ []
unfolding run perform create touch delete purge_expired select
after_purge = refl

get-follow_example :
    Option.map (λ r. r.member_name) (get "s-1" 700000000 (run calls []))
    ≡ Option.map (λ b. b.0) (expires 700000000 (follow_all "s-1" calls (binding_of "s-1" [])))
get-follow_example = get-follow calls [] "s-1" 700000000 tt
