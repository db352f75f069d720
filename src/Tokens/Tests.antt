-- ===== src/Tokens/Tests.antt =====
-- The tokens of apps/server/src/tokens.ts at concrete calls.
use Prim.Native.String
use ac.Tokens.History.{Call, insert_call, touch_call, touch_now_call, purge_call, perform, run}
use ac.Tokens.Revocation.{revoked_for_good, member_revoked}
use ac.Tokens.Store.{
  InternalTokenRow, InsertHashedTokenInput, TokenStore, find_by_hash, find_by_id, touched_at,
  new_row, insert_row, insert, resolve, touch_now, touch, revoke, revoke_all_for_member,
  purge_expired,
}
use ac.Prelude.{String, ◌≡◌, refl, ◌≢◌, false, none, some, List, [], ◌∷◌, arith, ◌==◌, eq_iff}

abbrev sha : String → String
sha s = String.◌++◌ "sha256:" s

abbrev for_member : String → InsertHashedTokenInput
for_member name = record {
  member_name = name;
  hash = "";
  label = none;
  origin = none;
  expires_at = some 9000;
  created_by = none;
}

abbrev token_of : String → String → String → InternalTokenRow
token_of name raw id = new_row (record (for_member name) { hash = sha raw }) id 100

abbrev two : TokenStore
two = record {
  tokens = token_of "ada" "ac7_a" "t-1" ∷ token_of "bob" "ac7_b" "t-2" ∷ [];
  last_touched = [];
}

abbrev calls : List Call
calls =
    touch_call "t-1" 500
    ∷ insert_call "ac7_c" (for_member "bob") "t-3" 600
    ∷ touch_now_call "t-2" 700
    ∷ purge_call 800
    ∷ []

differs : (a b : String) → (a == b) ≡ false → a ≢ b
differs a b h e = ground (arith, eq_iff a b)

found : find_by_hash (sha "ac7_a") two.tokens ≡ some (token_of "ada" "ac7_a" "t-1")
unfolding find_by_hash
found = refl

revoked_for_good_example : resolve sha "ac7_a" 900 (run sha calls (revoke "t-1" two).1) ≡ none
revoked_for_good_example =
    revoked_for_good sha "ac7_a" 900 calls two (token_of "ada" "ac7_a" "t-1") (refl, (refl, tt))
      found (tt, (differs (sha "ac7_c") (sha "ac7_a") refl, (tt, (tt, tt))))

bob_resolves :
    resolve sha "ac7_b" 900 (run sha calls (revoke_all_for_member "ada" two).1)
    ≡ some (record (token_of "bob" "ac7_b" "t-2") { last_used_at = some 700 })
unfolding resolve run perform insert insert_row touch touch_now purge_expired revoke_all_for_member
    find_by_hash find_by_id touched_at
bob_resolves = refl

member_revoked_example : ◌≢◌ {A = String} "bob" "ada"
member_revoked_example =
    member_revoked sha "ada" "ac7_b" 900 calls two
      (record (token_of "bob" "ac7_b" "t-2") { last_used_at = some 700 })
      (tt, (differs "bob" "ada" refl, (tt, (tt, tt)))) bob_resolves
