-- ===== src/Tokens/Revocation.antt =====
-- What a revocation in apps/server/src/tokens.ts means for every later request.
use ac.Tokens.History.{Call, hashes, run, Inserts, run-All, find-All}
use ac.Tokens.Store.{
  InternalTokenRow, TokenStore, find_by_hash, resolve, revoke, revoke_all_for_member,
}
use ac.Prelude.{
  Bool-cases, Option-cases, keep, All, All-keep, All-keep_test, includes, IsDistinct, ℕ, String,
  ◌≡◌, ◌≢◌, inl, inr, true, false, not, none, some, List, [], ◌∷◌, arith, ◌==◌, eq_iff, eq_refl,
}

not_member-All :
    (member : String) (rs : List InternalTokenRow)
    → All (λ r. r.member_name ≢ member) (keep (λ r. not (r.member_name == member)) rs)
not_member-All member rs =
    All-keep_test (λ (r : InternalTokenRow). r.member_name ≢ member)
      (λ r. not (r.member_name == member)) rs (λ r t e. ground (arith, eq_iff r.member_name member))

absent-All :
    (h : String) (rs : List InternalTokenRow)
    → includes (hashes rs) h ≡ false
    → All (λ r. r.hash ≢ h) rs
absent-All h [] a = tt
absent-All h (r ∷ rs) a =
    (λ e. ground (arith, eq_iff r.hash h, a, e), absent-All h rs (ground (arith, a)))

-- The row under a hash is the only one, so without it no row has the hash.
without_row-All :
    (h : String) (rs : List InternalTokenRow) (row : InternalTokenRow)
    → IsDistinct (hashes rs)
    → find_by_hash h rs ≡ some row
    → All (λ r. r.hash ≢ h) (keep (λ r. not (r.id == row.id)) rs)
unfolding find_by_hash
without_row-All h [] row d f = tt
without_row-All h (x ∷ xs) row d f = elim (Bool-cases (x.hash == h)) [
  | inl e ↦
      let same : x ≡ row = ground (arith, e, f) in
      let gone : includes (hashes xs) h ≡ false = ground (arith, eq_iff x.hash h, e, d.0) in
      let rest =
        All-keep (λ (r : InternalTokenRow). r.hash ≢ h) (λ r. not (r.id == row.id)) xs
          (absent-All h xs gone) in
      let hit : (x.id == row.id) ≡ true = ground (arith, same, eq_refl row.id) in rw hit rest
  | inr e ↦
      let rest = without_row-All h xs row d.1 (ground (arith, e, f)) in
      elim (Bool-cases (x.id == row.id)) [
        | inl t ↦ rw t rest
        | inr t ↦ rw t ((λ q. ground (arith, eq_iff x.hash h, e, q)), rest)
      ]
]

module _ (hash_of : String → String) where
  resolve_found :
      (raw : String) (now : ℕ) (s : TokenStore) (r : InternalTokenRow)
      → resolve hash_of raw now s ≡ some r
      → (find_by_hash (hash_of raw) s.tokens ≡ some r) × (r.hash ≡ hash_of raw)
  unfolding resolve
  resolve_found raw now s r h = elim (Option-cases (find_by_hash (hash_of raw) s.tokens)) [
    | inl e ↦ ground (arith, e, h)
    | inr (x, e) ↦ ground (arith, e, h, eq_iff x.hash (hash_of raw))
  ]

  -- After a token is revoked it is never resolved again, whatever calls follow, as long as no
  -- insertion brings its hash back. No hash stands twice before, as the schema has it.
  pub revoked_for_good :
      (raw_token : String) (later : ℕ) (cs : List Call) (s : TokenStore) (row : InternalTokenRow)
      → IsDistinct (hashes s.tokens)
      → find_by_hash (hash_of raw_token) s.tokens ≡ some row
      → All (Inserts hash_of (λ r. r.hash ≢ hash_of raw_token)) cs
      → resolve hash_of raw_token later (run hash_of cs (revoke row.id s).1) ≡ none
  unfolding revoke
  revoked_for_good raw later cs s row d f i =
      let P = λ (r : InternalTokenRow). r.hash ≢ hash_of raw in
      let end = run hash_of cs (revoke row.id s).1 in
      let clean =
        run-All hash_of P (λ r t p. p) cs (revoke row.id s).1 i
          (without_row-All (hash_of raw) s.tokens row d f) in
      elim (Option-cases (resolve hash_of raw later end)) [
        | inl e ↦ e
        | inr (r, e) ↦
            let (at, same) = resolve_found raw later end r e in
            absurd (find-All hash_of P (λ x t p. p) (hash_of raw) end.tokens r clean at same)
      ]

  -- After all tokens of a member are revoked no request is resolved to that member, whatever calls
  -- follow, as long as no token is inserted for them.
  pub member_revoked :
      (member raw_token : String) (later : ℕ) (cs : List Call) (s : TokenStore)
      (r : InternalTokenRow)
      → All (Inserts hash_of (λ x. x.member_name ≢ member)) cs
      → resolve hash_of raw_token later (run hash_of cs (revoke_all_for_member member s).1) ≡ some r
      → r.member_name ≢ member
  unfolding revoke_all_for_member
  member_revoked member raw later cs s r i h =
      let P = λ (x : InternalTokenRow). x.member_name ≢ member in
      let start = (revoke_all_for_member member s).1 in
      let end = run hash_of cs start in
      find-All hash_of P (λ x t p. p) (hash_of raw) end.tokens r
        (run-All hash_of P (λ x t p. p) cs start i (not_member-All member s.tokens))
        (resolve_found raw later end r h).0
