-- ===== src/Enrollments/Rules.antt =====
-- What the device flow of apps/server/src/enrollments.ts promises.
use mathlib.Core.Option
use ac.Enrollments.History.{
  Call, perform, run, mint_call, approve_call, reject_call, poll_call, purge_call, poll-table,
}
use ac.Prelude.{
  ltb, Bool-cases, Result, ok, err, All, ℕ, ◌≤◌, ◌<◌, String, ◌≡◌, refl, ap, ◌∙◌, ◌≢◌, inl, inr,
  true, false, not, Option, none, some, List, [], ◌∷◌, arith, eq_iff, ◌==◌,
}
use ac.Enrollments.Methods.{
  is_wrapped, encrypt_field, decrypt_field, wrap_token, unwrap_token, new_row, is_taken, mint,
  set_approved, approve, set_rejected, reject, poll_by_device_code, purge_expired,
}
use ac.Enrollments.Lookup.{
  find_by_hash-map, find_by_hash-delete, find_by_hash-keep-none, find_by_hash-snoc-none,
  has_pending_found,
}
use ac.Enrollments.Change.{approve-Respects, reject-Respects, touch-Respects}
use ac.Enrollments.Types.{
  EnrollmentRow, MintInput, ApproveInput, PollOutcome, authorization_pending, slow_down,
  expired_token, access_denied, granted, Kek, Thrown,
}
use ac.Enrollments.Store.{
  Table, is_pending, find_by_hash, if_pending, update_pending, delete_by_hash, if_hash, touch_poll,
}

-- The documented behaviour of the cipher behind a key: what is sealed is marked so, and opens to
-- the text that was sealed.
abbrev pub KekWorks : Option Kek → Type 0
KekWorks none = Unit
KekWorks (some kek) =
    (s : String) → (is_wrapped (kek.seal s) ≡ true) × (kek.unseal (kek.seal s) ≡ some s)

unwrap-wrap :
    (kek : Option Kek) (s : String)
    → KekWorks kek
    → is_wrapped s ≡ false
    → unwrap_token kek (wrap_token kek s) ≡ some s
unfolding encrypt_field decrypt_field
unwrap-wrap none s k h = refl
unwrap-wrap (some kek) s k h = ground (arith, k s, h)

module _ (hash_of : String → String) (kek : Option Kek) where
  -- The row of a device code after an approval of its user code.
  approved_row :
      (input : ApproveInput) (device_code : String) (rs : Table) (r : EnrollmentRow)
      → find_by_hash (hash_of device_code) rs ≡ some r
      → r.user_code ≡ input.user_code
      → is_pending r.status ≡ true
      → find_by_hash (hash_of device_code) (approve kek input rs).1
        ≡ some (set_approved kek input r)
  unfolding approve update_pending
  approved_row input dc rs r f c p = ground (
    arith,
    find_by_hash-map (if_pending input.user_code (set_approved kek input)) (hash_of dc) rs
        (approve-Respects kek input).same_hash,
    f,
    eq_iff r.user_code input.user_code,
  )

  approve-true :
      (input : ApproveInput) (device_code : String) (rs : Table) (r : EnrollmentRow)
      → find_by_hash (hash_of device_code) rs ≡ some r
      → r.user_code ≡ input.user_code
      → is_pending r.status ≡ true
      → (approve kek input rs).0 ≡ true
  unfolding approve
  approve-true input dc rs r f c p = rw (← c) (has_pending_found (hash_of dc) rs r f p)

  -- An approval of a pending enrollment succeeds, and the device's next poll, in time, gets exactly
  -- the approved token, its id and the bound member, and takes the row away. The token must not look
  -- wrapped, and the cipher, if there is one, must open what it sealed.
  pub approve-poll :
      (input : ApproveInput) (device_code : String) (now : ℕ) (rs : Table) (r : EnrollmentRow)
      → KekWorks kek
      → is_wrapped input.issued_token_plaintext ≡ false
      → find_by_hash (hash_of device_code) rs ≡ some r
      → r.user_code ≡ input.user_code
      → is_pending r.status ≡ true
      → now ≤ r.expires_at
      → ((approve kek input rs).0 ≡ true)
        × (poll_by_device_code hash_of kek device_code now (approve kek input rs).1 ≡ (
          ok (granted input.issued_token_plaintext input.issued_token_id input.bound_member),
          delete_by_hash (hash_of device_code) (approve kek input rs).1,
        ))
  unfolding poll_by_device_code
  approve-poll input dc now rs r k w f c p t = (
    approve-true input dc rs r f c p,
    ground
        (arith, approved_row input dc rs r f c p, unwrap-wrap kek input.issued_token_plaintext k w),
  )

  -- An approval of a pending enrollment that has expired succeeds all the same, and the device's
  -- next poll finds the code expired.
  pub approve_expired :
      (input : ApproveInput) (device_code : String) (now : ℕ) (rs : Table) (r : EnrollmentRow)
      → find_by_hash (hash_of device_code) rs ≡ some r
      → r.user_code ≡ input.user_code
      → is_pending r.status ≡ true
      → r.expires_at < now
      → ((approve kek input rs).0 ≡ true)
        × ((poll_by_device_code hash_of kek device_code now (approve kek input rs).1).0
            ≡ ok expired_token)
  unfolding poll_by_device_code
  approve_expired input dc now rs r f c p t =
      (approve-true input dc rs r f c p, ground (arith, approved_row input dc rs r f c p))

  -- A poll that is answered for good: with the token, a refusal or the end of the code.
  abbrev pub IsFinal : Result Thrown PollOutcome → Type 0
  IsFinal (err e) = ⊥
  IsFinal (ok authorization_pending) = ⊥
  IsFinal (ok slow_down) = ⊥
  IsFinal (ok expired_token) = Unit
  IsFinal (ok (access_denied reason)) = Unit
  IsFinal (ok (granted plaintext id bound)) = Unit

  -- No mint draws the code again.
  abbrev pub Avoids : String → Call → Type 0
  Avoids hash (mint_call input now draws) = All (λ d. hash_of d.0 ≢ hash) draws
  Avoids hash (approve_call input) = Unit
  Avoids hash (reject_call input) = Unit
  Avoids hash (poll_call device_code now) = Unit
  Avoids hash (purge_call now) = Unit

  poll_consumes :
      (device_code : String) (now : ℕ) (rs : Table)
      → IsFinal (poll_by_device_code hash_of kek device_code now rs).0
      → find_by_hash (hash_of device_code) (poll_by_device_code hash_of kek device_code now rs).1
        ≡ none
  unfolding poll_by_device_code
  poll_consumes dc now rs h = ground (arith, find_by_hash-delete (hash_of dc) rs)

  mint-Avoids :
      (hash : String) (input : MintInput) (now : ℕ) (draws : List (String × String)) (rs : Table)
      → All (λ d. hash_of d.0 ≢ hash) draws
      → find_by_hash hash rs ≡ none
      → find_by_hash hash (mint hash_of input now draws rs).1 ≡ none
  unfolding mint
  mint-Avoids hash input now [] rs a e = e
  mint-Avoids hash input now ((dc, uc) ∷ draws) rs a e =
      elim (Bool-cases (is_taken (hash_of dc) uc rs)) [
        | inl t ↦ rw t (mint-Avoids hash input now draws rs a.1 e)
        | inr t ↦ rw t (find_by_hash-snoc-none hash rs (new_row input now (hash_of dc) uc) e a.0)
      ]

  perform-Avoids :
      (hash : String) (c : Call) (rs : Table)
      → Avoids hash c
      → find_by_hash hash rs ≡ none
      → find_by_hash hash (perform hash_of kek c rs) ≡ none
  unfolding perform approve reject update_pending purge_expired delete_by_hash touch_poll
  perform-Avoids hash (mint_call input now draws) rs a e = mint-Avoids hash input now draws rs a e
  perform-Avoids hash (approve_call input) rs a e =
      find_by_hash-map (if_pending input.user_code (set_approved kek input)) hash rs
        (approve-Respects kek input).same_hash
      ∙ ap (Option.map (if_pending input.user_code (set_approved kek input))) e
  perform-Avoids hash (reject_call input) rs a e =
      find_by_hash-map (if_pending input.user_code (set_rejected input)) hash rs
        (reject-Respects input).same_hash
      ∙ ap (Option.map (if_pending input.user_code (set_rejected input))) e
  perform-Avoids hash (poll_call dc now) rs a e = elim (poll-table hash_of kek dc now rs) [
    | inl p ↦ rw p e
    | inr (inl p) ↦
        rw p (find_by_hash-keep-none (λ r. not (r.device_code_hash == hash_of dc)) hash rs e)
    | inr (inr p) ↦ rw p (
        find_by_hash-map (if_hash (hash_of dc) now) hash rs
          (touch-Respects (hash_of dc) now).same_hash
        ∙ ap (Option.map (if_hash (hash_of dc) now)) e)
  ]
  perform-Avoids hash (purge_call now) rs a e =
      find_by_hash-keep-none (λ r. not (ltb r.expires_at now)) hash rs e

  run-Avoids :
      (hash : String) (cs : List Call) (rs : Table)
      → All (Avoids hash) cs
      → find_by_hash hash rs ≡ none
      → find_by_hash hash (run hash_of kek cs rs) ≡ none
  unfolding run
  run-Avoids hash [] rs a e = e
  run-Avoids hash (c ∷ cs) rs a e =
      run-Avoids hash cs (perform hash_of kek c rs) a.1 (perform-Avoids hash c rs a.0 e)

  poll_unknown :
      (device_code : String) (now : ℕ) (rs : Table)
      → find_by_hash (hash_of device_code) rs ≡ none
      → (poll_by_device_code hash_of kek device_code now rs).0 ≡ ok expired_token
  unfolding poll_by_device_code
  poll_unknown dc now rs e = ground (arith, e)

  -- Once a poll has answered with the token, a refusal or the end of the code, every later poll of
  -- that device code answers that it has expired, whatever calls come between, as long as no mint
  -- draws a code with the same hash.
  pub single_use :
      (device_code : String) (now later : ℕ) (cs : List Call) (rs : Table)
      → IsFinal (poll_by_device_code hash_of kek device_code now rs).0
      → All (Avoids (hash_of device_code)) cs
      → (poll_by_device_code hash_of kek device_code later
          (run hash_of kek cs (poll_by_device_code hash_of kek device_code now rs).1)).0
        ≡ ok expired_token
  single_use dc now later cs rs f a =
      let gone =
        run-Avoids (hash_of dc) cs (poll_by_device_code hash_of kek dc now rs).1 a
          (poll_consumes dc now rs f) in
      poll_unknown dc later (run hash_of kek cs (poll_by_device_code hash_of kek dc now rs).1) gone
