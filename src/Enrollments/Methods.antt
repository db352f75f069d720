-- ===== src/Enrollments/Methods.antt =====
-- The methods of `EnrollmentStore` in apps/server/src/enrollments.ts. The hash and the key are
-- parameters, the clock and the random codes arguments.
use ac.Prelude.Text.{slice_units}
use text.Mathlib.Text.{starts_with}
use ac.Enrollments.Types.{
  not_found, EnrollmentStatus, EnrollmentRow, MintInput, MintResult, ApproveInput, RejectInput,
  PollOutcome, authorization_pending, slow_down, expired_token, access_denied, granted,
  LookupOutcome, is_open, expired, already_approved, already_rejected, Kek, Thrown,
  unique_constraint, encrypted_field_error,
}
use ac.Prelude.{
  ltb, leb, if◌then◌else◌, is_some, Result, ok, err, length, keep, ℕ, ◌+◌, ◌/◌, String, Bool, false,
  ◌&&◌, ◌||◌, not, Option, none, some, List, [], ◌∷◌, ◌++◌,
}
use ac.Prelude.Sort.{order_by}
use ac.Enrollments.Store.{
  enrollment_ttl_ms, default_poll_interval_s, slow_down_threshold_ms, Table, is_pending,
  find_by_code, find_by_hash, update_pending, has_pending, delete_by_hash, touch_poll,
  format_user_code, or_blank,
}

abbrev pub enc_prefix : String
enc_prefix = "enc-v1:"

abbrev pub is_wrapped : String → Bool
is_wrapped s = starts_with s enc_prefix

-- `encryptField` and `decryptField` of apps/server/src/kek.ts on a text that is there.
unfoldable pub encrypt_field : String → Kek → String
encrypt_field plaintext kek = if is_wrapped plaintext then plaintext else kek.seal plaintext

unfoldable pub decrypt_field : String → Kek → Option String
decrypt_field value kek = if is_wrapped value then kek.unseal value else some value

-- `this.kek ? … : plaintext`
abbrev pub wrap_token : Option Kek → String → String
wrap_token none plaintext = plaintext
wrap_token (some kek) plaintext = encrypt_field plaintext kek

abbrev pub unwrap_token : Option Kek → String → Option String
unwrap_token none ct = some ct
unwrap_token (some kek) ct = decrypt_field ct kek

abbrev pub new_row : MintInput → ℕ → String → String → EnrollmentRow
new_row input created_at hash user_code = record {
  device_code_hash = hash;
  user_code = user_code;
  created_at = created_at;
  expires_at = created_at + enrollment_ttl_ms;
  status = EnrollmentStatus.pending;
  source_ip = input.source_ip;
  source_ua = input.source_ua;
  label_hint = slice_units 64 (or_blank input.label_hint);
  approved_by = none;
  bound_member = none;
  approve_args_json = none;
  issued_token_id = none;
  issued_token_ct = none;
  reject_reason = none;
  last_polled_at = none;
}

abbrev pub is_taken : String → String → Table → Bool
is_taken hash user_code rs = is_some (find_by_hash hash rs) || is_some (find_by_code user_code rs)

module _ (hash_of : String → String) where
  -- The attempts of `mint`, each with the device code and the user code that it draws; the source
  -- makes five.
  unfoldable pub mint :
      MintInput → ℕ → List (String × String) → Table → Result Thrown MintResult × Table
  mint input now [] rs = (err unique_constraint, rs)
  mint input now ((device_code, user_code) ∷ draws) rs =
      let again = mint input now draws rs in
      let hash = hash_of device_code in
      if is_taken hash user_code rs then again else (
        ok (record {
          device_code = device_code;
          user_code = user_code;
          user_code_formatted = format_user_code user_code;
          device_code_hash = hash;
          expires_at = now + enrollment_ttl_ms;
          expires_in = enrollment_ttl_ms / 1000;
          interval = default_poll_interval_s;
        }),
        rs ++ new_row input now hash user_code ∷ [],
      )

unfoldable pub lookup_by_user_code : String → ℕ → Table → LookupOutcome
lookup_by_user_code user_code now rs = elim (find_by_code user_code rs) [
  | none ↦ not_found
  | some row ↦ if ltb row.expires_at now then expired else elim row.status [
    | EnrollmentStatus.approved ↦ already_approved
    | EnrollmentStatus.rejected ↦ already_rejected row.reject_reason
    | EnrollmentStatus.pending ↦ is_open row
  ]
]

abbrev pub set_approved : Option Kek → ApproveInput → EnrollmentRow → EnrollmentRow
set_approved kek input r = record r {
  status = EnrollmentStatus.approved;
  approved_by = some input.approved_by;
  bound_member = some input.bound_member;
  approve_args_json = some input.approve_args_json;
  issued_token_id = some input.issued_token_id;
  issued_token_ct = some (wrap_token kek input.issued_token_plaintext);
}

unfoldable pub approve : Option Kek → ApproveInput → Table → Bool × Table
approve kek input rs =
    (has_pending input.user_code rs, update_pending input.user_code (set_approved kek input) rs)

abbrev pub set_rejected : RejectInput → EnrollmentRow → EnrollmentRow
set_rejected input r = record r {
  status = EnrollmentStatus.rejected;
  approved_by = some input.rejected_by;
  reject_reason = input.reason;
}

unfoldable pub reject : RejectInput → Table → Bool × Table
reject input rs =
    (has_pending input.user_code rs, update_pending input.user_code (set_rejected input) rs)

-- `row.lastPolledAt !== null && t - row.lastPolledAt < SLOW_DOWN_THRESHOLD_MS`
abbrev pub polled_fast : ℕ → Option ℕ → Bool
polled_fast now none = false
polled_fast now (some last) = ltb now (last + slow_down_threshold_ms)

abbrev pub Polled : Type 0
Polled = Result Thrown PollOutcome × Table

-- The branch of an approved row: its id, its wrapped token and its member.
abbrev pub take_token :
    Option Kek → String → Table → Option String → Option String → Option String → Polled
take_token kek hash rs (some id) (some ct) (some bound) = elim (unwrap_token kek ct) [
  | none ↦ (err encrypted_field_error, rs)
  | some plaintext ↦ (ok (granted plaintext id bound), delete_by_hash hash rs)
]
take_token kek hash rs none ct bound = (ok expired_token, delete_by_hash hash rs)
take_token kek hash rs (some id) none bound = (ok expired_token, delete_by_hash hash rs)
take_token kek hash rs (some id) (some ct) none = (ok expired_token, delete_by_hash hash rs)

abbrev pub poll_row : Option Kek → String → ℕ → Table → EnrollmentRow → Polled
poll_row kek hash now rs row =
    if ltb row.expires_at now then (ok expired_token, delete_by_hash hash rs) else elim row.status [
      | EnrollmentStatus.rejected ↦ (ok (access_denied row.reject_reason), delete_by_hash hash rs)
      | EnrollmentStatus.approved ↦
          take_token kek hash rs row.issued_token_id row.issued_token_ct row.bound_member
      | EnrollmentStatus.pending ↦ (
        ok (if polled_fast now row.last_polled_at then slow_down else authorization_pending),
        touch_poll now hash rs,
      )
    ]

unfoldable pub poll_by_device_code : (String → String) → Option Kek → String → ℕ → Table → Polled
poll_by_device_code hash_of kek device_code now rs = elim (find_by_hash (hash_of device_code) rs) [
  | none ↦ (ok expired_token, rs)
  | some row ↦ poll_row kek (hash_of device_code) now rs row
]

-- ORDER BY created_at ASC
unfoldable pub list_pending : ℕ → Table → Table
list_pending now rs =
    order_by (λ x y. ltb y.created_at x.created_at)
      (keep (λ r. is_pending r.status && leb now r.expires_at) rs)

unfoldable pub purge_expired : ℕ → Table → ℕ × Table
purge_expired now rs =
    (length (keep (λ r. ltb r.expires_at now) rs), keep (λ r. not (ltb r.expires_at now)) rs)
