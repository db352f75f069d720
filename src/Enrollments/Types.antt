-- ===== src/Enrollments/Types.antt =====
-- The records of apps/server/src/enrollments.ts.
use ac.Prelude.{ℕ, String, Option}

pub data EnrollmentStatus : Type 0 where
  pending approved rejected : EnrollmentStatus

pub record EnrollmentRow : Type 0 where
  pub device_code_hash : String
  pub user_code : String
  pub created_at : ℕ
  pub expires_at : ℕ
  pub status : EnrollmentStatus
  pub source_ip : Option String
  pub source_ua : Option String
  pub label_hint : String
  pub approved_by : Option String
  pub bound_member : Option String
  pub approve_args_json : Option String
  pub issued_token_id : Option String
  pub issued_token_ct : Option String
  pub reject_reason : Option String
  pub last_polled_at : Option ℕ

pub record MintInput : Type 0 where
  pub source_ip : Option String
  pub source_ua : Option String
  pub label_hint : Option String

pub record MintResult : Type 0 where
  pub device_code : String
  pub user_code : String
  pub user_code_formatted : String
  pub device_code_hash : String
  pub expires_at : ℕ
  pub expires_in : ℕ
  pub interval : ℕ

pub record ApproveInput : Type 0 where
  pub user_code : String
  pub approved_by : String
  pub bound_member : String
  pub approve_args_json : String
  pub issued_token_id : String
  pub issued_token_plaintext : String

pub record RejectInput : Type 0 where
  pub user_code : String
  pub rejected_by : String
  pub reason : Option String

pub data PollOutcome : Type 0 where
  authorization_pending slow_down expired_token : PollOutcome
  access_denied : Option String → PollOutcome
  granted : (token_plaintext token_id member_name : String) → PollOutcome

pub data LookupOutcome : Type 0 where
  is_open : EnrollmentRow → LookupOutcome
  expired already_approved not_found : LookupOutcome
  already_rejected : Option String → LookupOutcome

-- What node:crypto gives: the hash of a device code, and, where a key is configured, the sealed
-- text that `encryptField` puts together and what `decryptField` opens of it; `none` is its throw.
pub record Kek : Type 0 where
  pub seal : String → String
  pub unseal : String → Option String

-- What a method throws: the failed INSERT of `mint`, or the error of `decryptField`.
pub data Thrown : Type 0 where
  unique_constraint encrypted_field_error : Thrown
