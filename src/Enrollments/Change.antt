-- ===== src/Enrollments/Change.antt =====
-- The three ways in which the methods of apps/server/src/enrollments.ts change the table.
use ac.Prelude.{
  is_some, keep, ℕ, ◌+◌, String, ◌≡◌, Bool, true, false, Option, [], ◌∷◌, ◌++◌, map, arith,
}
use ac.Enrollments.Methods.{is_taken, set_approved, set_rejected}
use ac.Enrollments.Types.{EnrollmentStatus, EnrollmentRow, ApproveInput, RejectInput, Kek}
use ac.Enrollments.Store.{enrollment_ttl_ms, Table, is_pending, if_pending, if_hash}

abbrev pub is_approved : EnrollmentStatus → Bool
is_approved EnrollmentStatus.pending = false
is_approved EnrollmentStatus.approved = true
is_approved EnrollmentStatus.rejected = false

-- A row lives for five minutes, and carries a member and a token exactly once approved.
pub record RowIsSound (r : EnrollmentRow) : Type 0 where
  pub lives : r.expires_at ≡ r.created_at + enrollment_ttl_ms
  pub bound : is_some r.bound_member ≡ is_approved r.status
  pub token : is_some r.issued_token_id ≡ is_approved r.status
  pub sealed : is_some r.issued_token_ct ≡ is_approved r.status

-- A change of a row that leaves its keys, and a decided row's decision.
pub record Respects (f : EnrollmentRow → EnrollmentRow) : Type 0 where
  pub same_hash : (r : EnrollmentRow) → (f r).device_code_hash ≡ r.device_code_hash
  pub same_code : (r : EnrollmentRow) → (f r).user_code ≡ r.user_code
  pub decided : (r : EnrollmentRow) → is_pending r.status ≡ false → (f r).status ≡ r.status
  pub sound : (r : EnrollmentRow) → RowIsSound r → RowIsSound (f r)

pub data Change : Table → Table → Type 0 where
  stays : {rs : Table} → Change rs rs
  maps : (f : EnrollmentRow → EnrollmentRow) {rs : Table} → Respects f → Change rs (map f rs)
  keeps : (p : EnrollmentRow → Bool) {rs : Table} → Change rs (keep p rs)
  adds :
      (r : EnrollmentRow) {rs : Table}
      → RowIsSound r
      → is_taken r.device_code_hash r.user_code rs ≡ false
      → Change rs (rs ++ r ∷ [])

pub approve-Respects :
    (kek : Option Kek) (input : ApproveInput)
    → Respects (if_pending input.user_code (set_approved kek input))
approve-Respects kek input = record {
  same_hash = λ r. ground arith;
  same_code = λ r. ground arith;
  decided = λ r h. ground arith;
  sound = λ r h. ground (arith, h.lives, h.bound, h.token, h.sealed);
}

pub reject-Respects :
    (input : RejectInput) → Respects (if_pending input.user_code (set_rejected input))
reject-Respects input = record {
  same_hash = λ r. ground arith;
  same_code = λ r. ground arith;
  decided = λ r h. ground arith;
  sound = λ r h. ground (arith, h.lives, h.bound, h.token, h.sealed);
}

pub touch-Respects : (hash : String) (now : ℕ) → Respects (if_hash hash now)
touch-Respects hash now = record {
  same_hash = λ r. ground arith;
  same_code = λ r. ground arith;
  decided = λ r h. ground arith;
  sound = λ r h. ground (arith, h.lives, h.bound, h.token, h.sealed);
}
