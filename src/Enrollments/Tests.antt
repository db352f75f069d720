-- ===== src/Enrollments/Tests.antt =====
-- The device flow of apps/server/src/enrollments.ts at concrete calls.
use Prim.Native.String
use ac.Prelude.Text.{slice_units, drop_units, length_units}
use text.Mathlib.TextPositions.{starts_with-append, len-append, slice-append_right}
use ac.Enrollments.History.{
  Call, IsSound, run, mint_call, approve_call, poll_call, purge_call, run_enrollments-IsSound,
}
use ac.Prelude.{
  ok, All, String, ◌≡◌, refl, ◌≢◌, true, false, none, some, List, [], ◌∷◌, arith, ◌==◌, eq_iff, ap,
  ◌∙◌,
}
use ac.Enrollments.Methods.{enc_prefix, new_row, mint, approve, reject, poll_by_device_code}
use ac.Enrollments.Rules.{KekWorks, approve-poll, approve_expired, IsFinal, Avoids, single_use}
use ac.Enrollments.Types.{
  EnrollmentRow, MintInput, ApproveInput, RejectInput, expired_token, granted, Kek,
}
use ac.Enrollments.Store.{
  Table, find_by_code, find_by_hash, update_pending, delete_by_hash, format_user_code,
}

abbrev sha : String → String
sha s = String.◌++◌ "sha:" s

abbrev key : Kek
key = record {
  seal = λ s. String.◌++◌ enc_prefix s;
  unseal = λ v. some (String.slice v 7 (String.len v));
}

key-KekWorks : KekWorks (some key)
key-KekWorks s = (
  starts_with-append enc_prefix s,
  ap some (
      ap (λ k. String.slice (String.◌++◌ enc_prefix s) 7 k) (len-append enc_prefix s)
      ∙ slice-append_right enc_prefix s),
)

abbrev from_cli : MintInput
from_cli = record { source_ip = some "10.0.0.2"; source_ua = none; label_hint = some "laptop" }

abbrev row : EnrollmentRow
row = new_row from_cli 1000 (sha "dc-1") "ABCD2345"

abbrev other_row : EnrollmentRow
other_row = new_row from_cli 900 (sha "dc-0") "ZZZZ2345"

abbrev table : Table
table = other_row ∷ row ∷ []

abbrev input : ApproveInput
input = record {
  user_code = "ABCD2345";
  approved_by = "ada";
  bound_member = "bot";
  approve_args_json = "{}";
  issued_token_id = "t-1";
  issued_token_plaintext = "ac7_secret";
}

row_found : find_by_hash (sha "dc-1") table ≡ some row
unfolding find_by_hash
row_found = refl

-- The first draw collides with a user code that is held, the second is inserted.
mint_retries :
    (mint sha from_cli 1000 (("dc-9", "ZZZZ2345") ∷ ("dc-1", "ABCD2345") ∷ []) (other_row ∷ [])).1
    ≡ table
unfolding mint find_by_hash find_by_code
mint_retries = refl

approve-poll_example :
    ((approve (some key) input table).0 ≡ true)
    × (poll_by_device_code sha (some key) "dc-1" 2000 (approve (some key) input table).1 ≡ (
      ok (granted "ac7_secret" "t-1" "bot"),
      delete_by_hash (sha "dc-1") (approve (some key) input table).1,
    ))
approve-poll_example =
    approve-poll sha (some key) input "dc-1" 2000 table row key-KekWorks refl row_found refl refl
      (omega arith)

approve_expired_example :
    ((approve (some key) input table).0 ≡ true)
    × ((poll_by_device_code sha (some key) "dc-1" 400000 (approve (some key) input table).1).0
        ≡ ok expired_token)
approve_expired_example =
    approve_expired sha (some key) input "dc-1" 400000 table row row_found refl refl (omega arith)

abbrev refusal : RejectInput
refusal = record { user_code = "ABCD2345"; rejected_by = "ada"; reason = some "unknown device" }

abbrev refused : Table
refused = (reject refusal table).1

refused_poll : IsFinal sha (some key) (poll_by_device_code sha (some key) "dc-1" 2000 refused).0
unfolding poll_by_device_code reject update_pending find_by_hash
refused_poll = tt

abbrev calls : List Call
calls =
    purge_call 3000
    ∷ mint_call from_cli 3500 (("dc-2", "ABCD2345") ∷ [])
    ∷ approve_call input
    ∷ poll_call "dc-2" 4000
    ∷ []

differs : (a b : String) → (a == b) ≡ false → a ≢ b
differs a b h e = ground (arith, eq_iff a b)

calls-Avoids : All (Avoids sha (some key) (sha "dc-1")) calls
calls-Avoids = (tt, ((differs (sha "dc-2") (sha "dc-1") refl, tt), (tt, (tt, tt))))

single_use_example :
    (poll_by_device_code sha
      (some key)
      "dc-1"
      5000
      (run sha (some key) calls (poll_by_device_code sha (some key) "dc-1" 2000 refused).1)).0
    ≡ ok expired_token
single_use_example =
    single_use sha (some key) "dc-1" 2000 5000 calls refused refused_poll calls-Avoids

table-IsSound : IsSound table
table-IsSound = record {
  rows = (
    record { lives = refl; bound = refl; token = refl; sealed = refl },
    (record { lives = refl; bound = refl; token = refl; sealed = refl }, tt),
  );
  hashes = (refl, (refl, tt));
  user_codes = (refl, (refl, tt));
}

run_enrollments-IsSound_example : IsSound (run sha (some key) calls table)
run_enrollments-IsSound_example = run_enrollments-IsSound sha (some key) calls table table-IsSound

code_formatted : format_user_code "ABCD2345" ≡ "ABCD-2345"
unfolding format_user_code length_units slice_units drop_units
code_formatted = refl

label_cut : slice_units 3 "a😀b" ≡ "a😀"
unfolding slice_units
label_cut = refl
