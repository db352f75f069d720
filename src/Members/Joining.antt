-- ===== src/Members/Joining.antt =====
-- That POST /members of apps/server/src/app.ts adds a member who can sign in.
use ac.Members.Creation.{AddMemberInput, FreshToken}
use ac.Tokens.Store.{InternalTokenRow, resolve}
use ac.Members.Governed.{IsGoverned}
use ac.Members.Permissions.{resolve_permissions}
use ac.Members.Store.{LoadedMember, TeamTables, find_by_name, Server, Answered}
use ac.Prelude.{String, ◌≡◌, some, ok, ℕ}

-- Of a server whose route has answered: the member is there, and signs in with the raw token.
pub record SignsIn (hash_of : String → String) (raw_token : String) (later : ℕ)
    (input : AddMemberInput) (before : TeamTables) (s : Server) : Type 0 where
  pub member : LoadedMember
  pub row : InternalTokenRow
  pub found : find_by_name input.name s.team ≡ ok (some member)
  pub as_asked :
      resolve_permissions input.raw_permissions before.permission_presets ≡ ok member.permissions
  pub resolved : resolve hash_of raw_token later s.tokens ≡ some row
  pub of_member : row.member_name ≡ input.name

module _ (hash_of : String → String) (caller : String) (token : FreshToken) (now later : ℕ) where
  Joined : AddMemberInput → TeamTables → Answered → Type 0
  Joined input before answer =
      IsGoverned answer.1.team × SignsIn hash_of token.raw later input before answer.1
