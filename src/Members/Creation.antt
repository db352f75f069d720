-- ===== src/Members/Creation.antt =====
-- `addMember` of apps/server/src/team-store.ts and POST /members of apps/server/src/app.ts.
use ac.Files.Types.{Permission, members_manage}
use ac.Tokens.Store.{TokenStore, TokenOrigin, InternalTokenRow, insert}
use ac.Members.Store.{
  Server, Answered, RawMemberRow, LoadedMember, TeamTables, find_row, find_by_name,
}
use ac.Members.Permissions.{has_permission, resolve_permissions}
use ac.Prelude.{
  ltb, if◌then◌else◌, Result, ok, err, ℕ, ◌+◌, String, Bool, not, Option, none, some, List, [], ◌∷◌,
  ◌++◌,
}

-- The text of the secret is as it is stored.
pub record AddMemberInput : Type 0 where
  pub name : String
  pub role_title : String
  pub role_description : String
  pub instructions : String
  pub raw_permissions : List String
  pub totp_secret : Option String

-- `nextOrderStmt`: one more than the largest, 0 on an empty table.
unfoldable pub next_order : List RawMemberRow → ℕ
next_order [] = 0
next_order (r ∷ rs) =
    let rest = next_order rs in if ltb r.insertion_order rest then rest else 1 + r.insertion_order

abbrev pub row_of : AddMemberInput → ℕ → List RawMemberRow → RawMemberRow
row_of input now rs = record {
  name = input.name;
  role_title = input.role_title;
  role_description = input.role_description;
  instructions = input.instructions;
  raw_permissions = input.raw_permissions;
  totp_secret = input.totp_secret;
  totp_last_counter = 0;
  insertion_order = next_order rs;
  created_at = now;
  updated_at = now;
}

abbrev pub Added : Type 0
Added = Result String LoadedMember × TeamTables

abbrev pub reread_member : TeamTables → Result String (Option LoadedMember) → Added
reread_member s (err e) = (err e, s)
reread_member s (ok none) = (err "row not visible after insert", s)
reread_member s (ok (some m)) = (ok m, s)

abbrev pub with_row : RawMemberRow → TeamTables → TeamTables
with_row row s = record s { members = s.members ++ row ∷ [] }

abbrev pub adding_row : RawMemberRow → TeamTables → Result String (List Permission) → Added
adding_row row s (err e) = (err e, s)
adding_row row s (ok ps) = reread_member (with_row row s) (find_by_name row.name (with_row row s))

abbrev pub if_new : AddMemberInput → ℕ → TeamTables → Option RawMemberRow → Added
if_new input now s (some existing) = (err "duplicate name", s)
if_new input now s none =
    adding_row (row_of input now s.members) s
      (resolve_permissions input.raw_permissions s.permission_presets)

-- `accepted` is what the validators say of the input.
unfoldable pub add_member : AddMemberInput → Bool → ℕ → TeamTables → Added
add_member input accepted now s =
    if accepted then if_new input now s (find_row input.name s.members) else (err "invalid", s)

-- What the route draws: the raw token and the id of its row.
pub record FreshToken : Type 0 where
  pub raw : String
  pub id : String

abbrev pub inserted_token : Server → Option InternalTokenRow × TokenStore → Answered
inserted_token s (none, tokens) = (500, s)
inserted_token s (some row, tokens) = (200, record s { tokens = tokens })

module _ (hash_of : String → String) (caller : String) (token : FreshToken) (now : ℕ) where
  abbrev pub with_initial_token : String → Server → Answered
  with_initial_token name s = inserted_token s (
      insert hash_of token.raw
        (record {
          member_name = name;
          hash = "";
          label = some "initial";
          origin = some TokenOrigin.bootstrap;
          expires_at = none;
          created_by = some caller;
        })
        token.id now s.tokens)

  abbrev pub after_add : String → Server → Added → Answered
  after_add name s (err e, team) = (409, record s { team = team })
  after_add name s (ok m, team) = with_initial_token name (record s { team = team })

  abbrev pub creating : AddMemberInput → Bool → Server → Result String (List Permission) → Answered
  creating input accepted s (err e) = (400, s)
  creating input accepted s (ok ps) = after_add input.name s (add_member input accepted now s.team)

  abbrev pub if_absent :
      AddMemberInput → Bool → Server → Result String (Option LoadedMember) → Answered
  if_absent input accepted s (err e) = (500, s)
  if_absent input accepted s (ok (some m)) = (409, s)
  if_absent input accepted s (ok none) =
      creating input accepted s
        (resolve_permissions input.raw_permissions s.team.permission_presets)

  -- POST /members, for the body that its schema accepted, if it did. The broker's seeding with the
  -- new name, which follows, is in Broker.
  unfoldable pub create_member_route :
      List Permission → Bool → Option AddMemberInput → Bool → Server → Answered
  create_member_route granted can_persist body accepted s =
      if not (has_permission members_manage granted)
      then (403, s)
      else if not can_persist
      then (501, s)
      else elim body [
        | none ↦ (400, s)
        | some input ↦ if_absent input accepted s (find_by_name input.name s.team)
      ]
