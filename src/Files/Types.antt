-- ===== src/Files/Types.antt =====
-- The rows and inputs of apps/server/src/files/filesystem-store.ts.
use ac.Prelude.Codes.{Text}
use ac.Files.Paths.{FsPath}
use ac.Prelude.{ℕ, String, Bool, true, false, Option, List}

pub data Permission : Type 0 where
  team_manage members_manage objectives_create : Permission
  objectives_cancel objectives_reassign objectives_watch activity_read : Permission

pub data Kind : Type 0 where
  file directory : Kind

-- `rowToEntry` only leaves `parent_path` out, so the methods return rows.
pub record FsEntryRow : Type 0 where
  pub path : FsPath
  pub parent_path : FsPath
  pub name : Text
  pub kind : Kind
  pub owner : Text
  pub content_hash : Option String
  pub size : Option ℕ
  pub mime_type : Option String
  pub created_at : ℕ
  pub created_by : Text
  pub updated_at : ℕ

-- `refcount` falls below 1 only for a moment: the row goes at once.
pub record BlobRow : Type 0 where
  pub hash : String
  pub size : ℕ
  pub refcount : ℕ
  pub created_at : ℕ

pub record GrantRow : Type 0 where
  pub path : FsPath
  pub viewer : Text
  pub granted_at : ℕ
  pub granted_via : String

pub record FilesystemStore : Type 0 where
  pub entries : List FsEntryRow
  pub blobs : List BlobRow
  pub grants : List GrantRow

pub record ViewerContext : Type 0 where
  pub name : Text
  pub permissions : List Permission

pub data WriteCollisionStrategy : Type 0 where
  error overwrite suffix : WriteCollisionStrategy

abbrev pub is_file : Kind → Bool
is_file Kind.file = true
is_file Kind.directory = false
