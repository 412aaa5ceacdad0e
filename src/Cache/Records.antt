-- ===== src/Cache/Records.antt =====
-- internal/cache/records.go: the records of the catalog. An int64 or an int is its bit pattern, a
-- number below 2 ^ 64 that is negative from 2 ^ 63 on; a time is a number of nanoseconds, and 0 is
-- Go's zero time. A string type with named values stays a text.
use awesome_sftp_cli.Base.{ℕ, ◌^◌, String, Bool, Option, List, leb, string_eq}

abbrev pub is_negative : ℕ → Bool
is_negative n = leb (2 ^ 63) n

pub record Fingerprint : Type 0 where
  pub strength : String
  pub canonical : List ℕ

pub record Blob : Type 0 where
  pub id : String
  pub size : ℕ
  pub state : String
  pub created_at : ℕ
  pub last_access_at : ℕ

pub record Entry : Type 0 where
  pub id : String
  pub endpoint_id : String
  pub canonical_path : List ℕ
  pub fingerprint : Fingerprint
  pub freshness : String
  pub policy : String
  pub workspace_id : String
  pub pinned : Bool
  pub blob_id : String
  pub created_at : ℕ
  pub last_access_at : ℕ

pub record Materialization : Type 0 where
  pub id : String
  pub entry_id : String
  pub baseline_blob_id : String
  pub current_blob_id : String
  pub size : ℕ
  pub state : String
  pub pinned : Bool
  pub created_at : ℕ
  pub last_access_at : ℕ

pub record Target : Type 0 where
  pub blob_id : String
  pub materialization_id : String

pub record Reference : Type 0 where
  pub id : String
  pub owner_kind : String
  pub owner_id : String
  pub target : Target
  pub created_at : ℕ

pub record ProcessIdentity : Type 0 where
  pub pid : ℕ
  pub birth_id : String

pub record Lease : Type 0 where
  pub id : String
  pub owner_kind : String
  pub owner_id : String
  pub daemon_instance_id : String
  pub target : Target
  pub state : String
  pub heartbeat_at : ℕ
  pub expires_at : ℕ
  pub grace_until : ℕ
  pub released_at : ℕ
  pub process : Option ProcessIdentity

pub record Snapshot : Type 0 where
  pub blobs : List Blob
  pub entries : List Entry
  pub materializations : List Materialization
  pub references : List Reference
  pub leases : List Lease
