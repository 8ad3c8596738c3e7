-- ===== src/Fleet/State.antt =====
-- What the callbacks of nodes read and change: TaskResult (pkg/admiral), the tables, and the decoders of
-- the texts that arrive with a callback.
use admirald.Shared.{ℕ, ℤ, Bool, Option, String, List, Error}
use admirald.Nodes.Node.{Node}
use admirald.Nodes.Select.{Tier}
use admirald.Queue.Settle.{Table}
use admirald.Instances.Instance.{CustomerApp}
use admirald.Operations.Operation.{Operation}
use admirald.Fleet.Evidence.{RestartImageEvidence, ServiceImage}

pub record TaskResult : Type 0 where
  pub task_id : String
  pub operation_id : String
  pub node_id : String
  pub success : Bool
  pub error : String
  pub metadata : String

-- `setupCallbackMetadata`
pub record SetupCallbackMetadata : Type 0 where
  pub has_setup : Bool
  pub setup_failed : Bool
  pub setup_error : String

-- The columns of `backup_records` that the model reads or writes; `expires_at` is in seconds.
pub record BackupRecord : Type 0 where
  pub id : String
  pub instance_id : String
  pub status : String
  pub storage_backend : String
  pub storage_key : String
  pub size_bytes : ℤ
  pub checksum_sha256 : String
  pub completed_at : Option ℕ
  pub expires_at : Option ℕ
  pub error_message : String

-- The object `backup` of a callback's metadata, with empty fields for what is missing.
pub record BackupReport : Type 0 where
  pub backup_id : String
  pub storage_backend : String
  pub storage_key : String
  pub size_bytes : ℤ
  pub checksum_sha256 : String

-- The tables that a callback changes; `backups` is in the order of GetBackupRecords, the newest first.
pub record Control : Type 0 where
  pub commands : Table
  pub operations : List Operation
  pub apps : List CustomerApp
  pub nodes : List Node
  pub backups : List BackupRecord

-- Libraries: JSON of the callback and of tier snapshots, YAML of the application's definition,
-- `filepath.Clean`, `filepath.IsAbs`, and the text of an error. A decoder answers `none` where decoding
-- fails; `backup_of` answers what `json.Unmarshal` has filled in.
pub record Decoders : Type 0 where
  pub host_ports_of : String → Option (List (String × ℕ))
  pub setup_of : String → Option SetupCallbackMetadata
  pub images_of : String → Option (List (String × RestartImageEvidence))
  -- the fields `action` and `target_tier`
  pub resize_of : String → Option (String × Tier)
  pub backup_of : String → BackupReport
  pub tier_of : String → Option Tier
  pub tier_json : Tier → String
  pub clean : String → String
  pub is_abs : String → Bool
  pub error_text : Error → String

-- The definitions of applications, which callbacks only read: the services of an application, with `none`
-- where its YAML cannot be decoded, and its tiers.
pub record Catalog : Type 0 where
  pub services_of : String → Option (Option (List ServiceImage))
  pub tiers_of : String → List Tier
