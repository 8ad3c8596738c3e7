-- ===== src/Fleet/Backups.antt =====
-- handleBackupCallback of internal/api/handlers_fleet.go.
use text.Mathlib.Text.{starts_with}
use admirald.Shared.{
  ℕ, ◌+◌, ◌*◌, Bool, not, ◌&&◌, ◌||◌, Option, none, some, String, List, find, if◌then◌else◌, ◌==◌,
  update_where,
}
use admirald.Operations.Operation.{Operation}
use admirald.Fleet.State.{TaskResult, BackupRecord, BackupReport, Decoders}

abbrev pub is_backup : String → BackupRecord → Bool
is_backup id r = r.id == id

abbrev pub get_backup_record : String → List BackupRecord → Option BackupRecord
get_backup_record id backups = find (is_backup id) backups

-- The first pending one of the instance's backups.
abbrev pub pending_backup : String → List BackupRecord → Option BackupRecord
pending_backup instance_id backups =
    find (λ r. (r.instance_id == instance_id) && (r.status == "pending")) backups

abbrev pub id_of : Option BackupRecord → String
id_of none = ""
id_of (some r) = r.id

-- `UpdateBackupRecord`, at a time.
unfoldable pub update_backup_record : ℕ → BackupRecord → List BackupRecord → List BackupRecord
update_backup_record now r = update_where (is_backup r.id) (λ x. record x {
  status = r.status;
  storage_backend = r.storage_backend;
  storage_key = r.storage_key;
  size_bytes = r.size_bytes;
  checksum_sha256 = r.checksum_sha256;
  completed_at = some now;
  expires_at = r.expires_at;
  error_message = r.error_message;
})

abbrev pub thirty_days : ℕ
thirty_days = 30 * 24 * 3600

-- The key of a local backup is taken over unless it is absolute or leaves the directory.
unfoldable pub new_storage_key : Decoders → BackupReport → String → String
new_storage_key dec b old =
    if not (b.storage_key == "") && (b.storage_backend == "local")
    then (let cleaned = dec.clean b.storage_key in
        if dec.is_abs cleaned || starts_with cleaned ".." then old else b.storage_key)
    else old

unfoldable pub succeeded_backup : Decoders → ℕ → BackupReport → BackupRecord → BackupRecord
unfolding new_storage_key
succeeded_backup dec now b r = record r {
  status = "succeeded";
  size_bytes = b.size_bytes;
  checksum_sha256 = b.checksum_sha256;
  storage_backend = if b.storage_backend == "" then r.storage_backend else b.storage_backend;
  storage_key = new_storage_key dec b r.storage_key;
  expires_at = some (now + thirty_days);
}

-- The backup that the callback names, or else the pending one.
abbrev pub reported_id : BackupReport → String → List BackupRecord → String
reported_id b instance_id backups =
    if b.backup_id == "" then id_of (pending_backup instance_id backups) else b.backup_id

unfoldable pub record_backup :
    Decoders → ℕ → BackupReport → Option BackupRecord → List BackupRecord → List BackupRecord
unfolding update_backup_record succeeded_backup
record_backup dec now b none backups = backups
record_backup dec now b (some r) backups =
    update_backup_record now (succeeded_backup dec now b r) backups

unfoldable pub fail_backup : ℕ → Option BackupRecord → List BackupRecord → List BackupRecord
unfolding update_backup_record
fail_backup now none backups = backups
fail_backup now (some r) backups = update_backup_record now (record r { status = "failed" }) backups

unfoldable pub handle_backup_callback :
    Decoders → ℕ → Operation → TaskResult → Bool → List BackupRecord → List BackupRecord
unfolding record_backup fail_backup
handle_backup_callback dec now op res success backups =
    let b = dec.backup_of res.metadata in
    let id = reported_id b op.instance_id backups in
    if success
    then (if id == ""
        then backups
        else record_backup dec now b (get_backup_record id backups) backups)
    else fail_backup now (pending_backup op.instance_id backups) backups
