-- ===== src/Backup.antt =====
-- astartis/core/veeam_interface: the backup repository that VeeamInterface stands for. The clock's
-- reading is an argument; the number of checks, an int, is not reduced.
pub mod History
use astartis_codex_control_p.Base.{ℕ, ◌+◌, String, Bool, true, false, [], ◌∷◌, concat, nat_text}
use astartis_codex_control_p.Callbacks.{AuditAdder}

pub data BackupLockState : Type 0 where
  unlocked immutable compliance_lock : BackupLockState

pub record BackupLockResult : Type 0 where
  pub success : Bool
  pub repo_id : String
  pub lock_state : BackupLockState
  pub backup_count : ℕ
  pub locked_at_ms : ℕ
  pub locked_by_reason : String
  pub audit_entry_id : String
  pub error_message : String

pub record IntegrityCheckResult : Type 0 where
  pub passed : Bool
  pub checked_count : ℕ
  pub violations_found : ℕ
  pub checked_at_ms : ℕ
  pub audit_entry_id : String

pub record BackupRepoStatus : Type 0 where
  pub repo_id : String
  pub lock_state : BackupLockState
  pub backup_count : ℕ
  pub locked_at_ms : ℕ
  pub locked_by_reason : String
  pub integrity_check_count : ℕ
  pub last_integrity_check_ms : ℕ

pub record StubBackupRepo : Type 0 where
  pub lock_state : BackupLockState
  pub backup_count : ℕ
  pub locked_at_ms : ℕ
  pub locked_by_reason : String
  pub integrity_check_count : ℕ
  pub last_integrity_check_ms : ℕ

abbrev pub stub_repo_id : String
stub_repo_id = "astartis-demo-repo-01"

abbrev pub new_repo : StubBackupRepo
new_repo = record {
  lock_state = BackupLockState.unlocked;
  backup_count = 47;
  locked_at_ms = 0;
  locked_by_reason = "";
  integrity_check_count = 0;
  last_integrity_check_ms = 0;
}

unfoldable pub lock_state_str : BackupLockState → String
lock_state_str BackupLockState.unlocked = "UNLOCKED"
lock_state_str BackupLockState.immutable = "IMMUTABLE"
lock_state_str BackupLockState.compliance_lock = "COMPLIANCE_LOCK"

unfoldable pub status : StubBackupRepo → BackupRepoStatus
status r = record {
  repo_id = stub_repo_id;
  lock_state = r.lock_state;
  backup_count = r.backup_count;
  locked_at_ms = r.locked_at_ms;
  locked_by_reason = r.locked_by_reason;
  integrity_check_count = r.integrity_check_count;
  last_integrity_check_ms = r.last_integrity_check_ms;
}

-- A result with the fields that are written on every path; the others are empty, and locked_at_ms,
-- which the source leaves without a value on the paths of unlock_backups, is 0.
abbrev pub result_of : Bool → BackupLockState → ℕ → String → BackupLockResult
result_of success lock_state backup_count error = record {
  success = success;
  repo_id = stub_repo_id;
  lock_state = lock_state;
  backup_count = backup_count;
  locked_at_ms = 0;
  locked_by_reason = "";
  audit_entry_id = "";
  error_message = error;
}

unfoldable pub already_locked : StubBackupRepo → BackupLockResult
already_locked r = record (result_of false r.lock_state r.backup_count "already_locked") {
  locked_at_ms = r.locked_at_ms;
  locked_by_reason = r.locked_by_reason;
}

module _ {W : Type 0} (audit_adder : AuditAdder W) where
  -- lock_backups behind its guard
  unfoldable pub engage : String → ℕ → StubBackupRepo → W → BackupLockResult × StubBackupRepo × W
  unfolding concat
  engage reason now r w =
      let (id, w') =
        audit_adder "veeam_backup_locked"
          (concat (
            "repo_id=\""
            ∷ stub_repo_id
            ∷ "\""
            ∷ " backup_count="
            ∷ nat_text r.backup_count
            ∷ " reason=\""
            ∷ reason
            ∷ "\""
            ∷ " locked_at_ms="
            ∷ nat_text now
            ∷ []))
          w in
      (
        record (result_of true BackupLockState.immutable r.backup_count "") {
          locked_at_ms = now;
          locked_by_reason = reason;
          audit_entry_id = id;
        },
        record r {
          lock_state = BackupLockState.immutable;
          locked_at_ms = now;
          locked_by_reason = reason;
        },
        w',
      )

  -- The function at each state of the lock.
  unfoldable pub lock_at :
      BackupLockState → String → ℕ → StubBackupRepo → W → BackupLockResult × StubBackupRepo × W
  unfolding engage already_locked
  lock_at BackupLockState.unlocked reason now r w = engage reason now r w
  lock_at BackupLockState.immutable reason now r w = (already_locked r, r, w)
  lock_at BackupLockState.compliance_lock reason now r w = (already_locked r, r, w)

  unfoldable pub lock_backups :
      String → ℕ → StubBackupRepo → W → BackupLockResult × StubBackupRepo × W
  unfolding lock_at
  lock_backups reason now r w = lock_at r.lock_state reason now r w

  unfoldable pub unlock_at :
      BackupLockState → String → StubBackupRepo → W → BackupLockResult × StubBackupRepo × W
  unfolding concat
  unlock_at BackupLockState.unlocked authority r w =
      (result_of false BackupLockState.unlocked r.backup_count "already_unlocked", r, w)
  unlock_at BackupLockState.compliance_lock authority r w = (
    result_of false BackupLockState.compliance_lock r.backup_count
        "compliance_lock_requires_retention_expiry",
    r,
    w,
  )
  unlock_at BackupLockState.immutable authority r w =
      let (id, w') =
        audit_adder "veeam_backup_unlocked"
          (concat ("repo_id=\"" ∷ stub_repo_id ∷ "\"" ∷ " authority=\"" ∷ authority ∷ "\"" ∷ []))
          w in
      (
        record (result_of true BackupLockState.unlocked r.backup_count "") { audit_entry_id = id },
        record r { lock_state = BackupLockState.unlocked; locked_at_ms = 0; locked_by_reason = "" },
        w',
      )

  unfoldable pub unlock_backups :
      String → StubBackupRepo → W → BackupLockResult × StubBackupRepo × W
  unfolding unlock_at
  unlock_backups authority r w = unlock_at r.lock_state authority r w

  unfoldable pub integrity_check :
      ℕ → StubBackupRepo → W → IntegrityCheckResult × StubBackupRepo × W
  unfolding concat
  integrity_check now r w =
      let (id, w') =
        audit_adder "veeam_integrity_check"
          (concat (
            "repo_id=\""
            ∷ stub_repo_id
            ∷ "\""
            ∷ " checked="
            ∷ nat_text r.backup_count
            ∷ " violations=0"
            ∷ " check_num="
            ∷ nat_text (r.integrity_check_count + 1)
            ∷ []))
          w in
      (
        record {
          passed = true;
          checked_count = r.backup_count;
          violations_found = 0;
          checked_at_ms = now;
          audit_entry_id = id;
        },
        record r {
          integrity_check_count = r.integrity_check_count + 1;
          last_integrity_check_ms = now;
        },
        w',
      )
