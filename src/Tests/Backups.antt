-- ===== src/Tests/Backups.antt =====
-- The backup interface.
use astartis_codex_control_p.Base.{◌+◌, ◌≡◌, ◌≢◌, List, [], ◌∷◌}
use astartis_codex_control_p.Callbacks.{entries_of}
use astartis_codex_control_p.Backup.{BackupLockState, new_repo}
use astartis_codex_control_p.Backup.History.{BackupCall, run, locks, unlocks, engaged, run_new-told}

-- The second lock is refused, and so is the second unlock.
abbrev calls : List BackupCall
calls =
    BackupCall.lock_call "ransomware" 1000
    ∷ BackupCall.check_call 1100
    ∷ BackupCall.lock_call "again" 1200
    ∷ BackupCall.unlock_call "board"
    ∷ BackupCall.unlock_call "board"
    ∷ BackupCall.check_call 1300
    ∷ BackupCall.lock_call "later" 1400
    ∷ []

run_new-told_example :
    (let t = run calls new_repo [] in
      (t.0.lock_state ≢ BackupLockState.compliance_lock)
      × (locks t.1 ≡ unlocks t.1 + engaged t.0.lock_state)
      × (t.0.integrity_check_count ≡ entries_of "veeam_integrity_check" t.1)
      × (t.0.backup_count ≡ 47))
run_new-told_example = run_new-told calls
