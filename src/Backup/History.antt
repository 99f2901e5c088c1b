-- ===== src/Backup/History.antt =====
-- Any sequence of calls on a new backup interface, with the audit log that they leave.
use astartis_codex_control_p.Base.{ℕ, ◌+◌, String, ◌≡◌, refl, sym, subst, ◌≢◌, List, [], ◌∷◌, arith}
use astartis_codex_control_p.Callbacks.{Log, logging, entries_of}
use astartis_codex_control_p.Backup.{
  BackupLockState, StubBackupRepo, new_repo, lock_backups, lock_at, engage, unlock_backups,
  unlock_at, integrity_check,
}

pub data BackupCall : Type 0 where
  lock_call : String → ℕ → BackupCall
  unlock_call : String → BackupCall
  check_call : ℕ → BackupCall

unfoldable pub after : BackupCall → StubBackupRepo → Log → StubBackupRepo × Log
unfolding lock_backups unlock_backups integrity_check
after (BackupCall.lock_call reason now) r w =
    let t = lock_backups logging reason now r w in (t.1, t.2)
after (BackupCall.unlock_call authority) r w =
    let t = unlock_backups logging authority r w in (t.1, t.2)
after (BackupCall.check_call now) r w = let t = integrity_check logging now r w in (t.1, t.2)

unfoldable pub run : List BackupCall → StubBackupRepo → Log → StubBackupRepo × Log
unfolding after
run [] r w = (r, w)
run (c ∷ cs) r w = let next = after c r w in run cs next.0 next.1

abbrev pub engaged : BackupLockState → ℕ
engaged BackupLockState.unlocked = 0
engaged _ = 1

abbrev pub locks : Log → ℕ
locks w = entries_of "veeam_backup_locked" w

abbrev pub unlocks : Log → ℕ
unlocks w = entries_of "veeam_backup_unlocked" w

-- The lock and the counter, as the log tells them.
record IsTold (s : BackupLockState) (r : StubBackupRepo) (w : Log) : Type 0 where
  pub liftable : s ≢ BackupLockState.compliance_lock
  pub balanced : locks w ≡ unlocks w + engaged s
  pub counted : r.integrity_check_count ≡ entries_of "veeam_integrity_check" w
  pub kept : r.backup_count ≡ 47

lock-IsTold :
    (s : BackupLockState) (reason : String) (now : ℕ) (r : StubBackupRepo) (w : Log)
    → r.lock_state ≡ s
    → IsTold s r w
    → (let t = lock_at logging s reason now r w in IsTold t.1.lock_state t.1 t.2)
unfolding lock_at engage
lock-IsTold BackupLockState.unlocked reason now r w e h = record {
  liftable = λ k. cc;
  balanced = omega (arith, h.balanced);
  counted = h.counted;
  kept = h.kept;
}
lock-IsTold BackupLockState.immutable reason now r w e h = subst (λ s. IsTold s r w) (sym e) h
lock-IsTold BackupLockState.compliance_lock reason now r w e h = subst (λ s. IsTold s r w) (sym e) h

unlock-IsTold :
    (s : BackupLockState) (authority : String) (r : StubBackupRepo) (w : Log)
    → r.lock_state ≡ s
    → IsTold s r w
    → (let t = unlock_at logging s authority r w in IsTold t.1.lock_state t.1 t.2)
unfolding unlock_at
unlock-IsTold BackupLockState.unlocked authority r w e h = subst (λ s. IsTold s r w) (sym e) h
unlock-IsTold BackupLockState.compliance_lock authority r w e h =
    subst (λ s. IsTold s r w) (sym e) h
unlock-IsTold BackupLockState.immutable authority r w e h = record {
  liftable = λ k. cc;
  balanced = omega (arith, h.balanced);
  counted = h.counted;
  kept = h.kept;
}

after-IsTold :
    (c : BackupCall) (r : StubBackupRepo) (w : Log)
    → IsTold r.lock_state r w
    → (let t = after c r w in IsTold t.0.lock_state t.0 t.1)
unfolding after lock_backups unlock_backups integrity_check
after-IsTold (BackupCall.lock_call reason now) r w h =
    lock-IsTold r.lock_state reason now r w refl h
after-IsTold (BackupCall.unlock_call authority) r w h =
    unlock-IsTold r.lock_state authority r w refl h
after-IsTold (BackupCall.check_call now) r w h = record {
  liftable = h.liftable;
  balanced = h.balanced;
  counted = omega (arith, h.counted);
  kept = h.kept;
}

run-IsTold :
    (cs : List BackupCall) (r : StubBackupRepo) (w : Log)
    → IsTold r.lock_state r w
    → (let t = run cs r w in IsTold t.0.lock_state t.0 t.1)
unfolding run
run-IsTold [] r w h = h
run-IsTold (c ∷ cs) r w h = run-IsTold cs _ _ (after-IsTold c r w h)

-- After any calls on a new interface the repository is not in COMPLIANCE_LOCK, the log holds as many
-- veeam_backup_locked as veeam_backup_unlocked entries and one more while the backups are locked, the
-- number of checks is that of the veeam_integrity_check entries, and no backup was lost.
pub run_new-told :
    (cs : List BackupCall)
    → (let t = run cs new_repo [] in
        (t.0.lock_state ≢ BackupLockState.compliance_lock)
        × (locks t.1 ≡ unlocks t.1 + engaged t.0.lock_state)
        × (t.0.integrity_check_count ≡ entries_of "veeam_integrity_check" t.1)
        × (t.0.backup_count ≡ 47))
run_new-told cs =
    let h =
      run-IsTold cs new_repo []
        (record { liftable = λ k. cc; balanced = refl; counted = refl; kept = refl }) in
    (h.liftable, h.balanced, h.counted, h.kept)
