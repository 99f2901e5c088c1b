-- ===== src/Worm/History.antt =====
-- What a history of calls of the lock leaves in its counter and in the audit log.
use astartis_codex_control_p.Base.{
  ◌+◌, ◌%◌, String, ◌≡◌, refl, List, [], ◌∷◌, arith, if◌then◌else◌, u64_mod, inc64,
}
use astartis_codex_control_p.Callbacks.{Log, logging, entries_of}
use astartis_codex_control_p.Worm.{WormLock, new_lock, is_locked, trigger_lockdown, unlock}

pub data Call : Type 0 where
  locks unlocks : String → Call

unfoldable pub step : Call → WormLock × Log → WormLock × Log
unfolding trigger_lockdown unlock
step (locks reason) (l, log) = let r = trigger_lockdown logging reason l log in (r.1, r.2)
step (unlocks authority) (l, log) = let r = unlock logging authority l log in (r.1, r.2)

unfoldable pub run : List Call → WormLock × Log → WormLock × Log
run [] s = s
run (c ∷ cs) s = run cs (step c s)

-- Each engagement is answered by at most one lifting, and the counter counts the engagements.
pub record IsBalanced (s : WormLock × Log) : Type 0 where
  pub balance :
      entries_of "worm_lock_engaged" s.1
      ≡ entries_of "worm_lock_lifted" s.1 + (if is_locked s.0 then 1 else 0)
  pub counted : s.0.lockdown_count ≡ entries_of "worm_lock_engaged" s.1 % u64_mod

step-IsBalanced : (c : Call) (s : WormLock × Log) → IsBalanced s → IsBalanced (step c s)
unfolding step inc64
step-IsBalanced (locks reason) (l, log) b = ground (arith, b.balance, b.counted)
step-IsBalanced (unlocks authority) (l, log) b = ground (arith, b.balance, b.counted)

run-IsBalanced : (cs : List Call) (s : WormLock × Log) → IsBalanced s → IsBalanced (run cs s)
unfolding run
run-IsBalanced [] s b = b
run-IsBalanced (c ∷ cs) s b = run-IsBalanced cs (step c s) (step-IsBalanced c s b)

-- After any calls on a new lock the audit log holds as many worm_lock_engaged entries as
-- worm_lock_lifted entries, and one more while the lock is engaged; lockdown_count is the number
-- of worm_lock_engaged entries modulo 2^64.
pub run_new-IsBalanced : (cs : List Call) → IsBalanced (run cs (new_lock, []))
unfolding is_locked
run_new-IsBalanced cs = run-IsBalanced cs (new_lock, []) (record { balance = refl; counted = refl })
