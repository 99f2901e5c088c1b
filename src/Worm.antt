-- ===== src/Worm.antt =====
-- astartis/core/worm_lock: the write lock. The mutex makes each call one step.
pub mod History
use astartis_codex_control_p.Base.{
  ℕ, String, Bool, true, false, [], ◌∷◌, if◌then◌else◌, inc64, concat, nat_text,
}
use astartis_codex_control_p.Callbacks.{AuditAdder}

pub data State : Type 0 where
  normal locked : State

pub record WormLock : Type 0 where
  pub state : State
  pub lock_reason : String
  pub lockdown_count : ℕ

abbrev pub new_lock : WormLock
new_lock = record { state = normal; lock_reason = ""; lockdown_count = 0 }

unfoldable pub is_locked : WormLock → Bool
is_locked l = elim l.state [ normal ↦ false | locked ↦ true ]

module _ {W : Type 0} (audit_adder : AuditAdder W) where
  engage : String → WormLock → W → Bool × WormLock × W
  engage reason l w =
      let l' : WormLock = record {
        state = locked;
        lock_reason = reason;
        lockdown_count = inc64 l.lockdown_count;
      } in
      (
        true,
        l',
        (audit_adder "worm_lock_engaged"
            (concat
              ("reason=\"" ∷ reason ∷ "\"" ∷ " lockdown_count=" ∷ nat_text l'.lockdown_count ∷ []))
            w).1,
      )

  unfoldable pub trigger_lockdown : String → WormLock → W → Bool × WormLock × W
  unfolding is_locked engage
  trigger_lockdown reason l w = if is_locked l then (false, l, w) else engage reason l w

  lift : String → WormLock → W → Bool × WormLock × W
  lift authority l w = (
    true,
    record l { state = normal },
    (audit_adder "worm_lock_lifted"
        (concat
          ("authority=\"" ∷ authority ∷ "\"" ∷ " previous_reason=\"" ∷ l.lock_reason ∷ "\"" ∷ []))
        w).1,
  )

  unfoldable pub unlock : String → WormLock → W → Bool × WormLock × W
  unfolding is_locked lift
  unlock authority l w = if is_locked l then lift authority l w else (false, l, w)
