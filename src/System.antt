-- ===== src/System.antt =====
-- The wiring of main in astartis/bridge/astartis_bridge.cpp: one audit chain and one WORM lock behind
-- the callbacks that every component is constructed with.
pub mod Evidence
use astartis_codex_control_p.Base.{String, ◌≡◌, refl, true, false, arith}
use astartis_codex_control_p.Callbacks.{AuditAdder, WormPort}
use astartis_codex_control_p.Audit.{Host, AuditChain, add_entry, empty_chain}
use astartis_codex_control_p.Worm.{WormLock, trigger_lockdown, unlock, is_locked, new_lock}

-- g_worm and g_audit
pub record World : Type 0 where
  pub worm : WormLock
  pub audit : AuditChain

abbrev pub new_world : World
new_world = record { worm = new_lock; audit = empty_chain }

module _ (host : Host) where
  -- make_audit_adder()
  abbrev pub audit_adder : AuditAdder World
  audit_adder event_type payload w =
      let r = add_entry host event_type payload w.audit in (r.0, record w { audit = r.1 })

  -- worm_trigger_fn
  unfoldable pub worm_trigger : String → World → World
  worm_trigger reason w =
      let r = trigger_lockdown (add_entry host) reason w.worm w.audit in
      record { worm = r.1; audit = r.2 }

  -- The callback given to the unlock protocol.
  unfoldable pub worm_unlock : String → World → World
  worm_unlock authority w =
      let r = unlock (add_entry host) authority w.worm w.audit in record { worm = r.1; audit = r.2 }

  -- Whatever the lock was, it is engaged after a trigger.
  pub worm_trigger-locks :
      (reason : String) (w : World) → is_locked (worm_trigger reason w).worm ≡ true
  unfolding worm_trigger trigger_lockdown is_locked
  worm_trigger-locks reason w = ground arith

  pub worm_unlock-opens :
      (authority : String) (w : World) → is_locked (worm_unlock authority w).worm ≡ false
  unfolding worm_unlock unlock is_locked
  worm_unlock-opens authority w = ground arith

  abbrev pub worm_port : WormPort World audit_adder
  worm_port = record {
    trigger = worm_trigger;
    is_locked = λ w. is_locked w.worm;
    trigger_locks = worm_trigger-locks;
    audit_keeps = λ event_type payload w. refl;
  }
