-- ===== src/Callbacks.antt =====
-- The std::function members through which the components reach one another. `W` is the state of
-- everything outside the component, and a callback takes it and returns it.
use astartis_codex_control_p.Base.{ℕ, String, ◌≡◌, Bool, true, List, ◌∷◌, ◌==◌, count_if}

-- (event_type, payload) -> entry_id, the type of every audit_adder_.
abbrev pub AuditAdder : Type 0 → Type 0
AuditAdder W = String → String → W → String × W

-- The two callbacks that reach the WORM lock, with what their users rely on: a trigger leaves the
-- lock engaged, and writing an audit entry does not move the lock.
pub record WormPort (W : Type 0) (audit_adder : AuditAdder W) : Type 0 where
  pub trigger : String → W → W
  pub is_locked : W → Bool
  pub trigger_locks : (reason : String) (w : W) → is_locked (trigger reason w) ≡ true
  pub audit_keeps :
      (event_type payload : String) (w : W)
      → is_locked (audit_adder event_type payload w).1 ≡ is_locked w

-- An outside that only writes down what it is told, newest first.
abbrev pub Log : Type 0
Log = List (String × String)

abbrev pub logging : AuditAdder Log
logging event_type payload log = ("", (event_type, payload) ∷ log)

-- The number of entries of one type.
abbrev pub entries_of : String → Log → ℕ
entries_of event_type log = count_if (λ e. e.0 == event_type) log
