-- ===== src/Dispatcher/Permissions.antt =====
-- What a dispatch may do, by the agent's permissions.
use astartis_codex_control_p.Base.{
  ℕ, String, ◌≡◌, refl, ◌∙◌, ◌⊎◌, inl, inr, Bool, true, List, arith,
}
use astartis_codex_control_p.Callbacks.{AuditAdder}
use astartis_codex_control_p.Policy.{can_block_firewall, can_quarantine, can_deceive}
use astartis_codex_control_p.Quarantine.{Disk}
use astartis_codex_control_p.Dispatcher.Attempts.{dispatch-holds}
use astartis_codex_control_p.Dispatcher.Extraction.{Json, Patterns}
use astartis_codex_control_p.Dispatcher.{
  DispatchResult, Components, try_firewall_block, try_quarantine, try_deception, try_zerotrust_deny,
  dispatch,
}

-- Each object is as it was, or the agent has the permission for it.
record IsPermitted (agent_name : String) (c d : Components) : Type 0 where
  pub firewall : (can_block_firewall agent_name ≡ true) ⊎ (d.fw ≡ c.fw)
  pub quarantine : (can_quarantine agent_name ≡ true) ⊎ (d.quarantined ≡ c.quarantined)
  pub deception : (can_deceive agent_name ≡ true) ⊎ (d.response ≡ c.response)

keep :
    {A : Type 0} (p : Bool) (a b d : A)
    → (p ≡ true) ⊎ (b ≡ a)
    → (p ≡ true) ⊎ (d ≡ b)
    → (p ≡ true) ⊎ (d ≡ a)
keep p a b d (inl h) k = inl h
keep p a b d (inr h) (inl k) = inl k
keep p a b d (inr h) (inr k) = inr (k ∙ h)

IsPermitted-trans :
    (agent_name : String) (a b c : Components)
    → IsPermitted agent_name a b
    → IsPermitted agent_name b c
    → IsPermitted agent_name a c
IsPermitted-trans agent_name a b c h k = record {
  firewall = keep _ _ _ _ h.firewall k.firewall;
  quarantine = keep _ _ _ _ h.quarantine k.quarantine;
  deception = keep _ _ _ _ h.deception k.deception;
}

same : (agent_name : String) (c : Components) → IsPermitted agent_name c c
same agent_name c = record { firewall = inr refl; quarantine = inr refl; deception = inr refl }

module _ {W J : Type 0} (run_netsh : String → W → Bool × W) (clock : W → ℕ × W)
    (audit_adder : AuditAdder W) (disk : Disk W) (quarantine_dir : String)
    (sha256 : String → List ℕ) (json : Json J) (patterns : Patterns) (draws : ℕ × ℕ) (now : ℕ) where
  firewall-permitted :
      (output agent_name : String) (out : DispatchResult) (c : Components) (w : W)
      → IsPermitted agent_name c
          (try_firewall_block run_netsh clock audit_adder disk quarantine_dir sha256 json patterns
            draws now output agent_name out c w).2
  unfolding try_firewall_block
  firewall-permitted output agent_name out c w = record {
    firewall = ground arith;
    quarantine = ground arith;
    deception = ground arith;
  }

  quarantine-permitted :
      (output agent_name : String) (out : DispatchResult) (c : Components) (w : W)
      → IsPermitted agent_name c
          (try_quarantine run_netsh clock audit_adder disk quarantine_dir sha256 json patterns draws
            now output agent_name out c w).2
  unfolding try_quarantine
  quarantine-permitted output agent_name out c w = record {
    firewall = ground arith;
    quarantine = ground arith;
    deception = ground arith;
  }

  deception-permitted :
      (output agent_name : String) (out : DispatchResult) (c : Components) (w : W)
      → IsPermitted agent_name c
          (try_deception run_netsh clock audit_adder disk quarantine_dir sha256 json patterns draws
            now output agent_name out c w).2
  unfolding try_deception
  deception-permitted output agent_name out c w = record {
    firewall = ground arith;
    quarantine = ground arith;
    deception = ground arith;
  }

  zerotrust-permitted :
      (output agent_name : String) (out : DispatchResult) (c : Components) (w : W)
      → IsPermitted agent_name c
          (try_zerotrust_deny run_netsh clock audit_adder disk quarantine_dir sha256 json patterns
            draws now output agent_name out c w).2
  unfolding try_zerotrust_deny
  zerotrust-permitted output agent_name out c w = record {
    firewall = ground arith;
    quarantine = ground arith;
    deception = ground arith;
  }

  abbrev pub dispatched : String → String → Components → W → DispatchResult × Components × W
  dispatched agent_name output c w =
      dispatch run_netsh clock audit_adder disk quarantine_dir sha256 json patterns draws now
        agent_name output c w

  dispatch-IsPermitted :
      (agent_name output : String) (c : Components) (w : W)
      → IsPermitted agent_name c (dispatched agent_name output c w).1
  dispatch-IsPermitted agent_name output c w =
      dispatch-holds run_netsh clock audit_adder disk quarantine_dir sha256 json patterns draws now
        (IsPermitted agent_name) (same agent_name) (IsPermitted-trans agent_name) agent_name output
        (firewall-permitted output agent_name) (quarantine-permitted output agent_name)
        (deception-permitted output agent_name) (zerotrust-permitted output agent_name) c w

  -- Whatever an agent's output says, a dispatch changes the firewall blocks only for an agent that may
  -- block, the quarantine only for one that may quarantine, and the response sessions only for one that
  -- may deceive.
  pub dispatch-permitted :
      (agent_name output : String) (c : Components) (w : W)
      → ((can_block_firewall agent_name ≡ true) ⊎ ((dispatched agent_name output c w).1.fw ≡ c.fw))
        × ((can_quarantine agent_name ≡ true)
            ⊎ ((dispatched agent_name output c w).1.quarantined ≡ c.quarantined))
        × ((can_deceive agent_name ≡ true)
            ⊎ ((dispatched agent_name output c w).1.response ≡ c.response))
  dispatch-permitted agent_name output c w =
      let h = dispatch-IsPermitted agent_name output c w in (h.firewall, h.quarantine, h.deception)
