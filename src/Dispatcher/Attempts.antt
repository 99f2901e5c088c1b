-- ===== src/Dispatcher/Attempts.antt =====
-- What every attempt keeps, a dispatch keeps.
use astartis_codex_control_p.Base.{ℕ, String, Bool, true, false, List, if_cases, is_empty}
use astartis_codex_control_p.Callbacks.{AuditAdder}
use astartis_codex_control_p.Quarantine.{Disk}
use astartis_codex_control_p.Dispatcher.Extraction.{Json, Patterns}
use astartis_codex_control_p.Dispatcher.{
  advisory, DispatchResult, Components, try_firewall_block, try_quarantine, try_deception,
  try_zerotrust_deny, or_else, advise, attempts, dispatch,
}

module _ {W J : Type 0} (run_netsh : String → W → Bool × W) (clock : W → ℕ × W)
    (audit_adder : AuditAdder W) (disk : Disk W) (quarantine_dir : String)
    (sha256 : String → List ℕ) (json : Json J) (patterns : Patterns) (draws : ℕ × ℕ) (now : ℕ)
    (P : Components → Components → Type 0) (same : (c : Components) → P c c)
    (joined : (a b c : Components) → P a b → P b c → P a c) where
  abbrev pub Attempt : Type 0
  Attempt = Bool × DispatchResult × Components × W

  -- What holds between the objects before an attempt and behind it.
  record Holds (c : Components) (t : Attempt) : Type 0 where
    pub holds : P c t.2

  or_else-Holds :
      (c : Components) (t : Attempt) (next : DispatchResult → Components → W → Attempt)
      → P c t.2
      → ((out : DispatchResult) (d : Components) (w : W) → Holds d (next out d w))
      → Holds c (
          or_else run_netsh clock audit_adder disk quarantine_dir sha256 json patterns draws now t
            next)
  unfolding or_else
  or_else-Holds c (true, out, d, w) next h k = record { holds = h }
  or_else-Holds c (false, out, d, w) next h k = record { holds = joined c d _ h (k out d w).holds }

  module _ (agent_name output : String)
      (firewall : (out : DispatchResult) (c : Components) (w : W)
        → P c
            (try_firewall_block run_netsh clock audit_adder disk quarantine_dir sha256 json patterns
              draws now output agent_name out c w).2)
      (quarantine : (out : DispatchResult) (c : Components) (w : W)
        → P c
            (try_quarantine run_netsh clock audit_adder disk quarantine_dir sha256 json patterns
              draws now output agent_name out c w).2)
      (deception : (out : DispatchResult) (c : Components) (w : W)
        → P c
            (try_deception run_netsh clock audit_adder disk quarantine_dir sha256 json patterns
              draws now output agent_name out c w).2)
      (zerotrust : (out : DispatchResult) (c : Components) (w : W)
        → P c
            (try_zerotrust_deny run_netsh clock audit_adder disk quarantine_dir sha256 json patterns
              draws now output agent_name out c w).2) where
    abbrev first : DispatchResult → Components → W → Attempt
    first out c w =
        try_firewall_block run_netsh clock audit_adder disk quarantine_dir sha256 json patterns
          draws now output agent_name out c w

    abbrev second : DispatchResult → Components → W → Attempt
    second out c w =
        try_quarantine run_netsh clock audit_adder disk quarantine_dir sha256 json patterns draws
          now output agent_name out c w

    abbrev third : DispatchResult → Components → W → Attempt
    third out c w =
        try_deception run_netsh clock audit_adder disk quarantine_dir sha256 json patterns draws now
          output agent_name out c w

    abbrev fourth : DispatchResult → Components → W → Attempt
    fourth out c w =
        try_zerotrust_deny run_netsh clock audit_adder disk quarantine_dir sha256 json patterns
          draws now output agent_name out c w

    abbrev last : DispatchResult → Components → W → Attempt
    last out c w =
        advise run_netsh clock audit_adder disk quarantine_dir sha256 json patterns draws now
          agent_name out c w

    abbrev from_fourth : DispatchResult → Components → W → Attempt
    from_fourth out c w =
        or_else run_netsh clock audit_adder disk quarantine_dir sha256 json patterns draws now
          (fourth out c w) last

    abbrev from_third : DispatchResult → Components → W → Attempt
    from_third out c w =
        or_else run_netsh clock audit_adder disk quarantine_dir sha256 json patterns draws now
          (third out c w) from_fourth

    abbrev from_second : DispatchResult → Components → W → Attempt
    from_second out c w =
        or_else run_netsh clock audit_adder disk quarantine_dir sha256 json patterns draws now
          (second out c w) from_third

    last-Holds : (out : DispatchResult) (c : Components) (w : W) → Holds c (last out c w)
    unfolding advise
    last-Holds out c w = record { holds = same c }

    from_fourth-Holds :
        (out : DispatchResult) (c : Components) (w : W) → Holds c (from_fourth out c w)
    from_fourth-Holds out c w = or_else-Holds c (fourth out c w) last (zerotrust out c w) last-Holds

    from_third-Holds :
        (out : DispatchResult) (c : Components) (w : W) → Holds c (from_third out c w)
    from_third-Holds out c w =
        or_else-Holds c (third out c w) from_fourth (deception out c w) from_fourth-Holds

    from_second-Holds :
        (out : DispatchResult) (c : Components) (w : W) → Holds c (from_second out c w)
    from_second-Holds out c w =
        or_else-Holds c (second out c w) from_third (quarantine out c w) from_third-Holds

    abbrev none_yet : DispatchResult
    none_yet =
        advisory run_netsh clock audit_adder disk quarantine_dir sha256 json patterns draws now ""

    attempts-Holds :
        (c : Components) (w : W)
        → Holds c (
            attempts run_netsh clock audit_adder disk quarantine_dir sha256 json patterns draws now
              agent_name output c w)
    unfolding attempts
    attempts-Holds c w =
        or_else-Holds c (first none_yet c w) from_second (firewall none_yet c w) from_second-Holds

    pub dispatch-holds :
        (c : Components) (w : W)
        → P c
            (dispatch run_netsh clock audit_adder disk quarantine_dir sha256 json patterns draws now
              agent_name output c w).1
    unfolding dispatch
    dispatch-holds c w =
        if_cases (λ (r : DispatchResult × Components × W). P c r.1) (is_empty output) _ _
          (λ _. same c) (λ _. (attempts-Holds c w).holds)
