-- ===== src/Dispatcher/Targets.antt =====
-- The addresses that a dispatch may block.
use astartis_codex_control_p.Base.{
  ℕ, String, ◌≡◌, refl, sym, ap, ◌∙◌, ◌⊎◌, inl, inr, Bool, true, false, ◌&&◌, not, List, [], ◌∷◌,
  arith, ◌==◌, eq_iff, Bool-cases, Option-cases, if_cases, is_empty, lookup, pos,
}
use mathlib.Core.Bool.{true≢false}
use astartis_codex_control_p.Callbacks.{AuditAdder}
use astartis_codex_control_p.Policy.{can_block_firewall}
use astartis_codex_control_p.Firewall.Runs.{block-other}
use astartis_codex_control_p.Quarantine.{Disk}
use astartis_codex_control_p.Dispatcher.Attempts.{dispatch-holds}
use astartis_codex_control_p.Dispatcher.Extraction.{
  Json, Patterns, is_safe_ip, first_unsafe, extract_ipv4, or_text, found_in, from_field, from_array,
  find_target, text_of,
}
use astartis_codex_control_p.Dispatcher.{
  DispatchResult, Components, try_firewall_block, try_quarantine, try_deception, try_zerotrust_deny,
  dispatch,
}

-- Nothing, or an address that is not safe.
abbrev IsChosen : String → Type 0
IsChosen s = (is_empty s ≡ true) ⊎ (is_safe_ip s ≡ false)

not-true : (b : Bool) → not b ≡ true → b ≡ false
not-true true h = cc
not-true false h = refl

first_unsafe-IsChosen : (ips : List String) → IsChosen (first_unsafe ips)
unfolding first_unsafe
first_unsafe-IsChosen [] = inl refl
first_unsafe-IsChosen (ip ∷ ips) =
    if_cases IsChosen (not (is_safe_ip ip)) _ _ (λ unsafe. inr (not-true (is_safe_ip ip) unsafe))
      (λ _. first_unsafe-IsChosen ips)

or_text-IsChosen : (s t : String) → IsChosen s → IsChosen t → IsChosen (or_text s t)
unfolding or_text
or_text-IsChosen s t h k = if_cases IsChosen (is_empty s) _ _ (λ _. k) (λ _. h)

module _ {J : Type 0} (json : Json J) (extract : String → String)
    (chosen : (s : String) → IsChosen (extract s)) where
  found_in-IsChosen : (js : List J) → IsChosen (found_in json extract js)
  unfolding found_in
  found_in-IsChosen [] = inl refl
  found_in-IsChosen (j ∷ js) = or_text-IsChosen _ _ (chosen (text_of json j)) (found_in-IsChosen js)

  from_field-IsChosen : (j : J) (key : String) → IsChosen (from_field json extract j key)
  unfolding from_field
  from_field-IsChosen j key =
      if_cases IsChosen (not (json.contains j key)) _ _ (λ _. inl refl)
        λ _.
          if_cases IsChosen (json.is_array (json.item j key)) _ _ (λ _. found_in-IsChosen _)
            λ _.
              if_cases IsChosen (json.is_string (json.item j key)) _ _ (λ _. chosen _)
                (λ _. inl refl)

  from_array-IsChosen : (j : J) (key : String) → IsChosen (from_array json extract j key)
  unfolding from_array
  from_array-IsChosen j key =
      if_cases IsChosen (json.contains j key && json.is_array (json.item j key)) _ _
        (λ _. found_in-IsChosen _) (λ _. inl refl)

  find_target-IsChosen :
      (key fallback output : String) → IsChosen (find_target json extract key fallback output)
  unfolding find_target
  find_target-IsChosen key fallback output = elim (Option-cases (json.parse output)) [
    | inl bad ↦ rw (bad, find_target) (chosen output)
    | inr (j, good) ↦
        rw (good, find_target)
          (or_text-IsChosen _ _
            (or_text-IsChosen _ _ (from_field-IsChosen j key) (from_array-IsChosen j fallback))
            (chosen output))
  ]

extract_ipv4-IsChosen : (patterns : Patterns) (s : String) → IsChosen (extract_ipv4 patterns s)
unfolding extract_ipv4
extract_ipv4-IsChosen patterns s = first_unsafe-IsChosen (patterns.ipv4_matches s)

-- A chosen address is not a safe one.
chosen_differs :
    (ip s : String) → is_safe_ip ip ≡ true → is_empty s ≡ false → IsChosen s → (s == ip) ≡ false
chosen_differs ip s h k (inl e) = absurd (true≢false (sym e ∙ k))
chosen_differs ip s h k (inr e) = elim (Bool-cases (s == ip)) [
  | inl q ↦ absurd (true≢false (sym h ∙ ap is_safe_ip (sym ((eq_iff s ip).0 q)) ∙ e))
  | inr q ↦ q
]

module _ {W J : Type 0} (run_netsh : String → W → Bool × W) (clock : W → ℕ × W)
    (audit_adder : AuditAdder W) (disk : Disk W) (quarantine_dir : String)
    (sha256 : String → List ℕ) (json : Json J) (patterns : Patterns) (draws : ℕ × ℕ) (now : ℕ) where
  abbrev Attempt : Type 0
  Attempt = Bool × DispatchResult × Components × W

  -- The blocks of one address are the same behind an attempt.
  record Spares (ip : String) (c : Components) (t : Attempt) : Type 0 where
    pub kept : lookup ip t.2.fw.blocks ≡ lookup ip c.fw.blocks

  firewall-Spares :
      (ip output agent_name : String) (out : DispatchResult) (c : Components) (w : W)
      → is_safe_ip ip ≡ true
      → Spares ip c (
          try_firewall_block run_netsh clock audit_adder disk quarantine_dir sha256 json patterns
            draws now output agent_name out c w)
  unfolding try_firewall_block
  firewall-Spares ip output agent_name out c w h =
      let target =
        find_target json (extract_ipv4 patterns) "containment_actions" "iocs_found" output in
      if_cases (Spares ip c) (not (can_block_firewall agent_name)) _ _ (λ _. record { kept = refl })
        λ _.
          if_cases (Spares ip c) (is_empty target) _ _ (λ _. record { kept = refl })
            λ named. record {
              kept = block-other run_netsh clock audit_adder ip target (pos 900) c.fw w (
                  chosen_differs ip target h named (
                    find_target-IsChosen json (extract_ipv4 patterns)
                      (extract_ipv4-IsChosen patterns) "containment_actions" "iocs_found" output));
            }

  quarantine-fw :
      (output agent_name : String) (out : DispatchResult) (c : Components) (w : W)
      → (try_quarantine run_netsh clock audit_adder disk quarantine_dir sha256 json patterns draws
          now output agent_name out c w).2.fw
        ≡ c.fw
  unfolding try_quarantine
  quarantine-fw output agent_name out c w = ground arith

  deception-fw :
      (output agent_name : String) (out : DispatchResult) (c : Components) (w : W)
      → (try_deception run_netsh clock audit_adder disk quarantine_dir sha256 json patterns draws
          now output agent_name out c w).2.fw
        ≡ c.fw
  unfolding try_deception
  deception-fw output agent_name out c w = ground arith

  zerotrust-fw :
      (output agent_name : String) (out : DispatchResult) (c : Components) (w : W)
      → (try_zerotrust_deny run_netsh clock audit_adder disk quarantine_dir sha256 json patterns
          draws now output agent_name out c w).2.fw
        ≡ c.fw
  unfolding try_zerotrust_deny
  zerotrust-fw output agent_name out c w = ground arith

  -- No dispatch, whatever the agent and its output, blocks an address that is safe.
  pub dispatch-spares :
      (agent_name output ip : String) (c : Components) (w : W)
      → is_safe_ip ip ≡ true
      → lookup ip
          (dispatch run_netsh clock audit_adder disk quarantine_dir sha256 json patterns draws now
            agent_name output c w).1.fw.blocks
        ≡ lookup ip c.fw.blocks
  dispatch-spares agent_name output ip c w h =
      dispatch-holds run_netsh clock audit_adder disk quarantine_dir sha256 json patterns draws now
        (λ a b. lookup ip b.fw.blocks ≡ lookup ip a.fw.blocks) (λ c. refl) (λ a b c p q. q ∙ p)
        agent_name output (λ out c w. (firewall-Spares ip output agent_name out c w h).kept)
        (λ out c w. ap (λ x. lookup ip x.blocks) (quarantine-fw output agent_name out c w))
        (λ out c w. ap (λ x. lookup ip x.blocks) (deception-fw output agent_name out c w))
        (λ out c w. ap (λ x. lookup ip x.blocks) (zerotrust-fw output agent_name out c w)) c w
