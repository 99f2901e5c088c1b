-- ===== src/Policy/Separation.antt =====
-- The agent lists against one another.
use astartis_codex_control_p.Base.{
  String, ◌≡◌, refl, ◌⊎◌, inl, inr, Bool, true, false, ◌&&◌, not, List, [], ◌∷◌, arith, ◌==◌,
  eq_iff, if_cases,
}
use astartis_codex_control_p.Policy.{
  firewall_block_agents, quarantine_agents, deception_agents, zerotrust_deny_agents,
  can_block_firewall, can_quarantine, can_deceive, can_zerotrust_deny, name_in,
}

abbrev pub IsOneOf : Bool → Bool → Type 0
IsOneOf p q = (p ≡ false) ⊎ (q ≡ false)

-- No name of xs is in ys.
abbrev are_disjoint : List String → List String → Bool
are_disjoint [] ys = true
are_disjoint (x ∷ xs) ys = not (name_in ys x) && are_disjoint xs ys

name_in-disjoint :
    (xs ys : List String) (name : String)
    → are_disjoint xs ys ≡ true
    → IsOneOf (name_in xs name) (name_in ys name)
unfolding name_in
name_in-disjoint [] ys name h = inl refl
name_in-disjoint (x ∷ xs) ys name h =
    if_cases (λ (b : Bool). IsOneOf b (name_in ys name)) (name == x) true (name_in xs name)
      (λ e. inr (rw ((eq_iff name x).0 e) (ground (arith, h))))
      λ d. name_in-disjoint xs ys name (ground (arith, h))

-- Duties are separated: an agent that is authorised for one of the four actions, to block in the
-- firewall, to quarantine, to deceive and to deny by zero trust, is not authorised for another.
pub duties-separated :
    (agent_name : String)
    → IsOneOf (can_block_firewall agent_name) (can_quarantine agent_name)
      × IsOneOf (can_block_firewall agent_name) (can_deceive agent_name)
      × IsOneOf (can_block_firewall agent_name) (can_zerotrust_deny agent_name)
      × IsOneOf (can_quarantine agent_name) (can_deceive agent_name)
      × IsOneOf (can_quarantine agent_name) (can_zerotrust_deny agent_name)
      × IsOneOf (can_deceive agent_name) (can_zerotrust_deny agent_name)
unfolding can_block_firewall can_quarantine can_deceive can_zerotrust_deny name_in
duties-separated agent_name = (
  name_in-disjoint firewall_block_agents quarantine_agents agent_name refl,
  name_in-disjoint firewall_block_agents deception_agents agent_name refl,
  name_in-disjoint firewall_block_agents zerotrust_deny_agents agent_name refl,
  name_in-disjoint quarantine_agents deception_agents agent_name refl,
  name_in-disjoint quarantine_agents zerotrust_deny_agents agent_name refl,
  name_in-disjoint deception_agents zerotrust_deny_agents agent_name refl,
)
