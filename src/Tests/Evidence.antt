-- ===== src/Tests/Evidence.antt =====
-- The audit chain, the lock and the wired engine.
use astartis_codex_control_p.Threat.{
  tier_lower_threshold, announce, observe_signal, force_tier, critical,
}
use astartis_codex_control_p.Worm.{trigger_lockdown, new_lock, is_locked}
use astartis_codex_control_p.System.{worm_trigger}
use astartis_codex_control_p.Rules.{
  evaluate_chaos_window, evaluate_threat_score, evaluate_auth_failures, evaluate_packet_window,
}
use astartis_codex_control_p.Rules.Worm.{evaluate, Evaluation, packet, failures, chaos, score}
use astartis_codex_control_p.Base.{
  String, ◌≡◌, refl, ◌≢◌, ◌↔◌, ◌⊎◌, true, some, List, [], ◌∷◌, arith, eq_iff, concat, nat_text,
  hex_text, hex_bytes, utf8_bytes, get_elem?, pos,
}
use astartis_codex_control_p.Audit.{
  AuditChain, add_entry, verify_chain, genesis_hash, tamper_entry_for_testing, new_entry,
}
use astartis_codex_control_p.Audit.Linked.{IsLinked, verify_chain-IsLinked}
use astartis_codex_control_p.Audit.Tamper.{
  IsRejectedAt, Collide, tamper_detected, boundary_shift_undetected,
}
use astartis_codex_control_p.Worm.History.{IsBalanced, run, run_new-IsBalanced, locks, unlocks}
use astartis_codex_control_p.System.Evidence.{after, after-verifies, after-locked}
use astartis_codex_control_p.Tests.Fixtures.{
  host, two_entries, second_entry, tenths, adder, port, anomalous_window, chaos_window,
}

two_entries_valid : (verify_chain host two_entries).is_valid ≡ true
unfolding verify_chain add_entry hex_bytes utf8_bytes concat hex_text nat_text
two_entries_valid = refl

verify_chain-IsLinked_example :
    ((verify_chain host two_entries).is_valid ≡ true)
    ↔ IsLinked host genesis_hash two_entries.entries
verify_chain-IsLinked_example = verify_chain-IsLinked host two_entries

second_is_there : get_elem? two_entries.entries 1 ≡ some second_entry
unfolding add_entry
second_is_there = refl

second_payload : second_entry.payload ≢ "user=eve"
unfolding new_entry
second_payload e = ground (arith, e, eq_iff "user=ada" "user=eve")

tamper_detected_example :
    IsRejectedAt host 1 (verify_chain host (tamper_entry_for_testing 1 "user=eve" two_entries).1)
    ⊎ Collide host second_entry (record second_entry { payload = "user=eve" })
tamper_detected_example =
    tamper_detected host two_entries 1 second_entry "user=eve" two_entries_valid second_is_there
      second_payload

shifted : String → String → AuditChain
shifted t p = record {
  entries = record (new_entry host "login" "user=ada" []) { event_type = t; payload = p } ∷ [];
}

shifted_valid : (verify_chain host (shifted "login" "user=ada")).is_valid ≡ true
unfolding shifted verify_chain new_entry hex_bytes utf8_bytes concat hex_text nat_text
shifted_valid = refl

boundary_shift_undetected_example : (verify_chain host (shifted "log" "inuser=ada")).is_valid ≡ true
unfolding shifted
boundary_shift_undetected_example =
    boundary_shift_undetected host [] [] (new_entry host "login" "user=ada" []) "log" "in"
      "user=ada" shifted_valid

run_new-IsBalanced_example :
    IsBalanced
      (run (locks "drill" ∷ locks "again" ∷ unlocks "ops" ∷ locks "attack" ∷ []) (new_lock, []))
run_new-IsBalanced_example =
    run_new-IsBalanced (locks "drill" ∷ locks "again" ∷ unlocks "ops" ∷ locks "attack" ∷ [])

abbrev attack : List (Evaluation tenths adder port)
attack =
    chaos (chaos_window 9)
    ∷ score (pos 60) "probe"
    ∷ failures (pos 12) "vpn"
    ∷ packet anomalous_window
    ∷ []

after-verifies_example : (verify_chain host (after host tenths attack).world.audit).is_valid ≡ true
after-verifies_example = after-verifies host tenths attack

attack_critical : (after host tenths attack).tsm.current_tier ≡ critical
unfolding astartis_codex_control_p.Rules.Worm.run evaluate evaluate_packet_window force_tier
    observe_signal evaluate_auth_failures evaluate_threat_score evaluate_chaos_window is_locked
    announce worm_trigger trigger_lockdown tier_lower_threshold
attack_critical = refl

after-locked_example : is_locked (after host tenths attack).world.worm ≡ true
after-locked_example = after-locked host tenths attack attack_critical
