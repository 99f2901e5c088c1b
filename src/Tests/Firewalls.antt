-- ===== src/Tests/Firewalls.antt =====
-- The firewall blocker.
use astartis_codex_control_p.Base.{
  ℕ, ◌+◌, ◌*◌, String, append, ◌≡◌, refl, Bool, true, false, some, List, [], ◌∷◌, ltb, is_some,
  has_text, Dict, lookup, insert, pos,
}
use astartis_codex_control_p.Callbacks.{AuditAdder}
use astartis_codex_control_p.Firewall.Allowlist.{named_addresses}
use astartis_codex_control_p.Firewall.{
  ActiveBlock, FirewallBlocker, BlockResult, block, is_blocked, new_blocker, expire, positive_or,
  make_rule_stem, add_rule,
}
use astartis_codex_control_p.Firewall.Expiry.{block-lasts}
use astartis_codex_control_p.Firewall.Runs.{FirewallCall, run, run_new-spares}

-- An outside that is the time in milliseconds; netsh takes one and always succeeds.
abbrev pub netsh : String → ℕ → Bool × ℕ
netsh args t = (true, t + 1)

abbrev pub read_time : ℕ → ℕ × ℕ
read_time t = (t, t)

abbrev pub quiet : AuditAdder ℕ
quiet event_type payload t = ("entry", t)

abbrev pub fresh : FirewallBlocker
fresh = new_blocker (pos 0) ("10.0.0.1" ∷ "" ∷ []) ("10.0.0.2" ∷ []) []

abbrev tried : BlockResult × FirewallBlocker × ℕ
tried = block netsh read_time quiet "203.0.113.9" (pos 60) fresh 1000

tried_ok : tried.0.blocked ≡ true
unfolding block new_blocker lookup
tried_ok = refl

abbrev made : Dict ActiveBlock
made = tried.1.blocks

block-lasts_example :
    (ab : ActiveBlock) × (lookup "203.0.113.9" made ≡ some ab)
    × (ab.expires_at_ms ≡ ab.blocked_at_ms + positive_or (pos 60) fresh.default_ttl_s * 1000)
    × (is_some (lookup "203.0.113.9" (expire netsh read_time quiet 61002 made 61002).0)
        ≡ ltb 61002 ab.expires_at_ms)
block-lasts_example =
    block-lasts netsh read_time quiet "203.0.113.9" (pos 60) fresh 1000 61002 61002 tried_ok

lasts_a_minute : is_some (lookup "203.0.113.9" (expire netsh read_time quiet 61001 made 0).0) ≡ true
unfolding lookup expire block new_blocker insert
lasts_a_minute = refl

expires_then : is_some (lookup "203.0.113.9" (expire netsh read_time quiet 61002 made 0).0) ≡ false
unfolding lookup expire block new_blocker insert
expires_then = refl

abbrev first_rule : Bool × ℕ
first_rule =
    add_rule netsh (append (make_rule_stem "203.0.113.9" 1000) "-in") "203.0.113.9" "in" 1000

abbrev second_rule : Bool × ℕ
second_rule =
    add_rule netsh (append (make_rule_stem "203.0.113.9" 1000) "-out") "203.0.113.9" "out"
      first_rule.1

abbrev attacks : List FirewallCall
attacks =
    FirewallCall.block_call "10.0.0.1" (pos 60)
    ∷ FirewallCall.block_call "203.0.113.9" (pos 60)
    ∷ FirewallCall.expiry_call
    ∷ FirewallCall.unblock_call "203.0.113.9"
    ∷ []

run_new-spares_example :
    is_blocked "10.0.0.1"
      (run netsh read_time quiet attacks
        (new_blocker (pos 0) ("10.0.0.1" ∷ "" ∷ []) ("10.0.0.2" ∷ []) [])
        1000).0
    ≡ false
unfolding has_text named_addresses
run_new-spares_example =
    run_new-spares netsh read_time quiet "10.0.0.1" (pos 0) ("10.0.0.1" ∷ "" ∷ []) ("10.0.0.2" ∷ [])
      [] attacks 1000 refl
