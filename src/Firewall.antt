-- ===== src/Firewall.antt =====
-- astartis/core/firewall: blocks of addresses that expire. `run_netsh` stands for the process that is
-- started: whether its exit code is 0, and the outside behind it. `clock` reads the system's clock.
-- GetAdaptersInfo and GetNetworkParams are the lists of addresses that they report.
pub mod Allowlist
pub mod Expiry
pub mod Runs
use astartis_codex_control_p.Base.{
  ℕ, zero, suc, ◌+◌, ◌*◌, String, append, Bool, true, false, ◌&&◌, ◌||◌, not, none, some, List, [],
  ◌∷◌, map, leb, nat_eq, if◌then◌else◌, is_some, concat, has_text, nat_text, ℤ, Dict, lookup,
  insert, erase, pos, negsuc,
}
use Prim.Native.Char.{code}
use astartis_codex_control_p.Callbacks.{AuditAdder}
use astartis_codex_control_p.Firewall.Allowlist.{build_allowlist}

pub record BlockResult : Type 0 where
  pub blocked : Bool
  pub reason : String
  pub rule_name_in : String
  pub rule_name_out : String

pub record ActiveBlock : Type 0 where
  pub ip : String
  pub rule_name_in : String
  pub rule_name_out : String
  pub blocked_at_ms : ℕ
  pub expires_at_ms : ℕ
  pub audit_entry_id : String

pub record FirewallBlocker : Type 0 where
  pub default_ttl_s : ℕ
  pub blocks : Dict ActiveBlock
  pub allowlist : List String

abbrev pub default_ttl_seconds : ℕ
default_ttl_seconds = 900

abbrev pub refused : List String → BlockResult
unfolding concat
refused reason = record {
  blocked = false;
  reason = concat reason;
  rule_name_in = "";
  rule_name_out = "";
}

-- ttl > 0 ? ttl : otherwise
unfoldable pub positive_or : ℤ → ℕ → ℕ
positive_or (pos zero) otherwise = otherwise
positive_or (pos (suc n)) otherwise = suc n
positive_or (negsuc n) otherwise = otherwise

-- std::replace of '.' and of ':' by '-'
unfoldable pub dashed : String → String
dashed String.[] = ""
dashed (String.◌∷◌ c s) =
    String.◌∷◌ (if nat_eq (code c) b'.' || nat_eq (code c) b':' then "-" else c) (dashed s)

unfoldable pub make_rule_stem : String → ℕ → String
unfolding dashed nat_text concat
make_rule_stem ip now = concat ("Astartis-Block-" ∷ dashed ip ∷ "-" ∷ nat_text now ∷ [])

-- The addresses of one source that go into the allowlist.
unfoldable pub new_blocker : ℤ → List String → List String → List String → FirewallBlocker
unfolding positive_or build_allowlist
new_blocker default_ttl_s gateways dns_servers extra = record {
  default_ttl_s = positive_or default_ttl_s default_ttl_seconds;
  blocks = [];
  allowlist = build_allowlist gateways dns_servers extra;
}

unfoldable pub is_blocked : String → FirewallBlocker → Bool
is_blocked ip fw = is_some (lookup ip fw.blocks)

unfoldable pub active_blocks : FirewallBlocker → List ActiveBlock
active_blocks fw = map (λ kv. kv.1) fw.blocks

module _ {W : Type 0} (run_netsh : String → W → Bool × W) where
  unfoldable pub add_rule : String → String → String → W → Bool × W
  unfolding concat
  add_rule name ip dir w =
      run_netsh
        (concat (
          "advfirewall firewall add rule name=\"" ∷ name ∷ "\" protocol=any dir=" ∷ dir
          ∷ " action=block remoteip=" ∷ ip ∷ []))
        w

  unfoldable pub delete_rule : String → W → Bool × W
  unfolding concat
  delete_rule name w =
      run_netsh (concat ("advfirewall firewall delete rule name=\"" ∷ name ∷ "\"" ∷ [])) w

  unfoldable pub ping_elevation_check : W → Bool × W
  ping_elevation_check w = run_netsh "advfirewall show currentprofile" w

  unfoldable pub delete_rules : ActiveBlock → W → W
  unfolding delete_rule
  delete_rules ab w = (delete_rule ab.rule_name_out (delete_rule ab.rule_name_in w).1).1

  -- The destructor behind the end of the expiry thread.
  unfoldable pub clear_blocks : Dict ActiveBlock → W → W
  unfolding delete_rules
  clear_blocks [] w = w
  clear_blocks ((ip, ab) ∷ m) w = clear_blocks m (delete_rules ab w)

  unfoldable pub shut_down : FirewallBlocker → W → FirewallBlocker × W
  unfolding clear_blocks
  shut_down fw w = (record fw { blocks = [] }, clear_blocks fw.blocks w)

  module _ (clock : W → ℕ × W) (audit_adder : AuditAdder W) where
    -- The part of block behind the netsh calls; w is the outside after them.
    unfoldable pub record_block :
        String → String → String → ℕ → FirewallBlocker → W → BlockResult × FirewallBlocker × W
    unfolding concat
    record_block ip name_in name_out ttl fw w =
        let (now, w') = clock w in
        let expires = now + ttl * 1000 in
        let (entry_id, w'') =
          audit_adder "firewall_block"
            (concat (
              "ip="
              ∷ ip
              ∷ " rule_in="
              ∷ name_in
              ∷ " rule_out="
              ∷ name_out
              ∷ " ttl_s="
              ∷ nat_text ttl
              ∷ " expires_at_ms="
              ∷ nat_text expires
              ∷ []))
            w' in
        let ab : ActiveBlock = record {
          ip = ip;
          rule_name_in = name_in;
          rule_name_out = name_out;
          blocked_at_ms = now;
          expires_at_ms = expires;
          audit_entry_id = entry_id;
        } in
        (
          record {
            blocked = true;
            reason = "blocked";
            rule_name_in = name_in;
            rule_name_out = name_out;
          },
          record fw { blocks = insert ip ab fw.blocks },
          w'',
        )

    unfoldable pub add_rules :
        String → String → ℕ → FirewallBlocker → W → BlockResult × FirewallBlocker × W
    unfolding add_rule record_block
    add_rules ip stem ttl fw w =
        let name_in = append stem "-in" in
        let name_out = append stem "-out" in
        let (ok_in, w_in) = add_rule name_in ip "in" w in
        let (ok_out, w_out) = add_rule name_out ip "out" w_in in
        if not ok_in && not ok_out
        then (refused ("netsh add rule failed for " ∷ ip ∷ " (not elevated?)" ∷ []), fw, w_out)
        else record_block ip name_in name_out ttl fw w_out

    unfoldable pub block : String → ℤ → FirewallBlocker → W → BlockResult × FirewallBlocker × W
    unfolding make_rule_stem positive_or add_rules has_text
    block ip ttl_s fw w =
        let (now, w') = clock w in
        if has_text ip fw.allowlist
        then (
          refused ("ip " ∷ ip ∷ " is in the allowlist (loopback/gateway/DNS) — not blocked" ∷ []),
          fw,
          w,
        )
        else if is_some (lookup ip fw.blocks)
        then (refused ("ip " ∷ ip ∷ " is already blocked" ∷ []), fw, w)
        else add_rules ip (make_rule_stem ip now) (positive_or ttl_s fw.default_ttl_s) fw w'

    -- do_unblock_locked without the erase of the entry
    unfoldable pub do_unblock : ActiveBlock → W → W
    unfolding delete_rules concat
    do_unblock ab w =
        let (now, w') = clock (delete_rules ab w) in
        (audit_adder "firewall_unblock"
          (concat (
            "ip="
            ∷ ab.ip
            ∷ " rule_in="
            ∷ ab.rule_name_in
            ∷ " rule_out="
            ∷ ab.rule_name_out
            ∷ " blocked_at_ms="
            ∷ nat_text ab.blocked_at_ms
            ∷ " unblocked_at_ms="
            ∷ nat_text now
            ∷ []))
          w').1

    unfoldable pub unblock : String → FirewallBlocker → W → Bool × FirewallBlocker × W
    unfolding do_unblock
    unblock ip fw w = elim (lookup ip fw.blocks) [
      | none ↦ (false, fw, w)
      | some ab ↦ (true, record fw { blocks = erase ip fw.blocks }, do_unblock ab w)
    ]

    -- The loop over the map in one turn of expiry_loop.
    unfoldable pub expire : ℕ → Dict ActiveBlock → W → Dict ActiveBlock × W
    unfolding do_unblock
    expire now [] w = ([], w)
    expire now ((ip, ab) ∷ m) w =
        let expired = leb ab.expires_at_ms now in
        let (rest, w') = expire now m (if expired then do_unblock ab w else w) in
        (if expired then rest else (ip, ab) ∷ rest, w')

    unfoldable pub expiry_turn : FirewallBlocker → W → FirewallBlocker × W
    unfolding expire
    expiry_turn fw w =
        let (now, w') = clock w in
        let (rest, w'') = expire now fw.blocks w' in (record fw { blocks = rest }, w'')
