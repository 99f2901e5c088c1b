-- ===== src/Firewall/Runs.antt =====
-- Any sequence of calls on a blocker, and the allowlist.
use astartis_codex_control_p.Base.{
  ℕ, String, append, ◌≡◌, refl, sym, ap, ◌∙◌, inl, inr, Bool, true, false, ◌&&◌, ◌||◌, not, none,
  List, [], ◌∷◌, ◌++◌, arith, ◌==◌, eq_iff, is_some, Bool-cases, Option-cases, if_cases, has_text,
  ℤ, lookup, lookup-insert, lookup-erase,
}
use astartis_codex_control_p.Callbacks.{AuditAdder}
use mathlib.Core.Bool.{true≢false}
use astartis_codex_control_p.Firewall.Expiry.{expire-unexpired, lookup-unexpired-none}
use astartis_codex_control_p.Firewall.Allowlist.{
  sorted_in, sort, unique, named_addresses, build_allowlist,
}
use astartis_codex_control_p.Firewall.{
  add_rule, is_blocked, FirewallBlocker, BlockResult, block, add_rules, record_block, unblock,
  expiry_turn, new_blocker,
}

sorted_in-text :
    (s x : String) (xs : List String) → has_text s (sorted_in x xs) ≡ (x == s || has_text s xs)
unfolding sorted_in has_text
sorted_in-text s x [] = refl
sorted_in-text s x (y ∷ ys) = ground (arith, sorted_in-text s x ys)

sort-text : (s : String) (xs : List String) → has_text s (sort xs) ≡ has_text s xs
unfolding sort has_text
sort-text s [] = refl
sort-text s (x ∷ xs) = sorted_in-text s x (sort xs) ∙ ap (λ b. x == s || b) (sort-text s xs)

unique-text : (s : String) (xs : List String) → has_text s (unique xs) ≡ has_text s xs
unfolding unique has_text
unique-text s [] = refl
unique-text s (x ∷ []) = refl
unique-text s (x ∷ y ∷ ys) = ground (arith, unique-text s (y ∷ ys), eq_iff x y)

-- An address is in the allowlist exactly if it is one of the three fixed ones, a gateway or DNS server
-- with a name, or one of the caller's.
pub build_allowlist-text :
    (s : String) (gateways dns_servers extra : List String)
    → has_text s (build_allowlist gateways dns_servers extra)
      ≡ has_text s (
          ("127.0.0.1" ∷ "::1" ∷ "0.0.0.0" ∷ [])
          ++ (named_addresses gateways ++ (named_addresses dns_servers ++ extra)))
unfolding build_allowlist
build_allowlist-text s gateways dns_servers extra = unique-text s _ ∙ sort-text s _

pub data FirewallCall : Type 0 where
  block_call : String → ℤ → FirewallCall
  unblock_call : String → FirewallCall
  expiry_call : FirewallCall

module _ {W : Type 0} (run_netsh : String → W → Bool × W) (clock : W → ℕ × W)
    (audit_adder : AuditAdder W) where
  unfoldable pub after : FirewallCall → FirewallBlocker → W → FirewallBlocker × W
  unfolding block unblock expiry_turn
  after (FirewallCall.block_call ip ttl_s) fw w =
      let r = block run_netsh clock audit_adder ip ttl_s fw w in (r.1, r.2)
  after (FirewallCall.unblock_call ip) fw w =
      let r = unblock run_netsh clock audit_adder ip fw w in (r.1, r.2)
  after FirewallCall.expiry_call fw w = expiry_turn run_netsh clock audit_adder fw w

  unfoldable pub run : List FirewallCall → FirewallBlocker → W → FirewallBlocker × W
  unfolding after
  run [] fw w = (fw, w)
  run (c ∷ cs) fw w = let next = after c fw w in run cs next.0 next.1

  abbrev Untouched : String → FirewallBlocker → BlockResult × FirewallBlocker × W → Type 0
  Untouched ip fw r = lookup ip r.1.blocks ≡ lookup ip fw.blocks

  added-other :
      (ip other stem : String) (ttl : ℕ) (fw : FirewallBlocker) (w : W)
      → (other == ip) ≡ false
      → Untouched ip fw (add_rules run_netsh clock audit_adder other stem ttl fw w)
  unfolding add_rules record_block
  added-other ip other stem ttl fw w ne =
      let first = add_rule run_netsh (append stem "-in") other "in" w in
      let second = add_rule run_netsh (append stem "-out") other "out" first.1 in
      if_cases (Untouched ip fw) (not first.0 && not second.0) _ _ (λ _. refl)
        (λ _. lookup-insert other ip _ fw.blocks ∙ rw ne refl)

  -- A block of one address leaves the others as they are.
  pub block-other :
      (ip other : String) (ttl_s : ℤ) (fw : FirewallBlocker) (w : W)
      → (other == ip) ≡ false
      → lookup ip (block run_netsh clock audit_adder other ttl_s fw w).1.blocks
        ≡ lookup ip fw.blocks
  unfolding block
  block-other ip other ttl_s fw w ne =
      if_cases (Untouched ip fw) (has_text other fw.allowlist) _ _ (λ _. refl)
        λ _.
          if_cases (Untouched ip fw) (is_some (lookup other fw.blocks)) _ _ (λ _. refl)
            λ _. added-other ip other _ _ fw (clock w).1 ne

  -- The address is in the allowlist and not among the blocks.
  record IsSpared (ip : String) (fw : FirewallBlocker) : Type 0 where
    pub listed : has_text ip fw.allowlist ≡ true
    pub absent : lookup ip fw.blocks ≡ none

  abbrev SparedBy : String → BlockResult × FirewallBlocker × W → Type 0
  SparedBy ip r = IsSpared ip r.1

  recorded-IsSpared :
      (ip other name_in name_out : String) (ttl : ℕ) (fw : FirewallBlocker) (w : W)
      → (other == ip) ≡ false
      → IsSpared ip fw
      → IsSpared ip (record_block run_netsh clock audit_adder other name_in name_out ttl fw w).1
  unfolding record_block
  recorded-IsSpared ip other name_in name_out ttl fw w ne h = record {
    listed = h.listed;
    absent = lookup-insert other ip _ fw.blocks ∙ rw ne (h.absent);
  }

  added-IsSpared :
      (ip other stem : String) (ttl : ℕ) (fw : FirewallBlocker) (w : W)
      → (other == ip) ≡ false
      → IsSpared ip fw
      → IsSpared ip (add_rules run_netsh clock audit_adder other stem ttl fw w).1
  unfolding add_rules
  added-IsSpared ip other stem ttl fw w ne h =
      let first = add_rule run_netsh (append stem "-in") other "in" w in
      let second = add_rule run_netsh (append stem "-out") other "out" first.1 in
      if_cases (SparedBy ip) (not first.0 && not second.0) _ _ (λ _. h)
        (λ _. recorded-IsSpared ip other _ _ ttl fw second.1 ne h)

  block-IsSpared :
      (ip other : String) (ttl_s : ℤ) (fw : FirewallBlocker) (w : W)
      → IsSpared ip fw
      → IsSpared ip (block run_netsh clock audit_adder other ttl_s fw w).1
  unfolding block
  block-IsSpared ip other ttl_s fw w h =
      if_cases (SparedBy ip) (has_text other fw.allowlist) _ _ (λ _. h)
        λ unlisted.
          if_cases (SparedBy ip) (is_some (lookup other fw.blocks)) _ _ (λ _. h)
            λ _. added-IsSpared ip other _ _ fw (clock w).1 (differs unlisted) h
    where
      differs : has_text other fw.allowlist ≡ false → (other == ip) ≡ false
      differs unlisted = elim (Bool-cases (other == ip)) [
        | inl e ↦ absurd (
            true≢false (
              sym h.listed
              ∙ ap (λ x. has_text x fw.allowlist) (sym ((eq_iff other ip).0 e))
              ∙ unlisted))
        | inr e ↦ e
      ]

  after-IsSpared :
      (ip : String) (c : FirewallCall) (fw : FirewallBlocker) (w : W)
      → IsSpared ip fw
      → IsSpared ip (after c fw w).0
  unfolding after unblock expiry_turn
  after-IsSpared ip (FirewallCall.block_call other ttl_s) fw w h =
      block-IsSpared ip other ttl_s fw w h
  after-IsSpared ip (FirewallCall.unblock_call other) fw w h =
      elim (Option-cases (lookup other fw.blocks)) [
        | inl missing ↦ rw (missing, after, unblock) h
        | inr (ab, there) ↦
            rw (there, after, unblock)
              (record {
                listed = h.listed;
                absent = ground (arith, lookup-erase other ip fw.blocks, h.absent);
              })
      ]
  after-IsSpared ip FirewallCall.expiry_call fw w h = record {
    listed = h.listed;
    absent =
        ap (lookup ip)
          (expire-unexpired run_netsh clock audit_adder (clock w).0 fw.blocks (clock w).1)
        ∙ lookup-unexpired-none (clock w).0 ip fw.blocks h.absent;
  }

  run-IsSpared :
      (ip : String) (cs : List FirewallCall) (fw : FirewallBlocker) (w : W)
      → IsSpared ip fw
      → IsSpared ip (run cs fw w).0
  unfolding run
  run-IsSpared ip [] fw w h = h
  run-IsSpared ip (c ∷ cs) fw w h = run-IsSpared ip cs _ _ (after-IsSpared ip c fw w h)

  -- Whatever is called on a new blocker, and whatever netsh answers, no address is blocked that is one
  -- of the three fixed ones, a gateway or DNS server with a name, or one of the caller's.
  pub run_new-spares :
      (ip : String) (default_ttl_s : ℤ) (gateways dns_servers extra : List String)
      (cs : List FirewallCall) (w : W)
      → has_text ip (
          ("127.0.0.1" ∷ "::1" ∷ "0.0.0.0" ∷ [])
          ++ (named_addresses gateways ++ (named_addresses dns_servers ++ extra)))
        ≡ true
      → is_blocked ip (run cs (new_blocker default_ttl_s gateways dns_servers extra) w).0 ≡ false
  unfolding is_blocked new_blocker lookup
  run_new-spares ip default_ttl_s gateways dns_servers extra cs w h =
      ap is_some
        (run-IsSpared ip cs (new_blocker default_ttl_s gateways dns_servers extra) w (record {
          listed = build_allowlist-text ip gateways dns_servers extra ∙ h;
          absent = refl;
        })).absent
