-- ===== src/Firewall/Expiry.antt =====
-- How long a block lasts.
use astartis_codex_control_p.Base.{
  ℕ, ◌+◌, ◌*◌, String, append, ◌≡◌, refl, ◌↔◌, ◌⊎◌, Bool, true, false, ◌&&◌, not, Option, none,
  some, [], ◌∷◌, arith, eq_iff, ltb, leb, if◌then◌else◌, is_some, if_cases, has_text, ℤ, Dict,
  lookup, place, insert, lookup-insert_self,
}
use astartis_codex_control_p.Callbacks.{AuditAdder}
use astartis_codex_control_p.Firewall.{
  make_rule_stem, ActiveBlock, FirewallBlocker, BlockResult, block, add_rules, record_block, expire,
  positive_or, is_blocked, add_rule,
}

-- The entries that a pass at this time leaves.
unfoldable pub unexpired : ℕ → Dict ActiveBlock → Dict ActiveBlock
unexpired now [] = []
unexpired now ((ip, ab) ∷ m) =
    let rest = unexpired now m in if ltb now ab.expires_at_ms then (ip, ab) ∷ rest else rest

pub lookup-unexpired-none :
    (now : ℕ) (ip : String) (m : Dict ActiveBlock)
    → lookup ip m ≡ none
    → lookup ip (unexpired now m) ≡ none
unfolding lookup unexpired
lookup-unexpired-none now ip [] h = refl
lookup-unexpired-none now ip ((j, ab) ∷ m) h = ground (arith, lookup-unexpired-none now ip m)

lookup-unexpired-place :
    (now : ℕ) (ip : String) (ab : ActiveBlock) (m : Dict ActiveBlock)
    → lookup ip m ≡ none
    → is_some (lookup ip (unexpired now (place ip ab m))) ≡ ltb now ab.expires_at_ms
unfolding lookup unexpired place
lookup-unexpired-place now ip ab [] h = ground (arith, eq_iff ip ip)
lookup-unexpired-place now ip ab ((j, b) ∷ m) h =
    ground (arith, eq_iff ip ip, lookup-unexpired-place now ip ab m, lookup-unexpired-none now ip m)

keep_rest :
    (now : ℕ) (ip : String) (ab : ActiveBlock) (rest m : Dict ActiveBlock)
    → rest ≡ m
    → (if leb ab.expires_at_ms now then rest else (ip, ab) ∷ rest)
      ≡ (if ltb now ab.expires_at_ms then (ip, ab) ∷ m else m)
keep_rest now ip ab rest m h = ground (arith, h)

not_there : (o : Option ActiveBlock) → is_some o ≡ false → o ≡ none
not_there none h = refl
not_there (some ab) h = cc

insert_new :
    (ip : String) (ab : ActiveBlock) (m : Dict ActiveBlock)
    → lookup ip m ≡ none
    → insert ip ab m ≡ place ip ab m
unfolding insert
insert_new ip ab m h = rw h refl

module _ {W : Type 0} (run_netsh : String → W → Bool × W) (clock : W → ℕ × W)
    (audit_adder : AuditAdder W) where
  -- A turn of the expiry thread at a time leaves exactly the blocks, in their order, that expire later.
  pub expire-unexpired :
      (now : ℕ) (m : Dict ActiveBlock) (w : W)
      → (expire run_netsh clock audit_adder now m w).0 ≡ unexpired now m
  unfolding expire unexpired
  expire-unexpired now [] w = refl
  expire-unexpired now ((ip, ab) ∷ m) w =
      keep_rest now ip ab _ (unexpired now m) (expire-unexpired now m _)

  abbrev attempt : String → ℤ → FirewallBlocker → W → BlockResult × FirewallBlocker × W
  attempt ip ttl_s fw w = block run_netsh clock audit_adder ip ttl_s fw w

  -- What a turn of the expiry thread at the time t makes of a block that was made.
  record Lasts (ip : String) (ttl : ℕ) (t : ℕ) (u : W) (r : BlockResult × FirewallBlocker × W)
      : Type 0 where
    pub made :
        r.0.blocked ≡ true
        → (ab : ActiveBlock) × (lookup ip r.1.blocks ≡ some ab)
          × (ab.expires_at_ms ≡ ab.blocked_at_ms + ttl * 1000)
          × (is_some (lookup ip (expire run_netsh clock audit_adder t r.1.blocks u).0)
              ≡ ltb t ab.expires_at_ms)

  recorded :
      (ip name_in name_out : String) (ttl t : ℕ) (fw : FirewallBlocker) (w u : W)
      → lookup ip fw.blocks ≡ none
      → Lasts ip ttl t u (record_block run_netsh clock audit_adder ip name_in name_out ttl fw w)
  unfolding record_block
  recorded ip name_in name_out ttl t fw w u new = record {
    made = λ _. (
      _,
      lookup-insert_self ip _ fw.blocks,
      refl,
      rw (expire-unexpired, insert_new ip _ fw.blocks new)
          (lookup-unexpired-place t ip _ fw.blocks new),
    );
  }

  refused_lasts :
      (ip : String) (ttl t : ℕ) (u : W) (r : BlockResult × FirewallBlocker × W)
      → r.0.blocked ≡ false
      → Lasts ip ttl t u r
  refused_lasts ip ttl t u r h = record { made = λ k. ground (arith, h, k) }

  added :
      (ip stem : String) (ttl t : ℕ) (fw : FirewallBlocker) (w u : W)
      → lookup ip fw.blocks ≡ none
      → Lasts ip ttl t u (add_rules run_netsh clock audit_adder ip stem ttl fw w)
  unfolding add_rules
  added ip stem ttl t fw w u new =
      let first = add_rule run_netsh (append stem "-in") ip "in" w in
      let second = add_rule run_netsh (append stem "-out") ip "out" first.1 in
      if_cases (Lasts ip ttl t u) (not first.0 && not second.0) _ _
        (λ _. refused_lasts ip ttl t u _ refl) (λ _. recorded ip _ _ ttl t fw second.1 u new)

  attempt_lasts :
      (ip : String) (ttl_s : ℤ) (fw : FirewallBlocker) (w : W) (t : ℕ) (u : W)
      → Lasts ip (positive_or ttl_s fw.default_ttl_s) t u (attempt ip ttl_s fw w)
  unfolding block
  attempt_lasts ip ttl_s fw w t u =
      let ttl = positive_or ttl_s fw.default_ttl_s in
      if_cases (Lasts ip ttl t u) (has_text ip fw.allowlist) _ _
        (λ _. refused_lasts ip ttl t u _ refl)
        λ _.
          if_cases (Lasts ip ttl t u) (is_some (lookup ip fw.blocks)) _ _
            (λ _. refused_lasts ip ttl t u _ refl)
            λ new. added ip _ ttl t fw (clock w).1 u (not_there (lookup ip fw.blocks) new)

  -- A block that was made is entered with its time to live, the default where the caller's is not
  -- positive, and a turn of the expiry thread leaves it exactly if the time of that turn is before the
  -- end.
  pub block-lasts :
      (ip : String) (ttl_s : ℤ) (fw : FirewallBlocker) (w : W) (t : ℕ) (u : W)
      → (attempt ip ttl_s fw w).0.blocked ≡ true
      → (ab : ActiveBlock) × (lookup ip (attempt ip ttl_s fw w).1.blocks ≡ some ab)
        × (ab.expires_at_ms ≡ ab.blocked_at_ms + positive_or ttl_s fw.default_ttl_s * 1000)
        × (is_some (
              lookup ip (expire run_netsh clock audit_adder t (attempt ip ttl_s fw w).1.blocks u).0)
            ≡ ltb t ab.expires_at_ms)
  block-lasts ip ttl_s fw w t u h = (attempt_lasts ip ttl_s fw w t u).made h

  -- A block is made exactly when the address is not in the allowlist and not blocked yet, and netsh
  -- adds at least one of the two rules; where it is not made, the blocks stay as they are.
  pub block-made :
      (ip : String) (ttl_s : ℤ) (fw : FirewallBlocker) (w : W)
      → (let stem = make_rule_stem ip (clock w).0 in
          let first = add_rule run_netsh (append stem "-in") ip "in" (clock w).1 in
          let second = add_rule run_netsh (append stem "-out") ip "out" first.1 in
          ((attempt ip ttl_s fw w).0.blocked ≡ true) ↔ (
            (has_text ip fw.allowlist ≡ false)
            × ((is_blocked ip fw ≡ false) × ((first.0 ≡ true) ⊎ (second.0 ≡ true)))))
        × (((attempt ip ttl_s fw w).0.blocked ≡ true) ⊎ ((attempt ip ttl_s fw w).1 ≡ fw))
  unfolding block add_rules record_block is_blocked
  block-made ip ttl_s fw w = (
    (λ h. (ground (arith, h), (ground (arith, h), ground (arith, h))), λ h. ground (arith, h)),
    ground arith,
  )
