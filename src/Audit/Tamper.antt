-- ===== src/Audit/Tamper.antt =====
-- What verify_chain detects, and what it misses.
use text.Mathlib.TextLemmas.{append_cancel_left, append_cancel_right, append_assoc}
use astartis_codex_control_p.Base.{
  ℕ, zero, suc, ◌+◌, String, append, ◌≡◌, refl, sym, ap, ◌∙◌, subst, ◌≢◌, ◌⊎◌, inl, inr, true,
  false, some, List, [], ◌∷◌, ◌++◌, arith, ◌==◌, eq_iff, lt→ltb, Bool-cases, concat, nat_text,
  hex_bytes, length, get_elem?, modify, get_elem?-lt, pos,
}
use mathlib.Core.Bool.{false≢true}
use astartis_codex_control_p.Audit.{
  verify_entries, verify_chain, tamper_entry_for_testing, AuditChain, genesis_hash, Host,
  AuditEntry, VerificationResult, calculate_entry_hash, verify_loop, hashed_text,
}
use astartis_codex_control_p.Audit.Linked.{verify_chain-IsLinked, IsLinked}

-- The text that is hashed determines the payload, once the other fields are fixed.
hashed_text-payload :
    (e : AuditEntry) (p : String)
    → hashed_text e ≡ hashed_text (record e { payload = p })
    → e.payload ≡ p
unfolding hashed_text concat
hashed_text-payload e p h = append_cancel_right e.payload p _ (
    append_cancel_left e.event_type _ _
      (append_cancel_left (nat_text e.timestamp) _ _ (append_cancel_left e.entry_id _ _ h)))

hashed_text-shift :
    (e : AuditEntry) (t s p : String)
    → hashed_text (record e { event_type = append t s; payload = p })
      ≡ hashed_text (record e { event_type = t; payload = append s p })
unfolding hashed_text concat
hashed_text-shift e t s p = ap (append e.entry_id) (
    ap (append (nat_text e.timestamp))
      (append_assoc t s _ ∙ ap (append t) (sym (append_assoc s p _))))

module _ (host : Host) where
  -- Two different texts that the hash function does not tell apart.
  abbrev pub Collide : AuditEntry → AuditEntry → Type 0
  Collide e f =
      (hashed_text e ≢ hashed_text f) × (calculate_entry_hash host e ≡ calculate_entry_hash host f)

  abbrev pub IsRejectedAt : ℕ → VerificationResult → Type 0
  IsRejectedAt i r = (r.is_valid ≡ false) × (r.tampered_entry_index ≡ pos i)

  rejected_in_loop :
      (k i : ℕ) (q : AuditEntry) (p : String) (es : List AuditEntry) (e : AuditEntry)
      → IsLinked host q.current_hash es
      → get_elem? es i ≡ some e
      → calculate_entry_hash host e ≢ calculate_entry_hash host (record e { payload = p })
      → IsRejectedAt
          (k + i)
          (verify_loop host k (some q) (modify es i (λ x. record x { payload = p })))
  unfolding verify_loop
  rejected_in_loop k i q p [] e l g d = cc
  rejected_in_loop k zero q p (x ∷ es) e l g d =
      ground (arith, eq_iff x.current_hash (calculate_entry_hash host (record x { payload = p })))
  rejected_in_loop k (suc i) q p (x ∷ es) e l g d = ground (
    arith,
    eq_iff x.current_hash (calculate_entry_hash host x),
    eq_iff x.previous_hash q.current_hash,
    rejected_in_loop (suc k) i x p es e l.2 g d,
  )

  rejected_from_start :
      (i : ℕ) (p : String) (es : List AuditEntry) (e : AuditEntry)
      → IsLinked host genesis_hash es
      → get_elem? es i ≡ some e
      → calculate_entry_hash host e ≢ calculate_entry_hash host (record e { payload = p })
      → IsRejectedAt i (verify_entries host (modify es i (λ x. record x { payload = p })))
  unfolding verify_entries
  rejected_from_start i p [] e l g d = cc
  rejected_from_start zero p (x ∷ es) e l g d = ground (
    arith,
    eq_iff x.previous_hash genesis_hash,
    eq_iff x.current_hash (calculate_entry_hash host (record x { payload = p })),
  )
  rejected_from_start (suc i) p (x ∷ es) e l g d = ground (
    arith,
    eq_iff x.previous_hash genesis_hash,
    eq_iff x.current_hash (calculate_entry_hash host x),
    rejected_in_loop 1 i x p es e l.2 g d,
  )

  hash_or_collision :
      (e : AuditEntry) (p : String)
      → e.payload ≢ p
      → (calculate_entry_hash host e ≢ calculate_entry_hash host (record e { payload = p }))
        ⊎ Collide e (record e { payload = p })
  hash_or_collision e p d =
      elim (Bool-cases
        (calculate_entry_hash host e == calculate_entry_hash host (record e { payload = p }))) [
          | inl same ↦ inr (λ h. d (hashed_text-payload e p h), (eq_iff _ _).0 same)
          | inr diff ↦ inl (λ h. false≢true (sym diff ∙ (eq_iff _ _).1 h))
        ]

  -- Take a chain that verifies, and let `tamper_entry_for_testing` write another payload into one
  -- of its entries. Either verify_chain then reports an invalid chain and the index of that very
  -- entry, or the texts hashed before and after are two different texts with one hash.
  pub tamper_detected :
      (c : AuditChain) (i : ℕ) (e : AuditEntry) (p : String)
      → (verify_chain host c).is_valid ≡ true
      → get_elem? c.entries i ≡ some e
      → e.payload ≢ p
      → IsRejectedAt i (verify_chain host (tamper_entry_for_testing i p c).1)
        ⊎ Collide e (record e { payload = p })
  unfolding tamper_entry_for_testing verify_chain
  tamper_detected c i e p v g d = elim (hash_or_collision e p d) [
    | inl diff ↦ inl (
        rw (lt→ltb i (length c.entries) (get_elem?-lt c.entries i g))
          (rejected_from_start i p c.entries e ((verify_chain-IsLinked host c).0 v) g diff))
    | inr same ↦ inr same
  ]

  IsLinked-swap :
      (q : String) (xs : List AuditEntry) (e f : AuditEntry) (ys : List AuditEntry)
      → hashed_text e ≡ hashed_text f
      → e.previous_hash ≡ f.previous_hash
      → e.current_hash ≡ f.current_hash
      → IsLinked host q (xs ++ e ∷ ys)
      → IsLinked host q (xs ++ f ∷ ys)
  unfolding calculate_entry_hash
  IsLinked-swap q [] e f ys t p c l = (
    sym c ∙ l.0 ∙ ap (λ (s : String). hex_bytes (host.sha256 s)) t,
    sym p ∙ l.1,
    subst (λ (h : String). IsLinked host h ys) c l.2,
  )
  IsLinked-swap q (x ∷ xs) e f ys t p c l =
      (l.0, l.1, IsLinked-swap x.current_hash xs e f ys t p c l.2)

  -- verify_chain misses a change that moves text over the boundary between event_type and payload:
  -- whatever the chain, the hash function and the entry, an entry of event type `t ++ s` and
  -- payload `p` may be replaced by one of event type `t` and payload `s ++ p`.
  pub boundary_shift_undetected :
      (xs ys : List AuditEntry) (e : AuditEntry) (t s p : String)
      → (verify_chain host (record {
        entries = xs ++ (record e { event_type = append t s; payload = p }) ∷ ys;
      })).is_valid
        ≡ true
      → (verify_chain host (record {
        entries = xs ++ (record e { event_type = t; payload = append s p }) ∷ ys;
      })).is_valid
        ≡ true
  boundary_shift_undetected xs ys e t s p v = (verify_chain-IsLinked host _).1 (
      IsLinked-swap genesis_hash xs (record e { event_type = append t s; payload = p })
        (record e { event_type = t; payload = append s p }) ys (hashed_text-shift e t s p) refl refl
        ((verify_chain-IsLinked host _).0 v))
