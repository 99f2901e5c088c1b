-- ===== src/Audit/Linked.antt =====
-- What verify_chain decides.
use astartis_codex_control_p.Base.{
  ℕ, suc, String, ◌≡◌, refl, ◌∙◌, ◌↔◌, true, some, List, [], ◌∷◌, ◌++◌, arith, eq_iff,
}
use astartis_codex_control_p.Audit.{
  Host, AuditEntry, AuditChain, genesis_hash, head_hash, calculate_entry_hash, new_entry, add_entry,
  verify_loop, verify_entries, verify_chain, hashed_text, passed,
}

module _ (host : Host) where
  -- From the hash `prev` on, every entry links to the one before and carries its own hash.
  abbrev pub IsLinked : String → List AuditEntry → Type 0
  IsLinked prev [] = Unit {0}
  IsLinked prev (e ∷ es) =
      (e.current_hash ≡ calculate_entry_hash host e)
      × (e.previous_hash ≡ prev)
      × IsLinked e.current_hash es

  pub verify_loop-valid_to :
      (i : ℕ) (p : AuditEntry) (es : List AuditEntry)
      → (verify_loop host i (some p) es).is_valid ≡ true
      → IsLinked p.current_hash es
  unfolding verify_loop
  verify_loop-valid_to i p [] h = tt
  verify_loop-valid_to i p (e ∷ es) h = ground (
    arith,
    eq_iff e.current_hash (calculate_entry_hash host e),
    eq_iff e.previous_hash p.current_hash,
    verify_loop-valid_to (suc i) e es,
  )

  pub verify_loop-of-linked :
      (i : ℕ) (p : AuditEntry) (es : List AuditEntry)
      → IsLinked p.current_hash es
      → verify_loop host i (some p) es ≡ passed
  unfolding verify_loop
  verify_loop-of-linked i p [] h = refl
  verify_loop-of-linked i p (e ∷ es) h = ground (
    arith,
    eq_iff e.current_hash (calculate_entry_hash host e),
    eq_iff e.previous_hash p.current_hash,
    verify_loop-of-linked (suc i) e es h.2,
  )

  IsLinked-of_valid :
      (es : List AuditEntry) → (verify_entries host es).is_valid ≡ true → IsLinked genesis_hash es
  unfolding verify_entries
  IsLinked-of_valid [] h = tt
  IsLinked-of_valid (e ∷ es) h = ground (
    arith,
    eq_iff e.current_hash (calculate_entry_hash host e),
    eq_iff e.previous_hash genesis_hash,
    verify_loop-valid_to 1 e es,
  )

  valid_of_linked :
      (es : List AuditEntry) → IsLinked genesis_hash es → (verify_entries host es).is_valid ≡ true
  unfolding verify_entries
  valid_of_linked [] h = refl
  valid_of_linked (e ∷ es) h = ground (
    arith,
    eq_iff e.current_hash (calculate_entry_hash host e),
    eq_iff e.previous_hash genesis_hash,
    verify_loop-of-linked 1 e es h.2,
  )

  -- verify_chain reports a valid chain exactly when the first entry links to the genesis hash,
  -- every later entry links to the one before it, and every entry carries the hash of its own text.
  pub verify_chain-IsLinked :
      (c : AuditChain) → ((verify_chain host c).is_valid ≡ true) ↔ IsLinked genesis_hash c.entries
  unfolding verify_chain
  verify_chain-IsLinked c = (IsLinked-of_valid c.entries, valid_of_linked c.entries)

  last_hash : String → List AuditEntry → String
  last_hash prev [] = prev
  last_hash prev (e ∷ es) = last_hash e.current_hash es

  IsLinked-snoc :
      (prev : String) (es : List AuditEntry) (e : AuditEntry)
      → IsLinked prev es
      → e.current_hash ≡ calculate_entry_hash host e
      → e.previous_hash ≡ last_hash prev es
      → IsLinked prev (es ++ e ∷ [])
  unfolding last_hash
  IsLinked-snoc prev [] e h sealed link = (sealed, link, tt)
  IsLinked-snoc prev (x ∷ es) e h sealed link =
      (h.0, h.1, IsLinked-snoc x.current_hash es e h.2 sealed link)

  last_hash-cons :
      (prev : String) (x : AuditEntry) (es : List AuditEntry)
      → last_hash prev (x ∷ es) ≡ head_hash (x ∷ es)
  unfolding last_hash head_hash
  last_hash-cons prev x [] = refl
  last_hash-cons prev x (y ∷ es) = last_hash-cons x.current_hash y es

  last_hash-eq : (es : List AuditEntry) → head_hash es ≡ last_hash genesis_hash es
  unfolding last_hash head_hash
  last_hash-eq [] = refl
  last_hash-eq (x ∷ es) = ground (arith, last_hash-cons genesis_hash x es)

  new_entry-sealed :
      (t p : String) (es : List AuditEntry)
      → (new_entry host t p es).current_hash ≡ calculate_entry_hash host (new_entry host t p es)
  unfolding new_entry calculate_entry_hash hashed_text
  new_entry-sealed t p es = refl

  new_entry-previous :
      (t p : String) (es : List AuditEntry) → (new_entry host t p es).previous_hash ≡ head_hash es
  unfolding new_entry
  new_entry-previous t p es = refl

  -- Appending an entry keeps a chain that verifies verifiable.
  pub add_entry-valid :
      (t p : String) (c : AuditChain)
      → (verify_chain host c).is_valid ≡ true
      → (verify_chain host (add_entry host t p c).1).is_valid ≡ true
  unfolding add_entry
  add_entry-valid t p c h = (verify_chain-IsLinked (add_entry host t p c).1).1 (
      IsLinked-snoc genesis_hash c.entries (new_entry host t p c.entries)
        ((verify_chain-IsLinked c).0 h) (new_entry-sealed t p c.entries)
        (new_entry-previous t p c.entries ∙ last_hash-eq c.entries))
