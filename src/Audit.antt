-- ===== src/Audit.antt =====
-- astartis/core/audit_chain: the hash-linked log that every other component writes to.
-- SHA-256, the random source and the clock are code outside the repository: `Host` holds them as
-- functions. The n-th call of `add_entry` makes the n-th draw and the n-th reading, so both are
-- functions of the length of the chain.
pub mod Linked
pub mod Tamper
use astartis_codex_control_p.Base.{
  ℕ, suc, String, Bool, true, false, Option, none, some, List, [], ◌∷◌, ◌++◌, ◌==◌, ltb,
  if◌then◌else◌, concat, nat_text, hex_text, hex_bytes, length, back?, modify, ℤ, pos, negsuc,
}

pub record Host : Type 0 where
  -- the digest of the bytes of a text
  pub sha256 : String → List ℕ
  -- the draws of the generator behind the entry ids
  pub draw : ℕ → ℕ
  -- the readings of the clock, in milliseconds since the epoch
  pub clock : ℕ → ℕ

pub record AuditEntry : Type 0 where
  pub entry_id : String
  pub timestamp : ℕ
  pub event_type : String
  pub payload : String
  pub previous_hash : String
  pub current_hash : String

pub record VerificationResult : Type 0 where
  pub is_valid : Bool
  pub error_message : String
  pub tampered_entry_index : ℤ
  pub expected_hash : String
  pub actual_hash : String

-- The member chain_, oldest entry first.
pub record AuditChain : Type 0 where
  pub entries : List AuditEntry

abbrev pub genesis_hash : String
genesis_hash = "0000000000000000000000000000000000000000000000000000000000000000"

abbrev pub empty_chain : AuditChain
empty_chain = record { entries = [] }

unfoldable pub hashed_text : AuditEntry → String
hashed_text e =
    concat (e.entry_id ∷ nat_text e.timestamp ∷ e.event_type ∷ e.payload ∷ e.previous_hash ∷ [])

unfoldable pub head_hash : List AuditEntry → String
head_hash es = elim (back? es) [ none ↦ genesis_hash | some e ↦ e.current_hash ]

unfoldable pub get_chain_length : AuditChain → ℕ
get_chain_length c = length c.entries

unfoldable pub get_chain_head_hash : AuditChain → String
unfolding head_hash
get_chain_head_hash c = head_hash c.entries

find_entry : String → List AuditEntry → Option AuditEntry
find_entry entry_id [] = none
find_entry entry_id (e ∷ es) = if e.entry_id == entry_id then some e else find_entry entry_id es

unfoldable pub get_entry : String → AuditChain → Option AuditEntry
unfolding find_entry
get_entry entry_id c = find_entry entry_id c.entries

unfoldable pub tamper_entry_for_testing : ℕ → String → AuditChain → Bool × AuditChain
tamper_entry_for_testing index new_payload c =
    if ltb index (length c.entries)
    then (
      true,
      record { entries = modify c.entries index (λ e. record e { payload = new_payload }) },
    )
    else (false, c)

unfoldable pub link_broken : Option AuditEntry → AuditEntry → Bool
link_broken none e = false
link_broken (some p) e = if e.previous_hash == p.current_hash then false else true

abbrev pub passed : VerificationResult
passed = record {
  is_valid = true;
  error_message = "Chain verification passed";
  tampered_entry_index = negsuc 0;
  expected_hash = "";
  actual_hash = "";
}

abbrev broken_link : ℕ → Option AuditEntry → AuditEntry → VerificationResult
broken_link i prev e = record {
  is_valid = false;
  error_message = "Chain link broken - previous_hash does not match";
  tampered_entry_index = pos i;
  expected_hash = elim prev [ none ↦ "" | some p ↦ p.current_hash ];
  actual_hash = e.previous_hash;
}

abbrev bad_genesis : AuditEntry → VerificationResult
bad_genesis e = record {
  is_valid = false;
  error_message = "First entry does not link to genesis hash";
  tampered_entry_index = pos 0;
  expected_hash = genesis_hash;
  actual_hash = e.previous_hash;
}

module _ (host : Host) where
  unfoldable pub calculate_entry_hash : AuditEntry → String
  unfolding hashed_text
  calculate_entry_hash e = hex_bytes (host.sha256 (hashed_text e))

  unfoldable pub generate_entry_id : ℕ → String
  generate_entry_id n = concat ("entry_" ∷ hex_text (host.draw n) ∷ [])

  unfoldable pub new_entry : String → String → List AuditEntry → AuditEntry
  unfolding generate_entry_id calculate_entry_hash head_hash
  new_entry event_type payload es = record unsealed { current_hash = calculate_entry_hash unsealed }
    where
      unsealed : AuditEntry
      unsealed = record {
        entry_id = generate_entry_id (length es);
        timestamp = host.clock (length es);
        event_type = event_type;
        payload = payload;
        previous_hash = head_hash es;
        current_hash = "";
      }

  -- Returns the id of the new entry and the chain after it.
  unfoldable pub add_entry : String → String → AuditChain → String × AuditChain
  unfolding new_entry
  add_entry event_type payload c =
      let e = new_entry event_type payload c.entries in
      (e.entry_id, record { entries = c.entries ++ e ∷ [] })

  abbrev hash_mismatch : ℕ → AuditEntry → VerificationResult
  hash_mismatch i e = record {
    is_valid = false;
    error_message = "Entry hash mismatch - entry has been tampered with";
    tampered_entry_index = pos i;
    expected_hash = calculate_entry_hash e;
    actual_hash = e.current_hash;
  }

  -- The loop over the entries: `i` is the index and `prev` is chain_[i - 1], if there is one.
  unfoldable pub verify_loop : ℕ → Option AuditEntry → List AuditEntry → VerificationResult
  unfolding link_broken
  verify_loop i prev [] = passed
  verify_loop i prev (e ∷ es) =
      let rest = verify_loop (suc i) (some e) es in
      if e.current_hash == calculate_entry_hash e
      then (if link_broken prev e then broken_link i prev e else rest)
      else hash_mismatch i e

  unfoldable pub verify_entries : List AuditEntry → VerificationResult
  unfolding verify_loop
  verify_entries [] = record passed { error_message = "Chain is empty" }
  verify_entries (e ∷ es) =
      if e.previous_hash == genesis_hash then verify_loop 0 none (e ∷ es) else bad_genesis e

  unfoldable pub verify_chain : AuditChain → VerificationResult
  unfolding verify_entries
  verify_chain c = verify_entries c.entries
