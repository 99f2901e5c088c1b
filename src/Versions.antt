-- ===== src/Versions.antt =====
-- astartis/core/version_store: append-only histories of records. The reading of the clock is an
-- argument, SHA-256 a function of the hashed text, and `lock_check` the state of the WORM lock when
-- write asks for it.
pub mod Reads
pub mod Histories
pub mod Accepted
use astartis_codex_control_p.Base.{
  ℕ, zero, suc, ◌+◌, String, Bool, true, false, Option, none, some, List, [], ◌∷◌, ◌++◌,
  if◌then◌else◌, concat, is_empty, nat_text, hex_bytes, length, get_elem?, back?, Dict, lookup,
  insert,
}
use astartis_codex_control_p.Callbacks.{AuditAdder}

-- The member `data` is the field payload.
pub record RecordVersion : Type 0 where
  pub record_id : String
  pub version_number : ℕ
  pub timestamp : ℕ
  pub payload : String
  pub author : String
  pub version_hash : String

pub record VersionResult : Type 0 where
  pub is_ok : Bool
  pub error : String
  pub version_number : ℕ

-- The member store_: the versions of each record, oldest first.
abbrev pub Store : Type 0
Store = Dict (List RecordVersion)

abbrev pub failed : String → VersionResult
failed error = record { is_ok = false; error = error; version_number = 0 }

abbrev pub succeeded : ℕ → VersionResult
succeeded n = record { is_ok = true; error = ""; version_number = n }

-- The history under a key, empty if there is none.
unfoldable pub get_history : String → Store → List RecordVersion
get_history record_id store = elim (lookup record_id store) [ none ↦ [] | some h ↦ h ]

unfoldable pub not_found : String → VersionResult × Option RecordVersion
not_found record_id = (failed (concat ("record not found: " ∷ record_id ∷ [])), none)

-- The result and the value of `out`, where it is assigned.
unfoldable pub current_of : String → Option RecordVersion → VersionResult × Option RecordVersion
unfolding not_found
current_of record_id none = not_found record_id
current_of record_id (some v) = (succeeded v.version_number, some v)

unfoldable pub read_current : String → Store → VersionResult × Option RecordVersion
unfolding current_of get_history
read_current record_id store = current_of record_id (back? (get_history record_id store))

-- history[version_number - 1] behind the test of the range.
unfoldable pub version_of : ℕ → List RecordVersion → VersionResult × Option RecordVersion
version_of zero history = (failed "version_number out of range", none)
version_of (suc n) history = elim (get_elem? history n) [
  | none ↦ (failed "version_number out of range", none)
  | some v ↦ (succeeded v.version_number, some v)
]

unfoldable pub version_in : String → ℕ → List RecordVersion → VersionResult × Option RecordVersion
unfolding version_of not_found
version_in record_id version_number [] = not_found record_id
version_in record_id version_number (v ∷ vs) = version_of version_number (v ∷ vs)

unfoldable pub read_version : String → ℕ → Store → VersionResult × Option RecordVersion
unfolding version_in get_history
read_version record_id version_number store =
    version_in record_id version_number (get_history record_id store)

unfoldable pub record_count : Store → ℕ
record_count store = length store

unfoldable pub total_version_count : Store → ℕ
total_version_count [] = 0
total_version_count ((record_id, history) ∷ store) = length history + total_version_count store

module _ (sha256 : String → List ℕ) where
  unfoldable pub calculate_version_hash : RecordVersion → String
  calculate_version_hash v = hex_bytes (
      sha256 (
        concat (
          v.record_id
          ∷ nat_text v.version_number
          ∷ nat_text v.timestamp
          ∷ v.payload
          ∷ v.author
          ∷ [])))

  unfoldable pub new_version : String → ℕ → ℕ → String → String → RecordVersion
  unfolding calculate_version_hash
  new_version record_id next_version now payload author =
      let v : RecordVersion = record {
        record_id = record_id;
        version_number = next_version;
        timestamp = now;
        payload = payload;
        author = author;
        version_hash = "";
      } in
      record v { version_hash = calculate_version_hash v }

module _ {W : Type 0} (sha256 : String → List ℕ) (audit_adder : AuditAdder W) where
  -- The part of write behind its two guards.
  unfoldable pub append_version :
      String → String → String → ℕ → Store → W → VersionResult × Store × W
  unfolding new_version get_history
  append_version record_id payload author now store w =
      let history = get_history record_id store in
      let next_version = length history + 1 in
      let v = new_version sha256 record_id next_version now payload author in
      (
        succeeded next_version,
        insert record_id (history ++ v ∷ []) store,
        (audit_adder "version_write"
            (concat (
              "record_id="
              ∷ record_id
              ∷ " version="
              ∷ nat_text next_version
              ∷ " author="
              ∷ author
              ∷ " hash="
              ∷ v.version_hash
              ∷ []))
            w).1,
      )

  unfoldable pub write :
      (W → Bool) → String → String → String → ℕ → Store → W → VersionResult × Store × W
  unfolding append_version
  write lock_check record_id payload author now store w =
      if is_empty record_id
      then (failed "record_id must not be empty", store, w)
      else if lock_check w
      then (failed "write blocked: WORM lockdown is active", store, w)
      else append_version record_id payload author now store w
