-- ===== src/Quarantine.antt =====
-- astartis/core/quarantine: files that are moved out of the way, and their list. The file system is
-- the parameter Disk, SHA-256 a function of the content, the two numbers that the generator draws and
-- the clock's reading arguments.
pub mod Escapes
use astartis_codex_control_p.Base.{
  ℕ, zero, suc, ◌/◌, ◌%◌, String, append, Bool, true, false, not, Option, none, some, List, [], ◌∷◌,
  ◌++◌, ◌==◌, nat_eq, if◌then◌else◌, concat, digit, nat_text, hex_bytes,
}
use Prim.Native.Char.{code}
use astartis_codex_control_p.Callbacks.{AuditAdder}

pub record QuarantineEntry : Type 0 where
  pub entry_id : String
  pub original_path : String
  pub quarantine_path : String
  pub virus_name : String
  pub sha256_hash : String
  pub quarantined_at_ms : ℕ

-- The calls of std::filesystem and of the streams; a Boolean is false where the call sets an error.
pub record Disk (W : Type 0) : Type 0 where
  pub read_file : String → W → Option String
  pub absolute : String → W → String
  pub join_path : String → String → String
  pub parent_path : String → String
  pub create_directories : String → W → W
  pub rename : String → String → W → Bool × W
  pub copy_file : String → String → W → Bool × W
  pub remove : String → W → W
  pub write_file : String → String → W → W

abbrev pub no_entry : QuarantineEntry
no_entry = record {
  entry_id = "";
  original_path = "";
  quarantine_path = "";
  virus_name = "";
  sha256_hash = "";
  quarantined_at_ms = 0;
}

-- hex << setfill('0') << setw(k) of a number below 16^k
unfoldable pub fixed_hex : ℕ → ℕ → String
unfolding digit
fixed_hex zero n = ""
fixed_hex (suc k) n = append (fixed_hex k (n / 16)) (digit (n % 16))

unfoldable pub generate_entry_id : ℕ → ℕ → String
unfolding fixed_hex concat
generate_entry_id a b = concat ("qtn_" ∷ fixed_hex 16 a ∷ fixed_hex 16 b ∷ [])

-- The lambda `escape` of make_meta_json.
unfoldable pub escape : String → String
escape String.[] = ""
escape (String.◌∷◌ c s) =
    let rest = escape s in
    if nat_eq (code c) b'\\'
    then append "\\\\" rest
    else if nat_eq (code c) b'"'
    then append "\\\"" rest
    else String.◌∷◌ c rest

unfoldable pub make_meta_json : QuarantineEntry → String
unfolding escape concat
make_meta_json e = concat (
    "{\n"
    ∷ "  \"entry_id\": \""
    ∷ escape e.entry_id
    ∷ "\",\n"
    ∷ "  \"original_path\": \""
    ∷ escape e.original_path
    ∷ "\",\n"
    ∷ "  \"quarantine_path\": \""
    ∷ escape e.quarantine_path
    ∷ "\",\n"
    ∷ "  \"virus_name\": \""
    ∷ escape e.virus_name
    ∷ "\",\n"
    ∷ "  \"sha256_hash\": \""
    ∷ e.sha256_hash
    ∷ "\",\n"
    ∷ "  \"quarantined_at_ms\": "
    ∷ nat_text e.quarantined_at_ms
    ∷ "\n"
    ∷ "}\n"
    ∷ [])

-- std::find_if by the id
unfoldable pub find_entry : String → List QuarantineEntry → Option QuarantineEntry
find_entry id [] = none
find_entry id (e ∷ es) = if e.entry_id == id then some e else find_entry id es

-- entries_.erase of what find_if found
unfoldable pub erase_entry : String → List QuarantineEntry → List QuarantineEntry
erase_entry id [] = []
erase_entry id (e ∷ es) = let rest = erase_entry id es in if e.entry_id == id then es else e ∷ rest

module _ {W : Type 0} (disk : Disk W) (audit_adder : AuditAdder W) (quarantine_dir : String) where
  -- rename, or copy and delete across volumes
  unfoldable pub move_file : String → String → W → Bool × W
  move_file from to w =
      let (renamed, w') = disk.rename from to w in
      let (copied, w'') = disk.copy_file from to w' in
      if renamed then (true, w') else if copied then (true, disk.remove from w'') else (false, w'')

  unfoldable pub entry_of :
      (String → List ℕ) → String → String → String → ℕ → ℕ → ℕ → W → QuarantineEntry
  unfolding generate_entry_id concat hex_bytes
  entry_of sha256 src_path virus_name content a b now w =
      let id = generate_entry_id a b in
      record {
        entry_id = id;
        original_path = disk.absolute src_path w;
        quarantine_path = disk.join_path quarantine_dir (concat (id ∷ ".bin" ∷ []));
        virus_name = virus_name;
        sha256_hash = hex_bytes (sha256 content);
        quarantined_at_ms = now;
      }

  unfoldable pub meta_path : QuarantineEntry → String
  unfolding concat
  meta_path e = disk.join_path quarantine_dir (concat (e.entry_id ∷ ".meta" ∷ []))

  unfoldable pub quarantine_file :
      (String → List ℕ)
      → String
      → String
      → ℕ
      → ℕ
      → ℕ
      → List QuarantineEntry
      → W
      → QuarantineEntry × List QuarantineEntry × W
  unfolding entry_of move_file meta_path make_meta_json concat
  quarantine_file sha256 src_path virus_name a b now entries w = elim (disk.read_file src_path w) [
    | none ↦ (no_entry, entries, w)
    | some content ↦
        let e = entry_of sha256 src_path virus_name content a b now w in
        let (moved, w') = move_file src_path e.quarantine_path w in
        if not moved then (no_entry, entries, w') else (
          e,
          entries ++ e ∷ [],
          (audit_adder "quarantine"
              (concat (
                "original_path=" ∷ e.original_path ∷ " sha256=" ∷ e.sha256_hash ∷ " virus="
                ∷ e.virus_name ∷ []))
              (disk.write_file (meta_path e) (make_meta_json e) w')).1,
        )
  ]

  unfoldable pub restore : String → List QuarantineEntry → W → Bool × List QuarantineEntry × W
  unfolding find_entry erase_entry move_file meta_path concat
  restore id entries w = elim (find_entry id entries) [
    | none ↦ (false, entries, w)
    | some e ↦
        let (moved, w') =
          move_file e.quarantine_path e.original_path
            (disk.create_directories (disk.parent_path e.original_path) w) in
        if not moved then (false, entries, w') else (
          true,
          erase_entry id entries,
          (audit_adder "quarantine_restore"
              (concat ("entry_id=" ∷ e.entry_id ∷ " original_path=" ∷ e.original_path ∷ []))
              (disk.remove (meta_path e) w')).1,
        )
  ]
