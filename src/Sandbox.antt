-- ===== src/Sandbox.antt =====
-- astartis/core/sandbox: the mirror file system in memory. The disk is a parameter: `write_to_disk`
-- is what is left of the outside after the call, whether or not it throws, since every caller
-- swallows the exception. `lock_check` is the state of the WORM lock, `now` the clock's reading.
pub mod Paths
pub mod Components
pub mod Join
pub mod Guard
pub mod Normal
pub mod Files
pub mod Contained
pub mod Locked
use astartis_codex_control_p.Base.{
  ℕ, ◌+◌, String, Bool, true, false, not, Option, none, some, List, [], ◌∷◌, map, ltb,
  if◌then◌else◌, is_some, inc64, concat, is_empty, nat_text, length, Dict, lookup, insert,
}
use Prim.Native.String.{len}
use astartis_codex_control_p.Callbacks.{AuditAdder}
use astartis_codex_control_p.Sandbox.Paths.{normalise, is_inside, to_rel}
use astartis_codex_control_p.Sandbox.Files.{SynthFile, synthetic_files, synthetic_size}

pub data EntryType : Type 0 where
  file directory : EntryType

pub record SandboxEntry : Type 0 where
  pub rel_path : String
  pub entry_type : EntryType
  pub content : String
  pub version : ℕ
  pub locked : Bool
  pub size_bytes : ℕ
  pub last_modified : ℕ

pub record SandboxResult : Type 0 where
  pub is_ok : Bool
  pub error : String

pub record Sandbox : Type 0 where
  pub root_path : String
  pub entries : Dict SandboxEntry

abbrev pub done : SandboxResult
done = record { is_ok = true; error = "" }

abbrev pub refused : String → SandboxResult
refused error = record { is_ok = false; error = error }

unfoldable pub new_sandbox : String → Sandbox
unfolding normalise
new_sandbox root_path = record { root_path = normalise root_path; entries = [] }

unfoldable pub new_entry : String → String → ℕ → ℕ → SandboxEntry
new_entry rel content size now = record {
  rel_path = rel;
  entry_type = EntryType.file;
  content = content;
  version = 1;
  locked = false;
  size_bytes = size;
  last_modified = now;
}

-- The entry that write leaves under the path.
unfoldable pub updated : Option SandboxEntry → String → String → ℕ → SandboxEntry
unfolding new_entry inc64
updated none rel content now = new_entry rel content (len content) now
updated (some e) rel content now = record e {
  content = content;
  version = inc64 e.version;
  size_bytes = len content;
  last_modified = now;
}

abbrev pub is_locked : Option SandboxEntry → Bool
is_locked none = false
is_locked (some e) = e.locked

unfoldable pub outside_root : String → SandboxResult
outside_root abs_path = refused (concat ("path outside sandbox root: " ∷ abs_path ∷ []))

unfoldable pub not_found : String → SandboxResult
not_found rel = refused (concat ("entry not found: " ∷ rel ∷ []))

-- The result, and `out` where it is assigned.
unfoldable pub read : String → Sandbox → SandboxResult × Option SandboxEntry
unfolding is_inside to_rel outside_root not_found
read abs_path sb =
    if not (is_inside abs_path sb.root_path)
    then (outside_root abs_path, none)
    else elim (lookup (to_rel sb.root_path abs_path) sb.entries) [
      | none ↦ (not_found (to_rel sb.root_path abs_path), none)
      | some e ↦ (done, some e)
    ]

-- for (auto& kv : entries_) if (!kv.second.locked) { ...; ++newly_locked; }
unfoldable pub lock_entries : Dict SandboxEntry → ℕ × Dict SandboxEntry
lock_entries [] = (0, [])
lock_entries ((rel, e) ∷ m) =
    let (newly_locked, rest) = lock_entries m in
    if e.locked
    then (newly_locked, (rel, e) ∷ rest)
    else (newly_locked + 1, (rel, record e { locked = true }) ∷ rest)

unfoldable pub get_tree : Sandbox → List SandboxEntry
get_tree sb = map (λ kv. kv.1) sb.entries

unfoldable pub entry_count : Sandbox → ℕ
entry_count sb = length sb.entries

module _ {W : Type 0} (audit_adder : AuditAdder W) where
  unfoldable pub note : String → List String → W → W
  unfolding concat
  note event_type payload w = (audit_adder event_type (concat payload) w).1

  -- Writes an entry's lock and tells the audit chain; `event_type` is the caller's.
  unfoldable pub set_lock :
      Bool → String → String → String → Sandbox → W → SandboxResult × Sandbox × W
  unfolding is_inside to_rel outside_root not_found note
  set_lock locked event_type abs_path reason sb w =
      if not (is_inside abs_path sb.root_path)
      then (outside_root abs_path, sb, w)
      else let rel = to_rel sb.root_path abs_path in
        elim (lookup rel sb.entries) [
          | none ↦ (not_found rel, sb, w)
          | some e ↦ (
            done,
            record sb { entries = insert rel (record e { locked = locked }) sb.entries },
            note event_type ("rel=" ∷ rel ∷ " reason=\"" ∷ reason ∷ "\"" ∷ []) w,
          )
        ]

  unfoldable pub lock_entry : String → String → Sandbox → W → SandboxResult × Sandbox × W
  unfolding set_lock
  lock_entry abs_path reason sb w = set_lock true "sandbox_entry_locked" abs_path reason sb w

  unfoldable pub unlock_entry : String → String → Sandbox → W → SandboxResult × Sandbox × W
  unfolding set_lock
  unlock_entry abs_path reason sb w = set_lock false "sandbox_entry_unlocked" abs_path reason sb w

  unfoldable pub lock_all : String → Sandbox → W → ℕ × Sandbox × W
  unfolding lock_entries note
  lock_all reason sb w =
      let (newly_locked, entries) = lock_entries sb.entries in
      (
        newly_locked,
        record sb { entries = entries },
        note "sandbox_worm_lock_all"
            ("newly_locked="
              ∷ nat_text newly_locked
              ∷ " total="
              ∷ nat_text (length entries)
              ∷ " reason=\""
              ∷ reason
              ∷ "\""
              ∷ [])
            w,
      )

module _ {W : Type 0} (audit_adder : AuditAdder W) (write_to_disk : String → String → W → W) where
  -- The part of write behind its guards.
  unfoldable pub store :
      String → String → String → String → ℕ → Sandbox → W → SandboxResult × Sandbox × W
  unfolding updated note
  store rel abs_path content author now sb w =
      let e = updated (lookup rel sb.entries) rel content now in
      (
        done,
        record sb { entries = insert rel e sb.entries },
        note audit_adder "sandbox_write"
            ("rel="
              ∷ rel
              ∷ " version="
              ∷ nat_text e.version
              ∷ " author="
              ∷ author
              ∷ " size="
              ∷ nat_text e.size_bytes
              ∷ [])
            (write_to_disk abs_path content w),
      )

  unfoldable pub write :
      (W → Bool) → String → String → String → ℕ → Sandbox → W → SandboxResult × Sandbox × W
  unfolding is_inside to_rel outside_root store
  write lock_check abs_path content author now sb w =
      let rel = to_rel sb.root_path abs_path in
      if not (is_inside abs_path sb.root_path)
      then (outside_root abs_path, sb, w)
      else if is_empty rel
      then (refused (concat ("could not compute rel_path for: " ∷ abs_path ∷ [])), sb, w)
      else if lock_check w
      then (refused "write blocked: global WORM lockdown active", sb, w)
      else if is_locked (lookup rel sb.entries)
      then (refused (concat ("write blocked: entry is individually locked: " ∷ rel ∷ [])), sb, w)
      else store rel abs_path content author now sb w

  module _ (scaled : String → ℕ → Option ℕ) where
    -- One turn of the loop in populate: the number created, the entries, the outside.
    unfoldable pub create_one :
        String → ℕ → SynthFile → Dict SandboxEntry → W → ℕ × Dict SandboxEntry × W
    unfolding new_entry synthetic_size concat
    create_one root_path now f entries w =
        let e = new_entry f.rel_path f.content (synthetic_size scaled f.content) now in
        if is_some (lookup f.rel_path entries) then (0, entries, w) else (
          1,
          insert f.rel_path e entries,
          write_to_disk (concat (root_path ∷ "/" ∷ f.rel_path ∷ [])) f.content w,
        )

    unfoldable pub create :
        String → ℕ → List SynthFile → Dict SandboxEntry → W → ℕ × Dict SandboxEntry × W
    unfolding create_one
    create root_path now [] entries w = (0, entries, w)
    create root_path now (f ∷ fs) entries w =
        let one = create_one root_path now f entries w in
        let rest = create root_path now fs one.1 one.2 in (one.0 + rest.0, rest.1, rest.2)

    unfoldable pub populate : ℕ → Sandbox → W → ℕ × Sandbox × W
    unfolding create note
    populate now sb w =
        let (created, entries, w') = create sb.root_path now synthetic_files sb.entries w in
        (
          created,
          record sb { entries = entries },
          if ltb 0 created
              then note audit_adder "sandbox_populated"
                  ("root=" ∷ sb.root_path ∷ " entries_created=" ∷ nat_text created ∷ []) w'
              else w',
        )
