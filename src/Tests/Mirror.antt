-- ===== src/Tests/Mirror.antt =====
-- The sandbox.
use astartis_codex_control_p.Sandbox.Paths.{stripped, slashed, normalise, has_dotdot, is_inside}
use astartis_codex_control_p.Base.{
  ℕ, String, ◌≡◌, refl, ◌↔◌, Bool, true, false, ◌&&◌, Option, none, some, List, [], ◌∷◌, ◌++◌,
  arith, has_text, lookup,
}
use astartis_codex_control_p.Callbacks.{AuditAdder}
use astartis_codex_control_p.Sandbox.{EntryType, SandboxEntry, Sandbox, SandboxResult, new_sandbox}
use astartis_codex_control_p.Sandbox.Components.{components}
use astartis_codex_control_p.Sandbox.Guard.{is_inside-components}
use astartis_codex_control_p.Sandbox.Normal.{IsRelative}
use astartis_codex_control_p.Sandbox.Contained.{Call, run, run-contained}
use astartis_codex_control_p.Sandbox.Locked.{none_frees, run-locked, written}

is_inside-components_example : (is_inside "/srv/box/../etc" "/srv/box" ≡ true) ↔ (
    (has_text ".." (components (normalise "/srv/box/../etc")) ≡ false)
    × ((ws : List String) × (components (normalise "/srv/box/../etc")
          ≡ components (normalise "/srv/box") ++ ws)))
is_inside-components_example = is_inside-components "/srv/box/../etc" "/srv/box"

traversal_refused : is_inside "/srv/box/../etc" "/srv/box" ≡ false
unfolding is_inside
traversal_refused = refl

sibling_refused : is_inside "/srv/box2/file" "/srv/box/" ≡ false
unfolding is_inside
sibling_refused = refl

backslashes_pass : is_inside "C:\\box\\etc\\hosts" "C:/box" ≡ true
unfolding is_inside
backslashes_pass = refl

hosts_IsRelative : IsRelative "etc/hosts"
unfolding slashed stripped has_dotdot
hosts_IsRelative = record {
  is_slashed = refl;
  is_stripped = refl;
  is_named = λ e. cc;
  is_straight = refl;
}

-- An outside that only writes down the paths that are written on the disk, newest first.
abbrev pub silent : AuditAdder (List String)
silent event_type payload paths = ("", paths)

abbrev pub disk : String → String → List String → List String
disk path content paths = path ∷ paths

abbrev pub open_lock : List String → Bool
open_lock paths = false

abbrev unscaled : String → ℕ → Option ℕ
unscaled num factor = none

abbrev all_inside : List String → Bool
all_inside [] = true
all_inside (path ∷ paths) = is_inside path "/srv/box" && all_inside paths

abbrev calls : List Call
calls =
    Call.populate_call 5
    ∷ Call.write_call "/srv/box/etc/hosts" "localhost" "ada" 6
    ∷ Call.write_call "/srv/box/../etc/hosts" "intruder" "eve" 7
    ∷ Call.lock_call "/srv/box/etc/hosts" "review"
    ∷ Call.lock_all_call "incident"
    ∷ []

and_true : (a b : Bool) → a ≡ true → b ≡ true → (a && b) ≡ true
and_true a b h k = ground arith

run-contained_example :
    all_inside (run silent disk open_lock unscaled calls (new_sandbox "/srv/box") []).1 ≡ true
unfolding normalise has_dotdot
run-contained_example =
    run-contained silent disk open_lock unscaled "/srv/box" (λ paths. all_inside paths ≡ true)
      (λ _ _ _ h. h)
      (λ path content paths inside h.
        and_true (is_inside path "/srv/box") (all_inside paths) inside h)
      calls [] refl refl

abbrev locked_hosts : SandboxEntry
locked_hosts = record {
  rel_path = "etc/hosts";
  entry_type = EntryType.file;
  content = "localhost";
  version = 3;
  locked = true;
  size_bytes = 9;
  last_modified = 6;
}

abbrev locked_box : Sandbox
locked_box = record { root_path = "/srv/box"; entries = ("etc/hosts", locked_hosts) ∷ [] }

run-locked_example :
    lookup "etc/hosts" (run silent disk open_lock unscaled calls locked_box []).0.entries
    ≡ some locked_hosts
unfolding none_frees lookup
run-locked_example =
    run-locked silent disk open_lock unscaled calls locked_box [] "etc/hosts" locked_hosts refl refl
      refl

abbrev barred : SandboxResult × Sandbox × List String
barred = written silent disk open_lock unscaled "/srv/box/etc/hosts" "x" "eve" 9 locked_box []

abbrev first_write : SandboxResult × Sandbox × List String
first_write = written silent disk open_lock unscaled "/srv/box/notes" "hello" "ada" 9 locked_box []
