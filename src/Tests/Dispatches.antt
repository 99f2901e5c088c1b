-- ===== src/Tests/Dispatches.antt =====
-- The quarantine and the dispatcher.
use astartis_codex_control_p.Base.{
  ℕ, String, append, ◌≡◌, refl, ◌⊎◌, true, false, none, some, [], ◌∷◌, if◌then◌else◌, lookup,
}
use astartis_codex_control_p.Policy.{can_block_firewall, can_quarantine, can_deceive}
use astartis_codex_control_p.Quarantine.{Disk, escape}
use astartis_codex_control_p.Quarantine.Escapes.{has_control, read_quoted, read_quoted-escape}
use astartis_codex_control_p.Response.{new_response}
use astartis_codex_control_p.Dispatcher.Extraction.{Json, Patterns, is_safe_ip}
use astartis_codex_control_p.Dispatcher.{DispatchResult, Components}
use astartis_codex_control_p.Dispatcher.Permissions.{dispatched, dispatch-permitted}
use astartis_codex_control_p.Dispatcher.Targets.{dispatch-spares}
use astartis_codex_control_p.Tests.Fixtures.{checksum}
use astartis_codex_control_p.Tests.Firewalls.{netsh, read_time, quiet, fresh}

read_quoted-escape_example :
    read_quoted false (append (escape "C:\\tmp\\\"x\"") (append "\"" ","))
    ≡ (if has_control "C:\\tmp\\\"x\"" then none else some ("C:\\tmp\\\"x\"", ","))
read_quoted-escape_example = read_quoted-escape "C:\\tmp\\\"x\"" ","

-- A disk without files, and outputs that are no JSON and hold at most one address.
abbrev bare_disk : Disk ℕ
bare_disk = record {
  read_file = λ path t. none;
  absolute = λ path t. path;
  join_path = λ dir name. append dir (append "/" name);
  parent_path = λ path. path;
  create_directories = λ path t. t;
  rename = λ from to t. (true, t);
  copy_file = λ from to t. (true, t);
  remove = λ path t. t;
  write_file = λ path content t. t;
}

abbrev no_json : Json String
no_json = record {
  parse = λ text. none;
  contains = λ j key. false;
  item = λ j key. j;
  is_array = λ j. false;
  is_string = λ j. false;
  elements = λ j. [];
  get_text = λ j. j;
  dump = λ j. j;
  value_text = λ j key. none;
}

abbrev whole_text : Patterns
whole_text = record {
  ipv4_matches = λ text. "10.1.2.3" ∷ text ∷ [];
  path_matches = λ text. [];
  session_matches = λ text. [];
  mac_matches = λ text. [];
}

abbrev objects : Components
objects = record { fw = fresh; quarantined = []; response = new_response }

abbrev outcome : DispatchResult × Components × ℕ
outcome =
    dispatched netsh read_time quiet bare_disk "/q" checksum no_json whole_text (1, 2) 7
      "ransomware_hunter" "203.0.113.9" objects 1000

dispatch-permitted_example :
    ((can_block_firewall "ransomware_hunter" ≡ true) ⊎ (outcome.1.fw ≡ objects.fw))
    × ((can_quarantine "ransomware_hunter" ≡ true) ⊎ (outcome.1.quarantined ≡ objects.quarantined))
    × ((can_deceive "ransomware_hunter" ≡ true) ⊎ (outcome.1.response ≡ objects.response))
dispatch-permitted_example =
    dispatch-permitted netsh read_time quiet bare_disk "/q" checksum no_json whole_text (1, 2) 7
      "ransomware_hunter" "203.0.113.9" objects 1000

dispatch-spares_example :
    lookup "10.1.2.3" outcome.1.fw.blocks ≡ lookup "10.1.2.3" objects.fw.blocks
unfolding is_safe_ip
dispatch-spares_example =
    dispatch-spares netsh read_time quiet bare_disk "/q" checksum no_json whole_text (1, 2) 7
      "ransomware_hunter" "203.0.113.9" "10.1.2.3" objects 1000 refl
