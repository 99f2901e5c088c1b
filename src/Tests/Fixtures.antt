-- ===== src/Tests/Fixtures.antt =====
-- The data of the runs: a host with a small checksum, a world, a floating-point type with whole
-- numbers of tenths.
use astartis_codex_control_p.Base.{
  ℕ, ◌+◌, ◌%◌, String, true, List, [], ◌∷◌, ltb, nat_text, utf8_bytes, pos,
}
use astartis_codex_control_p.Audit.{Host, AuditChain, AuditEntry, add_entry, new_entry, empty_chain}
use astartis_codex_control_p.Callbacks.{AuditAdder, WormPort}
use astartis_codex_control_p.Rules.{Floats, Scene, new_engine, EntropyWindow, ChaosWindow}
use astartis_codex_control_p.Threat.{new_machine, ThreatTier}
use astartis_codex_control_p.System.{World, new_world, audit_adder, worm_port}

abbrev pub sum : List ℕ → ℕ
sum [] = 0
sum (n ∷ ns) = n + sum ns

abbrev pub checksum : String → List ℕ
checksum s = (sum (utf8_bytes s) % 256) ∷ []

abbrev pub host : Host
host = record { sha256 = checksum; draw = λ n. n; clock = λ n. 1000 + n }

abbrev pub one_entry : AuditChain
one_entry = (add_entry host "service_start" "build=7" empty_chain).1

abbrev pub two_entries : AuditChain
two_entries = (add_entry host "login" "user=ada" one_entry).1

abbrev pub second_entry : AuditEntry
second_entry = new_entry host "login" "user=ada" one_entry.entries

abbrev pub tenths : Floats
tenths = record { Double = ℕ; lt = ltb; seven_tenths = 7; to_text = nat_text; streamed = nat_text }

abbrev pub adder : AuditAdder World
adder = audit_adder host

abbrev pub port : WormPort World adder
port = worm_port host

abbrev pub calm : Scene World
calm = record { engine = new_engine; tsm = new_machine; world = new_world }

abbrev pub at_tier : ThreatTier → Scene World
at_tier t = record {
  engine = new_engine;
  tsm = record { current_tier = t; transition_count = 0 };
  world = new_world;
}

abbrev pub anomalous_window : EntropyWindow ℕ
anomalous_window = record {
  window_index = 4;
  packet_count = 50;
  mean_entropy_bits = 3;
  max_entropy_bits = 7;
  min_entropy_bits = 1;
  threat_score = pos 60;
  anomalous = true;
  synthetic = true;
  adapter_name = "synthetic";
}

abbrev pub chaos_window : ℕ → ChaosWindow ℕ
chaos_window k = record {
  window_index = 2;
  sample_count = 100;
  K = k;
  lambda1 = 0;
  anomalous = ltb 7 k;
  synthetic = true;
}
