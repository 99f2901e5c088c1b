-- ===== src/Tests/Sensing.antt =====
-- The packet sensor.
use astartis_codex_control_p.Base.{
  ℕ, ◌+◌, ◌-◌, ◌*◌, ◌/◌, ◌%◌, ◌<◌, ◌≡◌, refl, ◌⊎◌, Bool, true, false, some, List, [], ◌∷◌, arith,
  ◌==◌, ltb, leb, nat_eq, if◌then◌else◌, u64_mod, nat_text, length, pos,
}
use astartis_codex_control_p.Callbacks.{AuditAdder, entries_of}
use astartis_codex_control_p.Doubles.{Doubles}
use astartis_codex_control_p.Rules.{EntropyWindow}
use astartis_codex_control_p.Sensor.{CaptureAdapter, Pcap, PacketSensor, new_sensor, start}
use astartis_codex_control_p.Sensor.Windows.{
  SensorCall, nothing, run, packets_in, AreSized, total_brought, run_new-packets,
}
use astartis_codex_control_p.Sensor.Adapters.{IsReal, IsSynthetic, start-adapter}

-- Whole numbers in place of the floating-point ones.
abbrev pub whole : Doubles
whole = record {
  Double = ℕ;
  literal = λ s. if s == "0.0" then 0 else if s == "7.2" then 7 else if s == "0.7" then 1 else 8;
  of_nat = λ n. n;
  add = λ a b. a + b;
  sub = λ a b. a - b;
  mul = λ a b. a * b;
  div = λ a b. if nat_eq b 0 then 0 else a / b;
  lt = λ a b. ltb a b;
  le = λ a b. leb a b;
  sqrt = λ a. a;
  cos = λ a. a;
  sin = λ a. a;
  log = λ a. a;
  log2 = λ a. a;
  nan = 0;
  largest = 1000000;
  is_nan = λ a. false;
  rounded = λ a. pos a;
  fixed = λ n a. nat_text a;
}

-- Three packets into windows of two, an empty capture, and a forced flush.
abbrev calls : List SensorCall
calls =
    SensorCall.captured (1 ∷ 2 ∷ [])
    ∷ SensorCall.captured []
    ∷ SensorCall.injected 2 []
    ∷ SensorCall.captured (9 ∷ [])
    ∷ SensorCall.flushed false
    ∷ SensorCall.flushed true
    ∷ []

run_new-packets_example :
    (let t = run whole calls (new_sensor "" 2) (nothing whole) in
      (packets_in whole t.1.windows + length t.0.entropy_accum ≡ total_brought calls)
      × (length t.0.entropy_accum < 2)
      × AreSized whole 2 t.1.windows
      × (t.0.window_index ≡ length t.1.windows % u64_mod)
      × (entries_of "packet_entropy" t.1.log ≡ length t.1.windows))
run_new-packets_example = run_new-packets whole calls "" 2 (omega arith)

two_windows : length (run whole calls (new_sensor "" 2) (nothing whole)).1.windows ≡ 2
unfolding run
two_windows = refl

-- An outside that is a number of handles.
abbrev adapters : List CaptureAdapter
adapters =
    record { name = "lo"; description = ""; up = true; loopback = true }
    ∷ record { name = "eth0"; description = ""; up = true; loopback = false }
    ∷ []

abbrev npcap : Pcap ℕ
npcap = record {
  find_all_devs = λ n. (some adapters, n);
  open_live = λ name n. (some n, n + 1);
  close = λ h n. n;
}

abbrev silent : AuditAdder ℕ
silent event_type payload n = ("", n)

abbrev unseen : EntropyWindow ℕ → ℕ → ℕ
unseen window n = n

abbrev started : Bool × PacketSensor ℕ × ℕ
started = start whole unseen silent npcap (new_sensor "" 2) 3

start-adapter_example :
    (started.1.running ≡ true)
    × (((started.0 ≡ true) × IsReal whole unseen silent npcap "" (some adapters) started.1)
        ⊎ ((started.0 ≡ false) × IsSynthetic whole unseen silent npcap started.1))
start-adapter_example = start-adapter whole unseen silent npcap (new_sensor "" 2) 3 refl

it_is_eth0 : started.1.adapter_name ≡ "eth0"
unfolding start
it_is_eth0 = refl
