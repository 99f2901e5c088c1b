-- ===== src/Sensor/Windows.antt =====
-- Any packets and flushes on a new sensor: which windows come out.
use astartis_codex_control_p.Base.{
  ℕ, ◌+◌, ◌%◌, ◌≤◌, ◌<◌, String, ◌≡◌, refl, ap, ◌∙◌, subst, Bool, true, false, ◌||◌, List, [], ◌∷◌,
  ◌++◌, arith, leb, nat_eq, if◌then◌else◌, u64_mod, inc64-mod, if_cases, length, length-append,
}
use astartis_codex_control_p.Callbacks.{AuditAdder, Log, entries_of}
use astartis_codex_control_p.Doubles.{Doubles}
use astartis_codex_control_p.Rules.{EntropyWindow}
use astartis_codex_control_p.Sensor.Packets.{as_int, compute_entropy, make_packet}
use astartis_codex_control_p.Sensor.{
  PacketSensor, new_sensor, emit, window_of, flush_window_locked, flush_window, on_packet,
  pcap_callback, synthetic_packet,
}

pub data SensorCall : Type 0 where
  captured : List ℕ → SensorCall
  injected : ℕ → List ℕ → SensorCall
  flushed : Bool → SensorCall

-- The packets that a call brings; an empty capture is none.
abbrev pub brought : SensorCall → ℕ
brought (SensorCall.captured bytes) = if nat_eq (length bytes) 0 then 0 else 1
brought (SensorCall.injected category drawn) = 1
brought (SensorCall.flushed force) = 0

unfoldable pub total_brought : List SensorCall → ℕ
total_brought [] = 0
total_brought (c ∷ cs) = brought c + total_brought cs

not_full : (a b c : ℕ) → leb a b ≡ false → a ≡ c → b < c
not_full a b c h e = ground arith

module _ (D : Doubles) where
  -- An outside that keeps the windows and the audit entries, newest first.
  pub record Seen : Type 0 where
    pub windows : List (EntropyWindow D.Double)
    pub log : Log

  abbrev pub see : EntropyWindow D.Double → Seen → Seen
  see window w = record w { windows = window ∷ w.windows }

  abbrev pub note : AuditAdder Seen
  note event_type payload w = ("", record w { log = (event_type, payload) ∷ w.log })

  abbrev pub nothing : Seen
  nothing = record { windows = []; log = [] }

  unfoldable pub packets_in : List (EntropyWindow D.Double) → ℕ
  packets_in [] = 0
  packets_in (w ∷ ws) = w.packet_count + packets_in ws

  -- No window is empty, or larger than `size`.
  abbrev pub AreSized : ℕ → List (EntropyWindow D.Double) → Type 0
  AreSized size [] = Unit {0}
  AreSized size (w ∷ ws) = (0 < w.packet_count) × (w.packet_count ≤ size) × AreSized size ws

  unfoldable pub after : SensorCall → PacketSensor D.Double → Seen → PacketSensor D.Double × Seen
  unfolding pcap_callback synthetic_packet flush_window
  after (SensorCall.captured bytes) s w = pcap_callback D see note bytes s w
  after (SensorCall.injected category drawn) s w = synthetic_packet D see note category drawn s w
  after (SensorCall.flushed force) s w = flush_window D see note force s w

  unfoldable pub run : List SensorCall → PacketSensor D.Double → Seen → PacketSensor D.Double × Seen
  unfolding after
  run [] s w = (s, w)
  run (c ∷ cs) s w = let next = after c s w in run cs next.0 next.1

  -- `n` packets have come, of which the last are pending; a window may be full.
  record IsFilling (n size : ℕ) (s : PacketSensor D.Double) (w : Seen) : Type 0 where
    pub sized : s.window_size ≡ size
    pub positive : 0 < size
    pub room : length s.entropy_accum ≤ size
    pub total : packets_in w.windows + length s.entropy_accum ≡ n
    pub each : AreSized size w.windows
    pub indexed : s.window_index ≡ length w.windows % u64_mod
    pub logged : entries_of "packet_entropy" w.log ≡ length w.windows

  abbrev IsCounted : ℕ → ℕ → PacketSensor D.Double × Seen → Type 0
  IsCounted n size r = IsFilling n size r.0 r.1 × (length r.0.entropy_accum < size)

  emit-IsCounted :
      (n size : ℕ) (s : PacketSensor D.Double) (w : Seen)
      → IsFilling n size s w
      → 0 < length s.entropy_accum
      → IsCounted n size (emit D see note s w)
  unfolding emit packets_in window_of
  emit-IsCounted n size s w h nonempty = (
    record {
      sized = h.sized;
      positive = h.positive;
      room = omega arith;
      total = omega (arith, h.total);
      each = (nonempty, h.room, h.each);
      indexed =
          rw h.indexed (inc64-mod (length w.windows) ∙ ap (λ (k : ℕ). k % u64_mod) (omega arith));
      logged = omega (arith, h.logged);
    },
    h.positive,
  )

  locked-IsCounted :
      (n size : ℕ) (s : PacketSensor D.Double) (w : Seen)
      → IsFilling n size s w
      → IsCounted n size (flush_window_locked D see note s w)
  unfolding flush_window_locked
  locked-IsCounted n size s w h =
      if_cases (IsCounted n size) (nat_eq (length s.entropy_accum) 0) _ _
        (λ empty. (h, ground (arith, empty, h.positive)))
        (λ full. emit-IsCounted n size s w h (ground (arith, full)))

  on_packet-IsCounted :
      (n size : ℕ) (bytes : List ℕ) (s : PacketSensor D.Double) (w : Seen)
      → IsCounted n size (s, w)
      → IsCounted (n + 1) size (on_packet D see note bytes s w)
  unfolding on_packet
  on_packet-IsCounted n size bytes s w h =
      let s1 : PacketSensor D.Double = record s {
        entropy_accum = s.entropy_accum ++ compute_entropy D bytes ∷ [];
      } in
      let longer = length-append s.entropy_accum (compute_entropy D bytes ∷ []) in
      let filling : IsFilling (n + 1) size s1 w = record {
        sized = h.0.sized;
        positive = h.0.positive;
        room = omega (arith, longer, h.1);
        total = omega (arith, longer, h.0.total);
        each = h.0.each;
        indexed = h.0.indexed;
        logged = h.0.logged;
      } in
      if_cases (IsCounted (n + 1) size) (leb s1.window_size (length s1.entropy_accum)) _ _
        (λ full. locked-IsCounted (n + 1) size s1 w filling)
        (λ more. (filling, not_full _ _ size more h.0.sized))

  flush_window-IsCounted :
      (n size : ℕ) (force : Bool) (s : PacketSensor D.Double) (w : Seen)
      → IsCounted n size (s, w)
      → IsCounted n size (flush_window D see note force s w)
  unfolding flush_window
  flush_window-IsCounted n size force s w h =
      if_cases (IsCounted n size) (force || leb s.window_size (length s.entropy_accum)) _ _
        (λ now. locked-IsCounted n size s w h.0) (λ later. h)

  if-IsCounted :
      (b : Bool) (n size : ℕ) (r t : PacketSensor D.Double × Seen)
      → IsCounted n size r
      → IsCounted (n + 1) size t
      → IsCounted (n + (if b then 0 else 1)) size (if b then r else t)
  if-IsCounted true n size r t h k = subst (λ (m : ℕ). IsCounted m size r) (omega arith) h
  if-IsCounted false n size r t h k = k

  after-IsCounted :
      (c : SensorCall) (n size : ℕ) (s : PacketSensor D.Double) (w : Seen)
      → IsCounted n size (s, w)
      → IsCounted (n + brought c) size (after c s w)
  unfolding after pcap_callback synthetic_packet
  after-IsCounted (SensorCall.captured bytes) n size s w h =
      if-IsCounted (nat_eq (length bytes) 0) n size (s, w) (on_packet D see note bytes s w) h
        (on_packet-IsCounted n size bytes s w h)
  after-IsCounted (SensorCall.injected category drawn) n size s w h =
      on_packet-IsCounted n size (make_packet (as_int category) drawn) s w h
  after-IsCounted (SensorCall.flushed force) n size s w h =
      subst (λ (k : ℕ). IsCounted k size (flush_window D see note force s w)) (omega arith)
        (flush_window-IsCounted n size force s w h)

  run-IsCounted :
      (cs : List SensorCall) (n size : ℕ) (s : PacketSensor D.Double) (w : Seen)
      → IsCounted n size (s, w)
      → IsCounted (n + total_brought cs) size (run cs s w)
  unfolding run total_brought
  run-IsCounted [] n size s w h = subst (λ (k : ℕ). IsCounted k size (s, w)) (omega arith) h
  run-IsCounted (c ∷ cs) n size s w h =
      let next = after c s w in
      subst (λ (k : ℕ). IsCounted k size (run cs next.0 next.1)) (omega arith)
        (run-IsCounted cs (n + brought c) size next.0 next.1 (after-IsCounted c n size s w h))

  -- After any packets and flushes on a new sensor whose window size is not 0, every packet is in
  -- exactly one window or still pending; fewer packets are pending than a window holds; no window
  -- is empty or holds more than the window size; and the index of the next window is the number of
  -- windows so far modulo 2^64, each of which has its packet_entropy entry.
  pub run_new-packets :
      (cs : List SensorCall) (hint : String) (size : ℕ)
      → 0 < size
      → (let t = run cs (new_sensor hint size) nothing in
          (packets_in t.1.windows + length t.0.entropy_accum ≡ total_brought cs)
          × (length t.0.entropy_accum < size)
          × AreSized size t.1.windows
          × (t.0.window_index ≡ length t.1.windows % u64_mod)
          × (entries_of "packet_entropy" t.1.log ≡ length t.1.windows))
  unfolding packets_in
  run_new-packets cs hint size h =
      let start : IsCounted 0 size (new_sensor hint size, nothing) = (
        record {
          sized = ground (arith, h);
          positive = h;
          room = omega arith;
          total = omega arith;
          each = tt;
          indexed = refl;
          logged = refl;
        },
        h,
      ) in
      let end = run-IsCounted cs 0 size (new_sensor hint size) nothing start in
      (omega (arith, end.0.total), end.1, end.0.each, end.0.indexed, end.0.logged)
