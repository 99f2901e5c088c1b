-- ===== src/Sensor.antt =====
-- astartis/core/packet_sensor: windows of packet entropies. The calls of Npcap are the record Pcap over
-- the outside, the bytes of a random packet an argument. The background thread gives packets to
-- on_packet one by one; on_packet and flush_window hold window_mutex_ over their whole body. Both
-- callbacks are set, as main sets them.
pub mod Packets
pub mod Windows
pub mod Adapters
use astartis_codex_control_p.Base.{
  ℕ, String, Bool, true, false, ◌&&◌, ◌||◌, not, Option, none, some, List, [], ◌∷◌, ◌++◌, ◌==◌, leb,
  nat_eq, if◌then◌else◌, inc64, concat, is_empty, bool_text, nat_text, int_text, length,
}
use astartis_codex_control_p.Callbacks.{AuditAdder}
use astartis_codex_control_p.Doubles.{Doubles}
use astartis_codex_control_p.Rules.{EntropyWindow}
use astartis_codex_control_p.Sensor.Packets.{
  as_int, compute_entropy, entropy_to_threat_score, make_packet,
}

-- CaptureAdapter, and what is read of a pcap_if_t
pub record CaptureAdapter : Type 0 where
  pub name : String
  pub description : String
  pub up : Bool
  pub loopback : Bool

-- find_all_devs is none where the call fails, and the empty list where there is no device; open_live is
-- none where it gives no handle.
pub record Pcap (W : Type 0) : Type 0 where
  pub find_all_devs : W → Option (List CaptureAdapter) × W
  pub open_live : String → W → Option ℕ × W
  pub close : ℕ → W → W

abbrev pub default_window_size : ℕ
default_window_size = 50

pub record PacketSensor (E : Type 0) : Type 0 where
  pub iface_hint : String
  pub window_size : ℕ
  pub pcap_handle : Option ℕ
  pub adapter_name : String
  pub running : Bool
  pub synthetic_mode : Bool
  pub window_index : ℕ
  pub entropy_accum : List E

abbrev pub new_sensor : {E : Type 0} → String → ℕ → PacketSensor E
new_sensor iface_hint window_size = record {
  iface_hint = iface_hint;
  window_size = if nat_eq window_size 0 then default_window_size else window_size;
  pcap_handle = none;
  adapter_name = "";
  running = false;
  synthetic_mode = false;
  window_index = 0;
  entropy_accum = [];
}

-- The loop over the devices: the first with the name that is wanted, or, where none is wanted, the
-- first that is up and no loopback.
unfoldable pub choose : String → List CaptureAdapter → Option CaptureAdapter
choose hint [] = none
choose hint (d ∷ ds) =
    let rest = choose hint ds in
    if not (is_empty hint) && hint == d.name
    then some d
    else if is_empty hint && (not d.loopback && d.up)
    then some d
    else rest

-- What is chosen of the devices, if they could be listed.
unfoldable pub chosen_of : String → Option (List CaptureAdapter) → Option CaptureAdapter
unfolding choose
chosen_of hint none = none
chosen_of hint (some ds) = choose hint ds

unfoldable pub with_name : String → Option ℕ → Option (ℕ × String)
with_name name none = none
with_name name (some h) = some (h, name)

module _ {W : Type 0} (pcap : Pcap W) where
  unfoldable pub list_adapters : W → List CaptureAdapter × W
  list_adapters w =
      let (devices, w1) = pcap.find_all_devs w in
      elim devices [ none ↦ ([], w1) | some ds ↦ (ds, w1) ]

  -- The handle of the device that is opened, with its name.
  unfoldable pub opened : Option CaptureAdapter → W → Option (ℕ × String) × W
  unfolding with_name
  opened none w = (none, w)
  opened (some d) w = let (handle, w1) = pcap.open_live d.name w in (with_name d.name handle, w1)

  unfoldable pub open_best_adapter : String → W → Option (ℕ × String) × W
  unfolding opened chosen_of
  open_best_adapter hint w =
      let (devices, w1) = pcap.find_all_devs w in opened (chosen_of hint devices) w1

module _ (D : Doubles) {W : Type 0} (window_cb : EntropyWindow D.Double → W → W)
    (audit_adder : AuditAdder W) where
  abbrev pub anomaly_entropy_threshold : D.Double
  anomaly_entropy_threshold = D.literal "7.2"

  -- The loop of flush_window_locked: the sum, the maximum and the minimum.
  unfoldable pub summed :
      D.Double → D.Double → D.Double → List D.Double → D.Double × D.Double × D.Double
  summed sum mx mn [] = (sum, mx, mn)
  summed sum mx mn (v ∷ vs) =
      summed (D.add sum v) (if D.lt mx v then v else mx) (if D.lt v mn then v else mn) vs

  unfoldable pub window_of : PacketSensor D.Double → EntropyWindow D.Double
  unfolding summed entropy_to_threat_score
  window_of s =
      let totals = summed (D.literal "0.0") (D.literal "0.0") (D.literal "8.0") s.entropy_accum in
      let mean = D.div totals.0 (D.of_nat (length s.entropy_accum)) in
      record {
        window_index = s.window_index;
        packet_count = length s.entropy_accum;
        mean_entropy_bits = mean;
        max_entropy_bits = totals.1;
        min_entropy_bits = totals.2;
        threat_score = entropy_to_threat_score D mean;
        anomalous = D.le anomaly_entropy_threshold mean;
        synthetic = s.synthetic_mode;
        adapter_name = s.adapter_name;
      }

  unfoldable pub emit : PacketSensor D.Double → W → PacketSensor D.Double × W
  unfolding window_of concat
  emit s w =
      let window = window_of s in
      let (id, w1) =
        audit_adder "packet_entropy"
          (concat (
            "window="
            ∷ nat_text window.window_index
            ∷ " packets="
            ∷ nat_text window.packet_count
            ∷ " mean_entropy="
            ∷ D.fixed 3 window.mean_entropy_bits
            ∷ " score="
            ∷ int_text window.threat_score
            ∷ " anomalous="
            ∷ bool_text window.anomalous
            ∷ " adapter="
            ∷ window.adapter_name
            ∷ []))
          w in
      (record s { window_index = inc64 s.window_index; entropy_accum = [] }, window_cb window w1)

  unfoldable pub flush_window_locked : PacketSensor D.Double → W → PacketSensor D.Double × W
  unfolding emit
  flush_window_locked s w = if nat_eq (length s.entropy_accum) 0 then (s, w) else emit s w

  unfoldable pub flush_window : Bool → PacketSensor D.Double → W → PacketSensor D.Double × W
  unfolding flush_window_locked
  flush_window force s w =
      if force || leb s.window_size (length s.entropy_accum)
      then flush_window_locked s w
      else (s, w)

  unfoldable pub on_packet : List ℕ → PacketSensor D.Double → W → PacketSensor D.Double × W
  unfolding flush_window_locked compute_entropy
  on_packet bytes s w =
      let s1 = record s { entropy_accum = s.entropy_accum ++ compute_entropy D bytes ∷ [] } in
      if leb s1.window_size (length s1.entropy_accum) then flush_window_locked s1 w else (s1, w)

  -- header->caplen > 0
  unfoldable pub pcap_callback : List ℕ → PacketSensor D.Double → W → PacketSensor D.Double × W
  unfolding on_packet
  pcap_callback bytes s w = if nat_eq (length bytes) 0 then (s, w) else on_packet bytes s w

  -- A round of synthetic_loop.
  unfoldable pub synthetic_packet :
      ℕ → List ℕ → PacketSensor D.Double → W → PacketSensor D.Double × W
  unfolding on_packet make_packet as_int
  synthetic_packet category drawn s w = on_packet (make_packet (as_int category) drawn) s w

  module _ (pcap : Pcap W) where
    -- start() behind the choice of an adapter
    unfoldable pub start_with :
        Option (ℕ × String) → PacketSensor D.Double → W → Bool × PacketSensor D.Double × W
    start_with none s w = (
      false,
      record s {
        synthetic_mode = true;
        adapter_name = "synthetic";
        pcap_handle = none;
        running = true;
      },
      w,
    )
    start_with (some (handle, name)) s w = (
      true,
      record s {
        synthetic_mode = false;
        adapter_name = name;
        pcap_handle = some handle;
        running = true;
      },
      w,
    )

    -- start() up to the thread: whether a real adapter was opened.
    unfoldable pub start : PacketSensor D.Double → W → Bool × PacketSensor D.Double × W
    unfolding open_best_adapter start_with
    start s w =
        let (found, w1) = open_best_adapter pcap s.iface_hint w in
        if s.running then (not s.synthetic_mode, s, w) else start_with found s w1

    unfoldable pub close_handle : Option ℕ → W → W
    close_handle none w = w
    close_handle (some h) w = pcap.close h w

    -- stop(), with the thread joined.
    unfoldable pub stop : PacketSensor D.Double → W → PacketSensor D.Double × W
    unfolding close_handle flush_window
    stop s w =
        if s.running
        then flush_window true (record s { running = false; pcap_handle = none })
            (close_handle s.pcap_handle w)
        else (s, w)
