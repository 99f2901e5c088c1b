-- ===== src/Sensor/Packets.antt =====
-- astartis/core/packet_sensor: the entropy of a packet and the packets of the synthetic injector.
use astartis_codex_control_p.Base.{
  ℕ, zero, suc, ◌+◌, ◌-◌, ◌%◌, ◌^◌, String, none, some, List, [], ◌∷◌, ltb, nat_eq, if◌then◌else◌,
  utf8_bytes, length, get_elem?, take, count_if, ℤ, pos, negsuc,
}
use astartis_codex_control_p.Doubles.{Doubles, max, min}

-- freq[b]
abbrev pub frequency : List ℕ → ℕ → ℕ
frequency bytes b = count_if (λ x. nat_eq x b) bytes

abbrev pub default_packet_size : ℕ
default_packet_size = 128

module _ (D : Doubles) where
  -- The loop over the values of a byte, from `b` on.
  unfoldable pub entropy_from : ℕ → ℕ → List ℕ → D.Double → D.Double
  entropy_from zero b bytes entropy = entropy
  entropy_from (suc k) b bytes entropy =
      let p = D.div (D.of_nat (frequency bytes b)) (D.of_nat (length bytes)) in
      entropy_from k (b + 1) bytes
        (if nat_eq (frequency bytes b) 0 then entropy else D.sub entropy (D.mul p (D.log2 p)))

  unfoldable pub compute_entropy : List ℕ → D.Double
  unfolding entropy_from
  compute_entropy bytes =
      if nat_eq (length bytes) 0
      then D.literal "0.0"
      else entropy_from 256 0 bytes (D.literal "0.0")

  unfoldable pub entropy_to_threat_score : D.Double → ℤ
  entropy_to_threat_score entropy_bits =
      let clamped = max D (D.literal "0.0") (min D (D.literal "8.0") entropy_bits) in
      D.rounded (D.mul (D.div clamped (D.literal "8.0")) (D.literal "100.0"))

-- out[i] = pattern[i % size] for the first `n` places, from `i` on
unfoldable pub repeated : ℕ → ℕ → List ℕ → List ℕ
repeated zero i pattern = []
repeated (suc n) i pattern =
    let rest = repeated n (i + 1) pattern in
    elim (get_elem? pattern (i % length pattern)) [ none ↦ 0 ∷ rest | some b ↦ b ∷ rest ]

abbrev pub request_template : String
request_template =
    "GET /index.html HTTP/1.1\r\nHost: server.example.local\r\nUser-Agent: Astartis/1.0\r\nAccept: text/html\r\n\r\n"

abbrev pub arp_pattern : List ℕ
arp_pattern = 255 ∷ 255 ∷ 255 ∷ 255 ∷ 255 ∷ 255 ∷ 0 ∷ 0 ∷ 8 ∷ 6 ∷ 0 ∷ 1 ∷ []

-- static_cast<int> of a value of size_t
unfoldable pub as_int : ℕ → ℤ
as_int n = let low = n % 2 ^ 32 in if ltb low (2 ^ 31) then pos low else negsuc (2 ^ 32 - low - 1)

-- `drawn` are the bytes that the generator gives to a random packet. The remainder of a negative
-- number is not positive, so that only 0 is a case of the switch, and the packet stays at zeros.
unfoldable pub make_packet : ℤ → List ℕ → List ℕ
unfolding repeated utf8_bytes
make_packet (pos category) drawn =
    if nat_eq (category % 3) 0
    then take default_packet_size drawn
    else if nat_eq (category % 3) 1
    then repeated default_packet_size 0 (utf8_bytes request_template)
    else repeated default_packet_size 0 arp_pattern
make_packet (negsuc category) drawn =
    if nat_eq ((category + 1) % 3) 0
    then take default_packet_size drawn
    else repeated default_packet_size 0 (0 ∷ [])
