-- ===== src/Clamd/Verdicts.antt =====
-- When a scan reports that a file is clean.
use astartis_codex_control_p.Base.{
  ℕ, String, ◌≡◌, refl, sym, ◌∙◌, ◌↔◌, inl, inr, true, false, Option, none, some, List, arith,
  eq_iff, Bool-cases, Option-cases, is_empty,
}
use mathlib.Core.Bool.{true≢false}
use astartis_codex_control_p.Callbacks.{AuditAdder}
use astartis_codex_control_p.Clamd.Stream.{
  Host, connect_to_clamd, send_stream, do_instream, recv_line,
}
use astartis_codex_control_p.Clamd.{
  ScanStatus, occurs, parse_status, parse_response, audit, scan_over, scan_unaudited, scan_buffer,
  scan_file,
}

-- A reply that tells of no virus.
abbrev pub IsOk : String → Type 0
IsOk line = (occurs " FOUND" line ≡ false) × (occurs " OK" line ≡ true)

empty_reply : (raw : String) → occurs " OK" raw ≡ true → is_empty raw ≡ false
empty_reply raw h = elim (Bool-cases (is_empty raw)) [
  | inl e ↦ absurd (true≢false (sym h ∙ rw ((eq_iff raw "").0 e) refl))
  | inr n ↦ n
]

parse_status-clean : (raw : String) → (parse_status raw ≡ ScanStatus.clean) ↔ IsOk raw
unfolding parse_status
parse_status-clean raw = (λ h. ground arith, λ h. ground (arith, empty_reply raw h.1))

module _ {W : Type 0} (host : Host W) (audit_adder : AuditAdder W) where
  -- The stream was sent whole and the reply tells of no virus.
  abbrev pub IsAnswered : ℕ → List ℕ → W → Type 0
  IsAnswered sock bytes w =
      let sent = send_stream host sock bytes w in
      (sent.0 ≡ true) × IsOk (recv_line (host.incoming sock sent.1).0)

  do_instream-clean :
      (sock : ℕ) (bytes : List ℕ) (w : W)
      → (parse_status (do_instream host sock bytes w).0 ≡ ScanStatus.clean)
        ↔ IsAnswered sock bytes w
  unfolding do_instream
  do_instream-clean sock bytes w = elim (Bool-cases (send_stream host sock bytes w).0) [
    | inl sent ↦
        rw sent (λ h. (refl, (parse_status-clean _).0 h), λ h. (parse_status-clean _).1 h.1)
    | inr not_sent ↦
        rw not_sent (λ h. absurd (true≢false (sym ((parse_status-clean "").0 h).1)), λ h. cc)
  ]

  -- What the file, the socket and the daemon make of a scan.
  verdict : Option (List ℕ) → Option ℕ → W → ScanStatus
  verdict none sock w = ScanStatus.error
  verdict (some bytes) none w = ScanStatus.error
  verdict (some bytes) (some s) w = parse_status (do_instream host s bytes w).0

  scan_buffer-verdict :
      (path : String) (bytes : List ℕ) (w : W)
      → (scan_buffer host audit_adder bytes path w).0.status
        ≡ (let sock = connect_to_clamd host (host.clock w).1 in verdict (some bytes) sock.0 sock.1)
  unfolding scan_buffer scan_unaudited scan_over parse_response audit verdict
  scan_buffer-verdict path bytes w =
      elim (Option-cases (connect_to_clamd host (host.clock w).1).0) [
        | inl unconnected ↦ rw (unconnected, scan_unaudited) refl
        | inr (s, connected) ↦ rw (connected, scan_unaudited) refl
      ]

  scan_file-verdict :
      (path : String) (w : W)
      → (scan_file host audit_adder path w).0.status ≡ (
          let file = host.read_file path w in
          let sock = connect_to_clamd host (host.clock file.1).1 in verdict file.0 sock.0 sock.1)
  unfolding scan_file audit verdict
  scan_file-verdict path w = elim (Option-cases (host.read_file path w).0) [
    | inl missing ↦ rw (missing, scan_file) refl
    | inr (bytes, read) ↦
        rw (read, scan_file) (scan_buffer-verdict path bytes (host.read_file path w).1)
  ]

  -- The file was read, the daemon reached, and the scan answered.
  abbrev pub IsScanned : Option (List ℕ) → Option ℕ → W → Type 0
  IsScanned file sock w =
      (bytes : List ℕ) × (s : ℕ) × (file ≡ some bytes) × (sock ≡ some s) × IsAnswered s bytes w

  verdict-clean :
      (file : Option (List ℕ)) (sock : Option ℕ) (w : W)
      → (verdict file sock w ≡ ScanStatus.clean) ↔ IsScanned file sock w
  unfolding verdict
  verdict-clean none sock w = (λ h. cc, λ h. cc)
  verdict-clean (some bytes) none w = (λ h. cc, λ h. cc)
  verdict-clean (some bytes) (some s) w = (
    λ h. (bytes, s, refl, refl, (do_instream-clean s bytes w).0 h),
    λ h.
        let e : bytes ≡ h.0 = cc (h.2) in
        let d : s ≡ h.1 = cc (h.3) in (do_instream-clean s bytes w).1 (rw (e, d) h.4),
  )

  -- A file is reported clean exactly when it could be read, the daemon was reached, the whole stream
  -- was sent, and the reply has " OK" in it and no " FOUND".
  pub scan_file-clean :
      (path : String) (w : W)
      → ((scan_file host audit_adder path w).0.status ≡ ScanStatus.clean) ↔ (
          let file = host.read_file path w in
          let sock = connect_to_clamd host (host.clock file.1).1 in IsScanned file.0 sock.0 sock.1)
  scan_file-clean path w = rw scan_file-verdict (verdict-clean _ _ _)
