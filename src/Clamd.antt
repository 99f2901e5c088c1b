-- ===== src/Clamd.antt =====
-- astartis/core/clamd: a scan by the clamd daemon over a TCP connection. The calls of Winsock and of the
-- file system are the record Host over the outside; what recv yields, byte by byte until it fails or
-- the peer closes, is one text.
pub mod Stream
pub mod Wire
pub mod Verdicts
use astartis_codex_control_p.Base.{
  ℕ, zero, suc, ◌+◌, ◌-◌, ◌%◌, String, Bool, false, ◌&&◌, not, Option, none, some, List, [], ◌∷◌,
  starts_with, leb, if◌then◌else◌, is_some, u64_mod, concat, is_empty, nat_text,
}
use astartis_codex_control_p.Callbacks.{AuditAdder}
use astartis_codex_control_p.Clamd.Stream.{
  Host, ping_command, connect_to_clamd, send_all, recv_line, do_instream,
}
use text.Mathlib.Text.{find?}
use Prim.Native.String.{len, slice}

pub data ScanStatus : Type 0 where
  clean infected error : ScanStatus

pub record ScanResult : Type 0 where
  pub status : ScanStatus
  pub virus_name : String
  pub raw_response : String
  pub file_path : String
  pub duration_ms : ℕ
  pub audit_entry_id : String

unfoldable pub scan_status_name : ScanStatus → String
scan_status_name ScanStatus.clean = "CLEAN"
scan_status_name ScanStatus.infected = "INFECTED"
scan_status_name ScanStatus.error = "ERROR"

-- The last position below `n` at which t stands in s.
unfoldable pub rfind_below : ℕ → String → String → Option ℕ
rfind_below zero s t = none
rfind_below (suc n) s t =
    let rest = rfind_below n s t in if starts_with (slice s n (len s)) t then some n else rest

-- std::string::rfind, none for npos
unfoldable pub rfind : String → String → Option ℕ
unfolding rfind_below
rfind s t = rfind_below (len s + 1) s t

-- raw.substr(colon + 2, found - (colon + 2)); the difference of two values of size_t wraps.
unfoldable pub name_between : String → ℕ → ℕ → String
name_between raw colon found =
    let start = colon + 2 in
    let count = (found + u64_mod - start) % u64_mod in
    slice raw start (if leb (len raw) (start + count) then len raw else start + count)

unfoldable pub virus_name_of : String → String
unfolding rfind name_between
virus_name_of raw = elim (find? raw ": ") [
  | none ↦ ""
  | some colon ↦ elim (rfind raw " FOUND") [ none ↦ "" | some found ↦ name_between raw colon found ]
]

abbrev pub occurs : String → String → Bool
occurs t s = is_some (find? s t)

unfoldable pub parse_status : String → ScanStatus
parse_status raw =
    if is_empty raw
    then ScanStatus.error
    else if occurs " FOUND" raw
    then ScanStatus.infected
    else if occurs " OK" raw
    then ScanStatus.clean
    else ScanStatus.error

unfoldable pub parse_response : String → String → ℕ → ScanResult
unfolding parse_status virus_name_of
parse_response raw path duration_ms = record {
  status = parse_status raw;
  virus_name = if not (is_empty raw) && occurs " FOUND" raw then virus_name_of raw else "";
  raw_response = raw;
  file_path = path;
  duration_ms = duration_ms;
  audit_entry_id = "";
}

-- A scan that failed before the daemon could answer.
abbrev pub scan_failed : String → String → ScanResult
scan_failed path reason = record {
  status = ScanStatus.error;
  virus_name = "";
  raw_response = reason;
  file_path = path;
  duration_ms = 0;
  audit_entry_id = "";
}

module _ {W : Type 0} (host : Host W) (audit_adder : AuditAdder W) where
  unfoldable pub audit : ScanResult → W → ScanResult × W
  unfolding concat scan_status_name
  audit r w =
      let (id, w') =
        audit_adder "clamd_scan"
          (concat (
            "path="
            ∷ r.file_path
            ∷ " status="
            ∷ scan_status_name r.status
            ∷ " virus="
            ∷ r.virus_name
            ∷ " duration_ms="
            ∷ nat_text r.duration_ms
            ∷ " response="
            ∷ r.raw_response
            ∷ []))
          w in
      (record r { audit_entry_id = id }, w')

  -- A connection that is open, in ping.
  unfoldable pub ping_over : ℕ → W → Bool × W
  unfolding send_all recv_line
  ping_over sock w =
      let (sent, w1) = send_all host sock ping_command w in
      let (line, w2) = host.incoming sock w1 in
      if sent
      then (occurs "PONG" (recv_line line), host.close sock w2)
      else (false, host.close sock w1)

  unfoldable pub ping : W → Bool × W
  unfolding ping_over connect_to_clamd
  ping w =
      let (sock, w1) = connect_to_clamd host w in
      elim sock [ none ↦ (false, w1) | some s ↦ ping_over s w1 ]

  -- A connection that is open: the scan, and the time that it took since `t0`.
  unfoldable pub scan_over : ℕ → ℕ → List ℕ → String → W → ScanResult × W
  unfolding do_instream parse_response
  scan_over sock t0 bytes label w =
      let (raw, w1) = do_instream host sock bytes w in
      let (t1, w2) = host.clock (host.close sock w1) in (parse_response raw label (t1 - t0), w2)

  unfoldable pub scan_unaudited : List ℕ → String → W → ScanResult × W
  unfolding scan_over connect_to_clamd
  scan_unaudited bytes label w =
      let (t0, w1) = host.clock w in
      let (sock, w2) = connect_to_clamd host w1 in
      elim sock [
        | none ↦ (scan_failed label "connection_failed", w2)
        | some s ↦ scan_over s t0 bytes label w2
      ]

  unfoldable pub scan_buffer : List ℕ → String → W → ScanResult × W
  unfolding scan_unaudited audit
  scan_buffer bytes label w = let (r, w1) = scan_unaudited bytes label w in audit r w1

  unfoldable pub scan_file : String → W → ScanResult × W
  unfolding scan_buffer audit
  scan_file file_path w =
      let (content, w1) = host.read_file file_path w in
      elim content [
        | none ↦ audit (scan_failed file_path "file_open_failed") w1
        | some bytes ↦ scan_buffer bytes file_path w1
      ]
