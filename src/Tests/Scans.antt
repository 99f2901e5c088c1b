-- ===== src/Tests/Scans.antt =====
-- The clamd scanner.
use astartis_codex_control_p.Base.{
  ℕ, ◌≡◌, refl, ◌↔◌, true, some, List, [], ◌∷◌, ◌++◌, arith, ltb, if◌then◌else◌, length, take,
}
use astartis_codex_control_p.Callbacks.{AuditAdder}
use astartis_codex_control_p.Clamd.{ScanStatus, scan_file, parse_status, virus_name_of}
use astartis_codex_control_p.Clamd.Stream.{
  Host, recv_line, do_instream, send_stream, instream_command, connect_to_clamd,
}
use astartis_codex_control_p.Clamd.Wire.{IsReliable, read_chunks, do_instream-read}
use astartis_codex_control_p.Clamd.Verdicts.{IsScanned, scan_file-clean}

-- The outside is what stands on the wire; send takes three bytes at most.
abbrev portion : List ℕ → ℕ
portion bytes = if ltb (length bytes) 3 then length bytes else 3

abbrev daemon : Host (List ℕ)
daemon = record {
  resolve = λ w. (true, w);
  open_socket = λ w. (some 4, w);
  connects = λ s w. (true, w);
  close = λ s w. w;
  send = λ s bytes w. (portion bytes, w ++ take (portion bytes) bytes);
  incoming = λ s w. ("stream: OK\r\n", w);
  read_file = λ path w. (some (1 ∷ 2 ∷ 3 ∷ 4 ∷ 5 ∷ []), w);
  clock = λ w. (0, w);
}

abbrev unheard : AuditAdder (List ℕ)
unheard event_type payload w = ("entry", w)

daemon-IsReliable : IsReliable daemon (λ w. w)
daemon-IsReliable = record {
  some_sent = λ sock b bs w. ground arith;
  written = λ sock bytes w. refl;
}

do_instream-read_example :
    (stream : List ℕ) × ((send_stream daemon 4 (7 ∷ 8 ∷ []) []).1 ≡ instream_command ++ stream)
    × (read_chunks 3 stream ≡ some (7 ∷ 8 ∷ [], []))
    × (do_instream daemon 4 (7 ∷ 8 ∷ []) [] ≡ (
        let answer = daemon.incoming 4 (send_stream daemon 4 (7 ∷ 8 ∷ []) []).1 in
        (recv_line answer.0, answer.1)))
do_instream-read_example = do_instream-read daemon (λ w. w) daemon-IsReliable 4 (7 ∷ 8 ∷ []) []

scan_file-clean_example :
    ((scan_file daemon unheard "report.txt" []).0.status ≡ ScanStatus.clean) ↔ (
      let sock = connect_to_clamd daemon [] in
      IsScanned daemon unheard (some (1 ∷ 2 ∷ 3 ∷ 4 ∷ 5 ∷ [])) sock.0 sock.1)
scan_file-clean_example = scan_file-clean daemon unheard "report.txt" []

it_is_clean : (scan_file daemon unheard "report.txt" []).0.status ≡ ScanStatus.clean
unfolding scan_file
it_is_clean = refl

-- A name that holds the separator itself, and a reply in which " FOUND" stands before it.
the_virus : virus_name_of "stream: Eicar-Test-Signature FOUND" ≡ "Eicar-Test-Signature"
unfolding virus_name_of
the_virus = refl

the_rest : virus_name_of "x FOUND y: z" ≡ "z"
unfolding virus_name_of
the_rest = refl

an_infection : parse_status "stream: Eicar FOUND" ≡ ScanStatus.infected
unfolding parse_status
an_infection = refl
