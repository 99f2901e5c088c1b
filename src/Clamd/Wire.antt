-- ===== src/Clamd/Wire.antt =====
-- What a daemon at the other end reads of the bytes that do_instream sends.
use astartis_codex_control_p.Base.{
  ℕ, zero, suc, ◌+◌, ◌*◌, ◌/◌, ◌%◌, ◌≤◌, ◌<◌, ◌≡◌, refl, sym, ap, ◌∙◌, Bool, true, false, Option,
  none, some, List, [], ◌∷◌, ◌++◌, arith, ltb, nat_eq, if◌then◌else◌, if_cases, length, take, drop,
  take-append-drop, length-drop, length-take, take-append, drop-append, length-append,
}
use mathlib.Core.List.{append-nil, append_assoc}
use astartis_codex_control_p.Clamd.Stream.{
  Host, instream_command, be32, next_size, send_loop, send_all, then_send, send_chunks, send_stream,
  do_instream, recv_line,
}

-- The length that four bytes, most significant first, stand for.
abbrev length_of : ℕ → ℕ → ℕ → ℕ → ℕ
length_of a b c d = a * 16777216 + b * 65536 + c * 256 + d

unfoldable pub behind : List ℕ → Option (List ℕ × List ℕ) → Option (List ℕ × List ℕ)
behind chunk none = none
behind chunk (some r) = some (chunk ++ r.0, r.1)

-- A daemon that reads chunks, each behind its length, up to an empty one: the bytes of the chunks and
-- what stands behind. A chunk that is cut off is none, and so is a stream that does not end.
unfoldable pub read_chunks : ℕ → List ℕ → Option (List ℕ × List ℕ)
unfolding behind
read_chunks zero wire = none
read_chunks (suc fuel) (a ∷ b ∷ c ∷ d ∷ wire) =
    let n = length_of a b c d in
    let rest = read_chunks fuel (drop n wire) in
    if nat_eq n 0
    then some ([], wire)
    else if ltb (length wire) n
    then none
    else behind (take n wire) rest
read_chunks (suc fuel) wire = none

-- The chunks of a list of bytes as they stand on the wire.
unfoldable pub chunks : ℕ → List ℕ → List ℕ
chunks fuel [] = []
chunks zero (b ∷ bs) = []
chunks (suc fuel) (b ∷ bs) =
    let size = next_size (b ∷ bs) in
    be32 size ++ (take size (b ∷ bs) ++ chunks fuel (drop size (b ∷ bs)))

be32-length :
    (v : ℕ)
    → v < 4294967296
    → length_of (v / 16777216 % 256) (v / 65536 % 256) (v / 256 % 256) (v % 256) ≡ v
be32-length v h = omega (arith, h)

next_size-le : (bytes : List ℕ) → next_size bytes ≤ length bytes
next_size-le bytes = ground arith

-- A chunk that is not empty is read first.
read_chunks-chunk :
    (fuel n : ℕ) (chunk wire bytes rest : List ℕ)
    → length chunk ≡ n
    → 0 < n
    → n < 4294967296
    → read_chunks fuel wire ≡ some (bytes, rest)
    → read_chunks (suc fuel) (be32 n ++ (chunk ++ wire)) ≡ some (chunk ++ bytes, rest)
unfolding read_chunks be32 behind
read_chunks-chunk fuel n chunk wire bytes rest e low high h =
    let same : drop n (chunk ++ wire) ≡ wire = rw (sym e) (drop-append chunk wire) in
    let front : take n (chunk ++ wire) ≡ chunk = rw (sym e) (take-append chunk wire) in
    rw (be32-length n high, same, front, h) (ground (arith, e, low, length-append chunk wire))

-- What was chunked is read back, whatever stands behind the end of the stream.
read_chunks-chunks :
    (fuel : ℕ) (bytes rest : List ℕ)
    → length bytes ≤ fuel
    → read_chunks (suc fuel) (chunks fuel bytes ++ 0 ∷ 0 ∷ 0 ∷ 0 ∷ rest) ≡ some (bytes, rest)
unfolding read_chunks chunks
read_chunks-chunks fuel [] rest le = refl
read_chunks-chunks zero (b ∷ bs) rest le = absurd (omega (arith, le))
read_chunks-chunks (suc fuel) (b ∷ bs) rest le =
    let size = next_size (b ∷ bs) in
    let ih =
      read_chunks-chunks fuel (drop size (b ∷ bs)) rest
        (ground (arith, le, length-drop (next_size (b ∷ bs)) (b ∷ bs))) in
    rw (append_assoc, append_assoc)
      (read_chunks-chunk (suc fuel) size (take size (b ∷ bs)) _ (drop size (b ∷ bs)) rest
          (length-take size (b ∷ bs) (next_size-le (b ∷ bs))) (ground arith) (ground arith) ih
        ∙ ap (λ (bytes : List ℕ). some (bytes, rest)) (take-append-drop size (b ∷ bs)))

-- A socket that never fails: each send takes some of the bytes, at least one, and what it takes is on the
-- wire. How many it takes may depend on everything before.
pub record IsReliable {W : Type 0} (host : Host W) (wire : W → List ℕ) : Type 0 where
  pub some_sent : (sock : ℕ) (b : ℕ) (bs : List ℕ) (w : W) → 0 < (host.send sock (b ∷ bs) w).0
  pub written :
      (sock : ℕ) (bytes : List ℕ) (w : W)
      → wire (host.send sock bytes w).1 ≡ wire w ++ take (host.send sock bytes w).0 bytes

module _ {W : Type 0} (host : Host W) (wire : W → List ℕ) (h : IsReliable host wire) where
  -- The bytes are all sent, and stand behind what was on the wire.
  abbrev Sends : List ℕ → W → Bool × W → Type 0
  Sends bytes w r = (r.0 ≡ true) × (wire r.1 ≡ wire w ++ bytes)

  went_on :
      (fuel sock n : ℕ) (bytes : List ℕ) (w w1 : W)
      → wire w1 ≡ wire w ++ take n bytes
      → Sends (drop n bytes) w1 (send_loop host fuel sock (drop n bytes) w1)
      → Sends bytes w (send_loop host fuel sock (drop n bytes) w1)
  went_on fuel sock n bytes w w1 e ih = (
    ih.0,
    ih.1
        ∙ ap (λ (bs : List ℕ). bs ++ drop n bytes) e
        ∙ append_assoc (wire w) (take n bytes) (drop n bytes)
        ∙ ap (λ (bs : List ℕ). wire w ++ bs) (take-append-drop n bytes),
  )

  send_loop-Sends :
      (fuel sock : ℕ) (bytes : List ℕ) (w : W)
      → length bytes ≤ fuel
      → Sends bytes w (send_loop host fuel sock bytes w)
  unfolding send_loop
  send_loop-Sends fuel sock [] w le = (refl, sym (append-nil (wire w)))
  send_loop-Sends zero sock (b ∷ bs) w le = absurd (omega (arith, le))
  send_loop-Sends (suc fuel) sock (b ∷ bs) w le =
      let n : ℕ = (host.send sock (b ∷ bs) w).0 in
      let w1 : W = (host.send sock (b ∷ bs) w).1 in
      let sent : 0 < n = h.some_sent sock b bs w in
      if_cases (Sends (b ∷ bs) w) (nat_eq n 0) _ _ (λ empty. absurd (ground (arith, empty, sent)))
        λ _. went_on fuel sock n (b ∷ bs) w w1 (h.written sock (b ∷ bs) w) (
          send_loop-Sends fuel sock (drop n (b ∷ bs)) w1
            (omega (arith, le, sent, length-drop n (b ∷ bs))))

  then_send-Sends :
      (sock : ℕ) (bytes : List ℕ) (r : Bool × W)
      → r.0 ≡ true
      → Sends bytes r.1 (then_send host sock bytes r)
  unfolding then_send send_all
  then_send-Sends sock bytes (true, w) e = send_loop-Sends (length bytes) sock bytes w (omega arith)
  then_send-Sends sock bytes (false, w) e = cc

  send_chunks-Sends :
      (fuel sock : ℕ) (bytes : List ℕ) (r : Bool × W)
      → r.0 ≡ true
      → length bytes ≤ fuel
      → Sends (chunks fuel bytes) r.1 (send_chunks host fuel sock bytes r)
  unfolding send_chunks chunks
  send_chunks-Sends fuel sock [] r e le = (e, sym (append-nil (wire r.1)))
  send_chunks-Sends zero sock (b ∷ bs) r e le = absurd (omega (arith, le))
  send_chunks-Sends (suc fuel) sock (b ∷ bs) r e le =
      let size = next_size (b ∷ bs) in
      let header = then_send-Sends sock (be32 size) r e in
      let r1 = then_send host sock (be32 size) r in
      let body = then_send-Sends sock (take size (b ∷ bs)) r1 header.0 in
      let r2 = then_send host sock (take size (b ∷ bs)) r1 in
      let rest =
        send_chunks-Sends fuel sock (drop size (b ∷ bs)) r2 body.0
          (ground (arith, le, length-drop (next_size (b ∷ bs)) (b ∷ bs))) in
      (rest.0, rest.1 ∙ rw (body.1, header.1, append_assoc, append_assoc) refl)

  send_stream-Sends :
      (sock : ℕ) (bytes : List ℕ) (w : W)
      → Sends
          (instream_command ++ (chunks (length bytes) bytes ++ 0 ∷ 0 ∷ 0 ∷ 0 ∷ []))
          w
          (send_stream host sock bytes w)
  unfolding send_stream send_all
  send_stream-Sends sock bytes w =
      let command =
        send_loop-Sends (length instream_command) sock instream_command w (omega arith) in
      let r1 = send_all host sock instream_command w in
      let body = send_chunks-Sends (length bytes) sock bytes r1 command.0 (omega arith) in
      let r2 = send_chunks host (length bytes) sock bytes r1 in
      let end = then_send-Sends sock (0 ∷ 0 ∷ 0 ∷ 0 ∷ []) r2 body.0 in
      (end.0, end.1 ∙ rw (body.1, command.1, append_assoc, append_assoc) refl)

  -- Whatever part of the bytes each send takes, as long as none fails, do_instream puts on the wire
  -- the command and then a stream from which the daemon reads exactly the bytes of the file; the
  -- result is the line that then comes back.
  pub do_instream-read :
      (sock : ℕ) (bytes : List ℕ) (w : W)
      → (stream : List ℕ) × (wire (send_stream host sock bytes w).1
          ≡ wire w ++ (instream_command ++ stream))
        × (read_chunks (suc (length bytes)) stream ≡ some (bytes, []))
        × (do_instream host sock bytes w ≡ (
            let answer = host.incoming sock (send_stream host sock bytes w).1 in
            (recv_line answer.0, answer.1)))
  unfolding do_instream
  do_instream-read sock bytes w =
      let sent = send_stream-Sends sock bytes w in
      (
        chunks (length bytes) bytes ++ 0 ∷ 0 ∷ 0 ∷ 0 ∷ [],
        sent.1,
        read_chunks-chunks (length bytes) bytes [] (omega arith),
        rw sent.0 refl,
      )
