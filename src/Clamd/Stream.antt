-- ===== src/Clamd/Stream.antt =====
-- astartis/core/clamd: the bytes of the INSTREAM protocol on a socket.
use astartis_codex_control_p.Base.{
  ℕ, zero, suc, ◌/◌, ◌%◌, String, Bool, true, false, ◌&&◌, ◌||◌, Option, none, some, List, [], ◌∷◌,
  ltb, nat_eq, if◌then◌else◌, length, take, drop,
}
use Prim.Native.Char.{code}

-- The calls of Winsock and of the file system. `resolve` is whether getaddrinfo finds the host,
-- `open_socket` what socket returns, `connects` whether select reports the connection within its five
-- seconds; `send` takes some of the bytes and tells how many, 0 where it fails; `incoming` is what recv
-- will yield; read_file is none where the file cannot be opened.
pub record Host (W : Type 0) : Type 0 where
  pub resolve : W → Bool × W
  pub open_socket : W → Option ℕ × W
  pub connects : ℕ → W → Bool × W
  pub close : ℕ → W → W
  pub send : ℕ → List ℕ → W → ℕ × W
  pub incoming : ℕ → W → String × W
  pub read_file : String → W → Option (List ℕ) × W
  pub clock : W → ℕ × W

-- zINSTREAM and zPING, each with its terminating NUL
abbrev pub instream_command : List ℕ
instream_command = b'z' ∷ b'I' ∷ b'N' ∷ b'S' ∷ b'T' ∷ b'R' ∷ b'E' ∷ b'A' ∷ b'M' ∷ 0 ∷ []

abbrev pub ping_command : List ℕ
ping_command = b'z' ∷ b'P' ∷ b'I' ∷ b'N' ∷ b'G' ∷ 0 ∷ []

-- The four bytes of be32(v) in memory.
unfoldable pub be32 : ℕ → List ℕ
be32 v = (v / 16777216 % 256) ∷ (v / 65536 % 256) ∷ (v / 256 % 256) ∷ (v % 256) ∷ []

abbrev pub chunk_size : ℕ
chunk_size = 4096

-- std::min(CHUNK, size - offset) of the bytes that are left
abbrev pub next_size : List ℕ → ℕ
next_size bytes = if ltb (length bytes) chunk_size then length bytes else chunk_size

unfoldable pub line_ends : String → Bool
line_ends String.[] = true
line_ends (String.◌∷◌ c s) = nat_eq (code c) b'\n'

-- The text up to the end of the line, without a carriage return right before it.
unfoldable pub recv_line : String → String
unfolding line_ends
recv_line String.[] = ""
recv_line (String.◌∷◌ c s) =
    let rest = recv_line s in
    if nat_eq (code c) b'\n' || (nat_eq (code c) b'\r' && line_ends s)
    then ""
    else String.◌∷◌ c rest

module _ {W : Type 0} (host : Host W) where
  unfoldable pub connect_to_clamd : W → Option ℕ × W
  connect_to_clamd w =
      let (found, w1) = host.resolve w in
      let (sock, w2) = host.open_socket w1 in
      if found
      then elim sock [
        | none ↦ (none, w2)
        | some s ↦
            let (ready, w3) = host.connects s w2 in
            if ready then (some s, w3) else (none, host.close s w3)
      ]
      else (none, w1)

  -- The loop of send_all; each round that goes on sends a byte at least, so as many rounds as there
  -- are bytes are enough.
  unfoldable pub send_loop : ℕ → ℕ → List ℕ → W → Bool × W
  send_loop fuel sock [] w = (true, w)
  send_loop zero sock (b ∷ bs) w = (false, w)
  send_loop (suc fuel) sock (b ∷ bs) w =
      let (n, w1) = host.send sock (b ∷ bs) w in
      let rest = send_loop fuel sock (drop n (b ∷ bs)) w1 in
      if nat_eq n 0 then (false, w1) else rest

  unfoldable pub send_all : ℕ → List ℕ → W → Bool × W
  unfolding send_loop
  send_all sock bytes w = send_loop (length bytes) sock bytes w

  -- A call of send_all behind another that may have failed.
  unfoldable pub then_send : ℕ → List ℕ → Bool × W → Bool × W
  unfolding send_all
  then_send sock bytes (true, w) = send_all sock bytes w
  then_send sock bytes (false, w) = (false, w)

  -- The loop over the chunks; each takes a byte at least.
  unfoldable pub send_chunks : ℕ → ℕ → List ℕ → Bool × W → Bool × W
  unfolding then_send be32
  send_chunks fuel sock [] r = r
  send_chunks zero sock (b ∷ bs) r = (false, r.1)
  send_chunks (suc fuel) sock (b ∷ bs) r =
      let size = next_size (b ∷ bs) in
      send_chunks fuel sock (drop size (b ∷ bs))
        (then_send sock (take size (b ∷ bs)) (then_send sock (be32 size) r))

  -- The command, the chunks and the empty chunk that ends the stream.
  unfoldable pub send_stream : ℕ → List ℕ → W → Bool × W
  unfolding send_chunks
  send_stream sock bytes w =
      then_send sock (0 ∷ 0 ∷ 0 ∷ 0 ∷ [])
        (send_chunks (length bytes) sock bytes (send_all sock instream_command w))

  unfoldable pub do_instream : ℕ → List ℕ → W → String × W
  unfolding send_stream recv_line
  do_instream sock bytes w =
      let (sent, w1) = send_stream sock bytes w in
      let (line, w2) = host.incoming sock w1 in if sent then (recv_line line, w2) else ("", w1)
