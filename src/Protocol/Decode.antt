-- ===== src/Protocol/Decode.antt =====
-- src/protocol/packetDecode.go. `max_alloc` is the largest slice that the Go runtime makes: a
-- larger `make` panics.
pub mod RoundTrip
pub mod Malformed
use ftu.Common.{
  ℕ, ◌-◌, Option, none, some, [], ◌∷◌, ◌++◌, Bytes, bytes_eq, ◌==◌, ltb, if◌then◌else◌, length,
  take, drop, replicate, Outcome, ok, err, panic, ◌>>=◌, ◌>>◌, eof, wrong_packet, invalid_packet,
}
use ftu.Common.BigEndian.{read_u64}
use ftu.Fsys.Disk.{File}
use ftu.Fsys.Tree.{Directory, dir, nil}
use ftu.Protocol.Headers
use ftu.Protocol.Headers.{header_of}
use ftu.Protocol.Packet.{Packet}

-- What a `Read` leaves in a fresh buffer of `n` bytes: zeros where the input was too short.
abbrev pub filled : ℕ → Bytes → Bytes
filled n src = take n src ++ replicate (n - length src) 0

-- `(*bytes.Buffer).Read` into a fresh buffer of `n` bytes.
unfoldable pub buffer_read : ℕ → Bytes → Outcome (Bytes × Bytes)
buffer_read n [] = if n == 0 then ok ([], []) else err eof
buffer_read n (b ∷ bs) = ok (filled n (b ∷ bs), drop n (b ∷ bs))

-- `(*bytes.Reader).Read`, which reports the end of the input for an empty buffer too.
unfoldable pub reader_read : ℕ → Bytes → Outcome (Bytes × Bytes)
reader_read n [] = err eof
reader_read n (b ∷ bs) = ok (filled n (b ∷ bs), drop n (b ∷ bs))

module _ (max_alloc : ℕ) where
  -- `make([]byte, n)`
  unfoldable pub make_bytes : ℕ → Outcome (Unit {0})
  make_bytes n = if ltb max_alloc n then panic else ok tt

  -- A length in binary and a string of that length, out of a `bytes.Buffer`.
  unfoldable pub read_sized : Bytes → Outcome (Bytes × Bytes)
  unfolding make_bytes buffer_read
  read_sized src = do (n, rest) ← read_u64 src; make_bytes n; buffer_read n rest

  unfoldable pub decode_file_body : Bytes → Outcome File
  decode_file_body src = do
    (id, src) ← read_u64 src
    (name, src) ← read_sized src
    (size, src) ← read_u64 src
    (checksum, src) ← read_sized src
    (relative_path, src) ← read_sized src
    ok (record {
      id = id;
      name = name;
      path = [];
      relative_parent_path = relative_path;
      size = size;
      checksum = checksum;
      handler = none;
      sent_bytes = 0;
    })

  unfoldable pub decode_file_packet : Packet → Outcome File
  unfolding decode_file_body
  decode_file_packet p =
      if bytes_eq p.header (header_of Headers.file)
      then decode_file_body p.body
      else err wrong_packet

  unfoldable pub decode_directory_body : Bytes → Outcome Directory
  unfolding make_bytes
  decode_directory_body src = do
    (n, src) ← read_u64 src
    make_bytes n
    (name, src) ← reader_read n src
    (size, src) ← read_u64 src
    ok (dir (record { name = name; path = []; size = size; relative_parent_path = [] }) [] [] nil)

  unfoldable pub decode_directory_packet : Packet → Outcome Directory
  unfolding decode_directory_body
  decode_directory_packet p =
      if bytes_eq p.header (header_of Headers.directory)
      then decode_directory_body p.body
      else err wrong_packet

  -- The `switch` on the first byte of a TRANSFEROFFER packet's body; an empty body panics.
  offered : Bytes → Outcome (Option File × Option Directory)
  offered [] = panic
  offered (code ∷ body) =
      if code == b'f'
      then (decode_file_packet (record { header = header_of Headers.file; body = body }) >>= λ f.
          ok (some f, none))
      else if code == b'd'
      then (decode_directory_packet (record { header = header_of Headers.directory; body = body })
          >>= λ d. ok (none, some d))
      else err invalid_packet

  unfoldable pub decode_transfer_packet : Packet → Outcome (Option File × Option Directory)
  unfolding offered
  decode_transfer_packet p =
      if bytes_eq p.header (header_of Headers.transfer_offer)
      then offered p.body
      else err wrong_packet
