-- ===== src/Protocol/Send.antt =====
-- src/protocol/send.go.
use ftu.Common.{
  ℕ, ◌+◌, ◌-◌, ◌%◌, ◌^◌, Bool, Option, none, some, [], ◌++◌, Bytes, ◌==◌, ltb, if◌then◌else◌,
  length, Outcome, ok, err, panic, unfinished, ◌>>=◌, Error, sent_all,
}
use ftu.Common.BigEndian.{put_u64}
use ftu.Encryption.{Cipher, encrypt}
use ftu.Fsys.Disk.{Disk, Os, File, open_handle, close, content_at, read_at}
use ftu.Fsys.Tree.{Directory, Symlink}
use ftu.Protocol.Headers
use ftu.Protocol.Headers.{header_of, max_packet_size, file_code, dir_code}
use ftu.Protocol.Packet.{Packet, size, to_bytes, encrypt_body_if}
use ftu.Protocol.Construct.{sized, create_file_packet, create_directory_packet}

-- The sending half of a connection: what was written, and whether the peer still takes it.
pub record Conn : Type 0 where
  pub outgoing : Bytes
  pub alive : Bool

-- `connection.Write`
abbrev pub write : Bytes → Conn → Conn
write bs conn = if conn.alive then record conn { outgoing = conn.outgoing ++ bs } else conn

-- `SendPacket` drops the error of `connection.Write`.
unfoldable pub send_packet : Conn → Packet → Outcome Conn
send_packet conn p = to_bytes p >>= λ bs. ok (write bs conn)

unfoldable pub send_encryption_key : Conn → Bytes → Outcome Conn
send_encryption_key conn key =
    send_packet conn (record { header = header_of Headers.encryption_key; body = sized key })

module _ (c : Cipher) where
  -- A body under the key, if there is one.
  unfoldable pub encrypt_if : Option Bytes → Bytes → Outcome Bytes
  encrypt_if none body = ok body
  encrypt_if (some key) body = encrypt c key body

  unfoldable pub offer : Conn → Option Bytes → Bytes → Outcome Conn
  offer conn key body = do
    sealed ← encrypt_if key body
    send_packet conn (record { header = header_of Headers.transfer_offer; body = sealed })

  -- `SendTransferOffer` panics unless exactly one of the two is there.
  unfoldable pub send_transfer_offer :
      Os → Conn → Option File → Option Directory → Option Bytes → Disk → Outcome (Conn × Disk)
  send_transfer_offer os conn none none key d = panic
  send_transfer_offer os conn (some f) (some directory) key d = panic
  send_transfer_offer os conn (some f) none key d = do
    (p, f', d') ← create_file_packet os f d
    conn' ← offer conn key (file_code ++ p.body)
    ok (conn', d')
  send_transfer_offer os conn none (some directory) key d = do
    conn' ← offer conn key (dir_code ++ (create_directory_packet directory).body)
    ok (conn', d)

  -- `SendSymlink`
  unfoldable pub send_symlink : Symlink → Conn → Option Bytes → Outcome Conn
  unfolding encrypt_if
  send_symlink link conn key = do
    body ← encrypt_if key (sized link.path ++ sized link.target_path)
    send_packet conn (record { header = header_of Headers.symlink; body = body })

-- What `SendPiece` returns, the byte count and the error, with what it changed.
pub record Piece : Type 0 where
  pub sent : ℕ
  pub error : Option Error
  pub file : File
  pub conn : Conn

-- The room for file bytes in a packet: what the header, the delimiter and the ID leave, less 48 for
-- the encryption.
unfoldable pub max_piece : Option Bytes → ℕ
unfolding size header_of
max_piece none =
    max_packet_size - size (record { header = header_of Headers.file_bytes; body = [] }) - 8
max_piece (some key) =
    max_packet_size - size (record { header = header_of Headers.file_bytes; body = [] }) - 8 - 48

-- `canSendBytes`; the difference of the two uint64s wraps.
unfoldable pub can_send_bytes : Option Bytes → File → ℕ
unfolding max_piece
can_send_bytes key f =
    let left = (f.size + 2 ^ 64 - f.sent_bytes) % 2 ^ 64 in
    if ltb left (max_piece key) then left else max_piece key

module _ (c : Cipher) where
  -- The rest of `SendPiece` once bytes of the file are at hand. If the packet cannot be encrypted
  -- the bytes are reported as sent, and if it is too big they are not; `SentBytes` has moved on in
  -- both.
  unfoldable pub send_bytes : File → Conn → Option Bytes → Bytes → Outcome Piece
  send_bytes f conn key bytes =
      let n = can_send_bytes key f in
      let moved : File = record f { sent_bytes = (f.sent_bytes + length bytes) % 2 ^ 64 } in
      let p : Packet = record {
        header = header_of Headers.file_bytes;
        body = put_u64 f.id ++ bytes;
      } in
      elim (encrypt_body_if c key p) [
        | ok sealed ↦ elim (send_packet conn sealed) [
          | ok conn' ↦ ok (record { sent = n; error = none; file = moved; conn = conn' })
          | err e ↦ ok (record { sent = 0; error = some e; file = moved; conn = conn })
          | panic ↦ panic
          | unfinished ↦ unfinished
        ]
        | err e ↦ ok (record { sent = n; error = some e; file = moved; conn = conn })
        | panic ↦ panic
        | unfinished ↦ unfinished
      ]

  -- `SendPiece` with the file open. (`Seek` has no bearing on `ReadAt`.)
  unfoldable pub send_opened : File → Conn → Option Bytes → Disk → Outcome Piece
  send_opened f conn key d =
      if f.size == f.sent_bytes
      then ok (record { sent = 0; error = some sent_all; file = f; conn = conn })
      else elim (read_at (content_at f.handler d) f.sent_bytes (can_send_bytes key f)) [
        | ok bytes ↦ send_bytes f conn key bytes
        | err e ↦ ok (record { sent = 0; error = some e; file = f; conn = conn })
        | panic ↦ panic
        | unfinished ↦ unfinished
      ]

  -- `SendPiece`: the file is opened first, and closed on every way out.
  unfoldable pub send_piece : Os → File → Conn → Option Bytes → Disk → Outcome (Piece × Disk)
  send_piece os f conn key d = elim (open_handle os f d) [
    | ok (opened, d') ↦ send_opened opened conn key d' >>= λ piece.
        ok (record piece { file = close os piece.file }, d')
    | err e ↦ ok (record { sent = 0; error = some e; file = close os f; conn = conn }, d)
    | panic ↦ panic
    | unfinished ↦ unfinished
  ]
