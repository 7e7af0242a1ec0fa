-- ===== src/Protocol/Room.antt =====
-- `SendPiece`: how many bytes of a file go into a packet, and that the packet can be sent.
use ftu.Common.{
  ℕ, ◌+◌, ◌-◌, ◌%◌, ◌^◌, ◌≤◌, ◌<◌, ◌≡◌, refl, ap, ◌∙◌, true, Option, none, some, ◌++◌, Bytes,
  length, length-append, take, drop, length-take, length-drop, le→ltb, ok, arith,
}
use ftu.Common.BigEndian.{IsU64, put_u64, length-put_u64}
use ftu.Encryption.{Cipher, IsGcm}
use ftu.Fsys.Disk.{File, read_at}
use ftu.Protocol.Headers
use ftu.Protocol.Headers.{header_of, header_delimeter, max_packet_size}
use ftu.Protocol.Packet.{Packet, encrypt_body_if, decrypt_body_if}
use ftu.Protocol.Packet.Framing.{payload, header_of-plain}
use ftu.Protocol.Delivery.{IsSendable, frame, send_packet-frame}
use ftu.Protocol.Offer.{IsKey, encrypt_body_if-total, overhead}
use ftu.Protocol.Send.{Conn, max_piece, can_send_bytes, send_bytes, send_packet}

-- The room for file bytes in one packet.
pub max_piece_bounds : (key : Option Bytes) → (0 < max_piece key) × (max_piece key ≤ 131054)
unfolding max_piece
max_piece_bounds none = omega arith
max_piece_bounds (some key) = omega arith

-- How much of a file the next packet takes: all that is left, or as much as there is room for.
pub can_send_bytes_bounds :
    (key : Option Bytes) (f : File)
    → f.sent_bytes ≤ f.size
    → IsU64 f.size
    → (can_send_bytes key f ≤ f.size - f.sent_bytes)
      × (can_send_bytes key f ≤ max_piece key)
      × (f.sent_bytes < f.size → 0 < can_send_bytes key f)
unfolding can_send_bytes
can_send_bytes_bounds key f h small = ground (arith, max_piece_bounds key)

pub read_at-take :
    (content : Bytes) (offset n : ℕ)
    → offset + n ≤ length content
    → read_at content offset n ≡ ok (take n (drop offset content))
unfolding read_at
read_at-take content offset n h =
    let long : length (take n (drop offset content)) ≡ n =
      omega (arith, length-take n (drop offset content), length-drop offset content) in
    rw (long, le→ltb n n (omega arith)) refl

max_piece_room : (key : Option Bytes) → max_piece key + overhead key + 18 ≤ max_packet_size
unfolding max_piece
max_piece_room none = omega arith
max_piece_room (some key) = omega arith

-- The packet of a piece, in the clear.
abbrev pub piece_packet : ℕ → Bytes → Packet
piece_packet id bytes = record { header = header_of Headers.file_bytes; body = put_u64 id ++ bytes }

-- The header of a piece and the delimeter are ten bytes, and the ID is eight.
piece-small :
    (key : Option Bytes) (id : ℕ) (bytes : Bytes) (p : Packet)
    → length bytes ≤ max_piece key
    → p.header ≡ header_of Headers.file_bytes
    → length p.body ≤ length (put_u64 id ++ bytes) + overhead key
    → length (payload p) ≤ max_packet_size
piece-small key id bytes p small same long =
    let nine : length p.header ≡ 9 = ap length same ∙ unfold header_of in refl in
    omega (
      arith,
      nine,
      length-append p.header (header_delimeter ++ p.body),
      length-append (put_u64 id) bytes,
      length-put_u64 id,
      max_piece_room key,
    )

module _ (c : Cipher) where
  send_bytes-ok :
      (f : File) (conn conn' : Conn) (key : Option Bytes) (bytes : Bytes) (p : Packet)
      → encrypt_body_if c key (piece_packet f.id bytes) ≡ ok p
      → send_packet conn p ≡ ok conn'
      → send_bytes c f conn key bytes
        ≡ ok (record {
          sent = can_send_bytes key f;
          error = none;
          file = record f { sent_bytes = (f.sent_bytes + length bytes) % 2 ^ 64 };
          conn = conn';
        })
  unfolding send_bytes
  send_bytes-ok f conn conn' key bytes p e s = rw (send_bytes, e, s) refl

module _ (c : Cipher) (gcm : IsGcm c) where
  -- As many bytes as there is room for are sent: the packet is never too big, encrypted or not.
  pub send_bytes-total :
      (f : File) (out : Bytes) (key : Option Bytes) (bytes : Bytes)
      → IsKey key
      → length bytes ≤ max_piece key
      → f.sent_bytes + length bytes < 2 ^ 64
      → (p : Packet) × (send_bytes c f (record { outgoing = out; alive = true }) key bytes
          ≡ ok (record {
            sent = can_send_bytes key f;
            error = none;
            file = record f { sent_bytes = f.sent_bytes + length bytes };
            conn = record { outgoing = out ++ frame p; alive = true };
          }))
        × IsSendable p
        × (decrypt_body_if c key p ≡ ok (piece_packet f.id bytes))
  send_bytes-total f out key bytes k small fits =
      let (p, e, same, long, opens) = encrypt_body_if-total c gcm key (piece_packet f.id bytes) k in
      let sendable : IsSendable p = record {
        plain_header = rw same (header_of-plain Headers.file_bytes);
        small = piece-small key f.id bytes p small same long;
      } in
      let sum : (f.sent_bytes + length bytes) % 2 ^ 64 ≡ f.sent_bytes + length bytes =
        omega arith in
      (p, runs p e sendable sum, sendable, opens)
    where
      conn : Bytes → Conn
      conn bs = record { outgoing = bs; alive = true }

      runs :
          (p : Packet)
          → encrypt_body_if c key (piece_packet f.id bytes) ≡ ok p
          → IsSendable p
          → (f.sent_bytes + length bytes) % 2 ^ 64 ≡ f.sent_bytes + length bytes
          → send_bytes c f (conn out) key bytes
            ≡ ok (record {
              sent = can_send_bytes key f;
              error = none;
              file = record f { sent_bytes = f.sent_bytes + length bytes };
              conn = conn (out ++ frame p);
            })
      runs p e sendable sum =
          send_bytes-ok c f (conn out) (conn (out ++ frame p)) key bytes p e
            (send_packet-frame out p sendable)
          ∙ rw sum refl
