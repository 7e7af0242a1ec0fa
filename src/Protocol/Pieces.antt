-- ===== src/Protocol/Pieces.antt =====
-- `SendPiece`: what one call sends.
pub mod Whole
pub mod Paced
use ftu.Common.{
  ℕ, zero, suc, ◌+◌, ◌-◌, ◌%◌, ◌^◌, ◌≤◌, ◌<◌, ◌≡◌, refl, sym, ap, ◌∙◌, ◌⊎◌, inl, inr, ◌≢◌, true,
  false, Option, none, some, List, [], ◌∷◌, ◌++◌, Bytes, length, length-append, take, drop,
  length-take, length-drop, le→ltb, lt→ltb, ne→==, ==_refl, ◌==◌, Outcome, ok, ◌>>=◌, sent_all,
  arith,
}
use ftu.Common.BigEndian.{IsU64, put_u64, length-put_u64}
use ftu.Encryption.{Cipher, IsGcm}
use ftu.Fsys.Disk.{
  Os, Disk, File, regular, open_handle, open_file, close, content_at, content_of, read_at,
}
use ftu.Protocol.Headers
use ftu.Protocol.Headers.{header_of, header_delimeter, max_packet_size}
use ftu.Protocol.Packet.{Packet, encrypt_body_if, decrypt_body_if}
use ftu.Protocol.Packet.Framing.{payload, header_of-plain}
use ftu.Protocol.Delivery.{IsSendable, frame, frames, send_packet-frame}
use ftu.Protocol.Offer.{IsKey, encrypt_body_if-total, overhead}
use ftu.Protocol.Send.{
  Conn, Piece, max_piece, can_send_bytes, send_bytes, send_packet, send_opened, send_piece,
}
use ftu.Protocol.Room.{can_send_bytes_bounds, read_at-take, piece_packet, send_bytes-total}

-- A file that can be opened and has this content.
pub record IsServed (os : Os) (d : Disk) (path content : Bytes) : Type 0 where
  pub can_open : os.can_open d path ≡ true
  pub found : d (os.resolve d path) ≡ some (regular content)

-- The same file but for its handle, of which `n` bytes have been sent.
pub record IsAt (f : File) (n : ℕ) (g : File) : Type 0 where
  pub id : g.id ≡ f.id
  pub path : g.path ≡ f.path
  pub size : g.size ≡ f.size
  pub sent_bytes : g.sent_bytes ≡ n

close-IsAt : (os : Os) (f : File) → IsAt f f.sent_bytes (close os f)
unfolding close
close-IsAt os f = ground arith

can_send_bytes-IsAt :
    (key : Option Bytes) (f g : File)
    → IsAt f f.sent_bytes g
    → can_send_bytes key g ≡ can_send_bytes key f
unfolding can_send_bytes
can_send_bytes-IsAt key f g h = rw (h.size, h.sent_bytes) refl

abbrev pub opened_file : Os → Disk → File → File
opened_file os d f = record (close os f) { handler = some (os.resolve d f.path) }

opened_file-IsAt : (os : Os) (d : Disk) (f : File) → IsAt f f.sent_bytes (opened_file os d f)
opened_file-IsAt os d f =
    let h = close-IsAt os f in
    record { id = h.id; path = h.path; size = h.size; sent_bytes = h.sent_bytes }

-- The same for a file that was opened and closed again.
pub closed-IsAt :
    (os : Os) (d : Disk) (f : File) (n : ℕ)
    → f.sent_bytes ≡ n
    → IsAt f n (close os (opened_file os d f))
closed-IsAt os d f n sent =
    let at = opened_file-IsAt os d f in
    let k = close-IsAt os (opened_file os d f) in
    record {
      id = k.id ∙ at.id;
      path = k.path ∙ at.path;
      size = k.size ∙ at.size;
      sent_bytes = k.sent_bytes ∙ at.sent_bytes ∙ sent;
    }

moved-IsAt :
    (os : Os) (f g : File) (n : ℕ)
    → IsAt f f.sent_bytes g
    → IsAt f n (close os (record g { sent_bytes = n }))
moved-IsAt os f g n h =
    let k = close-IsAt os (record g { sent_bytes = n }) in
    record {
      id = k.id ∙ h.id;
      path = k.path ∙ h.path;
      size = k.size ∙ h.size;
      sent_bytes = k.sent_bytes;
    }

module _ (os : Os) (d : Disk) (content : Bytes) (f : File)
    (served : IsServed os d f.path content) where
  pub open_handle-IsServed : open_handle os f d ≡ ok (opened_file os d f, d)
  unfolding open_handle
  open_handle-IsServed = rw (served.can_open, served.found) refl

  content_at-IsServed : content_at (some (os.resolve d f.path)) d ≡ content
  unfolding content_at
  content_at-IsServed = rw served.found refl

  module _ (c : Cipher) where
    send_opened-end :
        (conn : Conn) (key : Option Bytes)
        → f.size ≡ f.sent_bytes
        → send_opened c (opened_file os d f) conn key d
          ≡ ok (record { sent = 0; error = some sent_all; file = opened_file os d f; conn = conn })
    unfolding send_opened
    send_opened-end conn key e =
        let h = opened_file-IsAt os d f in
        let same : ((close os f).size == (close os f).sent_bytes) ≡ true =
          rw (h.size, h.sent_bytes, e) (==_refl f.sent_bytes) in
        rw (send_opened, same) refl

    send_opened-read :
        (conn : Conn) (key : Option Bytes) (bytes : Bytes)
        → f.size ≢ f.sent_bytes
        → read_at content f.sent_bytes (can_send_bytes key f) ≡ ok bytes
        → send_opened c (opened_file os d f) conn key d
          ≡ send_bytes c (opened_file os d f) conn key bytes
    unfolding send_opened
    send_opened-read conn key bytes ne reads =
        let h = opened_file-IsAt os d f in
        let differ : ((close os f).size == (close os f).sent_bytes) ≡ false =
          rw (h.size, h.sent_bytes) (ne→== f.size f.sent_bytes ne) in
        let reads' : read_at content (close os f).sent_bytes
              (can_send_bytes key (opened_file os d f))
            ≡ ok bytes =
          rw (can_send_bytes-IsAt key f (opened_file os d f) h, h.sent_bytes) reads in
        rw (send_opened, differ, content_at-IsServed, reads') refl

    send_piece-of :
        (conn : Conn) (key : Option Bytes) (piece : Piece)
        → send_opened c (opened_file os d f) conn key d ≡ ok piece
        → send_piece c os f conn key d ≡ ok (record piece { file = close os piece.file }, d)
    unfolding send_piece
    send_piece-of conn key piece e = rw (send_piece, open_handle-IsServed, e) refl

abbrev after_piece : Os → Disk → File → ℕ → ℕ → Bytes → Piece
after_piece os d f n sent_bytes out = record {
  sent = n;
  error = none;
  file = close os (record (opened_file os d f) { sent_bytes = sent_bytes });
  conn = record { outgoing = out; alive = true };
}

-- One call of `SendPiece` on a file that is not sent yet. The packet holds the file's ID and the
-- next bytes of the content; it is within the limit, decrypts to that on the other side, and takes
-- at least one byte; and the file moves on by as many.
pub send_piece_next :
    (c : Cipher) (os : Os) (d : Disk) (content : Bytes) (f : File) (out : Bytes)
    (key : Option Bytes)
    → IsGcm c
    → IsServed os d f.path content
    → length content ≡ f.size
    → IsU64 f.size
    → f.sent_bytes < f.size
    → IsKey key
    → let n = can_send_bytes key f in
      (p : Packet) × (f' : File) × (send_piece c os f
          (record { outgoing = out; alive = true })
          key
          d
        ≡ ok (
          record {
            sent = n;
            error = none;
            file = f';
            conn = record { outgoing = out ++ frame p; alive = true };
          },
          d,
        ))
      × IsSendable p
      × (decrypt_body_if c key p ≡ ok (piece_packet f.id (take n (drop f.sent_bytes content))))
      × IsAt f (f.sent_bytes + n) f'
      × (0 < n)
      × (n ≤ f.size - f.sent_bytes)
send_piece_next c os d content f out key gcm served long small unsent k =
    let n = can_send_bytes key f in
    let bytes = take n (drop f.sent_bytes content) in
    let (left, room, some_bytes) = can_send_bytes_bounds key f (omega arith) small in
    let at = opened_file-IsAt os d f in
    let e : length bytes ≡ n =
      omega (arith, length-take n (drop f.sent_bytes content), length-drop f.sent_bytes content) in
    let (p, sends, sendable, opens) =
      send_bytes-total c gcm (opened_file os d f) out key bytes k (omega arith)
        (omega (arith, at.sent_bytes)) in
    (
      p,
      close os (record (opened_file os d f) { sent_bytes = f.sent_bytes + n }),
      send_piece-of os d content f served c _ key _ (
            send_opened-read os d content f served c _ key bytes (omega arith)
              (read_at-take content f.sent_bytes n (omega arith))
            ∙ sends)
          ∙ ap
              (λ m. ok (
                after_piece os d f m ((opened_file os d f).sent_bytes + length bytes)
                    (out ++ frame p),
                d,
              ))
              (can_send_bytes-IsAt key f (opened_file os d f) at)
          ∙ ap (λ m. ok (after_piece os d f n m (out ++ frame p), d))
              (omega (arith, at.sent_bytes)),
      sendable,
      opens ∙ ap (λ i. ok (piece_packet i bytes)) at.id,
      moved-IsAt os f (opened_file os d f) (f.sent_bytes + n) at,
      some_bytes unsent,
      left,
    )

-- `SendPiece` on a file that is sent: it says so, and writes nothing.
pub send_piece_end :
    (c : Cipher) (os : Os) (d : Disk) (content : Bytes) (f : File) (conn : Conn)
    (key : Option Bytes)
    → IsServed os d f.path content
    → f.size ≡ f.sent_bytes
    → (f' : File) × (send_piece c os f conn key d
        ≡ ok (record { sent = 0; error = some sent_all; file = f'; conn = conn }, d))
      × IsAt f f.sent_bytes f'
send_piece_end c os d content f conn key served e = (
  close os (opened_file os d f),
  send_piece-of os d content f served c conn key _
      (send_opened-end os d content f served c conn key e),
  closed-IsAt os d f f.sent_bytes refl,
)
