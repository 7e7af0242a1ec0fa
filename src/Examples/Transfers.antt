-- ===== src/Examples/Transfers.antt =====
-- The theorems on whole transfers at concrete inputs.
use ftu.Common.{
  ◌+◌, ◌-◌, ◌≤◌, ◌<◌, ◌≡◌, refl, true, some, none, List, [], Bytes, codes, take, ok, sent_all,
  arith,
}
use ftu.Encryption.{valid_key}
use ftu.Fsys.Disk.{File}
use ftu.Protocol.Packet.{Packet, decrypt_body_if}
use ftu.Protocol.Delivery.{IsSendable, frame, frames}
use ftu.Protocol.Send.{can_send_bytes, send_piece}
use ftu.Protocol.Room.{piece_packet}
use ftu.Protocol.Pieces.{IsAt, send_piece_next}
use ftu.Protocol.Pieces.Whole.{Carries, joined, send_pieces, send_pieces-whole}
use ftu.Examples.World.{
  padding_cipher, padding_cipher-IsGcm, open_os, small_disk, notes, notes_content, key_bytes,
  notes-IsServed,
}

send_piece_next_example :
    let n = can_send_bytes (some key_bytes) notes in
    (p : Packet) × (f' : File) × (send_piece padding_cipher open_os notes
        (record { outgoing = []; alive = true })
        (some key_bytes)
        small_disk
      ≡ ok (
        record {
          sent = n;
          error = none;
          file = f';
          conn = record { outgoing = frame p; alive = true };
        },
        small_disk,
      ))
    × IsSendable p
    × (decrypt_body_if padding_cipher (some key_bytes) p
        ≡ ok (piece_packet 3 (take n (codes "hello"))))
    × IsAt notes (0 + n) f'
    × (0 < n)
    × (n ≤ 5 - 0)
unfolding valid_key
send_piece_next_example =
    send_piece_next padding_cipher open_os small_disk notes_content notes [] (some key_bytes)
      padding_cipher-IsGcm notes-IsServed refl (omega arith) (omega arith) refl

send_pieces-whole_example :
    (ps : List Packet) × (pieces : List Bytes) × (send_pieces padding_cipher 6 open_os notes
        (record { outgoing = []; alive = true })
        (some key_bytes)
        small_disk
      ≡ ok (5, sent_all, record { outgoing = frames ps; alive = true }))
    × Carries padding_cipher (some key_bytes) 3 ps pieces
    × (joined pieces ≡ codes "hello")
unfolding valid_key
send_pieces-whole_example =
    send_pieces-whole padding_cipher open_os small_disk notes_content notes (some key_bytes) 6
      padding_cipher-IsGcm notes-IsServed refl (omega arith) refl refl (omega arith)
