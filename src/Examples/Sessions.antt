-- ===== src/Examples/Sessions.antt =====
-- The theorems on a receiving node at concrete inputs.
use ftu.Common.{
  length, length-replicate, replicate, ℕ, ◌≡◌, refl, true, false, Bool, Option, some, none, List,
  [], ◌∷◌, ◌++◌, Bytes, bytes_eq, codes, ok, eof, arith,
}
use ftu.Common.BigEndian.{put_u64}
use ftu.Checksum.{get_partial_check_sum}
use ftu.Checksum.Blocks.{blocks, get_partial_check_sum-blocks}
use ftu.Fsys.Disk.{
  Entry, File, folder, update, open_handle, open_file, close, content_at, content_of, read_at,
}
use ftu.Protocol.Headers.{header_of}
use ftu.Protocol.Packet.{
  Packet, size, contains_delimeter, encrypt_body_if, decrypt_body_if, to_bytes,
}
use ftu.Protocol.Delivery.{IsSendable, frame}
use ftu.Protocol.Room.{piece_packet}
use ftu.Protocol.Pieces.Whole.{send_pieces}
use ftu.Protocol.Recv.{receive_packets}
use ftu.Protocol.Send.{send_packet, send_piece, send_opened, send_bytes, can_send_bytes, max_piece}
use ftu.Node.Receiver.{Surroundings, ReceiverNode}
use ftu.Node.Receiving.{receiver_steps}
use ftu.Node.Receiving.Whole.{end_packet, IsAwaiting, HasReceived, receiver_steps-whole}
use ftu.Node.Session.{send_file-received}
use ftu.Examples.World.{
  padding_cipher, padding_cipher-IsGcm, open_os, small_disk, notes, notes_content, notes-IsServed,
}

abbrev pub surroundings : Surroundings
surroundings = record {
  cipher = padding_cipher;
  os = open_os;
  join = λ base path. base ++ (codes "/" ++ path);
  parent = λ path. [];
  trim_space = λ s. s;
  mkdir_all = λ path d. ok (update d path (some folder));
  stat = λ d path. false;
  open_existing = λ d path. some path;
  remove = λ path d. update d path none;
  make_link = λ target path d. d;
  can_write = λ d path. true;
  sha = λ content. content;
  max_alloc = 4096;
}

-- Whether a folder stands there.
abbrev pub is_folder : Option Entry → Bool
is_folder (some folder) = true
is_folder _ = false

abbrev pub arriving : File
arriving = record notes { path = codes "/in" }

abbrev pub receiver : ReceiverNode
receiver = record {
  stopped = false;
  conn = record { outgoing = []; alive = true };
  encryption_key = none;
  accepted_files = arriving ∷ [];
  downloads_path = [];
  total_download_size = 5;
  received_bytes = 0;
  offers = [];
  disk = λ path. none;
}

pub receiver-IsAwaiting : IsAwaiting surroundings receiver none arriving [] []
receiver-IsAwaiting = record {
  running = refl;
  same_key = refl;
  pool = refl;
  small_id = omega arith;
  before = tt;
  behind = tt;
  closed = refl;
  fresh = refl;
  can_open = refl;
  missing = refl;
  can_write = λ d. refl;
}

pub piece-IsSendable : IsSendable (piece_packet 3 notes_content)
unfolding contains_delimeter header_of put_u64
piece-IsSendable = record { plain_header = refl; small = omega arith }

receiver_steps-whole_example :
    (n' : ReceiverNode) × (receiver_steps surroundings receiver
        (piece_packet 3 notes_content ∷ (end_packet 3 ∷ []))
      ≡ ok n')
    × HasReceived surroundings receiver n' arriving (codes "hello") [] []
unfolding decrypt_body_if
receiver_steps-whole_example =
    receiver_steps-whole surroundings receiver none arriving [] []
      (piece_packet 3 notes_content ∷ []) (end_packet 3) (notes_content ∷ []) receiver-IsAwaiting
      (piece-IsSendable, refl, tt) refl (omega arith)

-- What stands on the connection, in one chunk.
abbrev wire : Bytes
wire = frame (piece_packet 3 notes_content) ++ frame (end_packet 3)

send_file-received_example :
    (ps : List Packet) × (rounds : ℕ) × (n' : ReceiverNode) × (receive_packets rounds 200000
        (some (wire ∷ []))
        (record { packets = []; closed = false })
      ≡ ok (record { packets = ps; closed = true }, eof))
    × (receiver_steps surroundings receiver ps ≡ ok n')
    × HasReceived surroundings receiver n' arriving notes_content [] []
unfolding send_pieces send_piece send_opened send_bytes can_send_bytes max_piece size header_of
    open_handle open_file close content_at content_of read_at encrypt_body_if send_packet to_bytes
    put_u64 bytes_eq
send_file-received_example =
    send_file-received surroundings open_os small_disk notes_content notes arriving none 6 200000
      (record { outgoing = frame (piece_packet 3 notes_content); alive = true })
      (record { outgoing = wire; alive = true }) (end_packet 3) (wire ∷ []) receiver [] []
      padding_cipher-IsGcm notes-IsServed refl (omega arith) refl tt (omega arith) refl refl refl
      refl (omega arith) receiver-IsAwaiting refl

get_partial_check_sum-blocks_example :
    (get_partial_check_sum (λ s. s) (replicate 15000 7) ≡ blocks 50 0 (replicate 15000 7))
    × (length (blocks 50 0 (replicate 15000 7)) ≡ 2500)
get_partial_check_sum-blocks_example =
    get_partial_check_sum-blocks (λ s. s) (replicate 15000 7)
      (omega (arith, length-replicate {A = ℕ} 15000 7))
