-- ===== src/Examples/Endings.antt =====
-- The theorems on flags, on the start of a sending node and on the end of a receiving one.
use ftu.Common.{
  ℕ, Bytes, replicate, ◌>>=◌, ◌≡◌, ◌↔◌, refl, true, false, some, none, List, [], ◌∷◌, ◌++◌, codes,
  bytes_eq, ok, ◌%◌, ◌*◌, arith,
}
use ftu.Checksum.{check_sum_of, get_partial_check_sum}
use ftu.Cli.{Flags, goes_on, validate, node_options}
use ftu.Cli.Validation.{IsFor, validate-goes_on}
use ftu.Encryption.{valid_key, generate_32_aes_key, generate_loop, char_at}
use ftu.Common.BigEndian.{put_u64}
use ftu.Protocol.Send.{send_packet, send_encryption_key}
use ftu.Node.Sender.{or_panic}
use ftu.Fsys.Disk.{update, open_handle, open_file, close, regular}
use ftu.Fsys.Scan.{get_file, stat_file, summed_file}
use ftu.Protocol.Packet.{decrypt_body_if}
use ftu.Protocol.Delivery.{IsSendable, frame}
use ftu.Protocol.Room.{piece_packet}
use ftu.Node.Receiver.{ReceiverNode}
use ftu.Node.Receiving.{receiver_step}
use ftu.Node.Receiving.Whole.{end_packet}
use ftu.Node.Transfer.Leaving.{done_packet, bye_packet}
use ftu.Node.Start.{
  new_sender, sending, NewNode, Net, Served, look_at, serving, start_sending, receiving, main,
  new_node, new_receiver, start, start_receiving, connect,
}
use ftu.Node.Start.Sides.{IsSide, main-IsSide}
use ftu.Node.Start.Keys.{key_packet, start_sending-keys}
use ftu.Node.Loop.{left, exited, receiver_loop, receiver_waiting}
use ftu.Node.Loop.Ends.{receiver_loop-whole}
use ftu.Node.Transfer
use ftu.Node.Transfer.{sender_loop}
use ftu.Node.State.{SenderNode}
use ftu.Node.Receiving.{answer_step}
use ftu.Node.Receiver.{is_yes}
use ftu.Node.Session.Answers.{
  IsOffering, dismissed, reject_packet, sender_loop-early, answer_step-rejects,
}
use ftu.Protocol.Headers
use ftu.Protocol.Headers.{file_code, header_of, kind_of}
use ftu.Protocol.Construct.{file_body}
use ftu.Protocol.Decode.RoundTrip.{IsSent, received, decode_transfer_packet-file_body}
use ftu.Protocol.Packet.{Packet, to_bytes, decrypt_body}
use ftu.Examples.Sending.{env}
use ftu.Node.Start.{new_conn}
use ftu.Examples.World.{key_bytes, ready_packet, small_disk, notes, notes_content}
use ftu.Examples.Sessions.{surroundings, receiver, arriving, receiver-IsAwaiting, piece-IsSendable}
use ftu.Examples.Runs.{looks}

abbrev send_flags : Flags
send_flags = record {
  port = 7270;
  recursive = false;
  address = [];
  downloads_dir = codes ".";
  send = codes "/notes";
  verbose = false;
  print_version = false;
  print_license = false;
}

validate-goes_on_example : (validate send_flags ≡ goes_on true) ↔ IsFor true send_flags
validate-goes_on_example = validate-goes_on send_flags true

abbrev pub net : Net
net = record {
  finds_local = true;
  listens = λ port. true;
  accepts = λ port. true;
  dials = λ address port. true;
}

abbrev pub sending_node : NewNode
sending_node = record {
  verbose_output = false;
  is_sending = true;
  port = 7270;
  conn_addr = [];
  serving_path = codes "/notes";
  recursive = false;
  is_directory = false;
  downloads_path = codes ".";
}

abbrev pub served : Served
served = record {
  file = some (record notes { id = 0; relative_parent_path = []; checksum = notes_content });
  directory = none;
  disk = small_disk;
}

pub served-look_at : look_at looks 1 sending_node small_disk ≡ ok served
unfolding look_at get_file stat_file summed_file open_handle open_file close check_sum_of
    get_partial_check_sum bytes_eq
served-look_at = refl

start_sending-keys_example :
    (key : List ℕ) × (start_sending looks net (λ k. k * 7 % 62) 1 sending_node small_disk
      ≡ ok (
        serving sending_node served 5
            (record { outgoing = frame (key_packet key); alive = true })
            key,
        served,
      ))
    × (valid_key key ≡ true)
    × IsSendable (key_packet key)
    × (receiver_step surroundings receiver (key_packet key)
        ≡ ok (record receiver { encryption_key = some key }))
start_sending-keys_example =
    start_sending-keys looks net (λ k. k * 7 % 62) 1 sending_node small_disk served 5 surroundings
      receiver (λ k. omega arith) refl refl refl served-look_at refl refl (omega arith)

receiver_loop-whole_example :
    (n' : ReceiverNode) × (receiver_loop surroundings receiver
        (piece_packet 3 notes_content ∷ (end_packet 3 ∷ (done_packet ∷ (bye_packet ∷ []))))
      ≡ ok (left n'))
    × (n'.disk ≡ update receiver.disk (codes "/in") (some (regular notes_content)))
    × (n'.accepted_files ≡ [])
    × (n'.conn.alive ≡ false)
unfolding decrypt_body_if
receiver_loop-whole_example =
    receiver_loop-whole surroundings receiver none arriving [] []
      (piece_packet 3 notes_content ∷ []) (bye_packet ∷ []) (end_packet 3) (notes_content ∷ [])
      receiver-IsAwaiting (piece-IsSendable, refl, tt) refl (omega arith)

-- A receiver that connects.
abbrev receive_flags : Flags
receive_flags = record send_flags {
  address = codes "10.0.0.1";
  send = [];
  downloads_dir = codes "/in";
}

abbrev connected : ReceiverNode
connected = record receiver {
  accepted_files = [];
  downloads_path = codes "/in";
  total_download_size = 0;
  disk = small_disk;
}

-- A sender that listens, with a key out of random numbers that are all zero.
abbrev zero_key : Bytes
zero_key = replicate 32 b'a'

abbrev listening : SenderNode
listening =
    serving sending_node served 5 (record { outgoing = frame (key_packet zero_key); alive = true })
      zero_key

listening-start_sending :
    start_sending looks net (λ k. 0) 1 sending_node small_disk ≡ ok (listening, served)
unfolding start_sending send_encryption_key send_packet to_bytes header_of put_u64
    generate_32_aes_key generate_loop char_at
listening-start_sending = rw (start_sending, ◌>>=◌, or_panic, served-look_at) refl

listening-main :
    main looks (λ path d. ok d) net (λ k. 0) 1 send_flags true small_disk
    ≡ ok (sending listening served)
unfolding main new_node new_sender node_options start bytes_eq
listening-main = rw (◌>>=◌, listening-start_sending) refl

main-IsSide_example :
    IsSide looks net 1 small_disk true send_flags (sending listening served)
    × IsSide looks net 1 small_disk false receive_flags (receiving connected)
unfolding main new_node new_receiver node_options start start_receiving connect validate bytes_eq
main-IsSide_example = (
  main-IsSide looks net (λ k. 0) 1 (λ path d. ok d) send_flags true small_disk
      (sending listening served) refl listening-main,
  main-IsSide looks net (λ k. 0) 1 (λ path d. ok d) receive_flags false small_disk
      (receiving connected) refl refl,
)

-- A sending node as it starts, and the offer of its file.
abbrev begun : SenderNode
begun = serving sending_node served 5 new_conn key_bytes

begun-IsOffering : IsOffering begun []
begun-IsOffering = record {
  running = refl;
  conn = refl;
  no_files = refl;
  no_links = refl;
  no_link_sent = refl;
}

sender_loop-early_example :
    (s' : SenderNode) × ((more : List Packet)
      → sender_loop env begun (ready_packet ∷ more) ≡ ok (Transfer.left s'))
    × (s'.conn ≡ dismissed [])
    × (s'.disk ≡ small_disk)
unfolding decrypt_body_if decrypt_body kind_of header_of bytes_eq
sender_loop-early_example =
    sender_loop-early env begun [] ready_packet ready_packet begun-IsOffering refl (λ h. cc)
      (λ h. cc)

notes-IsSent : IsSent 4096 notes
notes-IsSent = omega arith

abbrev file_offer : Packet
file_offer = record {
  header = header_of Headers.transfer_offer;
  body = file_code ++ file_body notes;
}

abbrev offered_node : ReceiverNode
offered_node = record receiver { offers = file_offer ∷ [] }

answer_step-rejects_example :
    (n1 : ReceiverNode) × (n2 : ReceiverNode) × (s' : SenderNode) × (answer_step surroundings
        (codes "n")
        offered_node
        (file_offer ∷ [])
      ≡ ok n1)
    × (n1.conn ≡ record { outgoing = frame reject_packet; alive = true })
    × ((more : List Packet) → receiver_waiting surroundings n1 (done_packet ∷ more) ≡ ok (left n2))
    × (receiver_waiting surroundings n1 [] ≡ ok (exited n1))
    × ((more : List Packet) → receiver_loop surroundings n1 more ≡ ok (left n2))
    × (n2.conn ≡ record { outgoing = frame reject_packet ++ frame bye_packet; alive = false })
    × (n2.disk ≡ offered_node.disk)
    × (n2.accepted_files ≡ arriving ∷ [])
    × ((more : List Packet) → sender_loop env begun (reject_packet ∷ more) ≡ ok (Transfer.left s'))
    × (s'.conn ≡ dismissed [])
unfolding is_yes bytes_eq
answer_step-rejects_example =
    answer_step-rejects surroundings env offered_node begun (codes "n") [] [] file_offer []
      (some (received 4096 notes)) none (decode_transfer_packet-file_body 4096 notes notes-IsSent)
      refl refl begun-IsOffering
