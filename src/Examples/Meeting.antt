-- ===== src/Examples/Meeting.antt =====
-- A whole session of both nodes, from their starts on, at a concrete input.
use ftu.Common.{
  ℕ, zero, suc, ◌+◌, length, ◌≡◌, ◌≤◌, ◌⊎◌, refl, subst, true, false, none, some, [], ◌∷◌, ◌++◌,
  Bytes, codes, bytes_eq, replicate, get_elem?, ok, ◌>>=◌, arith,
}
use ftu.Common.BigEndian.{put_u64}
use ftu.Encryption.{valid_key, encrypt, char_at, generate_32_aes_key, generate_loop}
use ftu.Fsys.Disk.{Disk, File, folder, regular, update, open_handle, open_file}
use ftu.Protocol.Headers
use ftu.Protocol.Headers.{file_code, header_of}
use ftu.Protocol.Construct.{create_file_packet, file_body}
use ftu.Protocol.Delivery.{IsSendable, frame}
use ftu.Protocol.Decode.RoundTrip.{IsSent}
use ftu.Protocol.Packet.{Packet, to_bytes}
use ftu.Protocol.Send.{encrypt_if, offer, send_packet, send_transfer_offer, send_encryption_key}
use ftu.Node.State.{SenderNode}
use ftu.Node.Sender.{or_panic, assign_ids, on_accept}
use ftu.Node.Transfer.Serving.{Job, IsSound, IsReadable, IsFresh}
use ftu.Node.Transfer.Accepting.{AreReadable}
use ftu.Node.Receiver.{ReceiverNode, destination, enter_directory}
use ftu.Node.Session.Several.{IsRoom, stored}
use ftu.Node.Start.{NewNode, serving, connect, start_sending, start_receiving, offer_step}
use ftu.Node.Start.Keys.{key_packet}
use ftu.Node.Start.Offers.{IsOfferable}
use ftu.Node.System.{System, Step, sender_offers, Inevitably}
use ftu.Node.System.Turns.{Wrote-one}
use ftu.Node.System.Reaches.{here, onward, starting-due}
use ftu.Protocol.Packet.Framing.{header_of-plain}
use ftu.Node.System.Ending.{HasEnded}
use ftu.Node.System.Starting.{starting}
use ftu.Node.System.Whole.{starting-HasEnded}
use ftu.Examples.World.{
  open_os, small_disk, notes, notes_path, padding_cipher-IsGcm, notes_content, notes-IsServed,
}
use ftu.Examples.Sending.{env}
use ftu.Examples.Runs.{looks}
use ftu.Examples.Endings.{net, sending_node, served, served-look_at}
use ftu.Examples.Systems.{plain, waiting}

-- The key out of random numbers that are all zero.
abbrev key : Bytes
key = replicate 32 b'a'

key-made : generate_32_aes_key (λ k. 0) ≡ ok key
unfolding generate_32_aes_key generate_loop char_at
key-made = refl

abbrev started : SenderNode
started =
    serving sending_node served 5 (record { outgoing = frame (key_packet key); alive = true }) key

started-start_sending :
    start_sending looks net (λ k. 0) 1 sending_node small_disk ≡ ok (started, served)
unfolding start_sending send_encryption_key send_packet to_bytes header_of put_u64
started-start_sending = rw (start_sending, ◌>>=◌, or_panic, served-look_at, key-made) refl

-- The offer, and the node behind it and behind ACCEPT.
abbrev described : File
described = record notes { id = 0; relative_parent_path = []; checksum = notes_content }

abbrev offer_packet : Packet
offer_packet = record {
  header = header_of Headers.transfer_offer;
  body = replicate 12 0 ++ (replicate 16 0 ++ (file_code ++ file_body described));
}

abbrev offered : SenderNode
offered = record started {
  conn = record { outgoing = frame (key_packet key) ++ frame offer_packet; alive = true };
}

described-opens :
    open_handle open_os described small_disk
    ≡ ok (record described { handler = some notes_path }, small_disk)
unfolding open_handle open_file bytes_eq
described-opens = refl

started-offer_step : offer_step env served started ≡ ok offered
unfolding offer_step send_transfer_offer create_file_packet offer encrypt_if encrypt valid_key
    send_packet to_bytes header_of put_u64 file_body
started-offer_step = rw (offer_step, ◌>>=◌, described-opens) refl

described-IsSent : IsSent 131072 described
described-IsSent = omega arith

started-IsOfferable : IsOfferable 131072 open_os small_disk (some described) none
unfolding file_body put_u64
started-IsOfferable = (_, _, described-opens, described-IsSent, omega arith)

abbrev accepted : SenderNode
accepted = record offered {
  sending = record offered.sending { allowed_to_transfer = true; files_to_send = 0 ∷ [] };
}

abbrev job : Job
job = record {
  env = env;
  key = some key;
  contents = λ i. notes_content;
  links = [];
  files = described ∷ [];
}

job-IsSound : IsSound job
unfolding valid_key
job-IsSound = record { gcm = padding_cipher-IsGcm; valid = refl; few = omega arith; room = tt }

only_file :
    (P : File → Type 0) (i : ℕ) (f : File)
    → P described
    → get_elem? (described ∷ []) i ≡ some f
    → P f
only_file P zero f holds e = let same : described ≡ f = cc in subst P same holds
only_file P (suc i) f holds e = cc

described-IsFresh : IsFresh described
unfolding file_body put_u64
described-IsFresh = record { unsent = refl; room = omega arith }

job-AreReadable : AreReadable job small_disk
job-AreReadable i f e = (
  only_file (λ g. IsReadable open_os small_disk g notes_content) i f
      (record { served = notes-IsServed; long = refl; small = omega arith }) e,
  only_file IsFresh i f described-IsFresh e,
)

-- The receiving node, and the same behind its yes.
abbrev receiving_node : NewNode
receiving_node = record sending_node {
  is_sending = false;
  conn_addr = codes "10.0.0.1";
  serving_path = [];
  downloads_path = codes "/in";
}

abbrev listening : ReceiverNode
listening = record waiting { total_download_size = 0 }

listening-start_receiving : start_receiving net receiving_node waiting.disk ≡ ok listening
unfolding start_receiving connect
listening-start_receiving = refl

abbrev entered : ReceiverNode
entered = record listening { encryption_key = some key; total_download_size = 5 }

entered-IsRoom : IsRoom plain job.contents (codes "/in") 0 (described ∷ []) entered.disk
unfolding destination bytes_eq
entered-IsRoom = (refl, described-IsSent, omega arith, _, refl, refl, refl, refl, λ x. refl, tt)

-- The disk with the folder and the file in it.
abbrev final : Disk
final =
    update (update waiting.disk (codes "/in") (some folder)) (codes "/in/notes")
      (some (regular notes_content))

starting-HasEnded_example :
    (k : Bytes) × (started.encryption_key ≡ some k)
    × (started.conn ≡ record { outgoing = frame (key_packet k); alive = true })
    × IsSendable (key_packet k)
    × Inevitably env plain
        (HasEnded (λ d. (d ≡ final) ⊎ (d ≡ waiting.disk)))
        (starting started listening k served)
unfolding on_accept assign_ids enter_directory stored destination bytes_eq
starting-HasEnded_example =
    starting-HasEnded job job-IsSound plain refl (omega arith) looks net (λ k. 0) 1 sending_node
      small_disk started offered accepted served net receiving_node waiting.disk final listening
      entered (λ k. omega arith) started-start_sending listening-start_receiving refl
      started-IsOfferable started-offer_step refl (omega arith) refl refl job-AreReadable refl
      entered-IsRoom refl

-- The same node after its offer, and the key is still on its way.
abbrev offered_system : System
offered_system = record {
  sender = offered;
  receiver = listening;
  to_sender = [];
  to_receiver = key_packet key ∷ (offer_packet ∷ []);
  to_offer = none;
  sender_exited = false;
  receiver_exited = false;
  receiver_waits = false;
}

offer_packet-IsSendable : IsSendable offer_packet
unfolding header_of file_body put_u64
offer_packet-IsSendable = record {
  plain_header = header_of-plain Headers.transfer_offer;
  small = omega arith;
}

starting-offers : Step env plain (starting started listening key served) offered_system
starting-offers =
    sender_offers served offered (offer_packet ∷ []) refl refl refl started-offer_step
      (Wrote-one started.conn offered.conn offer_packet refl offer_packet-IsSendable) refl

starting-due_example : length offered_system.to_sender + length offered_system.to_receiver ≤ 4
unfolding header_of file_body put_u64
starting-due_example =
    starting-due env plain padding_cipher-IsGcm started listening key served offered_system refl
      (onward here starting-offers) (omega arith) (omega arith)
