-- ===== src/Node/Receiving/Arrival.antt =====
-- src/node/node.go, `receive`: what FILE does, where nothing stands in the file's place and where
-- the same file is there already.
use ftu.Common.{
  ℕ, ◌+◌, ◌%◌, ◌^◌, ◌≡◌, refl, ap, ◌∙◌, ◌≢◌, true, false, Option, none, some, [], ◌∷◌, ◌++◌, Bytes,
  bytes_eq_refl, length, length-append, All, ok, ◌>>=◌, arith,
}
use ftu.Common.BigEndian.{put_u64, length-put_u64}
use ftu.Checksum.{check_sum_of}
use ftu.Encryption.{IsGcm}
use ftu.Fsys.Disk.{Disk, File}
use ftu.Protocol.Headers
use ftu.Protocol.Headers.{header_of, header_delimeter, kind_of-header_of}
use ftu.Protocol.Packet.{Packet, encrypt_body_if, decrypt_body_if}
use ftu.Protocol.Packet.Framing.{header_of-plain}
use ftu.Protocol.Construct.{file_body}
use ftu.Protocol.Decode.RoundTrip.{IsSent, received, decode_file_packet-file_body}
use ftu.Protocol.Delivery.{IsSendable, frame, send_packet-frame}
use ftu.Protocol.Offer.{IsKey, encrypt_body_if-total, overhead_bound}
use ftu.Protocol.Send.{write, send_packet}
use ftu.Node.Sender.{or_panic}
use ftu.Node.Receiver.{
  Surroundings, ReceiverNode, ready_packet, destination, accept_file, have_file, compare_file,
  on_file,
}
use ftu.Node.Receiving.{receive_packet, receiver_step}
use ftu.Node.Receiving.Whole.{IsAwaiting, send_packet-ready}

-- The FILE packet of a file, in the clear.
abbrev pub file_packet : File → Packet
file_packet f = record { header = header_of Headers.file; body = file_body f }

-- The file as a receiving node has it, with its place below the downloads.
abbrev pub placed : Surroundings → ReceiverNode → File → File
placed env n f =
    let g = received env.max_alloc f in record g { path = destination env n.downloads_path g }

receiver_step-file :
    (env : Surroundings) (n : ReceiverNode) (key : Option Bytes) (p : Packet) (f : File)
    → n.encryption_key ≡ key
    → decrypt_body_if env.cipher key p ≡ ok (file_packet f)
    → receiver_step env n p ≡ on_file env (file_packet f) n
unfolding receiver_step receive_packet
receiver_step-file env n key p f same opens =
    let opens' : decrypt_body_if env.cipher n.encryption_key p ≡ ok (file_packet f) =
      rw same opens in
    rw (receiver_step, ◌>>=◌, opens', or_panic, kind_of-header_of Headers.file, receive_packet) refl

-- The FILE packet of a file that is new to a running node, where nothing stands in its place and
-- the folder for it can be made, puts the file in the pool, to be written from its start; the node
-- answers READY, and but for the folder its disk, its place of downloads and the offers that
-- wait are as they were.
pub receiver_step-new_file :
    (env : Surroundings) (n : ReceiverNode) (key : Option Bytes) (p : Packet) (f : File) (d : Disk)
    → IsSent env.max_alloc f
    → n.stopped ≡ false
    → n.encryption_key ≡ key
    → decrypt_body_if env.cipher key p ≡ ok (file_packet f)
    → All (λ g. g.id ≢ f.id) n.accepted_files
    → env.mkdir_all (env.parent (placed env n f).path) n.disk ≡ ok d
    → env.stat d (placed env n f).path ≡ false
    → env.os.can_open d (placed env n f).path ≡ true
    → d (env.os.resolve d (placed env n f).path) ≡ none
    → ((e : Disk) → env.can_write e (env.os.resolve d (placed env n f).path) ≡ true)
    → (n' : ReceiverNode) × (receiver_step env n p ≡ ok n')
      × IsAwaiting env n' key (placed env n f) n.accepted_files []
      × (n'.conn ≡ write (frame ready_packet) n.conn)
      × (n'.disk ≡ d)
      × (n'.downloads_path ≡ n.downloads_path)
      × (n'.offers ≡ n.offers)
unfolding on_file accept_file
receiver_step-new_file env n key p f d sent running same opens others makes absent can missing
      writes =
    (
      record n {
        disk = d;
        accepted_files = n.accepted_files ++ (placed env n f ∷ []);
        conn = write (frame ready_packet) n.conn;
      },
      receiver_step-file env n key p f same opens
          ∙ rw
              (
                on_file,
                ◌>>=◌,
                decode_file_packet-file_body env.max_alloc f sent,
                or_panic,
                makes,
                absent,
                accept_file,
                send_packet-ready n.conn,
              )
              refl,
      record {
        running = running;
        same_key = same;
        pool = refl;
        small_id = sent.id;
        before = others;
        behind = tt;
        closed = refl;
        fresh = refl;
        can_open = can;
        missing = missing;
        can_write = writes;
      },
      refl,
      refl,
      refl,
      refl,
    )

-- The ALREADYHAVE packet for an ID, in the clear.
abbrev pub have_packet : ℕ → Packet
have_packet id = record { header = header_of Headers.already_have; body = put_u64 id }

-- It can be sent under any key, and be decrypted on the other side.
have_packet-sealed :
    (env : Surroundings) (key : Option Bytes) (id : ℕ)
    → IsGcm env.cipher
    → IsKey key
    → (answer : Packet) × (encrypt_body_if env.cipher key (have_packet id) ≡ ok answer)
      × IsSendable answer
      × (decrypt_body_if env.cipher key answer ≡ ok (have_packet id))
have_packet-sealed env key id gcm k =
    let (p, e, header, long, opens) = encrypt_body_if-total env.cipher gcm key (have_packet id) k in
    let eleven : length p.header ≡ 11 = ap length header ∙ unfold header_of in refl in
    (
      p,
      e,
      record {
        plain_header = rw header (header_of-plain Headers.already_have);
        small = omega (
          arith,
          eleven,
          overhead_bound key,
          length-put_u64 id,
          length-append p.header (header_delimeter ++ p.body),
        );
      },
      opens,
    )

-- What the node is like once it has answered that it has a file.
pub record HasDeclined (env : Surroundings) (n n' : ReceiverNode) (key : Option Bytes) (f : File)
    (out : Bytes) (d : Disk) : Type 0 where
  pub answer : Packet
  pub wrote : n'.conn ≡ record { outgoing = out ++ frame answer; alive = true }
  pub sendable : IsSendable answer
  pub opens : decrypt_body_if env.cipher key answer ≡ ok (have_packet f.id)
  pub counted : n'.received_bytes ≡ (n.received_bytes + f.size) % 2 ^ 64
  pub same_pool : n'.accepted_files ≡ n.accepted_files
  pub same_disk : n'.disk ≡ d

-- The FILE packet of a file that the node has in its place already, by its checksum, is answered by
-- an ALREADYHAVE with the ID of the file, encrypted if there is a key, which the other side can
-- decrypt; the file counts as received, and it neither joins the pool nor is it touched on the
-- disk.
pub receiver_step-same_file :
    (env : Surroundings) (n : ReceiverNode) (key : Option Bytes) (p : Packet) (f : File) (d : Disk)
    (out h : Bytes)
    → IsGcm env.cipher
    → IsKey key
    → IsSent env.max_alloc f
    → n.encryption_key ≡ key
    → n.conn ≡ record { outgoing = out; alive = true }
    → decrypt_body_if env.cipher key p ≡ ok (file_packet f)
    → env.mkdir_all (env.parent (placed env n f).path) n.disk ≡ ok d
    → env.stat d (placed env n f).path ≡ true
    → env.open_existing d (placed env n f).path ≡ some h
    → check_sum_of env.sha (d h) ≡ ok f.checksum
    → (n' : ReceiverNode) × (receiver_step env n p ≡ ok n') × HasDeclined env n n' key f out d
unfolding on_file compare_file have_file
receiver_step-same_file env n key p f d out h gcm k sent same conn opens makes there opened sum =
    let (answer, seals, sendable, unseals) = have_packet-sealed env key f.id gcm k in
    let seals' : encrypt_body_if env.cipher n.encryption_key (have_packet f.id) ≡ ok answer =
      rw same seals in
    let goes : send_packet n.conn answer
        ≡ ok (record { outgoing = out ++ frame answer; alive = true }) =
      rw conn (send_packet-frame out answer sendable) in
    (
      record n {
        disk = d;
        conn = record { outgoing = out ++ frame answer; alive = true };
        received_bytes = (n.received_bytes + f.size) % 2 ^ 64;
      },
      receiver_step-file env n key p f same opens
          ∙ rw
              (
                on_file,
                ◌>>=◌,
                decode_file_packet-file_body env.max_alloc f sent,
                or_panic,
                makes,
                there,
                compare_file,
                opened,
                sum,
                bytes_eq_refl f.checksum,
                have_file,
                seals',
                goes,
              )
              refl,
      record {
        answer = answer;
        wrote = refl;
        sendable = sendable;
        opens = unseals;
        counted = refl;
        same_pool = refl;
        same_disk = refl;
      },
    )
