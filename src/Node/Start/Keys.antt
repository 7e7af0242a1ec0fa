-- ===== src/Node/Start/Keys.antt =====
-- src/node/node.go: the key that a sending node makes, and how it gets to the receiving node.
use ftu.Common.{
  ℕ, ◌%◌, ◌^◌, ◌≤◌, ◌≡◌, refl, ap, true, none, some, [], ◌++◌, Bytes, length, length-append, ok,
  ◌>>=◌, arith,
}
use ftu.Common.BigEndian.{put_u64, length-put_u64}
use ftu.Encryption.{key_len, valid_key}
use ftu.Encryption.Laws.{IsDraw, generate_32_aes_key-total}
use ftu.Fsys.Disk.{Disk}
use ftu.Fsys.Scan.{Looks}
use ftu.Protocol.Headers
use ftu.Protocol.Headers.{header_of, header_delimeter, kind_of-header_of}
use ftu.Protocol.Packet.{Packet, decrypt_body_if}
use ftu.Protocol.Packet.Framing.{header_of-plain}
use ftu.Protocol.Construct.{sized}
use ftu.Protocol.Delivery.{IsSendable, frame, send_packet-frame}
use ftu.Protocol.Send.{send_encryption_key}
use ftu.Node.Sender.{or_panic}
use ftu.Node.Receiver.{Surroundings, ReceiverNode}
use ftu.Node.Receiving.{receive_packet, receiver_step, on_encryption_key}
use ftu.Node.Receiving.Linking.{loose_sized-sized}
use ftu.Node.Start.{
  NewNode, Net, get_local, wait_for_connection, Served, look_at, total_of, serving, start_sending,
}

-- The ENCRKEY packet.
abbrev pub key_packet : Bytes → Packet
key_packet key = record { header = header_of Headers.encryption_key; body = sized key }

length-key_header : length (header_of Headers.encryption_key) ≡ 7
unfolding header_of
length-key_header = refl

pub key_packet-IsSendable : (key : Bytes) → length key ≡ key_len → IsSendable (key_packet key)
key_packet-IsSendable key long = record {
  plain_header = header_of-plain Headers.encryption_key;
  small = omega (
    arith,
    length-key_header,
    length-append (put_u64 (length key % 2 ^ 64)) key,
    length-put_u64 (length key % 2 ^ 64),
    length-append (header_of Headers.encryption_key) (header_delimeter ++ sized key),
  );
}

-- ENCRKEY sets the key of a receiving node that has none yet.
pub receiver_step-key :
    (env : Surroundings) (n : ReceiverNode) (key : Bytes)
    → n.encryption_key ≡ none
    → length key ≡ key_len
    → key_len ≤ env.max_alloc
    → receiver_step env n (key_packet key) ≡ ok (record n { encryption_key = some key })
unfolding receiver_step receive_packet on_encryption_key decrypt_body_if
receiver_step-key env n key no_key long fits =
    let clear : decrypt_body_if env.cipher n.encryption_key (key_packet key) ≡ ok (key_packet key) =
      ap (λ k. decrypt_body_if env.cipher k (key_packet key)) no_key in
    rw
      (
        receiver_step,
        ◌>>=◌,
        clear,
        or_panic,
        kind_of-header_of Headers.encryption_key,
        receive_packet,
        on_encryption_key,
        loose_sized-sized env.max_alloc key (omega arith) (omega arith),
      )
      refl

-- A sending node that finds what it serves, and to which a receiving node connects, starts with a
-- valid key of 32 bytes, and an empty queue, and has written one packet; and that packet, which can
-- be sent, makes a receiving node that has no key yet take the same key, and nothing else.
pub start_sending-keys :
    (looks : Looks) (net : Net) (draw : ℕ → ℕ) (depth : ℕ) (node : NewNode) (d : Disk) (s : Served)
    (total : ℕ) (env : Surroundings) (n : ReceiverNode)
    → IsDraw draw
    → net.finds_local ≡ true
    → net.listens node.port ≡ true
    → net.accepts node.port ≡ true
    → look_at looks depth node d ≡ ok s
    → total_of s.file s.directory ≡ ok total
    → n.encryption_key ≡ none
    → key_len ≤ env.max_alloc
    → (key : Bytes) × (start_sending looks net draw depth node d
        ≡ ok (
          serving node s total (record { outgoing = frame (key_packet key); alive = true }) key,
          s,
        ))
      × (valid_key key ≡ true)
      × IsSendable (key_packet key)
      × (receiver_step env n (key_packet key) ≡ ok (record n { encryption_key = some key }))
unfolding start_sending get_local wait_for_connection send_encryption_key
start_sending-keys looks net draw depth node d s total env n drawn found listens accepts looked sum
      no_key fits =
    let (key, makes, long, chars, valid) = generate_32_aes_key-total draw drawn in
    let sendable = key_packet-IsSendable key long in
    (
      key,
      rw
          (
            start_sending,
            ◌>>=◌,
            get_local,
            found,
            or_panic,
            looked,
            sum,
            wait_for_connection,
            listens,
            accepts,
            makes,
            send_encryption_key,
            send_packet-frame [] (key_packet key) sendable,
          )
          refl,
      valid,
      sendable,
      receiver_step-key env n key no_key long fits,
    )
