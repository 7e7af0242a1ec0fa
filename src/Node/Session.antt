-- ===== src/Node/Session.antt =====
-- The sending of a file on one side of a connection and the receiving of it on the other.
pub mod Answers
pub mod Several
pub mod Whole
use ftu.Common.{
  ℕ, suc, ◌+◌, ◌^◌, ◌<◌, ◌≡◌, refl, sym, ap, subst, ◌∙◌, true, false, Option, some, List, [], ◌∷◌,
  ◌++◌, append-nil, Bytes, length, length-append, All, All-append, ok, ◌>>=◌, get_elem?, eof,
  sent_all, arith,
}
use ftu.Common.BigEndian.{IsU64, put_u64, read_u64, read_u64-put_u64, length-put_u64}
use ftu.Encryption.{IsGcm}
use ftu.Fsys.Disk.{Disk, Os, File}
use ftu.Protocol.Headers
use ftu.Protocol.Headers.{header_of, kind_of-header_of, header_delimeter, max_packet_size}
use ftu.Protocol.Packet.{Packet, encrypt_body_if, decrypt_body_if}
use ftu.Protocol.Packet.Framing.{header_of-plain}
use ftu.Protocol.Delivery.{
  IsSendable, frame, frames, frames-append, receive_packets-frames, send_packet-frame,
}
use ftu.Protocol.Offer.{IsKey, encrypt_body_if-total, overhead_bound}
use ftu.Protocol.Pieces.{IsServed}
use ftu.Protocol.Pieces.Whole.{Carries, send_pieces, send_pieces-whole}
use ftu.Protocol.Recv.{receive_packets}
use ftu.Protocol.Recv.Segments.{pending}
use ftu.Protocol.Send.{Conn, send_packet}
use ftu.Checksum.{check_sum_of}
use ftu.Protocol.Decode.RoundTrip.{IsSent}
use ftu.Node.State.{SenderNode, Env}
use ftu.Node.Sender.{id_of, or_panic, react}
use ftu.Node.Sender.Queue.{HasIds-id, IsQueue}
use ftu.Node.Sender.AlreadyHave.{skip_current, on_already_have-current}
use ftu.Node.Transfer.{transfer, sender_step}
use ftu.Node.Receiving.Arrival.{file_packet, placed, have_packet, receiver_step-same_file}
use ftu.Node.Receiver.{Surroundings, ReceiverNode}
use ftu.Node.Receiving.{receiver_step, receiver_steps}
use ftu.Node.Receiving.Whole.{end_packet, IsAwaiting, HasReceived, receiver_steps-whole}

pub Carries-IsSendable :
    (env : Surroundings) (key : Option Bytes) (id : ℕ) (ps : List Packet) (pieces : List Bytes)
    → Carries env.cipher key id ps pieces
    → All IsSendable ps
Carries-IsSendable env key id [] [] carried = tt
Carries-IsSendable env key id [] (b ∷ bs) carried = absurd carried
Carries-IsSendable env key id (p ∷ ps) [] carried = absurd carried
Carries-IsSendable env key id (p ∷ ps) (b ∷ bs) (sendable, opens, carried) =
    (sendable, Carries-IsSendable env key id ps bs carried)

-- What an encrypted ENDFILE is.
end_packet-IsSendable :
    (env : Surroundings) (key : Option Bytes) (id : ℕ) (last : Packet)
    → IsGcm env.cipher
    → IsKey key
    → encrypt_body_if env.cipher key (end_packet id) ≡ ok last
    → IsSendable last × (decrypt_body_if env.cipher key last ≡ ok (end_packet id))
end_packet-IsSendable env key id last gcm k seals =
    let (p, e, header, long, opens) = encrypt_body_if-total env.cipher gcm key (end_packet id) k in
    let same : p ≡ last = cc in
    let seven : length p.header ≡ 7 = ap length header ∙ unfold header_of in refl in
    let sendable : IsSendable p = record {
      plain_header = rw header (header_of-plain Headers.endfile);
      small = omega (
        arith,
        seven,
        overhead_bound key,
        length-put_u64 id,
        length-append p.header (header_delimeter ++ p.body),
      );
    } in
    (
      subst IsSendable same sendable,
      subst (λ x. decrypt_body_if env.cipher key x ≡ ok (end_packet id)) same opens,
    )

-- A file of less than 2 ^ 63 bytes goes over, under no key or a valid one: where the calls of
-- `SendPiece` for it, from its start until they report its end, and then its encrypted ENDFILE have
-- written to the connection, `ReceivePackets` on the other side, however the bytes are cut into
-- chunks, hands on packets whose handling, by a node that awaits a file with this ID under the same
-- key, leaves the content in the place of that file and the rest of the disk as it was, and takes
-- the file out of the pool.
pub send_file-received :
    (env : Surroundings) (os : Os) (d : Disk) (content : Bytes) (f g : File) (key : Option Bytes)
    (fuel read_fuel : ℕ) (sent ended : Conn) (last : Packet) (cs : List Bytes) (n : ReceiverNode)
    (front back : List File)
    → IsGcm env.cipher
    → IsServed os d f.path content
    → length content ≡ f.size
    → f.size < 2 ^ 63
    → f.sent_bytes ≡ 0
    → IsKey key
    → f.size < fuel
    → send_pieces env.cipher fuel os f (record { outgoing = []; alive = true }) key d
      ≡ ok (f.size, sent_all, sent)
    → encrypt_body_if env.cipher key (end_packet f.id) ≡ ok last
    → send_packet sent last ≡ ok ended
    → pending cs ≡ ended.outgoing
    → max_packet_size + length cs < read_fuel
    → IsAwaiting env n key g front back
    → g.id ≡ f.id
    → (ps : List Packet) × (rounds : ℕ) × (n' : ReceiverNode) × (receive_packets rounds read_fuel
          (some cs)
          (record { packets = []; closed = false })
        ≡ ok (record { packets = ps; closed = true }, eof))
      × (receiver_steps env n ps ≡ ok n')
      × HasReceived env n n' g content front back
send_file-received env os d content f g key fuel read_fuel sent ended last cs n front back gcm
      served long small start k fuelled sends seals ends arrives more awaiting same =
    let (ps, pieces, sends', carried, joins) =
      send_pieces-whole env.cipher os d content f key fuel gcm served long (omega arith) start k
        fuelled in
    let (last_sendable, opens) = end_packet-IsSendable env key f.id last gcm k seals in
    let out : Conn = record { outgoing = frames ps; alive = true } in
    let same_conn : out ≡ sent = cc in
    let goes = send_packet-frame (frames ps) last last_sendable in
    let wrote : ended.outgoing ≡ frames ps ++ frame last = cc in
    let (n', steps, received) =
      receiver_steps-whole env n key g front back ps last pieces awaiting
        (subst (λ i. Carries env.cipher key i ps pieces) (sym same) carried)
        (opens ∙ ap (λ i. ok (end_packet i)) (sym same)) (omega (arith, ap length joins)) in
    (
      ps ++ (last ∷ []),
      suc (length (ps ++ (last ∷ []))),
      n',
      receive_packets-frames (ps ++ (last ∷ [])) (suc (length (ps ++ (last ∷ [])))) read_fuel cs
          (record { packets = []; closed = false })
          (All-append IsSendable ps (last ∷ []) (Carries-IsSendable env key f.id ps pieces carried)
            (last_sendable, tt))
          (arrives
            ∙ wrote
            ∙ sym (frames-append ps (last ∷ []) ∙ ap (◌++◌ (frames ps)) (append-nil (frame last))))
          (omega arith) more,
      steps,
      subst (λ x. HasReceived env n n' g x front back) joins received,
    )

id_of-put_u64 : (id : ℕ) → IsU64 id → id_of (put_u64 id) ≡ id
unfolding id_of
id_of-put_u64 id small =
    let reads : read_u64 (put_u64 id) ≡ ok (id, []) =
      ap read_u64 (sym (append-nil (put_u64 id))) ∙ read_u64-put_u64 id [] small in
    rw (id_of, reads) refl

-- A receiver that has a file in its place already, by its checksum, and a sender under the same key
-- and cipher whose current file it is: the round of the receiver on the FILE packet writes an
-- answer, and the round of the sender on that answer is the transfer section on a queue without the
-- file, which is again the files from the current one on.
pub sender_step-declined :
    (env : Surroundings) (senv : Env) (n : ReceiverNode) (s : SenderNode) (key : Option Bytes)
    (p : Packet) (f : File) (d : Disk) (out h : Bytes)
    → senv.cipher ≡ env.cipher
    → IsGcm env.cipher
    → IsKey key
    → IsSent env.max_alloc f
    → n.encryption_key ≡ key
    → n.conn ≡ record { outgoing = out; alive = true }
    → decrypt_body_if env.cipher key p ≡ ok (file_packet f)
    → env.mkdir_all (env.parent (placed env n f).path) n.disk ≡ ok d
    → env.stat d (placed env n f).path ≡ true
    → env.open_existing d (placed env n f).path ≡ some h
    → check_sum_of env.sha (d h) ≡ ok f.checksum
    → s.encryption_key ≡ key
    → IsQueue s
    → get_elem? s.files s.sending.current_file_id ≡ some f
    → (n' : ReceiverNode) × (answer : Packet) × (receiver_step env n p ≡ ok n')
      × (n'.conn ≡ record { outgoing = out ++ frame answer; alive = true })
      × (sender_step senv s answer ≡ transfer senv (skip_current s f))
      × IsQueue (skip_current s f)
unfolding sender_step react
sender_step-declined env senv n s key p f d out h ciphers gcm k sent same conn opens makes there
      opened sum skey queue at =
    let (n', steps, declined) =
      receiver_step-same_file env n key p f d out h gcm k sent same conn opens makes there opened
        sum in
    let current : f.id ≡ s.sending.current_file_id =
      HasIds-id 0 s.sending.current_file_id s.sending.current_file_id s.files f queue.ids at
        (omega arith) in
    let unseals : decrypt_body_if senv.cipher s.encryption_key declined.answer
        ≡ ok (have_packet f.id) =
      rw (ciphers, skey) declined.opens in
    let (skips, rest) =
      on_already_have-current s (put_u64 f.id) f queue (id_of-put_u64 f.id sent.id ∙ current) at in
    (
      n',
      declined.answer,
      steps,
      declined.wrote,
      rw
          (
            sender_step,
            ◌>>=◌,
            unseals,
            or_panic,
            kind_of-header_of Headers.already_have,
            react,
            skips,
          )
          refl,
      rest,
    )
