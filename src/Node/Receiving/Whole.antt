-- ===== src/Node/Receiving/Whole.antt =====
-- src/node/node.go, `receive`: a whole file, from its first piece to ENDFILE.
use ftu.Common.{
  Bool-cases, inl, inr, ℕ, ◌+◌, ◌%◌, ◌^◌, ◌<◌, ◌≡◌, refl, sym, ap, subst, ◌∙◌, ◌≢◌, true, false,
  Option, none, some, List, [], ◌∷◌, ◌++◌, append-nil, append_assoc, Bytes, length, length-append,
  All, ok, ◌>>=◌, arith,
}
use ftu.Common.BigEndian.{IsU64, put_u64, read_u64, read_u64-put_u64}
use ftu.Fsys.Disk.{update, Disk, regular, File}
use ftu.Protocol.Headers
use ftu.Protocol.Headers.{header_of, kind_of, kind_of-header_of}
use ftu.Protocol.Packet.{Packet, to_bytes, decrypt_body_if}
use ftu.Protocol.Delivery.{frame}
use ftu.Protocol.Room.{piece_packet}
use ftu.Protocol.Pieces.Whole.{Carries, joined}
use ftu.Protocol.Send.{Conn, send_packet, write}
use ftu.Node.Sender.{or_panic}
use ftu.Node.Receiver.{Surroundings, ReceiverNode, ready_packet}
use ftu.Node.Receiving.{on_file_bytes, on_endfile, receive_packet, receiver_step, receiver_steps}
use ftu.Node.Receiving.Writing.{
  IsWritable, new-IsWritable, write_piece-IsWritable, write_pieces-one, end_loop-one,
}

-- READY can always be sent.
pub send_packet-ready :
    (conn : Conn) → send_packet conn ready_packet ≡ ok (write (frame ready_packet) conn)
unfolding send_packet to_bytes header_of put_u64
send_packet-ready conn = refl

-- The packet that ends a file.
abbrev pub end_packet : ℕ → Packet
end_packet id = record { header = header_of Headers.endfile; body = put_u64 id }

-- A running node with a file in its pool, of which the bytes so far are written on a disk that is
-- otherwise as it was at the start, and so are the key, the place of downloads and the connection.
pub record IsReceiving (env : Surroundings) (n : ReceiverNode) (key : Option Bytes) (id : ℕ)
    (start : ReceiverNode) (h sofar : Bytes) (front back : List File) : Type 0 where
  pub running : n.stopped ≡ false
  pub same_key : n.encryption_key ≡ key
  pub current : File
  pub pool : n.accepted_files ≡ front ++ (current ∷ back)
  pub same : current.id ≡ id
  pub writable : IsWritable env start.disk current n.disk h sofar
  pub same_place : n.downloads_path ≡ start.downloads_path
  pub alive : n.conn.alive ≡ start.conn.alive

write-alive : (bs : Bytes) (c : Conn) → (write bs c).alive ≡ c.alive
write-alive bs c = elim (Bool-cases c.alive) [ inl e ↦ rw e refl | inr e ↦ rw e refl ]

receiver_steps_on :
    (env : Surroundings) (n n' : ReceiverNode) (p : Packet) (ps : List Packet)
    → n.stopped ≡ false
    → receiver_step env n p ≡ ok n'
    → receiver_steps env n (p ∷ ps) ≡ receiver_steps env n' ps
unfolding receiver_steps
receiver_steps_on env n n' p ps running steps = rw (receiver_steps, ◌>>=◌, steps, running) refl

receiver_steps_none : (env : Surroundings) (n : ReceiverNode) → receiver_steps env n [] ≡ ok n
unfolding receiver_steps
receiver_steps_none env n = refl

module _ (env : Surroundings) (key : Option Bytes) (id : ℕ) (start : ReceiverNode) (h : Bytes)
    (front back : List File) (small_id : IsU64 id) (before : All (λ f. f.id ≢ id) front)
    (behind : All (λ f. f.id ≢ id) back) (can : (d : Disk) → env.can_write d h ≡ true) where
  -- One piece.
  pub receiver_step-piece :
      (n : ReceiverNode) (p : Packet) (sofar bytes : Bytes)
      → IsReceiving env n key id start h sofar front back
      → decrypt_body_if env.cipher key p ≡ ok (piece_packet id bytes)
      → length sofar + length bytes < 2 ^ 63
      → (n' : ReceiverNode) × (receiver_step env n p ≡ ok n')
        × IsReceiving env n' key id start h (sofar ++ bytes) front back
        × (n'.received_bytes ≡ (n.received_bytes + length bytes) % 2 ^ 64)
        × (n'.conn ≡ write (frame ready_packet) n.conn)
        × (n'.offers ≡ n.offers)
  unfolding receiver_step receive_packet on_file_bytes
  receiver_step-piece n p sofar bytes r opens small =
      let f = r.current in
      let (g, e, writes, kept, writable) =
        write_piece-IsWritable env h can start.disk f n.disk sofar bytes r.writable small in
      let opens' : decrypt_body_if env.cipher n.encryption_key p ≡ ok (piece_packet id bytes) =
        rw r.same_key opens in
      let n' : ReceiverNode = record n {
        conn = write (frame ready_packet) n.conn;
        accepted_files = front ++ (g ∷ back);
        disk = e;
        received_bytes = (n.received_bytes + length bytes) % 2 ^ 64;
      } in
      (
        n',
        rw
            (
              receiver_step,
              ◌>>=◌,
              opens',
              or_panic,
              kind_of-header_of Headers.file_bytes,
              receive_packet,
              on_file_bytes,
              read_u64-put_u64 id bytes small_id,
              r.pool,
              write_pieces-one env h can id bytes front back f g n.disk e n.received_bytes before
                  behind r.same writes,
              send_packet-ready n.conn,
            )
            refl,
        record {
          running = r.running;
          same_key = r.same_key;
          current = g;
          pool = refl;
          same = kept ∙ r.same;
          writable = writable;
          same_place = r.same_place;
          alive = write-alive (frame ready_packet) n.conn ∙ r.alive;
        },
        refl,
        refl,
        refl,
      )

  -- All pieces.

  receiver_steps-pieces :
      (n : ReceiverNode) (ps : List Packet) (pieces : List Bytes) (sofar : Bytes)
      → IsReceiving env n key id start h sofar front back
      → Carries env.cipher key id ps pieces
      → length sofar + length (joined pieces) < 2 ^ 63
      → (n' : ReceiverNode) × ((qs : List Packet)
          → receiver_steps env n (ps ++ qs) ≡ receiver_steps env n' qs)
        × IsReceiving env n' key id start h (sofar ++ joined pieces) front back
        × (n'.received_bytes % 2 ^ 64 ≡ (n.received_bytes + length (joined pieces)) % 2 ^ 64)
  unfolding receiver_steps
  receiver_steps-pieces n [] [] sofar r carried small =
      (n, λ qs. refl, rw append-nil r, omega arith)
  receiver_steps-pieces n [] (b ∷ bs) sofar r carried small = absurd carried
  receiver_steps-pieces n (p ∷ ps) [] sofar r carried small = absurd carried
  receiver_steps-pieces n (p ∷ ps) (b ∷ bs) sofar r (sendable, opens, carried) small =
      let long = length-append b (joined bs) in
      let (n1, steps, r1, count1, conn, offers) =
        receiver_step-piece n p sofar b r opens (omega arith) in
      let (n2, rest, r2, count2) =
        receiver_steps-pieces n1 ps bs (sofar ++ b) r1 carried
          (omega (arith, length-append sofar b)) in
      (
        n2,
        λ qs. receiver_steps_on env n n1 p (ps ++ qs) r.running steps ∙ rest qs,
        subst (λ x. IsReceiving env n2 key id start h x front back)
            (append_assoc sofar b (joined bs)) r2,
        omega arith,
      )

  -- ENDFILE.
  pub receiver_step-end :
      (n : ReceiverNode) (p : Packet) (sofar : Bytes)
      → IsReceiving env n key id start h sofar front back
      → decrypt_body_if env.cipher key p ≡ ok (end_packet id)
      → (n' : ReceiverNode) × (receiver_step env n p ≡ ok n')
        × (n'.accepted_files ≡ front ++ back)
        × (n'.disk ≡ update start.disk h (some (regular sofar)))
        × (n'.received_bytes ≡ n.received_bytes)
        × (n'.stopped ≡ false)
        × (n'.encryption_key ≡ key)
        × (n'.downloads_path ≡ start.downloads_path)
        × (n'.conn.alive ≡ start.conn.alive)
        × (n'.conn ≡ write (frame ready_packet) n.conn)
        × (n'.offers ≡ n.offers)
  unfolding receiver_step receive_packet on_endfile
  receiver_step-end n p sofar r opens =
      let opens' : decrypt_body_if env.cipher n.encryption_key p ≡ ok (end_packet id) =
        rw r.same_key opens in
      let (e, ends, found) =
        end_loop-one env h can start.disk id front back r.current n.disk sofar before r.same
          r.writable in
      let reads : read_u64 (put_u64 id) ≡ ok (id, []) =
        ap read_u64 (sym (append-nil (put_u64 id))) ∙ read_u64-put_u64 id [] small_id in
      (
        record n {
          conn = write (frame ready_packet) n.conn;
          accepted_files = front ++ back;
          disk = e;
        },
        rw
            (
              receiver_step,
              ◌>>=◌,
              opens',
              or_panic,
              kind_of-header_of Headers.endfile,
              receive_packet,
              on_endfile,
              reads,
              r.pool,
              ends,
              send_packet-ready n.conn,
            )
            refl,
        refl,
        found,
        refl,
        r.running,
        r.same_key,
        r.same_place,
        write-alive (frame ready_packet) n.conn ∙ r.alive,
        refl,
        refl,
      )

-- A running node that has accepted a new file, no other with the same ID, and nothing stands where
-- the file goes, which takes writes.
pub record IsAwaiting (env : Surroundings) (n : ReceiverNode) (key : Option Bytes) (f : File)
    (front back : List File) : Type 0 where
  pub running : n.stopped ≡ false
  pub same_key : n.encryption_key ≡ key
  pub pool : n.accepted_files ≡ front ++ (f ∷ back)
  pub small_id : IsU64 f.id
  pub before : All (λ g. g.id ≢ f.id) front
  pub behind : All (λ g. g.id ≢ f.id) back
  pub closed : f.handler ≡ none
  pub fresh : f.sent_bytes ≡ 0
  pub can_open : env.os.can_open n.disk f.path ≡ true
  pub missing : n.disk (env.os.resolve n.disk f.path) ≡ none
  pub can_write : (d : Disk) → env.can_write d (env.os.resolve n.disk f.path) ≡ true

-- What the node is like once the file is there.
pub record HasReceived (env : Surroundings) (n n' : ReceiverNode) (f : File) (content : Bytes)
    (front back : List File) : Type 0 where
  pub written : n'.disk ≡ update n.disk (env.os.resolve n.disk f.path) (some (regular content))
  pub pool : n'.accepted_files ≡ front ++ back
  pub counted : n'.received_bytes % 2 ^ 64 ≡ (n.received_bytes + length content) % 2 ^ 64
  pub running : n'.stopped ≡ false
  pub same_key : n'.encryption_key ≡ n.encryption_key
  pub same_place : n'.downloads_path ≡ n.downloads_path
  pub alive : n'.conn.alive ≡ n.conn.alive

-- The packets that carry the pieces of a file, less than 2 ^ 63 bytes together, followed by its
-- ENDFILE, on a running node that awaits this file, leave a disk on which the file holds the pieces
-- one behind the other and all else is as it was; the file leaves the pool, the others stay, the
-- bytes are counted, and the node runs on with the same key and place of downloads, over a
-- connection that is as alive as before.
pub receiver_steps-whole :
    (env : Surroundings) (n : ReceiverNode) (key : Option Bytes) (f : File) (front back : List File)
    (ps : List Packet) (last : Packet) (pieces : List Bytes)
    → IsAwaiting env n key f front back
    → Carries env.cipher key f.id ps pieces
    → decrypt_body_if env.cipher key last ≡ ok (end_packet f.id)
    → length (joined pieces) < 2 ^ 63
    → (n' : ReceiverNode) × (receiver_steps env n (ps ++ (last ∷ [])) ≡ ok n')
      × HasReceived env n n' f (joined pieces) front back
receiver_steps-whole env n key f front back ps last pieces a carried opens small =
    let h = env.os.resolve n.disk f.path in
    let start : IsReceiving env n key f.id n h [] front back = record {
      running = a.running;
      same_key = a.same_key;
      current = f;
      pool = a.pool;
      same = refl;
      writable = new-IsWritable env f n.disk a.closed a.fresh a.can_open a.missing;
      same_place = refl;
      alive = refl;
    } in
    let (n1, steps, r, count) =
      receiver_steps-pieces env key f.id n h front back a.small_id a.before a.behind a.can_write n
        ps pieces [] start carried (omega arith) in
    let (n2, ends, pool, written, same, running, kept, place, alive, conn, offers) =
      receiver_step-end env key f.id n h front back a.small_id a.before a.behind a.can_write n1 last
        (joined pieces) r opens in
    (
      n2,
      steps (last ∷ [])
          ∙ receiver_steps_on env n1 n2 last [] r.running ends
          ∙ receiver_steps_none env n2,
      record {
        written = written;
        pool = pool;
        counted = ap (λ x. x % 2 ^ 64) same ∙ count;
        running = running;
        same_key = kept ∙ sym a.same_key;
        same_place = place;
        alive = alive;
      },
    )
