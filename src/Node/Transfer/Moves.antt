-- ===== src/Node/Transfer/Moves.antt =====
-- src/node/node.go, `send`: what the transfer section does at the head of the queue: FILE, a piece,
-- ENDFILE.
use ftu.Common.{
  ℕ, ◌+◌, ◌-◌, ◌%◌, ◌^◌, ◌≤◌, ◌<◌, ◌≡◌, refl, ap, ◌∙◌, true, false, some, ◌++◌, Bytes, length, set,
  take, drop, get_elem?, get_elem?_only, Outcome, ok, ◌>>=◌, arith,
}
use ftu.Fsys.Disk.{Disk, File, open_handle, close}
use ftu.Protocol.Headers
use ftu.Protocol.Headers.{header_of, header_delimeter}
use ftu.Protocol.Packet.{Packet, encrypt_body_if, decrypt_body_if}
use ftu.Protocol.Construct.{create_file_packet, file_body}
use ftu.Protocol.Delivery.{IsSendable, frame, send_packet-frame}
use ftu.Protocol.Room.{piece_packet}
use ftu.Protocol.Pieces.{IsAt, opened_file, closed-IsAt, open_handle-IsServed, send_piece_next}
use ftu.Protocol.Send.{Conn, Piece, send_piece, can_send_bytes, send_packet}
use ftu.Node.State.{SenderNode, Sending, Env}
use ftu.Node.Sender.{or_panic}
use ftu.Node.Sender.Queue.{IsQueue, HasIds-id}
use ftu.Node.Transfer.{announce, after_piece, send_next_piece}
use ftu.Node.Transfer.Serving.{get_elem?-set_same, Job, IsSound, IsBefore, IsDuring}
use ftu.Node.Receiving.Arrival.{file_packet}
use ftu.Node.Transfer.Heads.{
  IsHead, queue-IsHead, Serves-moved, IsQueue-set, length-file_header, sealed_packet,
}

announce-runs :
    (env : Env) (n : SenderNode) (k : ℕ) (f opened : File) (p : Packet) (conn : Conn)
    → IsHead n k f
    → open_handle env.os f n.disk ≡ ok (opened, n.disk)
    → encrypt_body_if env.cipher n.encryption_key (file_packet f) ≡ ok p
    → send_packet n.conn p ≡ ok conn
    → announce env n
      ≡ ok (record n {
        conn = conn;
        files = set n.files k (close env.os opened);
        sending = record n.sending { in_transfer = true };
      })
unfolding announce create_file_packet
announce-runs env n k f opened p conn head opens seals sends =
    rw
      (
        announce, ◌>>=◌, head.searched, head.pointer, head.found, create_file_packet, opens,
        or_panic, seals, sends,
      )
      refl

-- FILE: the next file is announced.
pub announce-IsDuring :
    (job : Job) (out : Bytes) (k : ℕ) (n : SenderNode) (f : File)
    → IsSound job
    → IsBefore job out k n
    → get_elem? n.files k ≡ some f
    → (p : Packet) × (n' : SenderNode) × (announce job.env n ≡ ok n')
      × IsDuring job (out ++ frame p) k 0 n'
      × IsSendable p
      × (decrypt_body_if job.env.cipher job.key p ≡ ok (file_packet f))
announce-IsDuring job out k n f sound b at =
    let v = b.serves in
    let inside = get_elem?_only n.files k f at in
    let readable = v.readable k f at in
    let fresh = v.fresh k f (omega arith) at in
    let opened = opened_file job.env.os n.disk f in
    let opens = open_handle-IsServed job.env.os n.disk (job.contents k) f readable.served in
    let moved : IsAt f 0 (close job.env.os opened) =
      closed-IsAt job.env.os n.disk f 0 fresh.unsent in
    let (p, seals, sendable, unseals) =
      sealed_packet job Headers.file (file_body f) sound
        (omega (arith, length-file_header, fresh.room)) in
    let seals' : encrypt_body_if job.env.cipher n.encryption_key (file_packet f) ≡ ok p =
      ap (λ key. encrypt_body_if job.env.cipher key (file_packet f)) v.same_key ∙ seals in
    let sends : send_packet n.conn p ≡ ok (record { outgoing = out ++ frame p; alive = true }) =
      ap (λ c. send_packet c p) v.conn ∙ send_packet-frame out p sendable in
    let queue : IsQueue (record n {
      files = set n.files k (close job.env.os opened);
      sending = record n.sending { in_transfer = true };
    }) =
      IsQueue-set n k f (close job.env.os opened) (record n.sending { in_transfer = true }) v.queue
        at moved.id refl refl in
    (
      p,
      record n {
        conn = record { outgoing = out ++ frame p; alive = true };
        files = set n.files k (close job.env.os opened);
        sending = record n.sending { in_transfer = true };
      },
      announce-runs job.env n k f opened p _ (queue-IsHead n k f v.queue b.current at) opens seals'
          sends,
      record {
        serves =
            Serves-moved job out (out ++ frame p) k (k + 1) k 0 n f (close job.env.os opened)
              (record n.sending { in_transfer = true }) v (omega arith) (omega arith) at moved queue
              v.allowed refl refl;
        current = b.current;
        busy = refl;
        file = close job.env.os opened;
        at = get_elem?-set_same n.files k (close job.env.os opened) inside;
        sent_bytes = moved.sent_bytes;
      },
      sendable,
      unseals,
    )

pub send_next_piece-runs :
    (env : Env) (n : SenderNode) (k : ℕ) (f : File) (piece : Piece)
    → IsHead n k f
    → send_piece env.cipher env.os f n.conn n.encryption_key n.disk ≡ ok (piece, n.disk)
    → send_next_piece env n
      ≡ after_piece env
          (record n {
            conn = piece.conn;
            files = set n.files k piece.file;
            sending = record n.sending {
              sent_bytes = (n.sending.sent_bytes + piece.sent) % 2 ^ 64;
            };
          })
          0
          piece.file
          piece.error
unfolding send_next_piece
send_next_piece-runs env n k f piece head sends =
    rw (send_next_piece, ◌>>=◌, head.searched, head.pointer, head.found, sends) refl

-- What is known of a node during its `k`-th file.
pub during_id :
    (job : Job) (out : Bytes) (k sent : ℕ) (n : SenderNode) (b : IsDuring job out k sent n)
    → b.file.id ≡ k
during_id job out k sent n b = HasIds-id 0 k k n.files b.file b.serves.queue.ids b.at (omega arith)

-- A call of `SendPiece` on the connection and the key of the node.
pub send_piece_with :
    (job : Job) (out : Bytes) (n : SenderNode) (f : File) (r : Outcome (Piece × Disk))
    → n.conn ≡ record { outgoing = out; alive = true }
    → n.encryption_key ≡ job.key
    → send_piece job.env.cipher job.env.os f
        (record { outgoing = out; alive = true })
        job.key
        n.disk
      ≡ r
    → send_piece job.env.cipher job.env.os f n.conn n.encryption_key n.disk ≡ r
send_piece_with job out n f r conn key e =
    ap (λ c. send_piece job.env.cipher job.env.os f c n.encryption_key n.disk) conn
    ∙ ap
        (λ x.
          send_piece job.env.cipher job.env.os f (record { outgoing = out; alive = true }) x n.disk)
        key
    ∙ e

-- A piece of the current file.
pub send_next_piece-IsDuring :
    (job : Job) (out : Bytes) (k sent : ℕ) (n : SenderNode)
    → IsSound job
    → IsDuring job out k sent n
    → sent < length (job.contents k)
    → (count : ℕ) × (p : Packet) × (n' : SenderNode) × (send_next_piece job.env n ≡ ok n')
      × IsDuring job (out ++ frame p) k (sent + count) n'
      × IsSendable p
      × (decrypt_body_if job.env.cipher job.key p
          ≡ ok (piece_packet k (take count (drop sent (job.contents k)))))
      × (0 < count)
      × (count ≤ length (job.contents k) - sent)
unfolding after_piece
send_next_piece-IsDuring job out k sent n sound b more =
    let v = b.serves in
    let f = b.file in
    let readable = v.readable k f b.at in
    let count = can_send_bytes job.key f in
    let (p, f', sends, sendable, opens, moved, some_bytes, left) =
      send_piece_next job.env.cipher job.env.os n.disk (job.contents k) f out job.key sound.gcm
        readable.served readable.long readable.small (omega (arith, readable.long, b.sent_bytes))
        sound.valid in
    let s : Sending = record n.sending {
      sent_bytes = (n.sending.sent_bytes + count) % 2 ^ 64;
      can_send_bytes = false;
    } in
    let sends' = send_piece_with job out n f _ v.conn v.same_key sends in
    let queue = IsQueue-set n k f f' s v.queue b.at moved.id refl refl in
    (
      count,
      p,
      record n {
        conn = record { outgoing = out ++ frame p; alive = true };
        files = set n.files k f';
        sending = s;
      },
      send_next_piece-runs job.env n k f _ (queue-IsHead n k f v.queue b.current b.at) sends',
      record {
        serves =
            Serves-moved job out (out ++ frame p) (k + 1) (k + 1) k (f.sent_bytes + count) n f f' s
              v (omega arith) (omega arith) b.at moved queue v.allowed refl refl;
        current = b.current;
        busy = b.busy;
        file = f';
        at = get_elem?-set_same n.files k f' (get_elem?_only n.files k f b.at);
        sent_bytes = moved.sent_bytes ∙ ap (λ x. x + count) b.sent_bytes;
      },
      sendable,
      opens
          ∙ ap (λ i. ok (piece_packet i (take count (drop f.sent_bytes (job.contents k)))))
              (during_id job out k sent n b)
          ∙ ap (λ x. ok (piece_packet k (take count (drop x (job.contents k))))) b.sent_bytes,
      some_bytes,
      omega (arith, readable.long, b.sent_bytes),
    )
