-- ===== src/Node/Transfer/Ends.antt =====
-- src/node/node.go, `send`: the end of a file, which takes it out of the queue.
use ftu.Common.{
  ℕ, suc, ◌+◌, ◌-◌, ◌%◌, ◌^◌, ◌≡◌, refl, sym, ap, ◌∙◌, true, false, ◌++◌, Bytes, length, set,
  get_elem?_only, ok, ◌>>=◌, arith,
}
use ftu.Common.BigEndian.{put_u64, length-put_u64}
use ftu.Fsys.Disk.{File}
use ftu.Protocol.Headers
use ftu.Protocol.Headers.{header_of}
use ftu.Protocol.Packet.{Packet, encrypt_body_if, decrypt_body_if}
use ftu.Protocol.Delivery.{IsSendable, frame, send_packet-frame}
use ftu.Protocol.Pieces.{send_piece_end}
use ftu.Protocol.Send.{Conn, send_packet}
use ftu.Node.State.{SenderNode, Sending, Env, positions}
use ftu.Node.Sender.{or_panic}
use ftu.Node.Sender.Queue.{IsQueue}
use ftu.Node.Transfer.{without, end_file, after_piece, send_next_piece}
use ftu.Node.Transfer.Serving.{length-set, HasIds-set, Job, IsSound, IsBefore, IsDuring}
use ftu.Node.Transfer.Heads.{
  queue_head, queue-IsHead, Serves-moved, sealed_packet, length-endfile_header,
}
use ftu.Node.Transfer.Moves.{send_next_piece-runs, send_piece_with, during_id}
use ftu.Node.Receiving.Whole.{end_packet}

end_file-runs :
    (env : Env) (n : SenderNode) (f : File) (k m : ℕ) (p : Packet) (conn : Conn)
    → n.sending.files_to_send ≡ positions k (suc m)
    → encrypt_body_if env.cipher n.encryption_key (end_packet f.id) ≡ ok p
    → send_packet n.conn p ≡ ok conn
    → end_file env n 0 f
      ≡ ok (record n {
        conn = conn;
        sending = record n.sending {
          files_to_send = positions (k + 1) m;
          current_file_id = (n.sending.current_file_id + 1) % 2 ^ 64;
          in_transfer = false;
        };
      })
unfolding end_file
end_file-runs env n f k m p conn queued seals sends =
    let shorter : without n.sending.files_to_send 0 ≡ positions (k + 1) m =
      ap (λ q. without q 0) queued in
    rw (end_file, ◌>>=◌, or_panic, seals, sends, shorter) refl

-- ENDFILE: the file was sent, and the next is the current one.
pub send_next_piece-IsBefore :
    (job : Job) (out : Bytes) (k sent : ℕ) (n : SenderNode)
    → IsSound job
    → IsDuring job out k sent n
    → sent ≡ length (job.contents k)
    → (p : Packet) × (n' : SenderNode) × (send_next_piece job.env n ≡ ok n')
      × IsBefore job (out ++ frame p) (k + 1) n'
      × IsSendable p
      × (decrypt_body_if job.env.cipher job.key p ≡ ok (end_packet k))
unfolding after_piece
send_next_piece-IsBefore job out k sent n sound b done =
    let v = b.serves in
    let f = b.file in
    let readable = v.readable k f b.at in
    let inside = get_elem?_only n.files k f b.at in
    let m = length n.files - (k + 1) in
    let (f', sends, moved) =
      send_piece_end job.env.cipher job.env.os n.disk (job.contents k) f
        (record { outgoing = out; alive = true }) job.key readable.served
        (omega (arith, readable.long, b.sent_bytes)) in
    let sends' = send_piece_with job out n f _ v.conn v.same_key sends in
    let n1 : SenderNode = record n {
      conn = record { outgoing = out; alive = true };
      files = set n.files k f';
      sending = record n.sending { sent_bytes = (n.sending.sent_bytes + 0) % 2 ^ 64 };
    } in
    let same : f'.id ≡ k = moved.id ∙ during_id job out k sent n b in
    let (p, seals, sendable, unseals) =
      sealed_packet job Headers.endfile (put_u64 f'.id) sound
        (omega (arith, length-endfile_header, length-put_u64 f'.id)) in
    let seals' : encrypt_body_if job.env.cipher n.encryption_key (end_packet f'.id) ≡ ok p =
      ap (λ key. encrypt_body_if job.env.cipher key (end_packet f'.id)) v.same_key ∙ seals in
    let current : (n.sending.current_file_id + 1) % 2 ^ 64 ≡ k + 1 =
      omega (arith, b.current, v.queue.small) in
    let s : Sending = record n1.sending {
      files_to_send = positions (k + 1) m;
      current_file_id = (n.sending.current_file_id + 1) % 2 ^ 64;
      in_transfer = false;
    } in
    let queue : IsQueue (record n { files = set n.files k f'; sending = s }) =
      let count = length-set n.files k f' in
      record {
        ids = HasIds-set 0 k n.files f f' v.queue.ids b.at moved.id;
        small = omega (arith, v.queue.small);
        within = omega arith;
        queued =
            ap (λ i. positions i (length n.files - i)) (sym current)
            ∙ ap (λ l. positions s.current_file_id (l - s.current_file_id)) (sym count);
      } in
    (
      p,
      record n {
        conn = record { outgoing = out ++ frame p; alive = true };
        files = set n.files k f';
        sending = s;
      },
      send_next_piece-runs job.env n k f _ (queue-IsHead n k f v.queue b.current b.at) sends'
          ∙ end_file-runs job.env n1 f' k m p _ (queue_head n k v.queue b.current inside) seals'
              (send_packet-frame out p sendable),
      record {
        serves =
            Serves-moved job out (out ++ frame p) (k + 1) (k + 1) k f.sent_bytes n f f' s v
              (omega arith) (omega arith) b.at moved queue v.allowed refl refl;
        current = current;
        idle = refl;
      },
      sendable,
      unseals ∙ ap (λ i. ok (end_packet i)) same,
    )
