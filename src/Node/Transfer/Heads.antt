-- ===== src/Node/Transfer/Heads.antt =====
-- src/node/node.go, `send`: the file at the head of the queue, and packets that are sent for it.
use ftu.Common.{
  ℕ, suc, ◌+◌, ◌-◌, ◌≤◌, ◌<◌, ◌≡◌, refl, sym, ap, subst, ◌∙◌, inl, inr, true, some, ◌++◌, Bytes,
  length, length-append, set, get_elem?, get_elem?_only, ok, arith,
}
use ftu.Fsys.Disk.{File}
use ftu.Protocol.Headers
use ftu.Protocol.Headers.{header_of, header_delimeter}
use ftu.Protocol.Packet.{Packet, encrypt_body_if, decrypt_body_if}
use ftu.Protocol.Packet.Framing.{header_of-plain}
use ftu.Protocol.Delivery.{IsSendable}
use ftu.Protocol.Offer.{encrypt_body_if-total, overhead_bound}
use ftu.Protocol.Pieces.{IsAt}
use ftu.Node.State.{SenderNode, Sending, positions}
use ftu.Node.Sender.{index}
use ftu.Node.Sender.Queue.{IsQueue}
use ftu.Node.Transfer.{current_index}
use ftu.Node.Transfer.Serving.{
  length-set, get_elem?-set, get_elem?-set_other, HasIds-set, IsReadable, IsReadable-moved, Job,
  IsSound, Serves, current_index-head,
}

-- The head of the queue.
pub queue_head :
    (n : SenderNode) (k : ℕ)
    → IsQueue n
    → n.sending.current_file_id ≡ k
    → k < length n.files
    → n.sending.files_to_send ≡ positions k (suc (length n.files - (k + 1)))
queue_head n k queue current inside =
    let count : length n.files - k ≡ suc (length n.files - (k + 1)) = omega arith in
    queue.queued ∙ ap (λ i. positions i (length n.files - i)) current ∙ ap (positions k) count

-- The file that the transfer section finds there.
pub record IsHead (n : SenderNode) (k : ℕ) (f : File) : Type 0 where
  pub searched : current_index n.sending.current_file_id n.files n.sending.files_to_send 0 ≡ ok 0
  pub pointer : index n.sending.files_to_send 0 ≡ ok k
  pub found : index n.files k ≡ ok f

pub queue-IsHead :
    (n : SenderNode) (k : ℕ) (f : File)
    → IsQueue n
    → n.sending.current_file_id ≡ k
    → get_elem? n.files k ≡ some f
    → IsHead n k f
queue-IsHead n k f queue current at =
    let queued = queue_head n k queue current (get_elem?_only n.files k f at) in
    record {
      searched =
          rw (queued, current)
            (current_index-head n.files f k (length n.files - (k + 1)) queue.ids at);
      pointer = ap (λ q. index q 0) queued;
      found = rw (index, at) refl;
    }

-- A node serves on if its current file has only moved on.
pub Serves-moved :
    (job : Job) (out out' : Bytes) (from from' k x : ℕ) (n : SenderNode) (f g : File) (s : Sending)
    → Serves job out from n
    → from ≤ from'
    → k < from'
    → get_elem? n.files k ≡ some f
    → IsAt f x g
    → IsQueue (record n { files = set n.files k g; sending = s })
    → s.allowed_to_transfer ≡ true
    → s.symlinks_to_send ≡ n.sending.symlinks_to_send
    → s.current_symlink_index ≡ n.sending.current_symlink_index
    → Serves job out' from' (record n {
      conn = record { outgoing = out'; alive = true };
      files = set n.files k g;
      sending = s;
    })
Serves-moved job out out' from from' k x n f g s v later done at moved queue allowed links sent =
    record {
      queue = record {
        ids = queue.ids;
        small = queue.small;
        within = queue.within;
        queued = queue.queued;
      };
      running = v.running;
      same_key = v.same_key;
      conn = refl;
      allowed = allowed;
      counted = length-set n.files k g ∙ v.counted;
      kept = λ i le.
          get_elem?-set_other n.files k i g (λ e. absurd (omega arith)) ∙ v.kept i (omega arith);
      readable = λ i y e. elim (get_elem?-set n.files k i g y e) [
        | inl (here, same) ↦
            subst (λ z. IsReadable job.env.os n.disk z (job.contents i)) (sym same)
              (IsReadable-moved job.env.os n.disk f g (job.contents i) x moved (
                subst (λ j. IsReadable job.env.os n.disk f (job.contents j)) (sym here)
                  (v.readable k f at)))
        | inr (other, e') ↦ v.readable i y e'
      ];
      fresh = λ i y le e. elim (get_elem?-set n.files k i g y e) [
        | inl (here, same) ↦ absurd (omega arith)
        | inr (other, e') ↦ v.fresh i y (omega arith) e'
      ];
      same_links = v.same_links;
      queued_links = links ∙ v.queued_links;
      no_link_sent = sent ∙ v.no_link_sent;
    }

-- The queue is not touched by a write to a file in it.
pub IsQueue-set :
    (n : SenderNode) (k : ℕ) (f g : File) (s : Sending)
    → IsQueue n
    → get_elem? n.files k ≡ some f
    → g.id ≡ f.id
    → s.current_file_id ≡ n.sending.current_file_id
    → s.files_to_send ≡ n.sending.files_to_send
    → IsQueue (record n { files = set n.files k g; sending = s })
IsQueue-set n k f g s queue at same current queued =
    let count = length-set n.files k g in
    record {
      ids = HasIds-set 0 k n.files f g queue.ids at same;
      small = omega (arith, queue.small);
      within = omega (arith, queue.within);
      queued =
          queued
          ∙ queue.queued
          ∙ ap (λ i. positions i (length n.files - i)) (sym current)
          ∙ ap (λ m. positions s.current_file_id (m - s.current_file_id)) (sym count);
    }

pub length-file_header : length (header_of Headers.file) ≡ 4
unfolding header_of
length-file_header = refl

pub length-endfile_header : length (header_of Headers.endfile) ≡ 7
unfolding header_of
length-endfile_header = refl

-- A packet with a header of the protocol and room for the encryption is sealed and sent.
pub sealed_packet :
    (job : Job) (kind : Headers.Kind) (body : Bytes)
    → IsSound job
    → length (header_of kind) + length body + 29 ≤ 131072
    → let clear : Packet = record { header = header_of kind; body = body } in
      (p : Packet) × (encrypt_body_if job.env.cipher job.key clear ≡ ok p)
      × IsSendable p
      × (decrypt_body_if job.env.cipher job.key p ≡ ok clear)
sealed_packet job kind body sound room =
    let clear : Packet = record { header = header_of kind; body = body } in
    let (p, e, header, long, opens) =
      encrypt_body_if-total job.env.cipher sound.gcm job.key clear sound.valid in
    (
      p,
      e,
      record {
        plain_header = rw header (header_of-plain kind);
        small = omega (
          arith,
          ap length header,
          overhead_bound job.key,
          length-append p.header (header_delimeter ++ p.body),
        );
      },
      opens,
    )
