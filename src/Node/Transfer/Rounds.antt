-- ===== src/Node/Transfer/Rounds.antt =====
-- src/node/node.go, `send`: a round of the mainloop on READY, and which branch of the transfer
-- section it takes.
use ftu.Common.{
  ℕ, ◌+◌, ◌<◌, ◌≡◌, refl, ap, ◌∙◌, true, false, Option, none, some, List, ◌∷◌, ◌++◌, Bytes, length,
  replicate, ok, ◌>>=◌, arith,
}
use ftu.Encryption.{Cipher}
use ftu.Protocol.Headers
use ftu.Protocol.Headers.{kind_of-header_of}
use ftu.Protocol.Packet.{Packet, decrypt_body, decrypt_body_if}
use ftu.Node.State.{SenderNode, Env}
use ftu.Node.Sender.{or_panic, react}
use ftu.Node.Sender.Queue.{IsQueue}
use ftu.Node.Transfer.{announce, send_next_piece, transfer, sender_step, sender_loop}
use ftu.Node.Transfer.Serving.{Job, Serves, IsBefore, IsDuring}
use ftu.Node.Transfer.Heads.{queue_head}
use ftu.Node.Receiver.{ready_packet}

-- READY is read as it is, with and without a key.
decrypt_body_if-ready :
    (c : Cipher) (key : Option Bytes) → decrypt_body_if c key ready_packet ≡ ok ready_packet
unfolding decrypt_body_if decrypt_body
decrypt_body_if-ready c none = refl
decrypt_body_if-ready c (some key) = refl

abbrev pub ready_node : SenderNode → SenderNode
ready_node n = record n { sending = record n.sending { can_send_bytes = true } }

pub sender_step-ready :
    (env : Env) (n : SenderNode) → sender_step env n ready_packet ≡ transfer env (ready_node n)
unfolding sender_step react
sender_step-ready env n =
    rw
      (
        sender_step,
        ◌>>=◌,
        decrypt_body_if-ready env.cipher n.encryption_key,
        or_panic,
        kind_of-header_of Headers.ready,
        react,
      )
      refl

pub sender_loop_on :
    (env : Env) (n n' : SenderNode) (p : Packet) (ps : List Packet)
    → n.stopped ≡ false
    → sender_step env n p ≡ ok n'
    → sender_loop env n (p ∷ ps) ≡ sender_loop env n' ps
unfolding sender_loop
sender_loop_on env n n' p ps running steps = rw (sender_loop, ◌>>=◌, steps, running) refl

-- Which branch of the transfer section is taken.
pub transfer-announce :
    (env : Env) (n : SenderNode)
    → 0 < length n.sending.files_to_send
    → n.sending.allowed_to_transfer ≡ true
    → n.sending.in_transfer ≡ false
    → transfer env n ≡ announce env n
unfolding transfer
transfer-announce env n some_files allowed idle = ground arith

pub transfer-piece :
    (env : Env) (n : SenderNode)
    → 0 < length n.sending.files_to_send
    → n.sending.allowed_to_transfer ≡ true
    → n.sending.can_send_bytes ≡ true
    → n.sending.in_transfer ≡ true
    → transfer env n ≡ send_next_piece env n
unfolding transfer
transfer-piece env n some_files allowed can busy = ground arith

Serves-ready :
    (job : Job) (out : Bytes) (from : ℕ) (n : SenderNode)
    → Serves job out from n
    → Serves job out from (ready_node n)
Serves-ready job out from n v = record {
  queue = record {
    ids = v.queue.ids;
    small = v.queue.small;
    within = v.queue.within;
    queued = v.queue.queued;
  };
  running = v.running;
  same_key = v.same_key;
  conn = v.conn;
  allowed = v.allowed;
  counted = v.counted;
  kept = v.kept;
  readable = v.readable;
  fresh = v.fresh;
  same_links = v.same_links;
  queued_links = v.queued_links;
  no_link_sent = v.no_link_sent;
}

pub IsBefore-ready :
    (job : Job) (out : Bytes) (k : ℕ) (n : SenderNode)
    → IsBefore job out k n
    → IsBefore job out k (ready_node n)
IsBefore-ready job out k n b = record {
  serves = Serves-ready job out k n b.serves;
  current = b.current;
  idle = b.idle;
}

pub IsDuring-ready :
    (job : Job) (out : Bytes) (k sent : ℕ) (n : SenderNode)
    → IsDuring job out k sent n
    → IsDuring job out k sent (ready_node n)
IsDuring-ready job out k sent n b = record {
  serves = Serves-ready job out (k + 1) n b.serves;
  current = b.current;
  busy = b.busy;
  file = b.file;
  at = b.at;
  sent_bytes = b.sent_bytes;
}

pub some_queued :
    (n : SenderNode) (k : ℕ)
    → IsQueue n
    → n.sending.current_file_id ≡ k
    → k < length n.files
    → 0 < length n.sending.files_to_send
some_queued n k queue current inside =
    omega (arith, ap length (queue_head n k queue current inside))

-- A node that takes as many more READY packets as it needs, and then any others, as another takes
-- those alone.
abbrev pub Reaches : Env → SenderNode → ℕ → SenderNode → Type 0
Reaches env n rounds n' =
    (ps : List Packet)
    → sender_loop env n (replicate rounds ready_packet ++ ps) ≡ sender_loop env n' ps

-- A round that goes to the transfer section.
pub one_round :
    (env : Env) (n n' : SenderNode)
    → n.stopped ≡ false
    → transfer env (ready_node n) ≡ ok n'
    → Reaches env n 1 n'
one_round env n n' running e ps =
    sender_loop_on env n n' ready_packet ps running (sender_step-ready env n ∙ e)
