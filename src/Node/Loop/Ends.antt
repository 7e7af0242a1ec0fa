-- ===== src/Node/Loop/Ends.antt =====
-- src/node/node.go: how the mainloop of `receive` ends.
use ftu.Common.{
  ◌≡◌, refl, sym, ap, ◌∙◌, true, false, Option, some, List, [], ◌∷◌, ◌++◌, append-nil, Bytes,
  length, ◌<◌, ◌^◌, ok, ◌>>=◌, Bool-cases, inl, inr, >>=-eq-ok,
}
use ftu.Common.BigEndian.{put_u64}
use ftu.Fsys.Disk.{update, File, regular}
use ftu.Protocol.Headers
use ftu.Protocol.Headers.{header_of, kind_of-header_of}
use ftu.Protocol.Packet.{Packet, to_bytes, decrypt_body_if}
use ftu.Protocol.Delivery.{frame}
use ftu.Protocol.Pieces.Whole.{Carries, joined}
use ftu.Protocol.Send.{send_packet}
use ftu.Node.Sender.{or_panic}
use ftu.Node.Receiver.{Surroundings, ReceiverNode}
use ftu.Node.Receiving.{receive_packet, receiver_step, receiver_steps}
use ftu.Node.Receiving.Whole.{end_packet, IsAwaiting, receiver_steps-whole}
use ftu.Node.Transfer.Leaving.{done_packet, bye_packet, decrypt_body_if-no_body}
use ftu.Node.Loop.{left, exited, disconnect_receiver, receiver_loop}

-- A node that has said BYE!, where its connection still took it.
abbrev pub gone : ReceiverNode → Bytes → ReceiverNode
gone n out = record n { conn = record { outgoing = out; alive = false }; stopped = true }

pub disconnect_receiver-total :
    (n : ReceiverNode) → (out : Bytes) × (disconnect_receiver n ≡ ok (gone n out))
unfolding disconnect_receiver send_packet to_bytes header_of
disconnect_receiver-total n = (_, refl)

pub receiver_step-done :
    (env : Surroundings) (n : ReceiverNode)
    → receiver_step env n done_packet ≡ ok (record n { stopped = true })
unfolding receiver_step receive_packet
receiver_step-done env n =
    rw
      (
        receiver_step,
        ◌>>=◌,
        decrypt_body_if-no_body env.cipher n.encryption_key (header_of Headers.done),
        or_panic,
        kind_of-header_of Headers.done,
        receive_packet,
      )
      refl

pub receiver_loop-step :
    (env : Surroundings) (n n1 : ReceiverNode) (p : Packet) (ps : List Packet)
    → n.stopped ≡ false
    → receiver_step env n p ≡ ok n1
    → receiver_loop env n (p ∷ ps) ≡ receiver_loop env n1 ps
unfolding receiver_loop
receiver_loop-step env n n1 p ps running goes = rw (receiver_loop, ◌>>=◌, goes, running) refl

pub disconnect_receiver-alive :
    (n : ReceiverNode)
    → n.conn.alive ≡ true
    → disconnect_receiver n ≡ ok (gone n (n.conn.outgoing ++ frame bye_packet))
unfolding disconnect_receiver send_packet to_bytes header_of put_u64
disconnect_receiver-alive n alive = rw alive refl

pub receiver_loop-stopped :
    (env : Surroundings) (n m : ReceiverNode) (ps : List Packet)
    → n.stopped ≡ true
    → disconnect_receiver n ≡ ok m
    → receiver_loop env n ps ≡ ok (left m)
unfolding receiver_loop
receiver_loop-stopped env n m [] stopped leaves = rw (receiver_loop, ◌>>=◌, leaves, stopped) refl
receiver_loop-stopped env n m (p ∷ ps) stopped leaves =
    rw (receiver_loop, ◌>>=◌, leaves, stopped) refl

receiver_steps_stopped :
    (env : Surroundings) (n : ReceiverNode) (ps : List Packet)
    → n.stopped ≡ true
    → receiver_steps env n ps ≡ ok n
unfolding receiver_steps
receiver_steps_stopped env n [] stopped = refl
receiver_steps_stopped env n (p ∷ ps) stopped = rw (receiver_steps, stopped) refl

receiver_steps_running :
    (env : Surroundings) (n : ReceiverNode) (p : Packet) (ps : List Packet)
    → n.stopped ≡ false
    → receiver_steps env n (p ∷ ps) ≡ (receiver_step env n p >>= λ n'. receiver_steps env n' ps)
unfolding receiver_steps
receiver_steps_running env n p ps running = rw (receiver_steps, running) refl

pub receiver_steps_none : (env : Surroundings) (n : ReceiverNode) → receiver_steps env n [] ≡ ok n
unfolding receiver_steps
receiver_steps_none env n = refl

-- A loop whose node is still running after some rounds goes on from there.
pub receiver_loop-append :
    (env : Surroundings) (n n1 : ReceiverNode) (ps qs : List Packet)
    → receiver_steps env n ps ≡ ok n1
    → n1.stopped ≡ false
    → receiver_loop env n (ps ++ qs) ≡ receiver_loop env n1 qs
receiver_loop-append env n n1 [] qs steps running =
    let same : n ≡ n1 = cc (receiver_steps_none env n) in ap (λ m. receiver_loop env m qs) same
receiver_loop-append env n n1 (p ∷ ps) qs steps running = elim (Bool-cases n.stopped) [
  | inl stopped ↦
      let same : n ≡ n1 = cc (receiver_steps_stopped env n (p ∷ ps) stopped) in
      absurd (cc (ap (λ m. m.stopped) same))
  | inr on ↦
      let (n2, goes, more) =
        >>=-eq-ok (receiver_step env n p) (λ m. receiver_steps env m ps)
          (sym (receiver_steps_running env n p ps on) ∙ steps) in
      receiver_loop-step env n n2 p (ps ++ qs) on goes
      ∙ receiver_loop-append env n2 n1 ps qs more running
]

-- DONE behind some rounds ends the loop.
pub receiver_loop-done :
    (env : Surroundings) (n n1 m : ReceiverNode) (ps more : List Packet)
    → receiver_steps env n ps ≡ ok n1
    → n1.stopped ≡ false
    → disconnect_receiver (record n1 { stopped = true }) ≡ ok m
    → receiver_loop env n (ps ++ (done_packet ∷ more)) ≡ ok (left m)
receiver_loop-done env n n1 m ps more steps running leaves =
    receiver_loop-append env n n1 ps (done_packet ∷ more) steps running
    ∙ receiver_loop-step env n1 (record n1 { stopped = true }) done_packet more running
        (receiver_step-done env n1)
    ∙ receiver_loop-stopped env (record n1 { stopped = true }) m more refl leaves

receiver_loop-closed :
    (env : Surroundings) (n : ReceiverNode)
    → n.stopped ≡ false
    → receiver_loop env n [] ≡ ok (exited n)
unfolding receiver_loop
receiver_loop-closed env n running = rw (receiver_loop, running) refl

-- A node that is still running after the packets `ps` leaves on a DONE behind them, whatever
-- follows, and a connection that took what it wrote before is closed, having taken BYE! last; if
-- the connection is closed behind `ps` instead, the node exits as it is.
receiver_loop-ends :
    (env : Surroundings) (n n1 : ReceiverNode) (ps more : List Packet)
    → receiver_steps env n ps ≡ ok n1
    → n1.stopped ≡ false
    → n1.conn.alive ≡ true
    → (receiver_loop env n (ps ++ (done_packet ∷ more))
        ≡ ok (left (gone n1 (n1.conn.outgoing ++ frame bye_packet))))
      × (receiver_loop env n ps ≡ ok (exited n1))
receiver_loop-ends env n n1 ps more steps running alive = (
  receiver_loop-done env n n1 _ ps more steps running
      (disconnect_receiver-alive (record n1 { stopped = true }) alive),
  ap (receiver_loop env n) (sym (append-nil ps))
      ∙ receiver_loop-append env n n1 ps [] steps running
      ∙ receiver_loop-closed env n1 running,
)

-- The packets of a file's pieces, less than 2 ^ 63 bytes together, its ENDFILE and a DONE, on a
-- running node that awaits the file: the node leaves with the pieces one behind the other in the
-- place of the file and all else on the disk as it was; the file has left the pool while the others
-- stay, and its connection is closed.
pub receiver_loop-whole :
    (env : Surroundings) (n : ReceiverNode) (key : Option Bytes) (f : File) (front back : List File)
    (ps more : List Packet) (last : Packet) (pieces : List Bytes)
    → IsAwaiting env n key f front back
    → Carries env.cipher key f.id ps pieces
    → decrypt_body_if env.cipher key last ≡ ok (end_packet f.id)
    → length (joined pieces) < 2 ^ 63
    → (n' : ReceiverNode) × (receiver_loop env n ((ps ++ (last ∷ [])) ++ (done_packet ∷ more))
        ≡ ok (left n'))
      × (n'.disk ≡ update n.disk (env.os.resolve n.disk f.path) (some (regular (joined pieces))))
      × (n'.accepted_files ≡ front ++ back)
      × (n'.conn.alive ≡ false)
receiver_loop-whole env n key f front back ps more last pieces a carried opens small =
    let (n1, steps, got) =
      receiver_steps-whole env n key f front back ps last pieces a carried opens small in
    let n2 : ReceiverNode = record n1 { stopped = true } in
    (
      gone n2 (disconnect_receiver-total n2).0,
      receiver_loop-done env n n1 _ (ps ++ (last ∷ [])) more steps got.running
          (disconnect_receiver-total n2).1,
      got.written,
      got.pool,
      refl,
    )
