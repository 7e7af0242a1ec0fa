-- ===== src/Node/System.antt =====
-- src/node/node.go: a sending node and a receiving node with the connection between them, whose
-- rounds may come in any order.
pub mod Turns
pub mod Ending
pub mod Finishing
pub mod Waiting
pub mod Exchange
pub mod Files
pub mod Links
pub mod Session
pub mod Starting
pub mod Deciding
pub mod Whole
pub mod Paced
pub mod Bounded
pub mod Reaches
use ftu.Common.{
  ◌≡◌, true, false, Bool, Option, none, some, List, [], ◌∷◌, ◌++◌, Bytes, All, Outcome, ok,
}
use ftu.Protocol.Packet.{Packet}
use ftu.Protocol.Delivery.{IsSendable, frames}
use ftu.Protocol.Send.{Conn}
use ftu.Node.State.{SenderNode, Env}
use ftu.Node.Transfer.{sender_step, disconnect}
use ftu.Node.Start.{Served, offer_step}
use ftu.Node.Receiver.{Surroundings, ReceiverNode}
use ftu.Node.Receiving.{receiver_step, answer_step}
use ftu.Node.Loop.{disconnect_receiver}

-- Both nodes, what each has written that the other has not taken yet, what the goroutine of the
-- offer has still to offer, and whether `os.Exit` ended one. `receiver_waits` says that a no of
-- the user stopped the receiving node when its mainloop had passed its check of `stopped` and
-- waited for a packet: it then takes one more before the check stops it.
pub record System : Type 0 where
  pub sender : SenderNode
  pub receiver : ReceiverNode
  pub to_sender : List Packet
  pub to_receiver : List Packet
  pub to_offer : Option Served
  pub sender_exited : Bool
  pub receiver_exited : Bool
  pub receiver_waits : Bool

-- What a connection took besides is packets that `ReceivePackets` hands on at its other end.
abbrev pub Wrote : Conn → Conn → List Packet → Type 0
Wrote c c' ps = (c'.outgoing ≡ c.outgoing ++ frames ps) × All IsSendable ps

-- One step of one of the nodes: a round of a mainloop on the next packet, the end of a mainloop,
-- the offer, the user's answer to the offer that waits first, and the exit of a node whose peer has
-- closed the connection when all packets are taken. The check of `stopped` that a mainloop makes
-- before it waits for a packet is part of the step that takes it, or of the exit, except where the
-- flag is set in between: only the goroutine of the user's answer does so (the sending node's flag
-- is set in its own rounds). Its answer is a step of either kind, before the check or behind it,
-- and behind it the waiting mainloop takes the next packet, or exits, although the flag is set.
pub data Step (senv : Env) (env : Surroundings) (w v : System) : Type 0 where
  sender_takes :
      (p : Packet) (rest : List Packet) (s : SenderNode) (ps : List Packet)
      → w.sender_exited ≡ false
      → w.sender.stopped ≡ false
      → w.to_sender ≡ p ∷ rest
      → sender_step senv w.sender p ≡ ok s
      → Wrote w.sender.conn s.conn ps
      → v ≡ record w { sender = s; to_sender = rest; to_receiver = w.to_receiver ++ ps }
      → Step senv env w v
  sender_leaves :
      (s : SenderNode) (ps : List Packet)
      → w.sender_exited ≡ false
      → w.sender.stopped ≡ true
      → w.sender.conn.alive ≡ true
      → disconnect w.sender ≡ ok s
      → Wrote w.sender.conn s.conn ps
      → v ≡ record w { sender = s; to_receiver = w.to_receiver ++ ps }
      → Step senv env w v
  sender_exits :
      w.sender_exited ≡ false
      → w.sender.stopped ≡ false
      → w.to_sender ≡ []
      → w.receiver.conn.alive ≡ false
      → v ≡ record w { sender_exited = true }
      → Step senv env w v
  sender_offers :
      (served : Served) (s : SenderNode) (ps : List Packet)
      → w.sender_exited ≡ false
      → w.sender.conn.alive ≡ true
      → w.to_offer ≡ some served
      → offer_step senv served w.sender ≡ ok s
      → Wrote w.sender.conn s.conn ps
      → v ≡ record w { sender = s; to_receiver = w.to_receiver ++ ps; to_offer = none }
      → Step senv env w v
  receiver_takes :
      (p : Packet) (rest : List Packet) (r : ReceiverNode) (ps : List Packet)
      → w.receiver_exited ≡ false
      → w.receiver.stopped ≡ false
      → w.to_receiver ≡ p ∷ rest
      → receiver_step env w.receiver p ≡ ok r
      → Wrote w.receiver.conn r.conn ps
      → v ≡ record w { receiver = r; to_receiver = rest; to_sender = w.to_sender ++ ps }
      → Step senv env w v
  receiver_answers :
      (answer : Bytes) (p : Packet) (rest : List Packet) (r : ReceiverNode) (ps : List Packet)
      → w.receiver_exited ≡ false
      → w.receiver.conn.alive ≡ true
      → w.receiver.offers ≡ p ∷ rest
      → answer_step env answer w.receiver (p ∷ rest) ≡ ok r
      → Wrote w.receiver.conn r.conn ps
      → v ≡ record w { receiver = r; to_sender = w.to_sender ++ ps }
      → Step senv env w v
  receiver_answers_waiting :
      (answer : Bytes) (p : Packet) (rest : List Packet) (r : ReceiverNode) (ps : List Packet)
      → w.receiver_exited ≡ false
      → w.receiver.conn.alive ≡ true
      → w.receiver.offers ≡ p ∷ rest
      → w.receiver.stopped ≡ false
      → answer_step env answer w.receiver (p ∷ rest) ≡ ok r
      → r.stopped ≡ true
      → Wrote w.receiver.conn r.conn ps
      → v ≡ record w { receiver = r; to_sender = w.to_sender ++ ps; receiver_waits = true }
      → Step senv env w v
  receiver_takes_waiting :
      (p : Packet) (rest : List Packet) (r : ReceiverNode) (ps : List Packet)
      → w.receiver_exited ≡ false
      → w.receiver_waits ≡ true
      → w.to_receiver ≡ p ∷ rest
      → receiver_step env w.receiver p ≡ ok r
      → Wrote w.receiver.conn r.conn ps
      → v ≡ record w {
        receiver = r;
        to_receiver = rest;
        to_sender = w.to_sender ++ ps;
        receiver_waits = false;
      }
      → Step senv env w v
  receiver_leaves :
      (r : ReceiverNode) (ps : List Packet)
      → w.receiver_exited ≡ false
      → w.receiver.stopped ≡ true
      → w.receiver_waits ≡ false
      → w.receiver.conn.alive ≡ true
      → disconnect_receiver w.receiver ≡ ok r
      → Wrote w.receiver.conn r.conn ps
      → v ≡ record w { receiver = r; to_sender = w.to_sender ++ ps }
      → Step senv env w v
  receiver_exits :
      w.receiver_exited ≡ false
      → w.receiver.stopped ≡ false
      → w.to_receiver ≡ []
      → w.sender.conn.alive ≡ false
      → v ≡ record w { receiver_exited = true }
      → Step senv env w v
  receiver_exits_waiting :
      w.receiver_exited ≡ false
      → w.receiver_waits ≡ true
      → w.to_receiver ≡ []
      → w.sender.conn.alive ≡ false
      → v ≡ record w { receiver_exited = true }
      → Step senv env w v

-- Whatever the order of the steps, a system with the property is reached: some step can be taken
-- until then, and each that can be taken leads there.
pub data Inevitably (senv : Env) (env : Surroundings) (P : System → Type 0) : System → Type 0 where
  now : {w : System} → P w → Inevitably senv env P w
  later :
      {w : System} (v : System)
      → Step senv env w v
      → ((u : System) → Step senv env w u → Inevitably senv env P u)
      → Inevitably senv env P w
