-- ===== src/Node/System/Exchange.antt =====
-- src/node/node.go: a packet of the sending node and the READY that the receiving node answers
-- with.
use ftu.Common.{none, ◌≡◌, refl, sym, ap, ◌∙◌, true, false, [], ◌∷◌, ◌++◌, Bytes, ok}
use ftu.Protocol.Packet.{Packet}
use ftu.Protocol.Delivery.{IsSendable, frame}
use ftu.Protocol.Send.{Conn, write}
use ftu.Node.State.{SenderNode, Env}
use ftu.Node.Transfer.{sender_step}
use ftu.Node.Receiver.{Surroundings, ReceiverNode, ready_packet}
use ftu.Node.Receiving.{receiver_step}
use ftu.Node.Receiving.Written.{ready_packet-IsSendable}
use ftu.Node.System.{System, Wrote, Inevitably}
use ftu.Node.System.Turns.{Wrote-one, sender_turn, receiver_turn}

-- One packet is on its way to the sending node, or to the receiving one, and nothing else.
abbrev pub to_sender : SenderNode → ReceiverNode → Packet → System
to_sender s r p = record {
  sender = s;
  receiver = r;
  to_sender = p ∷ [];
  to_receiver = [];
  to_offer = none;
  sender_exited = false;
  receiver_exited = false;
  receiver_waits = false;
}

abbrev pub to_receiver : SenderNode → ReceiverNode → Packet → System
to_receiver s r p = record {
  sender = s;
  receiver = r;
  to_sender = [];
  to_receiver = p ∷ [];
  to_offer = none;
  sender_exited = false;
  receiver_exited = false;
  receiver_waits = false;
}

-- A sending node that runs, with what it has written.
pub record IsSending (s : SenderNode) (out : Bytes) : Type 0 where
  pub running : s.stopped ≡ false
  pub conn : s.conn ≡ record { outgoing = out; alive = true }

-- A receiving node that runs and waits for no answer.
pub record IsListening (r : ReceiverNode) : Type 0 where
  pub running : r.stopped ≡ false
  pub alive : r.conn.alive ≡ true
  pub no_offer : r.offers ≡ []

Wrote-ready :
    (c c' : Conn)
    → c.alive ≡ true
    → c' ≡ write (frame ready_packet) c
    → Wrote c c' (ready_packet ∷ [])
Wrote-ready c c' alive e =
    let live : (write (frame ready_packet) c).outgoing ≡ c.outgoing ++ frame ready_packet =
      rw alive refl in
    Wrote-one c c' ready_packet (ap (λ x. x.outgoing) e ∙ live) ready_packet-IsSendable

module _ (senv : Env) (env : Surroundings) (P : System → Type 0) where
  -- The sending node takes a packet and writes another.
  pub sender_sends :
      (s s' : SenderNode) (r : ReceiverNode) (p q : Packet) (out : Bytes)
      → IsSending s out
      → IsListening r
      → sender_step senv s p ≡ ok s'
      → s'.conn ≡ record { outgoing = out ++ frame q; alive = true }
      → IsSendable q
      → Inevitably senv env P (to_receiver s' r q)
      → Inevitably senv env P (to_sender s r p)
  sender_sends s s' r p q out a b goes wrote sendable go_on =
      sender_turn senv env P (to_sender s r p) p [] s' (q ∷ []) refl refl (ap (λ c. c.alive) a.conn)
        a.running b.running b.no_offer refl refl refl refl goes
        (Wrote-one s.conn s'.conn q
          (ap (λ c. c.outgoing) wrote ∙ ap (λ c. c.outgoing ++ frame q) (sym a.conn)) sendable)
        go_on

  -- The receiving node takes it and answers READY.
  pub receiver_answers_ready :
      (s : SenderNode) (r r' : ReceiverNode) (q : Packet)
      → s.stopped ≡ false
      → IsListening r
      → receiver_step env r q ≡ ok r'
      → r'.conn ≡ write (frame ready_packet) r.conn
      → Inevitably senv env P (to_sender s r' ready_packet)
      → Inevitably senv env P (to_receiver s r q)
  receiver_answers_ready s r r' q running b goes wrote go_on =
      receiver_turn senv env P (to_receiver s r q) q [] r' (ready_packet ∷ []) refl refl b.alive
        b.running running b.no_offer refl refl refl refl goes
        (Wrote-ready r.conn r'.conn b.alive wrote) go_on
