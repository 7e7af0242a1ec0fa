-- ===== src/Node/System/Reaches.antt =====
-- src/node/node.go: the systems that any order of steps reaches, and the packets on their way in
-- them.
use ftu.Common.{◌+◌, ◌^◌, ◌≤◌, ◌<◌, ◌≡◌, ap, List, [], Bytes, length, arith}
use ftu.Encryption.{IsGcm}
use ftu.Protocol.Packet.{Packet}
use ftu.Node.State.{SenderNode, Env}
use ftu.Node.Receiver.{Surroundings, ReceiverNode}
use ftu.Node.Start.{Served}
use ftu.Node.System.{
  System, Wrote, Step, sender_takes, sender_leaves, sender_exits, sender_offers, receiver_takes,
  receiver_answers, receiver_answers_waiting, receiver_takes_waiting, receiver_leaves,
  receiver_exits, receiver_exits_waiting,
}
use ftu.Node.System.Starting.{starting}
use ftu.Node.System.Bounded.{due, bit_bound, Wrote-longer, Step-due}

-- One step after the other.
pub data Reaches (senv : Env) (env : Surroundings) (w : System) : System → Type 0 where
  here : Reaches senv env w w
  onward : {v u : System} → Reaches senv env w v → Step senv env v u → Reaches senv env w u

sender_longer :
    (w v : System) (s : SenderNode) (ps : List Packet)
    → Wrote w.sender.conn s.conn ps
    → v.sender ≡ s
    → v.receiver ≡ w.receiver
    → (length w.sender.conn.outgoing ≤ length v.sender.conn.outgoing)
      × (length w.receiver.conn.outgoing ≤ length v.receiver.conn.outgoing)
sender_longer w v s ps wrote e same = omega (
  arith,
  Wrote-longer w.sender.conn s.conn ps wrote,
  ap (λ x. length x.conn.outgoing) e,
  ap (λ x. length x.conn.outgoing) same,
)

receiver_longer :
    (w v : System) (r : ReceiverNode) (ps : List Packet)
    → Wrote w.receiver.conn r.conn ps
    → v.sender ≡ w.sender
    → v.receiver ≡ r
    → (length w.sender.conn.outgoing ≤ length v.sender.conn.outgoing)
      × (length w.receiver.conn.outgoing ≤ length v.receiver.conn.outgoing)
receiver_longer w v r ps wrote same e = omega (
  arith,
  Wrote-longer w.receiver.conn r.conn ps wrote,
  ap (λ x. length x.conn.outgoing) e,
  ap (λ x. length x.conn.outgoing) same,
)

module _ (senv : Env) (env : Surroundings) where
  -- No step takes back what was written.
  Step-longer :
      (w v : System)
      → Step senv env w v
      → (length w.sender.conn.outgoing ≤ length v.sender.conn.outgoing)
        × (length w.receiver.conn.outgoing ≤ length v.receiver.conn.outgoing)
  Step-longer w v step = elim step [
    | sender_takes p rest s ps a b c d wrote e ↦
        sender_longer w v s ps wrote (ap (λ x. x.sender) e) (ap (λ x. x.receiver) e)
    | sender_leaves s ps a b c d wrote e ↦
        sender_longer w v s ps wrote (ap (λ x. x.sender) e) (ap (λ x. x.receiver) e)
    | sender_exits a b c d e ↦ omega (
      arith,
      ap (λ x. length x.sender.conn.outgoing) e,
      ap (λ x. length x.receiver.conn.outgoing) e,
    )
    | sender_offers served s ps a b c d wrote e ↦
        sender_longer w v s ps wrote (ap (λ x. x.sender) e) (ap (λ x. x.receiver) e)
    | receiver_takes p rest r ps a b c d wrote e ↦
        receiver_longer w v r ps wrote (ap (λ x. x.sender) e) (ap (λ x. x.receiver) e)
    | receiver_answers answer p rest r ps a b c d wrote e ↦
        receiver_longer w v r ps wrote (ap (λ x. x.sender) e) (ap (λ x. x.receiver) e)
    | receiver_answers_waiting answer p rest r ps a b c d goes over wrote e ↦
        receiver_longer w v r ps wrote (ap (λ x. x.sender) e) (ap (λ x. x.receiver) e)
    | receiver_takes_waiting p rest r ps a b c d wrote e ↦
        receiver_longer w v r ps wrote (ap (λ x. x.sender) e) (ap (λ x. x.receiver) e)
    | receiver_exits_waiting a b c d e ↦ omega (
      arith,
      ap (λ x. length x.sender.conn.outgoing) e,
      ap (λ x. length x.receiver.conn.outgoing) e,
    )
    | receiver_leaves r ps a b at_rest c d wrote e ↦
        receiver_longer w v r ps wrote (ap (λ x. x.sender) e) (ap (λ x. x.receiver) e)
    | receiver_exits a b c d e ↦ omega (
      arith,
      ap (λ x. length x.sender.conn.outgoing) e,
      ap (λ x. length x.receiver.conn.outgoing) e,
    )
  ]

  Reaches-due :
      (gcm : IsGcm env.cipher) (w v : System)
      → Reaches senv env w v
      → length v.sender.conn.outgoing < 2 ^ 64
      → length v.receiver.conn.outgoing < 2 ^ 64
      → due v ≤ due w
  Reaches-due gcm w v here small room = omega arith
  Reaches-due gcm w v (onward {v = u} before step) small room =
      let longer = Step-longer u v step in
      omega (
        arith,
        Reaches-due gcm w u before (omega (arith, longer)) (omega (arith, longer)),
        Step-due senv env gcm u v step small room,
      )

  -- In every system that is reached, by whatever order of steps, from the beginnings of both
  -- mainloops, where no offer waits, at most four packets are on their way in both directions
  -- together, as long as neither connection has carried 2^64 bytes.
  pub starting-due :
      (gcm : IsGcm env.cipher) (s : SenderNode) (r : ReceiverNode) (key : Bytes) (served : Served)
      (v : System)
      → r.offers ≡ []
      → Reaches senv env (starting s r key served) v
      → length v.sender.conn.outgoing < 2 ^ 64
      → length v.receiver.conn.outgoing < 2 ^ 64
      → length v.to_sender + length v.to_receiver ≤ 4
  starting-due gcm s r key served v no_offer reached small room = omega (
    arith,
    Reaches-due gcm (starting s r key served) v reached small room,
    ap length no_offer,
    bit_bound s.conn.alive,
    bit_bound r.conn.alive,
  )
