-- ===== src/Node/System/Turns.antt =====
-- src/node/node.go: when only one node can take a step, and only one step.
use ftu.Common.{
  none, ℕ, suc, ◌+◌, ◌<◌, ◌≡◌, refl, sym, ap, subst, ◌∙◌, true, false, some, List, [], ◌∷◌, ◌++◌,
  append-nil, drop, drop-append, Bytes, length, All, ok, arith,
}
use ftu.Protocol.Headers.{max_packet_size}
use ftu.Protocol.Packet.{Packet}
use ftu.Protocol.Delivery.{IsSendable, frame, frames, receive_packets-frames}
use ftu.Protocol.Recv.{receive_packets}
use ftu.Protocol.Send.{Conn}
use ftu.Node.State.{SenderNode, Env}
use ftu.Node.Transfer.{sender_step}
use ftu.Node.Receiver.{Surroundings, ReceiverNode}
use ftu.Node.Receiving.{receiver_step}
use ftu.Node.System.{
  System, Wrote, sender_takes, sender_leaves, sender_exits, sender_offers, receiver_takes,
  receiver_answers, receiver_answers_waiting, receiver_takes_waiting, receiver_leaves,
  receiver_exits, receiver_exits_waiting, Inevitably, now, later,
}

pub nothing_waits : (p : Packet) (rest : List Packet) → [] ≡ p ∷ rest → ⊥
nothing_waits p rest e = absurd cc

-- One packet was written.
pub Wrote-one :
    (c c' : Conn) (p : Packet)
    → c'.outgoing ≡ c.outgoing ++ frame p
    → IsSendable p
    → Wrote c c' (p ∷ [])
Wrote-one c c' p e sendable =
    (e ∙ ap (λ x. c.outgoing ++ x) (sym (append-nil (frame p))), (sendable, tt))

-- Nothing was written.
pub Wrote-none : (c : Conn) → Wrote c c []
Wrote-none c = (sym (append-nil c.outgoing), tt)

-- What `ReceivePackets` hands on of the bytes of some packets.
handed_on : ℕ → ℕ → Bytes → List Packet
handed_on rounds fuel bytes =
    elim (receive_packets rounds fuel (some (bytes ∷ []))
      (record { packets = []; closed = false })) [ ok r ↦ r.0.packets | _ ↦ [] ]

handed_on-frames :
    (ps : List Packet) (rounds fuel : ℕ)
    → All IsSendable ps
    → length ps < rounds
    → max_packet_size + 1 < fuel
    → handed_on rounds fuel (frames ps) ≡ ps
unfolding handed_on
handed_on-frames ps rounds fuel sendable enough more =
    rw
      (
        handed_on,
        receive_packets-frames ps rounds fuel (frames ps ∷ [])
            (record { packets = []; closed = false }) sendable (append-nil (frames ps)) enough more,
      )
      refl

-- The packets on a connection are determined by its bytes.
pub Wrote-same : (c c' : Conn) (ps qs : List Packet) → Wrote c c' ps → Wrote c c' qs → ps ≡ qs
Wrote-same c c' ps qs (left, ps_sendable) (right, qs_sendable) =
    let same : frames ps ≡ frames qs =
      sym (drop-append c.outgoing (frames ps))
      ∙ ap (drop (length c.outgoing)) (sym left ∙ right)
      ∙ drop-append c.outgoing (frames qs) in
    let rounds : ℕ = suc (length ps + length qs) in
    let fuel : ℕ = suc (max_packet_size + 1) in
    sym (handed_on-frames ps rounds fuel ps_sendable (omega arith) (omega arith))
    ∙ ap (handed_on rounds fuel) same
    ∙ handed_on-frames qs rounds fuel qs_sendable (omega arith) (omega arith)

module _ (senv : Env) (env : Surroundings) (P : System → Type 0) (w : System) where
  -- The system after a step of the sending node, or of the receiving one.
  abbrev sender_next : SenderNode → List Packet → List Packet → System
  sender_next s rest ps = record w {
    sender = s;
    to_sender = rest;
    to_receiver = w.to_receiver ++ ps;
  }

  abbrev receiver_next : ReceiverNode → List Packet → List Packet → System
  receiver_next r rest ps = record w {
    receiver = r;
    to_receiver = rest;
    to_sender = w.to_sender ++ ps;
  }

  -- A round is determined by the node and the packet.
  pub sender_takes-same :
      (p q : Packet) (rest more : List Packet) (s t : SenderNode) (ps qs : List Packet) (u : System)
      → w.to_sender ≡ p ∷ rest
      → sender_step senv w.sender p ≡ ok s
      → Wrote w.sender.conn s.conn ps
      → w.to_sender ≡ q ∷ more
      → sender_step senv w.sender q ≡ ok t
      → Wrote w.sender.conn t.conn qs
      → u ≡ sender_next t more qs
      → Inevitably senv env P (sender_next s rest ps)
      → Inevitably senv env P u
  sender_takes-same p q rest more s t ps qs u waits goes wrote waits' goes' wrote' e then =
      let same_p : q ≡ p = cc in
      let same_rest : more ≡ rest = cc in
      let same : t ≡ s = cc in
      let same_ps : qs ≡ ps =
        Wrote-same w.sender.conn s.conn qs ps
          (subst (λ x. Wrote w.sender.conn x.conn qs) same wrote') wrote in
      subst (Inevitably senv env P)
        (sym (
          e
          ∙ ap (λ x. sender_next x more qs) same
          ∙ ap (λ x. sender_next s x qs) same_rest
          ∙ ap (sender_next s rest) same_ps))
        then

  pub receiver_takes-same :
      (p q : Packet) (rest more : List Packet) (r t : ReceiverNode) (ps qs : List Packet)
      (u : System)
      → w.to_receiver ≡ p ∷ rest
      → receiver_step env w.receiver p ≡ ok r
      → Wrote w.receiver.conn r.conn ps
      → w.to_receiver ≡ q ∷ more
      → receiver_step env w.receiver q ≡ ok t
      → Wrote w.receiver.conn t.conn qs
      → u ≡ receiver_next t more qs
      → Inevitably senv env P (receiver_next r rest ps)
      → Inevitably senv env P u
  receiver_takes-same p q rest more r t ps qs u waits goes wrote waits' goes' wrote' e then =
      let same_p : q ≡ p = cc in
      let same_rest : more ≡ rest = cc in
      let same : t ≡ r = cc in
      let same_ps : qs ≡ ps =
        Wrote-same w.receiver.conn r.conn qs ps
          (subst (λ x. Wrote w.receiver.conn x.conn qs) same wrote') wrote in
      subst (Inevitably senv env P)
        (sym (
          e
          ∙ ap (λ x. receiver_next x more qs) same
          ∙ ap (λ x. receiver_next r x qs) same_rest
          ∙ ap (receiver_next r rest) same_ps))
        then

  -- The round of the sending node, where the receiving node waits for it.
  pub sender_turn :
      (p : Packet) (rest : List Packet) (s : SenderNode) (ps : List Packet)
      → w.sender_exited ≡ false
      → w.receiver_exited ≡ false
      → w.sender.conn.alive ≡ true
      → w.sender.stopped ≡ false
      → w.receiver.stopped ≡ false
      → w.receiver.offers ≡ []
      → w.to_offer ≡ none
      → w.receiver_waits ≡ false
      → w.to_receiver ≡ []
      → w.to_sender ≡ p ∷ rest
      → sender_step senv w.sender p ≡ ok s
      → Wrote w.sender.conn s.conn ps
      → Inevitably senv env P (sender_next s rest ps)
      → Inevitably senv env P w
  sender_turn p rest s ps on other_on alive running other_running no_offer offered quiet nothing
        waits goes wrote then =
      later (sender_next s rest ps) (sender_takes p rest s ps on running waits goes wrote refl)
        (λ u step. elim step [
          | sender_takes q more t qs a b waits' goes' wrote' e ↦
              sender_takes-same p q rest more s t ps qs u waits goes wrote waits' goes' wrote' e
                then
          | sender_leaves t qs a stopped b c d e ↦ absurd cc
          | sender_exits a b empty c e ↦ absurd cc
          | sender_offers served t qs a b offering c d e ↦ absurd cc
          | receiver_takes q more t qs a b waits' c d e ↦ absurd cc
          | receiver_answers answer q more t qs a b offers c d e ↦ absurd cc
          | receiver_leaves t qs a stopped at_rest b c d e ↦ absurd cc
          | receiver_exits a b c gone e ↦ absurd cc
          | receiver_answers_waiting answer q more t qs a b offers c d over' e f ↦ absurd cc
          | receiver_takes_waiting q more t qs a late c d e f ↦ absurd cc
          | receiver_exits_waiting a late c d e ↦ absurd cc
        ])

  -- The round of the receiving node, where the sending node waits for it.
  pub receiver_turn :
      (p : Packet) (rest : List Packet) (r : ReceiverNode) (ps : List Packet)
      → w.sender_exited ≡ false
      → w.receiver_exited ≡ false
      → w.receiver.conn.alive ≡ true
      → w.receiver.stopped ≡ false
      → w.sender.stopped ≡ false
      → w.receiver.offers ≡ []
      → w.to_offer ≡ none
      → w.receiver_waits ≡ false
      → w.to_sender ≡ []
      → w.to_receiver ≡ p ∷ rest
      → receiver_step env w.receiver p ≡ ok r
      → Wrote w.receiver.conn r.conn ps
      → Inevitably senv env P (receiver_next r rest ps)
      → Inevitably senv env P w
  receiver_turn p rest r ps other_on on alive running other_running no_offer offered quiet nothing
        waits goes wrote then =
      later (receiver_next r rest ps) (receiver_takes p rest r ps on running waits goes wrote refl)
        (λ u step. elim step [
          | sender_takes q more t qs a b waits' c d e ↦ absurd cc
          | sender_leaves t qs a stopped b c d e ↦ absurd cc
          | sender_exits a b empty gone e ↦ absurd cc
          | sender_offers served t qs a b offering c d e ↦ absurd cc
          | receiver_takes q more t qs a b waits' goes' wrote' e ↦
              receiver_takes-same p q rest more r t ps qs u waits goes wrote waits' goes' wrote' e
                then
          | receiver_answers answer q more t qs a b offers c d e ↦ absurd cc
          | receiver_leaves t qs a stopped at_rest b c d e ↦ absurd cc
          | receiver_exits a b empty gone e ↦ absurd cc
          | receiver_answers_waiting answer q more t qs a b offers c d over' e f ↦ absurd cc
          | receiver_takes_waiting q more t qs a late c d e f ↦ absurd cc
          | receiver_exits_waiting a late c d e ↦ absurd cc
        ])

-- One thing is reached after another.
pub Inevitably-trans :
    (senv : Env) (env : Surroundings) (P Q : System → Type 0) (w : System)
    → Inevitably senv env P w
    → ((u : System) → P u → Inevitably senv env Q u)
    → Inevitably senv env Q w
Inevitably-trans senv env P Q w (now holds) go_on = go_on w holds
Inevitably-trans senv env P Q w (later v step all) go_on =
    later v step (λ u s. Inevitably-trans senv env P Q u (all u s) go_on)
