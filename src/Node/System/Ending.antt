-- ===== src/Node/System/Ending.antt =====
-- src/node/node.go: the ends of both mainloops, which may come in any order.
use ftu.Common.{
  none, ◌≡◌, refl, sym, ap, subst, ◌∙◌, true, false, Bool-cases, inl, inr, List, [], ◌∷◌, ◌++◌, ok,
}
use ftu.Fsys.Disk.{Disk}
use ftu.Protocol.Packet.{Packet}
use ftu.Protocol.Delivery.{frame}
use ftu.Protocol.Send.{Conn}
use ftu.Node.State.{SenderNode, Env}
use ftu.Node.Transfer.{disconnect}
use ftu.Node.Transfer.Leaving.{bye_packet, bye_packet-IsSendable, departed, disconnect-runs}
use ftu.Node.Receiver.{Surroundings, ReceiverNode}
use ftu.Node.Loop.{disconnect_receiver}
use ftu.Node.Loop.Ends.{gone, disconnect_receiver-alive}
use ftu.Node.System.{
  System, Step, sender_takes, sender_leaves, sender_exits, sender_offers, receiver_takes,
  receiver_answers, receiver_answers_waiting, receiver_takes_waiting, receiver_leaves,
  receiver_exits, receiver_exits_waiting, Inevitably, now, later,
}
use ftu.Node.System.Turns.{Wrote-one}

-- Both nodes have closed the connection, none has exited, and this holds of the receiver's disk.
pub record HasEnded (Q : Disk → Type 0) (w : System) : Type 0 where
  pub sender_left : w.sender.conn.alive ≡ false
  pub receiver_left : w.receiver.conn.alive ≡ false
  pub sender_on : w.sender_exited ≡ false
  pub receiver_on : w.receiver_exited ≡ false
  pub disk : Q w.receiver.disk

-- Both nodes run to the end of their programs, no offer waits, and this holds of the receiver's
-- disk.
pub record IsEnding (Q : Disk → Type 0) (w : System) : Type 0 where
  pub sender_on : w.sender_exited ≡ false
  pub receiver_on : w.receiver_exited ≡ false
  pub no_offer : w.receiver.offers ≡ []
  pub offered : w.to_offer ≡ none
  pub disk : Q w.receiver.disk

same_conn : (c : Conn) → c.alive ≡ true → c ≡ record { outgoing = c.outgoing; alive = true }
same_conn c alive = ap (λ a. record { outgoing = c.outgoing; alive = a }) alive

pub disconnect-alive :
    (s : SenderNode) → s.conn.alive ≡ true → disconnect s ≡ ok (departed s s.conn.outgoing)
disconnect-alive s alive = disconnect-runs s s.conn.outgoing (same_conn s.conn alive)

module _ (senv : Env) (env : Surroundings) (Q : Disk → Type 0) where
  abbrev Ends : System → Type 0
  Ends = Inevitably senv env (HasEnded Q)

  -- The end of one mainloop.
  sender_can_leave :
      (w : System)
      → IsEnding Q w
      → w.sender.stopped ≡ true
      → w.sender.conn.alive ≡ true
      → (v : System) × Step senv env w v
  sender_can_leave w i stopped alive = (
    _,
    sender_leaves _ (bye_packet ∷ []) i.sender_on stopped alive (disconnect-alive w.sender alive)
        (Wrote-one w.sender.conn (departed w.sender w.sender.conn.outgoing).conn bye_packet refl
          bye_packet-IsSendable)
        refl,
  )

  receiver_can_leave :
      (w : System)
      → IsEnding Q w
      → w.receiver_waits ≡ false
      → w.receiver.stopped ≡ true
      → w.receiver.conn.alive ≡ true
      → (v : System) × Step senv env w v
  receiver_can_leave w i quiet stopped alive = (
    _,
    receiver_leaves _ (bye_packet ∷ []) i.receiver_on stopped quiet alive
        (disconnect_receiver-alive w.receiver alive)
        (Wrote-one w.receiver.conn
          (gone w.receiver (w.receiver.conn.outgoing ++ frame bye_packet)).conn bye_packet refl
          bye_packet-IsSendable)
        refl,
  )

  pub sender_left_lem :
      (w u : System) (s : SenderNode) (ps : List Packet)
      → IsEnding Q w
      → w.sender.conn.alive ≡ true
      → disconnect w.sender ≡ ok s
      → u ≡ record w { sender = s; to_receiver = w.to_receiver ++ ps }
      → IsEnding Q u × (u.sender.conn.alive ≡ false) × (u.sender.stopped ≡ true)
  sender_left_lem w u s ps i alive goes e =
      let same : s ≡ departed w.sender w.sender.conn.outgoing =
        cc (disconnect-alive w.sender alive) in
      (
        record {
          sender_on = ap (λ x. x.sender_exited) e ∙ i.sender_on;
          receiver_on = ap (λ x. x.receiver_exited) e ∙ i.receiver_on;
          no_offer = ap (λ x. x.receiver.offers) e ∙ i.no_offer;
          offered = ap (λ x. x.to_offer) e ∙ i.offered;
          disk = subst Q (sym (ap (λ x. x.receiver.disk) e)) i.disk;
        },
        ap (λ x. x.sender.conn.alive) e ∙ ap (λ x. x.conn.alive) same,
        ap (λ x. x.sender.stopped) e ∙ ap (λ x. x.stopped) same,
      )

  pub receiver_left_lem :
      (w u : System) (r : ReceiverNode) (ps : List Packet)
      → IsEnding Q w
      → w.receiver.conn.alive ≡ true
      → disconnect_receiver w.receiver ≡ ok r
      → u ≡ record w { receiver = r; to_sender = w.to_sender ++ ps }
      → IsEnding Q u × (u.receiver.conn.alive ≡ false) × (u.receiver.stopped ≡ true)
  receiver_left_lem w u r ps i alive goes e =
      let same : r ≡ gone w.receiver (w.receiver.conn.outgoing ++ frame bye_packet) =
        cc (disconnect_receiver-alive w.receiver alive) in
      (
        record {
          sender_on = ap (λ x. x.sender_exited) e ∙ i.sender_on;
          receiver_on = ap (λ x. x.receiver_exited) e ∙ i.receiver_on;
          no_offer = ap (λ x. x.receiver.offers) e ∙ ap (λ x. x.offers) same ∙ i.no_offer;
          offered = ap (λ x. x.to_offer) e ∙ i.offered;
          disk = subst Q (sym (ap (λ x. x.receiver.disk) e ∙ ap (λ x. x.disk) same)) i.disk;
        },
        ap (λ x. x.receiver.conn.alive) e ∙ ap (λ x. x.conn.alive) same,
        ap (λ x. x.receiver.stopped) e ∙ ap (λ x. x.stopped) same,
      )

  -- Both mainloops have ended but for their disconnections.
  sender_last :
      (w : System)
      → IsEnding Q w
      → w.receiver_waits ≡ false
      → w.sender.stopped ≡ true
      → w.receiver.stopped ≡ true
      → w.sender.conn.alive ≡ true
      → w.receiver.conn.alive ≡ false
      → Ends w
  sender_last w i quiet stopped other alive closed =
      let (v, first) = sender_can_leave w i stopped alive in
      later v first (λ u step. elim step [
        | sender_takes q more t qs a running b c d e ↦ absurd cc
        | sender_leaves t qs a b c goes d e ↦
            let (i', left, over) = sender_left_lem w u t qs i alive goes e in
            now (record {
              sender_left = left;
              receiver_left = ap (λ x. x.receiver.conn.alive) e ∙ closed;
              sender_on = i'.sender_on;
              receiver_on = i'.receiver_on;
              disk = i'.disk;
            })
        | sender_exits a running b c e ↦ absurd cc
        | sender_offers served t qs a b offering c d e ↦ absurd (cc i.offered)
        | receiver_takes q more t qs a running b c d e ↦ absurd cc
        | receiver_answers answer q more t qs a b offers c d e ↦ absurd (cc i.no_offer)
        | receiver_leaves t qs a b at_rest live c d e ↦ absurd cc
        | receiver_exits a running b c e ↦ absurd cc
        | receiver_answers_waiting answer q more t qs a b offers c d over' e f ↦
            absurd (cc i.no_offer)
        | receiver_takes_waiting q more t qs a late c d e f ↦ absurd cc
        | receiver_exits_waiting a late c d e ↦ absurd cc
      ])

  receiver_last :
      (w : System)
      → IsEnding Q w
      → w.receiver_waits ≡ false
      → w.sender.stopped ≡ true
      → w.receiver.stopped ≡ true
      → w.sender.conn.alive ≡ false
      → w.receiver.conn.alive ≡ true
      → Ends w
  receiver_last w i quiet other stopped closed alive =
      let (v, first) = receiver_can_leave w i quiet stopped alive in
      later v first (λ u step. elim step [
        | sender_takes q more t qs a running b c d e ↦ absurd cc
        | sender_leaves t qs a b live c d e ↦ absurd cc
        | sender_exits a running b c e ↦ absurd cc
        | sender_offers served t qs a b offering c d e ↦ absurd (cc i.offered)
        | receiver_takes q more t qs a running b c d e ↦ absurd cc
        | receiver_answers answer q more t qs a b offers c d e ↦ absurd (cc i.no_offer)
        | receiver_leaves t qs a b at_rest c goes d e ↦
            let (i', left, over) = receiver_left_lem w u t qs i alive goes e in
            now (record {
              sender_left = ap (λ x. x.sender.conn.alive) e ∙ closed;
              receiver_left = left;
              sender_on = i'.sender_on;
              receiver_on = i'.receiver_on;
              disk = i'.disk;
            })
        | receiver_exits a running b c e ↦ absurd cc
        | receiver_answers_waiting answer q more t qs a b offers c d over' e f ↦
            absurd (cc i.no_offer)
        | receiver_takes_waiting q more t qs a late c d e f ↦ absurd cc
        | receiver_exits_waiting a late c d e ↦ absurd cc
      ])

  both_open :
      (w : System)
      → IsEnding Q w
      → w.receiver_waits ≡ false
      → w.sender.stopped ≡ true
      → w.receiver.stopped ≡ true
      → w.sender.conn.alive ≡ true
      → w.receiver.conn.alive ≡ true
      → Ends w
  both_open w i quiet stopped other alive live =
      let (v, first) = sender_can_leave w i stopped alive in
      later v first (λ u step. elim step [
        | sender_takes q more t qs a running b c d e ↦ absurd cc
        | sender_leaves t qs a b c goes d e ↦
            let (i', left, over) = sender_left_lem w u t qs i alive goes e in
            receiver_last u i' (ap (λ x. x.receiver_waits) e ∙ quiet) over
              (ap (λ x. x.receiver.stopped) e ∙ other) left
              (ap (λ x. x.receiver.conn.alive) e ∙ live)
        | sender_exits a running b c e ↦ absurd cc
        | sender_offers served t qs a b offering c d e ↦ absurd (cc i.offered)
        | receiver_takes q more t qs a running b c d e ↦ absurd cc
        | receiver_answers answer q more t qs a b offers c d e ↦ absurd (cc i.no_offer)
        | receiver_leaves t qs a b at_rest c goes d e ↦
            let (i', left, over) = receiver_left_lem w u t qs i live goes e in
            sender_last u i' (ap (λ x. x.receiver_waits) e ∙ quiet)
              (ap (λ x. x.sender.stopped) e ∙ stopped) over
              (ap (λ x. x.sender.conn.alive) e ∙ alive) left
        | receiver_exits a running b c e ↦ absurd cc
        | receiver_answers_waiting answer q more t qs a b offers c d over' e f ↦
            absurd (cc i.no_offer)
        | receiver_takes_waiting q more t qs a late c d e f ↦ absurd cc
        | receiver_exits_waiting a late c d e ↦ absurd cc
      ])

  -- Both nodes are stopped.
  pub both_stopped :
      (w : System)
      → IsEnding Q w
      → w.receiver_waits ≡ false
      → w.sender.stopped ≡ true
      → w.receiver.stopped ≡ true
      → Ends w
  both_stopped w i quiet stopped other = elim (Bool-cases w.sender.conn.alive) [
    | inl alive ↦ elim (Bool-cases w.receiver.conn.alive) [
      | inl live ↦ both_open w i quiet stopped other alive live
      | inr closed ↦ sender_last w i quiet stopped other alive closed
    ]
    | inr left ↦ elim (Bool-cases w.receiver.conn.alive) [
      | inl live ↦ receiver_last w i quiet stopped other left live
      | inr closed ↦ now (record {
        sender_left = left;
        receiver_left = closed;
        sender_on = i.sender_on;
        receiver_on = i.receiver_on;
        disk = i.disk;
      })
    ]
  ]
