-- ===== src/Node/System/Finishing.antt =====
-- src/node/node.go: DONE on its way to a receiving node, and REJECT on its way to a sending one.
use ftu.Common.{
  ◌≡◌, refl, sym, ap, subst, ◌∙◌, true, false, Bool-cases, inl, inr, List, [], ◌∷◌, ◌++◌, Bytes, ok,
}
use ftu.Fsys.Disk.{Disk}
use ftu.Protocol.Packet.{Packet}
use ftu.Protocol.Delivery.{frame}
use ftu.Node.State.{SenderNode, Env}
use ftu.Node.Transfer.{sender_step}
use ftu.Node.Transfer.Leaving.{done_packet, done_packet-IsSendable}
use ftu.Node.Receiver.{Surroundings}
use ftu.Node.Loop.Ends.{receiver_step-done}
use ftu.Node.Session.Answers.{IsOffering, reject_packet, sender_step-reject}
use ftu.Node.System.{
  System, Wrote, sender_takes, sender_leaves, sender_exits, sender_offers, receiver_takes,
  receiver_answers, receiver_answers_waiting, receiver_takes_waiting, receiver_leaves,
  receiver_exits, receiver_exits_waiting, Inevitably, later,
}
use ftu.Node.System.Turns.{Wrote-one, Wrote-none, receiver_takes-same, sender_takes-same}
use ftu.Node.System.Ending.{HasEnded, IsEnding, sender_left_lem, receiver_left_lem, both_stopped}

module _ (senv : Env) (env : Surroundings) (Q : Disk → Type 0) where
  abbrev Ends : System → Type 0
  Ends = Inevitably senv env (HasEnded Q)

  -- DONE is on its way to a running node; the other has stopped.
  abbrev pub took_done : System → List Packet → System
  took_done w rest = record w {
    receiver = record w.receiver { stopped = true };
    to_receiver = rest;
    to_sender = w.to_sender ++ [];
  }

  pub takes_done :
      (w : System) (rest : List Packet)
      → IsEnding Q w
      → w.receiver_waits ≡ false
      → w.sender.stopped ≡ true
      → w.to_receiver ≡ done_packet ∷ rest
      → Ends (took_done w rest)
  takes_done w rest i quiet stopped waits =
      both_stopped senv env Q (took_done w rest)
        (record {
          sender_on = i.sender_on;
          receiver_on = i.receiver_on;
          no_offer = i.no_offer;
          offered = i.offered;
          disk = i.disk;
        })
        quiet stopped refl

  done_closed :
      (w : System) (rest : List Packet)
      → IsEnding Q w
      → w.receiver_waits ≡ false
      → w.sender.stopped ≡ true
      → w.sender.conn.alive ≡ false
      → w.receiver.stopped ≡ false
      → w.to_receiver ≡ done_packet ∷ rest
      → Ends w
  done_closed w rest i quiet stopped closed running waits =
      let goes = receiver_step-done env w.receiver in
      let wrote = Wrote-none w.receiver.conn in
      later (took_done w rest)
        (receiver_takes done_packet rest (record w.receiver { stopped = true }) [] i.receiver_on
          running waits goes wrote refl)
        (λ u step. elim step [
          | sender_takes q more t qs a b c d e f ↦ absurd cc
          | sender_leaves t qs a b alive c d e ↦ absurd cc
          | sender_exits a b c d e ↦ absurd cc
          | sender_offers served t qs a b offering c d e ↦ absurd (cc i.offered)
          | receiver_takes q more t qs a b waits' goes' wrote' e ↦
              receiver_takes-same senv env (HasEnded Q) w done_packet q rest more
                (record w.receiver { stopped = true }) t [] qs u waits goes wrote waits' goes'
                wrote' e (takes_done w rest i quiet stopped waits)
          | receiver_answers answer q more t qs a b offers c d e ↦ absurd (cc i.no_offer)
          | receiver_leaves t qs a over at_rest b c d e ↦ absurd cc
          | receiver_exits a b empty c e ↦ absurd cc
          | receiver_answers_waiting answer q more t qs a b offers c d over' e f ↦
              absurd (cc i.no_offer)
          | receiver_takes_waiting q more t qs a late c d e f ↦ absurd cc
          | receiver_exits_waiting a late c d e ↦ absurd cc
        ])

  pub done_pending :
      (w : System) (rest : List Packet)
      → IsEnding Q w
      → w.receiver_waits ≡ false
      → w.sender.stopped ≡ true
      → w.receiver.stopped ≡ false
      → w.to_receiver ≡ done_packet ∷ rest
      → Ends w
  done_pending w rest i quiet stopped running waits = elim (Bool-cases w.sender.conn.alive) [
    | inr closed ↦ done_closed w rest i quiet stopped closed running waits
    | inl alive ↦
        let goes = receiver_step-done env w.receiver in
        let wrote = Wrote-none w.receiver.conn in
        later (took_done w rest)
          (receiver_takes done_packet rest (record w.receiver { stopped = true }) [] i.receiver_on
            running waits goes wrote refl)
          (λ u step. elim step [
            | sender_takes q more t qs a b c d e f ↦ absurd cc
            | sender_leaves t qs a b c leaves d e ↦
                let (i', left, over) = sender_left_lem senv env Q w u t qs i alive leaves e in
                done_closed u (rest ++ qs) i' (ap (λ x. x.receiver_waits) e ∙ quiet) over left
                  (ap (λ x. x.receiver.stopped) e ∙ running)
                  (ap (λ x. x.to_receiver) e ∙ ap (λ x. x ++ qs) waits)
            | sender_exits a b c d e ↦ absurd cc
            | sender_offers served t qs a b offering c d e ↦ absurd (cc i.offered)
            | receiver_takes q more t qs a b waits' goes' wrote' e ↦
                receiver_takes-same senv env (HasEnded Q) w done_packet q rest more
                  (record w.receiver { stopped = true }) t [] qs u waits goes wrote waits' goes'
                  wrote' e (takes_done w rest i quiet stopped waits)
            | receiver_answers answer q more t qs a b offers c d e ↦ absurd (cc i.no_offer)
            | receiver_leaves t qs a over at_rest b c d e ↦ absurd cc
            | receiver_exits a b empty c e ↦ absurd cc
            | receiver_answers_waiting answer q more t qs a b offers c d over' e f ↦
                absurd (cc i.no_offer)
            | receiver_takes_waiting q more t qs a late c d e f ↦ absurd cc
            | receiver_exits_waiting a late c d e ↦ absurd cc
          ])
  ]

  -- REJECT is on its way to a sending node that has queued nothing; the other has stopped.
  took_reject :
      (w : System) (s : SenderNode) (rest : List Packet)
      → IsEnding Q w
      → w.receiver_waits ≡ false
      → w.receiver.stopped ≡ true
      → s.stopped ≡ true
      → Ends (record w {
        sender = s;
        to_sender = rest;
        to_receiver = w.to_receiver ++ (done_packet ∷ []);
      })
  took_reject w s rest i quiet other stopped =
      both_stopped senv env Q
        (record w {
          sender = s;
          to_sender = rest;
          to_receiver = w.to_receiver ++ (done_packet ∷ []);
        })
        (record {
          sender_on = i.sender_on;
          receiver_on = i.receiver_on;
          no_offer = i.no_offer;
          offered = i.offered;
          disk = i.disk;
        })
        quiet stopped other

  reject_takes :
      (w : System) (out : Bytes) (rest : List Packet)
      → IsEnding Q w
      → w.receiver_waits ≡ false
      → w.receiver.stopped ≡ true
      → IsOffering w.sender out
      → w.to_sender ≡ reject_packet ∷ rest
      → (s : SenderNode) × (sender_step senv w.sender reject_packet ≡ ok s)
        × Wrote w.sender.conn s.conn (done_packet ∷ [])
        × Ends (record w {
          sender = s;
          to_sender = rest;
          to_receiver = w.to_receiver ++ (done_packet ∷ []);
        })
  reject_takes w out rest i quiet other o waits =
      let (s, goes, conn, stopped, same) = sender_step-reject senv w.sender out o in
      (
        s,
        goes,
        Wrote-one w.sender.conn s.conn done_packet
            (ap (λ c. c.outgoing) conn ∙ ap (λ c. c.outgoing ++ frame done_packet) (sym o.conn))
            done_packet-IsSendable,
        took_reject w s rest i quiet other stopped,
      )

  reject_closed :
      (w : System) (out : Bytes) (rest : List Packet)
      → IsEnding Q w
      → w.receiver_waits ≡ false
      → w.receiver.stopped ≡ true
      → w.receiver.conn.alive ≡ false
      → IsOffering w.sender out
      → w.to_sender ≡ reject_packet ∷ rest
      → Ends w
  reject_closed w out rest i quiet other closed o waits =
      let (s, goes, wrote, then) = reject_takes w out rest i quiet other o waits in
      let running = o.running in
      later
        (record w {
          sender = s;
          to_sender = rest;
          to_receiver = w.to_receiver ++ (done_packet ∷ []);
        })
        (sender_takes reject_packet rest s (done_packet ∷ []) i.sender_on o.running waits goes wrote
          refl)
        (λ u step. elim step [
          | sender_takes q more t qs a b waits' goes' wrote' e ↦
              sender_takes-same senv env (HasEnded Q) w reject_packet q rest more s t
                (done_packet ∷ []) qs u waits goes wrote waits' goes' wrote' e then
          | sender_leaves t qs a over b c d e ↦ absurd cc
          | sender_exits a b empty c e ↦ absurd cc
          | sender_offers served t qs a b offering c d e ↦ absurd (cc i.offered)
          | receiver_takes q more t qs a on b c d e ↦ absurd cc
          | receiver_answers answer q more t qs a b offers c d e ↦ absurd (cc i.no_offer)
          | receiver_leaves t qs a b at_rest alive c d e ↦ absurd cc
          | receiver_exits a on b c e ↦ absurd cc
          | receiver_answers_waiting answer q more t qs a b offers c d over' e f ↦
              absurd (cc i.no_offer)
          | receiver_takes_waiting q more t qs a late c d e f ↦ absurd cc
          | receiver_exits_waiting a late c d e ↦ absurd cc
        ])

  pub reject_pending :
      (w : System) (out : Bytes) (rest : List Packet)
      → IsEnding Q w
      → w.receiver_waits ≡ false
      → w.receiver.stopped ≡ true
      → IsOffering w.sender out
      → w.to_sender ≡ reject_packet ∷ rest
      → Ends w
  reject_pending w out rest i quiet other o waits = elim (Bool-cases w.receiver.conn.alive) [
    | inr closed ↦ reject_closed w out rest i quiet other closed o waits
    | inl alive ↦
        let (s, goes, wrote, then) = reject_takes w out rest i quiet other o waits in
        let running = o.running in
        later
          (record w {
            sender = s;
            to_sender = rest;
            to_receiver = w.to_receiver ++ (done_packet ∷ []);
          })
          (sender_takes reject_packet rest s (done_packet ∷ []) i.sender_on o.running waits goes
            wrote refl)
          (λ u step. elim step [
            | sender_takes q more t qs a b waits' goes' wrote' e ↦
                sender_takes-same senv env (HasEnded Q) w reject_packet q rest more s t
                  (done_packet ∷ []) qs u waits goes wrote waits' goes' wrote' e then
            | sender_leaves t qs a over b c d e ↦ absurd cc
            | sender_exits a b empty c e ↦ absurd cc
            | sender_offers served t qs a b offering c d e ↦ absurd (cc i.offered)
            | receiver_takes q more t qs a on b c d e ↦ absurd cc
            | receiver_answers answer q more t qs a b offers c d e ↦ absurd (cc i.no_offer)
            | receiver_leaves t qs a b at_rest c leaves d e ↦
                let (i', left, over) = receiver_left_lem senv env Q w u t qs i alive leaves e in
                reject_closed u out (rest ++ qs) i' (ap (λ x. x.receiver_waits) e ∙ quiet) over left
                  (subst (λ n. IsOffering n out) (sym (ap (λ x. x.sender) e)) o)
                  (ap (λ x. x.to_sender) e ∙ ap (λ x. x ++ qs) waits)
            | receiver_exits a on b c e ↦ absurd cc
            | receiver_answers_waiting answer q more t qs a b offers c d over' e f ↦
                absurd (cc i.no_offer)
            | receiver_takes_waiting q more t qs a late c d e f ↦ absurd cc
            | receiver_exits_waiting a late c d e ↦ absurd cc
          ])
  ]
