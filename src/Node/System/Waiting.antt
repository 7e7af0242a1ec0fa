-- ===== src/Node/System/Waiting.antt =====
-- src/node/node.go: a receiving node that a no has stopped while its mainloop waits for a packet.
use ftu.Common.{
  ◌≡◌, refl, sym, ap, ◌∙◌, true, false, Bool-cases, inl, inr, List, [], ◌∷◌, ◌++◌, Bytes, ok,
}
use ftu.Fsys.Disk.{Disk}
use ftu.Protocol.Packet.{Packet}
use ftu.Protocol.Delivery.{frame}
use ftu.Node.State.{Env}
use ftu.Node.Transfer.Leaving.{done_packet, done_packet-IsSendable}
use ftu.Node.Receiver.{Surroundings, ReceiverNode}
use ftu.Node.Receiving.{receiver_step}
use ftu.Node.Loop.Ends.{receiver_step-done}
use ftu.Node.Session.Answers.{IsOffering, reject_packet, sender_step-reject}
use ftu.Node.System.{
  System, Wrote, sender_takes, sender_leaves, sender_exits, sender_offers, receiver_takes,
  receiver_answers, receiver_answers_waiting, receiver_takes_waiting, receiver_leaves,
  receiver_exits, receiver_exits_waiting, Inevitably, later,
}
use ftu.Node.System.Turns.{Wrote-one, Wrote-none, receiver_takes-same, sender_takes-same}
use ftu.Node.System.Finishing.{took_done, takes_done}
use ftu.Node.System.Ending.{HasEnded, IsEnding, sender_left_lem}

module _ (senv : Env) (env : Surroundings) (Q : Disk → Type 0) where
  abbrev Ends : System → Type 0
  Ends = Inevitably senv env (HasEnded Q)

  -- A waiting node that a no has stopped takes DONE although it is stopped.
  abbrev took_waiting : System → List Packet → System
  took_waiting w rest = record (took_done senv env Q w rest) { receiver_waits = false }

  waiting_takes-same :
      (w u : System) (rest : List Packet) (q : Packet) (more : List Packet) (t : ReceiverNode)
      (qs : List Packet)
      → IsEnding Q w
      → w.sender.stopped ≡ true
      → w.to_receiver ≡ done_packet ∷ rest
      → w.to_receiver ≡ q ∷ more
      → receiver_step env w.receiver q ≡ ok t
      → Wrote w.receiver.conn t.conn qs
      → u ≡ record w {
        receiver = t;
        to_receiver = more;
        to_sender = w.to_sender ++ qs;
        receiver_waits = false;
      }
      → Ends u
  waiting_takes-same w u rest q more t qs i stopped waits waits' goes' wrote' e =
      let v : System = record w { receiver_waits = false } in
      let i' : IsEnding Q v = record {
        sender_on = i.sender_on;
        receiver_on = i.receiver_on;
        no_offer = i.no_offer;
        offered = i.offered;
        disk = i.disk;
      } in
      receiver_takes-same senv env (HasEnded Q) v done_packet q rest more
        (record w.receiver { stopped = true }) t [] qs u waits (receiver_step-done env w.receiver)
        (Wrote-none w.receiver.conn) waits' goes' wrote' e
        (takes_done senv env Q v rest i' refl stopped waits)

  -- It is stopped and waits, and DONE is on its way to it.
  waiting_closed :
      (w : System) (rest : List Packet)
      → IsEnding Q w
      → w.sender.stopped ≡ true
      → w.sender.conn.alive ≡ false
      → w.receiver.stopped ≡ true
      → w.receiver_waits ≡ true
      → w.to_receiver ≡ done_packet ∷ rest
      → Ends w
  waiting_closed w rest i stopped closed over late waits =
      let goes = receiver_step-done env w.receiver in
      let wrote = Wrote-none w.receiver.conn in
      later (took_waiting w rest)
        (receiver_takes_waiting done_packet rest (record w.receiver { stopped = true }) []
          i.receiver_on late waits goes wrote refl)
        (λ u step. elim step [
          | sender_takes q more t qs a b c d e f ↦ absurd cc
          | sender_leaves t qs a b alive c d e ↦ absurd cc
          | sender_exits a b c d e ↦ absurd cc
          | sender_offers served t qs a b offering c d e ↦ absurd (cc i.offered)
          | receiver_takes q more t qs a running b c d e ↦ absurd cc
          | receiver_answers answer q more t qs a b offers c d e ↦ absurd (cc i.no_offer)
          | receiver_leaves t qs a b at_rest c d e f ↦ absurd cc
          | receiver_exits a running b c e ↦ absurd cc
          | receiver_answers_waiting answer q more t qs a b offers c d e f g ↦
              absurd (cc i.no_offer)
          | receiver_takes_waiting q more t qs a b waits' goes' wrote' e ↦
              waiting_takes-same w u rest q more t qs i stopped waits waits' goes' wrote' e
          | receiver_exits_waiting a b empty c e ↦ absurd cc
        ])

  waiting_done :
      (w : System) (rest : List Packet)
      → IsEnding Q w
      → w.sender.stopped ≡ true
      → w.receiver.stopped ≡ true
      → w.receiver_waits ≡ true
      → w.to_receiver ≡ done_packet ∷ rest
      → Ends w
  waiting_done w rest i stopped over late waits = elim (Bool-cases w.sender.conn.alive) [
    | inr closed ↦ waiting_closed w rest i stopped closed over late waits
    | inl alive ↦
        let goes = receiver_step-done env w.receiver in
        let wrote = Wrote-none w.receiver.conn in
        later (took_waiting w rest)
          (receiver_takes_waiting done_packet rest (record w.receiver { stopped = true }) []
            i.receiver_on late waits goes wrote refl)
          (λ u step. elim step [
            | sender_takes q more t qs a b c d e f ↦ absurd cc
            | sender_leaves t qs a b c leaves d e ↦
                let (i', left, gone) = sender_left_lem senv env Q w u t qs i alive leaves e in
                waiting_closed u (rest ++ qs) i' gone left (ap (λ x. x.receiver.stopped) e ∙ over)
                  (ap (λ x. x.receiver_waits) e ∙ late)
                  (ap (λ x. x.to_receiver) e ∙ ap (λ x. x ++ qs) waits)
            | sender_exits a b c d e ↦ absurd cc
            | sender_offers served t qs a b offering c d e ↦ absurd (cc i.offered)
            | receiver_takes q more t qs a running b c d e ↦ absurd cc
            | receiver_answers answer q more t qs a b offers c d e ↦ absurd (cc i.no_offer)
            | receiver_leaves t qs a b at_rest c d e f ↦ absurd cc
            | receiver_exits a running b c e ↦ absurd cc
            | receiver_answers_waiting answer q more t qs a b offers c d e f g ↦
                absurd (cc i.no_offer)
            | receiver_takes_waiting q more t qs a b waits' goes' wrote' e ↦
                waiting_takes-same w u rest q more t qs i stopped waits waits' goes' wrote' e
            | receiver_exits_waiting a b empty c e ↦ absurd cc
          ])
  ]

  -- It is stopped and waits, and REJECT is on its way to the sending node, which answers DONE.
  pub reject_waiting :
      (w : System) (out : Bytes) (rest : List Packet)
      → IsEnding Q w
      → w.receiver.stopped ≡ true
      → w.receiver_waits ≡ true
      → w.to_receiver ≡ []
      → IsOffering w.sender out
      → w.to_sender ≡ reject_packet ∷ rest
      → Ends w
  reject_waiting w out rest i over late empty o waits =
      let (s, goes, conn, stopped, same) = sender_step-reject senv w.sender out o in
      let wrote : Wrote w.sender.conn s.conn (done_packet ∷ []) =
        Wrote-one w.sender.conn s.conn done_packet
          (ap (λ c. c.outgoing) conn ∙ ap (λ c. c.outgoing ++ frame done_packet) (sym o.conn))
          done_packet-IsSendable in
      let v : System = record w {
        sender = s;
        to_sender = rest;
        to_receiver = w.to_receiver ++ (done_packet ∷ []);
      } in
      let ends : Ends v =
        waiting_done v []
          (record {
            sender_on = i.sender_on;
            receiver_on = i.receiver_on;
            no_offer = i.no_offer;
            offered = i.offered;
            disk = i.disk;
          })
          stopped over late (ap (λ x. x ++ (done_packet ∷ [])) empty) in
      let running = o.running in
      let live : w.sender.conn.alive ≡ true = ap (λ c. c.alive) o.conn in
      later v
        (sender_takes reject_packet rest s (done_packet ∷ []) i.sender_on o.running waits goes wrote
          refl)
        (λ u step. elim step [
          | sender_takes q more t qs a b waits' goes' wrote' e ↦
              sender_takes-same senv env (HasEnded Q) w reject_packet q rest more s t
                (done_packet ∷ []) qs u waits goes wrote waits' goes' wrote' e ends
          | sender_leaves t qs a gone b c d e ↦ absurd cc
          | sender_exits a b none_left c e ↦ absurd cc
          | sender_offers served t qs a b offering c d e ↦ absurd (cc i.offered)
          | receiver_takes q more t qs a on b c d e ↦ absurd cc
          | receiver_answers answer q more t qs a b offers c d e ↦ absurd (cc i.no_offer)
          | receiver_leaves t qs a b at_rest c d e f ↦ absurd cc
          | receiver_exits a on b c e ↦ absurd cc
          | receiver_answers_waiting answer q more t qs a b offers c d e f g ↦
              absurd (cc i.no_offer)
          | receiver_takes_waiting q more t qs a b waits' c d e ↦ absurd cc
          | receiver_exits_waiting a b none_left closed e ↦ absurd cc
        ])
