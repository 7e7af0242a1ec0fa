-- ===== src/Node/System/Starting.antt =====
-- src/node/node.go: both nodes before their mainloops, where the goroutine of the offer may run
-- before or behind the round of the key.
use ftu.Common.{
  ◌≤◌, ◌≡◌, refl, sym, ap, subst, ◌∙◌, true, false, none, some, List, [], ◌∷◌, ◌++◌, Bytes, length,
  ok,
}
use ftu.Encryption.{key_len}
use ftu.Protocol.Headers
use ftu.Protocol.Headers.{kind_of}
use ftu.Protocol.Packet.{Packet, decrypt_body_if}
use ftu.Node.State.{SenderNode, Env}
use ftu.Node.Receiver.{Surroundings, ReceiverNode}
use ftu.Node.Start.{Served, offer_step}
use ftu.Node.Start.Keys.{key_packet, receiver_step-key}
use ftu.Node.System.{
  System, Wrote, sender_takes, sender_leaves, sender_exits, sender_offers, receiver_takes,
  receiver_answers, receiver_answers_waiting, receiver_takes_waiting, receiver_leaves,
  receiver_exits, receiver_exits_waiting, Inevitably, later,
}
use ftu.Node.System.Turns.{
  nothing_waits, Wrote-none, Wrote-same, Inevitably-trans, receiver_takes-same, receiver_turn,
}
use ftu.Node.System.Exchange.{IsListening}
use ftu.Node.System.Session.{asked, resting, opening, opening-asks, receiver_step-offer}

-- The key is on its way, and the offer is still to be made.
abbrev pub starting : SenderNode → ReceiverNode → Bytes → Served → System
starting s r key served = record (resting s r) {
  to_receiver = key_packet key ∷ [];
  to_offer = some served;
}

module _ (senv : Env) (env : Surroundings) (P : System → Type 0) where
  -- An offer is determined by the node and what it serves.
  sender_offers-same :
      (w u : System) (served other : Served) (s t : SenderNode) (ps qs : List Packet)
      → w.to_offer ≡ some served
      → offer_step senv served w.sender ≡ ok s
      → Wrote w.sender.conn s.conn ps
      → w.to_offer ≡ some other
      → offer_step senv other w.sender ≡ ok t
      → Wrote w.sender.conn t.conn qs
      → u ≡ record w { sender = t; to_receiver = w.to_receiver ++ qs; to_offer = none }
      → Inevitably senv env P
          (record w { sender = s; to_receiver = w.to_receiver ++ ps; to_offer = none })
      → Inevitably senv env P u
  sender_offers-same w u served other s t ps qs serves goes wrote serves' goes' wrote' e ends =
      let same_served : other ≡ served = cc in
      let same : t ≡ s = cc in
      let same_ps : qs ≡ ps =
        Wrote-same w.sender.conn s.conn qs ps
          (subst (λ x. Wrote w.sender.conn x.conn qs) same wrote') wrote in
      subst (Inevitably senv env P)
        (sym (
          e
          ∙ ap (λ x. record w { sender = x; to_receiver = w.to_receiver ++ qs; to_offer = none })
              same
          ∙ ap (λ x. record w { sender = s; to_receiver = w.to_receiver ++ x; to_offer = none })
              same_ps))
        ends

  module _ (s s1 : SenderNode) (r : ReceiverNode) (key : Bytes) (served : Served)
      (offer clear : Packet) (running : s.stopped ≡ false) (live : s.conn.alive ≡ true)
      (goes_on : s1.stopped ≡ false) (l : IsListening r) (no_key : r.encryption_key ≡ none)
      (long : length key ≡ key_len) (fits : key_len ≤ env.max_alloc)
      (offers : offer_step senv served s ≡ ok s1) (wrote : Wrote s.conn s1.conn (offer ∷ []))
      (opens : decrypt_body_if env.cipher (some key) offer ≡ ok clear)
      (kind : kind_of clear.header ≡ Headers.transfer_offer)
      (go_on : Inevitably senv env P (resting s1 (asked r key clear))) where
    abbrev keyed : ReceiverNode
    keyed = record r { encryption_key = some key }

    -- The key first, then the offer.
    key_first : Inevitably senv env P (record (resting s keyed) { to_offer = some served })
    key_first =
        let w : System = record (resting s keyed) { to_offer = some served } in
        let on = l.running in
        let alive = l.alive in
        let quiet = l.no_offer in
        let next =
          receiver_turn senv env P (record (resting s1 keyed) { to_receiver = offer ∷ [] }) offer []
            (asked r key clear) [] refl refl alive on goes_on quiet refl refl refl refl
            (receiver_step-offer env keyed offer clear opens kind) (Wrote-none r.conn) go_on in
        later (record (resting s1 keyed) { to_receiver = offer ∷ [] })
          (sender_offers served s1 (offer ∷ []) refl live refl offers wrote refl)
          (λ u step. elim step [
            | sender_takes q more t qs a b empty c d e ↦ absurd (nothing_waits q more empty)
            | sender_leaves t qs a over b c d e ↦ absurd cc
            | sender_exits a b c gone e ↦ absurd cc
            | sender_offers other t qs a b serves goes took e ↦
                sender_offers-same w u served other s1 t (offer ∷ []) qs refl offers wrote serves
                  goes took e next
            | receiver_takes q more t qs a b empty c d e ↦ absurd (nothing_waits q more empty)
            | receiver_answers answer q more t qs a b waits c d e ↦ absurd cc
            | receiver_leaves t qs a over at_rest b c d e ↦ absurd cc
            | receiver_exits a b c gone e ↦ absurd cc
            | receiver_answers_waiting answer q more t qs a b offers c d over' e f ↦ absurd cc
            | receiver_takes_waiting q more t qs a late c d e f ↦ absurd cc
            | receiver_exits_waiting a late c d e ↦ absurd cc
          ])

    pub starting-asks : Inevitably senv env P (starting s r key served)
    starting-asks =
        let w = starting s r key served in
        let on = l.running in
        let alive = l.alive in
        let quiet = l.no_offer in
        let takes = receiver_step-key env r key no_key long fits in
        let offer_first =
          Inevitably-trans senv env (λ v. v ≡ resting s1 (asked r key clear)) P
            (opening s1 r key offer)
            (opening-asks senv env s1 r key offer clear goes_on l no_key long fits opens kind)
            (λ v e. subst (Inevitably senv env P) (sym e) go_on) in
        later (record (resting s keyed) { to_offer = some served })
          (receiver_takes (key_packet key) [] keyed [] refl on refl takes (Wrote-none r.conn) refl)
          (λ u step. elim step [
            | sender_takes q more t qs a b empty c d e ↦ absurd (nothing_waits q more empty)
            | sender_leaves t qs a over b c d e ↦ absurd cc
            | sender_exits a b c gone e ↦ absurd cc
            | sender_offers other t qs a b serves goes took e ↦
                sender_offers-same w u served other s1 t (offer ∷ []) qs refl offers wrote serves
                  goes took e offer_first
            | receiver_takes q more t qs a b waits goes took e ↦
                receiver_takes-same senv env P w (key_packet key) q [] more keyed t [] qs u refl
                  takes (Wrote-none r.conn) waits goes took e key_first
            | receiver_answers answer q more t qs a b waits c d e ↦ absurd cc
            | receiver_leaves t qs a over at_rest b c d e ↦ absurd cc
            | receiver_exits a b c gone e ↦ absurd cc
            | receiver_answers_waiting answer q more t qs a b offers c d over' e f ↦ absurd cc
            | receiver_takes_waiting q more t qs a late c d e f ↦ absurd cc
            | receiver_exits_waiting a late c d e ↦ absurd cc
          ])
