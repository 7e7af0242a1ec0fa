-- ===== src/Node/System/Bounded.antt =====
-- src/node/node.go: how many packets can be on their way between both nodes.
use ftu.Common.{
  ℕ, ◌+◌, ◌*◌, ◌^◌, ◌≤◌, ◌<◌, ◌≡◌, refl, sym, ap, subst, ◌∙◌, Bool, Bool-cases, inl, inr, true,
  false, Option, none, some, List, [], ◌∷◌, ◌++◌, Bytes, length, length-append, ltb, ok, err,
  packet_too_big, arith,
}
use ftu.Common.BigEndian.{put_u64, length-put_u64}
use ftu.Encryption.{IsGcm}
use ftu.Protocol.Headers.{
  max_packet_size, Kind, kind_of, encryption_key, reject, accept, done, ready, disconnecting,
  transfer_offer, file, file_bytes, endfile, directory, already_have, symlink, unknown,
}
use ftu.Protocol.Packet.{Packet, size, to_bytes}
use ftu.Protocol.Packet.Framing.{payload, to_bytes_lem}
use ftu.Protocol.Delivery.{frame, frames}
use ftu.Protocol.Pieces.Paced.{IsPaced}
use ftu.Protocol.Send.{Conn}
use ftu.Node.State.{Env}
use ftu.Node.Transfer.Leaving.{bye_packet, bye_packet-IsSendable, departed}
use ftu.Node.Transfer.Pace.{sender_step-IsPaced}
use ftu.Node.Receiver.{Surroundings, ready_packet}
use ftu.Node.Receiving.Written.{HasWritten}
use ftu.Node.Receiving.Answering.{IsAnswered, receiver_step-IsAnswered}
use ftu.Node.Loop.Ends.{gone, disconnect_receiver-alive}
use ftu.Node.Start.{Served}
use ftu.Node.System.{
  System, Wrote, Step, sender_takes, sender_leaves, sender_exits, sender_offers, receiver_takes,
  receiver_answers, receiver_answers_waiting, receiver_takes_waiting, receiver_leaves,
  receiver_exits, receiver_exits_waiting,
}
use ftu.Node.System.Ending.{disconnect-alive}
use ftu.Node.System.Paced.{
  IsPaced-alive, HasWritten-WroteOne, offer_step-IsPaced, answer_step-Answers,
}
use ftu.Node.System.Turns.{Wrote-one, Wrote-same}

to_bytes-length :
    (p : Packet) (bs : Bytes) → to_bytes p ≡ ok bs → length bs ≡ 8 + length (payload p)
unfolding to_bytes
to_bytes-length p bs e = elim (Bool-cases (ltb max_packet_size (size p))) [
  | inl big ↦ let fails : to_bytes p ≡ err packet_too_big = rw (to_bytes, big) refl in absurd cc
  | inr small ↦
      let runs : to_bytes p ≡ ok (put_u64 (size p) ++ payload p) = rw (to_bytes, small) refl in
      let same : put_u64 (size p) ++ payload p ≡ bs = cc in
      omega (
        arith,
        ap length same,
        length-append (put_u64 (size p)) (payload p),
        length-put_u64 (size p),
      )
]

-- What is written makes the bytes longer by at least eight for each packet.
frames-longer : (ps : List Packet) → 8 * length ps ≤ length (frames ps)
frames-longer [] = omega arith
frames-longer (p ∷ ps) = omega (
  arith,
  frames-longer ps,
  length-append (frame p) (frames ps),
  length-append (put_u64 (length (payload p))) (payload p),
  length-put_u64 (length (payload p)),
)

pub Wrote-longer :
    (c c' : Conn) (ps : List Packet)
    → Wrote c c' ps
    → length c'.outgoing ≡ length c.outgoing + length (frames ps)
Wrote-longer c c' ps (e, sendable) = ap length e ∙ length-append c.outgoing (frames ps)

-- At most one packet is at most one packet, as long as the connection has not carried 2^64 bytes.
IsPaced-length :
    (c c' : Conn) (ps : List Packet)
    → IsPaced c c'
    → Wrote c c' ps
    → length c'.outgoing < 2 ^ 64
    → length ps ≤ 1
IsPaced-length c c' ps (inl same) wrote small =
    omega (arith, frames-longer ps, Wrote-longer c c' ps wrote, ap (λ x. length x.outgoing) same)
IsPaced-length c c' ps (inr one) wrote small = elim (Bool-cases c.alive) [
  | inr dead ↦
      let same : c' ≡ c = one.written ∙ rw dead refl in
      omega (arith, frames-longer ps, Wrote-longer c c' ps wrote, ap (λ x. length x.outgoing) same)
  | inl alive ↦
      let p = one.packet in
      let long = to_bytes-length p one.bytes one.framed in
      let out : c'.outgoing ≡ c.outgoing ++ one.bytes =
        ap (λ x. x.outgoing) one.written ∙ rw alive refl in
      let fits : length (payload p) < 2 ^ 64 =
        omega (arith, small, ap length out, length-append c.outgoing one.bytes) in
      elim (to_bytes_lem p fits) [
        | inl (few, framed) ↦
            let same : one.bytes ≡ frame p = cc one.framed in
            let wrote1 : Wrote c c' (p ∷ []) =
              Wrote-one c c' p (out ∙ ap (λ x. c.outgoing ++ x) same)
                (record { plain_header = one.plain_header; small = few }) in
            omega (arith, ap length (Wrote-same c c' ps (p ∷ []) wrote wrote1))
        | inr (many, fails) ↦ absurd (cc one.framed)
      ]
]

abbrev pub bit : Bool → ℕ
bit true = 1
bit false = 0

pub bit_bound : (b : Bool) → bit b ≤ 1
bit_bound true = omega arith
bit_bound false = omega arith

abbrev pub pending : Option Served → ℕ
pending none = 0
pending (some served) = 1

-- The packets on their way, and those that the nodes may still write without taking one: an answer
-- to each offer that waits, the offer, and a BYE! of each node.
abbrev pub due : System → ℕ
due w =
    length w.to_sender
    + length w.to_receiver
    + length w.receiver.offers
    + pending w.to_offer
    + bit w.sender.conn.alive
    + bit w.receiver.conn.alive

quiet-length : (c c' : Conn) (ps : List Packet) → c' ≡ c → Wrote c c' ps → length ps ≡ 0
quiet-length c c' ps same wrote =
    omega (arith, frames-longer ps, Wrote-longer c c' ps wrote, ap (λ x. length x.outgoing) same)

quiet-due :
    (c c' : Conn) (os os' ps : List Packet)
    → c' ≡ c
    → os' ≡ os
    → Wrote c c' ps
    → (length ps + length os' ≤ length os + 1) × (c'.alive ≡ c.alive)
quiet-due c c' os os' ps same same_offers wrote =
    (omega (arith, quiet-length c c' ps same wrote, ap length same_offers), ap (λ x. x.alive) same)

written-due :
    (c c' : Conn) (os os' ps : List Packet) (q : Packet)
    → HasWritten c c' os os' q
    → Wrote c c' ps
    → length c'.outgoing < 2 ^ 64
    → (length ps + length os' ≤ length os + 1) × (c'.alive ≡ c.alive)
written-due c c' os os' ps q h wrote small =
    let paced : IsPaced c c' = inr (HasWritten-WroteOne c c' os os' q h) in
    (
      omega (arith, IsPaced-length c c' ps paced wrote small, ap length h.same_offers),
      IsPaced-alive c c' paced,
    )

-- A round on a packet answers it, or puts it behind the offers that wait.
answered-due :
    (k : Kind) (p : Packet) (c c' : Conn) (os os' ps : List Packet)
    → IsAnswered k p c c' os os'
    → Wrote c c' ps
    → length c'.outgoing < 2 ^ 64
    → (length ps + length os' ≤ length os + 1) × (c'.alive ≡ c.alive)
answered-due file p c c' os os' ps (inl h) wrote small =
    written-due c c' os os' ps ready_packet h wrote small
answered-due file p c c' os os' ps (inr (q, h, kind)) wrote small =
    written-due c c' os os' ps q h wrote small
answered-due file_bytes p c c' os os' ps h wrote small =
    written-due c c' os os' ps ready_packet h wrote small
answered-due endfile p c c' os os' ps h wrote small =
    written-due c c' os os' ps ready_packet h wrote small
answered-due symlink p c c' os os' ps h wrote small =
    written-due c c' os os' ps ready_packet h wrote small
answered-due transfer_offer p c c' os os' ps (same, queued) wrote small = (
  omega (arith, quiet-length c c' ps same wrote, ap length queued, length-append os (p ∷ [])),
  ap (λ x. x.alive) same,
)
answered-due encryption_key p c c' os os' ps q wrote small = quiet-due c c' os os' ps q.0 q.1 wrote
answered-due reject p c c' os os' ps q wrote small = quiet-due c c' os os' ps q.0 q.1 wrote
answered-due accept p c c' os os' ps q wrote small = quiet-due c c' os os' ps q.0 q.1 wrote
answered-due done p c c' os os' ps q wrote small = quiet-due c c' os os' ps q.0 q.1 wrote
answered-due ready p c c' os os' ps q wrote small = quiet-due c c' os os' ps q.0 q.1 wrote
answered-due disconnecting p c c' os os' ps q wrote small = quiet-due c c' os os' ps q.0 q.1 wrote
answered-due directory p c c' os os' ps q wrote small = quiet-due c c' os os' ps q.0 q.1 wrote
answered-due already_have p c c' os os' ps q wrote small = quiet-due c c' os os' ps q.0 q.1 wrote
answered-due unknown p c c' os os' ps q wrote small = quiet-due c c' os os' ps q.0 q.1 wrote

module _ (senv : Env) (env : Surroundings) (gcm : IsGcm env.cipher) where
  pub Step-due :
      (w v : System)
      → Step senv env w v
      → length v.sender.conn.outgoing < 2 ^ 64
      → length v.receiver.conn.outgoing < 2 ^ 64
      → due v ≤ due w
  Step-due w v step small room = elim step [
    | sender_takes p rest s ps on running waits goes wrote e ↦
        let paced = sender_step-IsPaced senv w.sender s p goes in
        let few =
          IsPaced-length w.sender.conn s.conn ps paced wrote
            (subst (λ x. length x.sender.conn.outgoing < 2 ^ 64) e small) in
        subst (λ x. due x ≤ due w) (sym e)
          (omega (
            arith,
            few,
            ap length waits,
            length-append w.to_receiver ps,
            ap bit (IsPaced-alive w.sender.conn s.conn paced),
          ))
    | sender_leaves s ps on over alive goes wrote e ↦
        let same : s ≡ departed w.sender w.sender.conn.outgoing =
          cc (disconnect-alive w.sender alive) in
        let bye =
          Wrote-one w.sender.conn s.conn bye_packet (ap (λ x. x.conn.outgoing) same)
            bye_packet-IsSendable in
        let one = Wrote-same w.sender.conn s.conn ps (bye_packet ∷ []) wrote bye in
        subst (λ x. due x ≤ due w) (sym e)
          (omega (
            arith,
            ap length one,
            length-append w.to_receiver ps,
            ap bit alive,
            ap (λ x. bit x.conn.alive) same,
          ))
    | sender_exits on running empty gone e ↦ subst (λ x. due x ≤ due w) (sym e) (omega arith)
    | sender_offers served s ps on alive offers goes wrote e ↦
        let paced = offer_step-IsPaced senv served w.sender s goes in
        let few =
          IsPaced-length w.sender.conn s.conn ps paced wrote
            (subst (λ x. length x.sender.conn.outgoing < 2 ^ 64) e small) in
        subst (λ x. due x ≤ due w) (sym e)
          (omega (
            arith,
            few,
            ap pending offers,
            length-append w.to_receiver ps,
            ap bit (IsPaced-alive w.sender.conn s.conn paced),
          ))
    | receiver_takes p rest r ps on running waits goes wrote e ↦
        let (clear, opens, answered) = receiver_step-IsAnswered env gcm w.receiver r p goes in
        let (few, same) =
          answered-due (kind_of clear.header) clear w.receiver.conn r.conn w.receiver.offers
            r.offers ps answered wrote
            (subst (λ x. length x.receiver.conn.outgoing < 2 ^ 64) e room) in
        subst (λ x. due x ≤ due w) (sym e)
          (omega (arith, few, ap length waits, length-append w.to_sender ps, ap bit same))
    | receiver_answers answer p rest r ps on alive offers goes wrote e ↦
        let (one, left) = answer_step-Answers env answer w.receiver r p rest goes in
        let few =
          IsPaced-length w.receiver.conn r.conn ps (inr one) wrote
            (subst (λ x. length x.receiver.conn.outgoing < 2 ^ 64) e room) in
        subst (λ x. due x ≤ due w) (sym e)
          (omega (
            arith,
            few,
            ap length offers,
            ap length left,
            length-append w.to_sender ps,
            ap bit (IsPaced-alive w.receiver.conn r.conn (inr one)),
          ))
    | receiver_answers_waiting answer p rest r ps on alive offers running goes over wrote e ↦
        let (one, left) = answer_step-Answers env answer w.receiver r p rest goes in
        let few =
          IsPaced-length w.receiver.conn r.conn ps (inr one) wrote
            (subst (λ x. length x.receiver.conn.outgoing < 2 ^ 64) e room) in
        subst (λ x. due x ≤ due w) (sym e)
          (omega (
            arith,
            few,
            ap length offers,
            ap length left,
            length-append w.to_sender ps,
            ap bit (IsPaced-alive w.receiver.conn r.conn (inr one)),
          ))
    | receiver_takes_waiting p rest r ps on late waits goes wrote e ↦
        let (clear, opens, answered) = receiver_step-IsAnswered env gcm w.receiver r p goes in
        let (few, same) =
          answered-due (kind_of clear.header) clear w.receiver.conn r.conn w.receiver.offers
            r.offers ps answered wrote
            (subst (λ x. length x.receiver.conn.outgoing < 2 ^ 64) e room) in
        subst (λ x. due x ≤ due w) (sym e)
          (omega (arith, few, ap length waits, length-append w.to_sender ps, ap bit same))
    | receiver_leaves r ps on over at_rest alive goes wrote e ↦
        let same : r ≡ gone w.receiver (w.receiver.conn.outgoing ++ frame bye_packet) =
          cc (disconnect_receiver-alive w.receiver alive) in
        let bye =
          Wrote-one w.receiver.conn r.conn bye_packet (ap (λ x. x.conn.outgoing) same)
            bye_packet-IsSendable in
        let one = Wrote-same w.receiver.conn r.conn ps (bye_packet ∷ []) wrote bye in
        subst (λ x. due x ≤ due w) (sym e)
          (omega (
            arith,
            ap length one,
            length-append w.to_sender ps,
            ap bit alive,
            ap (λ x. bit x.conn.alive) same,
            ap (λ x. length x.offers) same,
          ))
    | receiver_exits on running empty left e ↦ subst (λ x. due x ≤ due w) (sym e) (omega arith)
    | receiver_exits_waiting on late empty left e ↦ subst (λ x. due x ≤ due w) (sym e) (omega arith)
  ]
