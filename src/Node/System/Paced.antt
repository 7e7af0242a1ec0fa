-- ===== src/Node/System/Paced.antt =====
-- src/node/node.go: how many packets the offer, the answer to it and the disconnections write.
use ftu.Common.{
  ◌≡◌, refl, sym, ap, subst, ◌∙◌, Bool, Bool-cases, inl, inr, true, false, Option, none, some, List,
  [], ◌∷◌, ◌++◌, Bytes, if◌then◌else◌, Outcome, ok, err, panic, unfinished, ◌>>=◌, >>=-eq-ok,
}
use ftu.Encryption.{Cipher}
use ftu.Fsys.Disk.{Disk, Os, File}
use ftu.Fsys.Tree.{Directory}
use ftu.Protocol.Headers
use ftu.Protocol.Headers.{header_of, dir_code, file_code}
use ftu.Protocol.Packet.{Packet}
use ftu.Protocol.Packet.Framing.{header_of-plain, to_bytes_small}
use ftu.Protocol.Construct.{create_file_packet, create_directory_packet}
use ftu.Protocol.Decode.{decode_transfer_packet}
use ftu.Protocol.Delivery.{frame}
use ftu.Protocol.Pieces.Paced.{IsPaced, WroteOne, send_packet-WroteOne}
use ftu.Protocol.Send.{Conn, write, send_packet, encrypt_if, offer, send_transfer_offer}
use ftu.Node.State.{SenderNode, Env}
use ftu.Node.Sender.{or_panic, or_panic-eq-ok}
use ftu.Node.Receiver.{Surroundings, ReceiverNode, offered_size, enter_directory, answer_offer}
use ftu.Node.Receiver.Entering.{enter_directory-Keeps}
use ftu.Node.Receiving.{answer_step}
use ftu.Node.Receiving.Written.{HasWritten}
use ftu.Node.Start.{Served, offer_step}

-- A connection is as open after its packet as before.
write-alive : (bs : Bytes) (c : Conn) → (write bs c).alive ≡ c.alive
write-alive bs c = elim (Bool-cases c.alive) [ inl live ↦ rw live refl | inr dead ↦ rw dead refl ]

pub IsPaced-alive : (c c' : Conn) → IsPaced c c' → c'.alive ≡ c.alive
IsPaced-alive c c' (inl same) = ap (λ x. x.alive) same
IsPaced-alive c c' (inr one) = ap (λ x. x.alive) one.written ∙ write-alive one.bytes c

pub HasWritten-WroteOne :
    (c c' : Conn) (os os' : List Packet) (p : Packet) → HasWritten c c' os os' p → WroteOne c c'
HasWritten-WroteOne c c' os os' p h = record {
  packet = p;
  bytes = frame p;
  plain_header = h.sendable.plain_header;
  framed = to_bytes_small p h.sendable.small;
  written = h.written;
}

abbrev told_of : Conn → Disk → Outcome (Conn × Disk)
told_of conn d = ok (conn, d)

module _ (c : Cipher) where
  offer-WroteOne :
      (conn conn' : Conn) (key : Option Bytes) (body : Bytes)
      → offer c conn key body ≡ ok conn'
      → WroteOne conn conn'
  unfolding offer
  offer-WroteOne conn conn' key body e =
      let (sealed, seals, e1) = >>=-eq-ok (encrypt_if c key body) _ e in
      send_packet-WroteOne conn conn'
        (record { header = header_of Headers.transfer_offer; body = sealed })
        (header_of-plain Headers.transfer_offer) e1

  send_transfer_offer-WroteOne :
      (os : Os) (conn conn' : Conn) (file : Option File) (directory : Option Directory)
      (key : Option Bytes) (d d' : Disk)
      → send_transfer_offer c os conn file directory key d ≡ told_of conn' d'
      → WroteOne conn conn'
  unfolding send_transfer_offer
  send_transfer_offer-WroteOne os conn conn' (some f) none key d d' e =
      let (r, creates, e1) = >>=-eq-ok (create_file_packet os f d) _ e in
      let (x, offers, e2) = >>=-eq-ok (offer c conn key (file_code ++ r.0.body)) _ e1 in
      let same : x ≡ conn' = cc in
      subst (WroteOne conn) same (offer-WroteOne conn x key (file_code ++ r.0.body) offers)
  send_transfer_offer-WroteOne os conn conn' none (some t) key d d' e =
      let (x, offers, e1) =
        >>=-eq-ok (offer c conn key (dir_code ++ (create_directory_packet t).body)) _ e in
      let same : x ≡ conn' = cc in
      subst (WroteOne conn) same
        (offer-WroteOne conn x key (dir_code ++ (create_directory_packet t).body) offers)
  send_transfer_offer-WroteOne os conn conn' none none key d d' e = absurd cc
  send_transfer_offer-WroteOne os conn conn' (some f) (some t) key d d' e = absurd cc

offered-IsPaced :
    (n n' : SenderNode) (o : Outcome (Conn × Disk))
    → ((x : Conn) (d : Disk) → o ≡ told_of x d → WroteOne n.conn x)
    → (elim o [
      | ok (conn, d) ↦ ok (record n { conn = conn; disk = d })
      | err e ↦ ok n
      | panic ↦ panic
      | unfinished ↦ unfinished
    ])
      ≡ ok n'
    → IsPaced n.conn n'.conn
offered-IsPaced n n' (ok (x, d)) wrote e =
    let same : record n { conn = x; disk = d } ≡ n' = cc in
    inr (subst (λ m. WroteOne n.conn m.conn) same (wrote x d refl))
offered-IsPaced n n' (err reason) wrote e =
    let same : n ≡ n' = cc in inl (ap (λ x. x.conn) (sym same))
offered-IsPaced n n' panic wrote e = absurd cc
offered-IsPaced n n' unfinished wrote e = absurd cc

pub offer_step-IsPaced :
    (env : Env) (served : Served) (n n' : SenderNode)
    → offer_step env served n ≡ ok n'
    → IsPaced n.conn n'.conn
unfolding offer_step
offer_step-IsPaced env served n n' e =
    offered-IsPaced n n' _
      (λ x d goes.
        send_transfer_offer-WroteOne env.cipher env.os n.conn x served.file served.directory
          n.encryption_key n.disk d goes)
      e

-- One packet was written by a node, and these offers wait.
abbrev pub Answers : ReceiverNode → ReceiverNode → List Packet → Type 0
Answers n n' os = WroteOne n.conn n'.conn × (n'.offers ≡ os)

module _ (env : Surroundings) where
  accepts-Answers :
      (d : Option Directory) (n n' : ReceiverNode)
      → (enter_directory env d n >>= λ entered.
          or_panic
            (send_packet entered.conn (record { header = header_of Headers.accept; body = [] }))
          >>= λ conn. ok (record entered { conn = conn }))
        ≡ ok n'
      → Answers n n' n.offers
  accepts-Answers d n n' e =
      let p : Packet = record { header = header_of Headers.accept; body = [] } in
      let (entered, enters, e1) = >>=-eq-ok (enter_directory env d n) _ e in
      let (x, sends, e2) = >>=-eq-ok (or_panic (send_packet entered.conn p)) _ e1 in
      let k = enter_directory-Keeps env d n entered enters in
      let same : record entered { conn = x } ≡ n' = cc in
      let wrote =
        send_packet-WroteOne entered.conn x p (header_of-plain Headers.accept)
          (or_panic-eq-ok _ x sends) in
      (
        subst (λ m. WroteOne n.conn m.conn) same (subst (λ q. WroteOne q x) k.conn wrote),
        ap (λ m. m.offers) (sym same) ∙ k.offers,
      )

  rejects-Answers :
      (n n' : ReceiverNode)
      → (or_panic (send_packet n.conn (record { header = header_of Headers.reject; body = [] }))
          >>= λ conn. ok (record n { conn = conn; stopped = true }))
        ≡ ok n'
      → Answers n n' n.offers
  rejects-Answers n n' e =
      let p : Packet = record { header = header_of Headers.reject; body = [] } in
      let (x, sends, e1) = >>=-eq-ok (or_panic (send_packet n.conn p)) _ e in
      let same : record n { conn = x; stopped = true } ≡ n' = cc in
      (
        subst (λ m. WroteOne n.conn m.conn) same
            (send_packet-WroteOne n.conn x p (header_of-plain Headers.reject)
              (or_panic-eq-ok _ x sends)),
        ap (λ m. m.offers) (sym same),
      )

  either_answer :
      (n n' : ReceiverNode) (yes_said : Bool) (one other : Outcome ReceiverNode)
      → (one ≡ ok n' → Answers n n' n.offers)
      → (other ≡ ok n' → Answers n n' n.offers)
      → (if yes_said then one else other) ≡ ok n'
      → Answers n n' n.offers
  either_answer n n' true one other left right e = left e
  either_answer n n' false one other left right e = right e

  pub answer_step-Answers :
      (answer : Bytes) (n n' : ReceiverNode) (p : Packet) (ps : List Packet)
      → answer_step env answer n (p ∷ ps) ≡ ok n'
      → Answers n n' ps
  unfolding answer_step answer_offer
  answer_step-Answers answer n n' p ps e =
      let (r, decodes, e1) = >>=-eq-ok (or_panic (decode_transfer_packet env.max_alloc p)) _ e in
      let sized : ReceiverNode = record n {
        offers = ps;
        total_download_size = offered_size env r.0 r.1 n.total_download_size;
      } in
      either_answer sized n' _ _ _ (accepts-Answers r.1 sized n') (rejects-Answers sized n') e1
