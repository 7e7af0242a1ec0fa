-- ===== src/Node/Receiving/Written.antt =====
-- src/node/node.go, `receive`: a READY that is sent, and what encryption makes of a packet.
use ftu.Common.{
  ◌+◌, ◌≤◌, ◌≡◌, refl, sym, ap, subst, Option, none, some, List, Bytes, length, ok, ◌>>=◌,
  >>=-eq-ok, arith,
}
use ftu.Encryption.{Cipher, IsGcm, encrypt}
use ftu.Encryption.Laws.{length-encrypt}
use ftu.Protocol.Headers
use ftu.Protocol.Headers.{
  header_of, header_delimeter, kind_of, Kind, encryption_key, reject, accept, done, ready,
  disconnecting, transfer_offer, file, file_bytes, endfile, directory, already_have, symlink,
  unknown,
}
use ftu.Protocol.Packet.{Packet, encrypt_body, encrypt_body_if}
use ftu.Protocol.Packet.Framing.{header_of-plain, to_bytes_small}
use ftu.Protocol.Delivery.{IsSendable, frame}
use ftu.Protocol.Send.{Conn, write, send_packet}
use ftu.Node.Sender.{or_panic, dropping}
use ftu.Node.Receiver.{ReceiverNode, ready_packet, send_ready, try_ready}

-- One packet that can be sent was written, and the offers wait as before.
pub record HasWritten (c c' : Conn) (os os' : List Packet) (p : Packet) : Type 0 where
  pub sendable : IsSendable p
  pub written : c' ≡ write (frame p) c
  pub same_offers : os' ≡ os

pub ready_packet-IsSendable : IsSendable ready_packet
unfolding header_of
ready_packet-IsSendable = record {
  plain_header = header_of-plain Headers.ready;
  small = omega arith;
}

pub send_packet-HasWritten :
    (c : Conn) (os : List Packet) (p : Packet)
    → IsSendable p
    → (send_packet c p ≡ ok (write (frame p) c)) × HasWritten c (write (frame p) c) os os p
unfolding send_packet
send_packet-HasWritten c os p h = (
  rw (to_bytes_small p h.small) refl,
  record { sendable = h; written = refl; same_offers = refl },
)

pub send_ready-HasWritten :
    (n n' : ReceiverNode)
    → send_ready n ≡ ok n'
    → HasWritten n.conn n'.conn n.offers n'.offers ready_packet
send_ready-HasWritten n n' e =
    let (sends, wrote) =
      send_packet-HasWritten n.conn n.offers ready_packet ready_packet-IsSendable in
    let n1 : ReceiverNode = record n { conn = write (frame ready_packet) n.conn } in
    let runs : send_ready n ≡ ok n1 = rw (or_panic, ◌>>=◌, sends) refl in
    let same : n1 ≡ n' = cc in
    subst (λ x. HasWritten n.conn x.conn n.offers x.offers ready_packet) same wrote

pub try_ready-HasWritten :
    (n n' : ReceiverNode)
    → try_ready n ≡ ok n'
    → HasWritten n.conn n'.conn n.offers n'.offers ready_packet
try_ready-HasWritten n n' e =
    let (sends, wrote) =
      send_packet-HasWritten n.conn n.offers ready_packet ready_packet-IsSendable in
    let n1 : ReceiverNode = record n { conn = write (frame ready_packet) n.conn } in
    let runs : try_ready n ≡ ok n1 = rw (dropping, ◌>>=◌, sends) refl in
    let same : n1 ≡ n' = cc in
    subst (λ x. HasWritten n.conn x.conn n.offers x.offers ready_packet) same wrote

-- Encryption that succeeds leaves the header, and adds at most 28 bytes.
pub encrypt_body_if-longer :
    (c : Cipher) (gcm : IsGcm c) (key : Option Bytes) (p p' : Packet)
    → encrypt_body_if c key p ≡ ok p'
    → (p'.header ≡ p.header) × (length p'.body ≤ length p.body + 28)
unfolding encrypt_body_if encrypt_body
encrypt_body_if-longer c gcm none p p' e =
    let same : p ≡ p' = cc in
    (ap (λ x. x.header) (sym same), omega (arith, ap (λ x. length x.body) same))
encrypt_body_if-longer c gcm (some key) p p' e =
    let (sealed, seals, made) = >>=-eq-ok (encrypt c key p.body) _ e in
    let same : record p { body = sealed } ≡ p' = cc in
    (
      ap (λ x. x.header) (sym same),
      omega (arith, ap (λ x. length x.body) same, length-encrypt c gcm key p.body sealed seals),
    )
