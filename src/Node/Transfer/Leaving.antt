-- ===== src/Node/Transfer/Leaving.antt =====
-- src/node/node.go, `send`: how a run of the mainloop ends, with DONE and BYE!.
use ftu.Common.{
  arith, ◌≡◌, refl, ap, ◌∙◌, true, false, Option, none, some, List, [], ◌∷◌, ◌++◌, Bytes, ok, ◌>>=◌,
}
use ftu.Common.BigEndian.{put_u64}
use ftu.Encryption.{Cipher}
use ftu.Protocol.Headers
use ftu.Protocol.Headers.{header_of, kind_of-header_of}
use ftu.Protocol.Packet.{Packet, to_bytes, decrypt_body, decrypt_body_if}
use ftu.Protocol.Packet.Framing.{header_of-plain}
use ftu.Protocol.Delivery.{IsSendable, frame}
use ftu.Protocol.Send.{send_packet}
use ftu.Node.State.{SenderNode, Env}
use ftu.Node.Transfer.{send_done, disconnect, left, sender_loop}

-- DONE and BYE!, which go in the clear.
abbrev pub done_packet : Packet
done_packet = record { header = header_of Headers.done; body = [] }

abbrev pub bye_packet : Packet
bye_packet = record { header = header_of Headers.disconnecting; body = [] }

pub done_packet-IsSendable : IsSendable done_packet
unfolding header_of
done_packet-IsSendable = record { plain_header = header_of-plain Headers.done; small = omega arith }

pub bye_packet-IsSendable : IsSendable bye_packet
unfolding header_of
bye_packet-IsSendable = record {
  plain_header = header_of-plain Headers.disconnecting;
  small = omega arith;
}

send_packet-done :
    (out : Bytes)
    → send_packet (record { outgoing = out; alive = true }) done_packet
      ≡ ok (record { outgoing = out ++ frame done_packet; alive = true })
unfolding send_packet to_bytes header_of put_u64
send_packet-done out = refl

send_packet-bye :
    (out : Bytes)
    → send_packet (record { outgoing = out; alive = true }) bye_packet
      ≡ ok (record { outgoing = out ++ frame bye_packet; alive = true })
unfolding send_packet to_bytes header_of put_u64
send_packet-bye out = refl

pub send_done-runs :
    (env : Env) (n : SenderNode) (out : Bytes)
    → n.conn ≡ record { outgoing = out; alive = true }
    → send_done env n
      ≡ ok (record n {
        conn = record { outgoing = out ++ frame done_packet; alive = true };
        stopped = true;
      })
unfolding send_done
send_done-runs env n out conn =
    let sends : send_packet n.conn done_packet
        ≡ ok (record { outgoing = out ++ frame done_packet; alive = true }) =
      ap (λ c. send_packet c done_packet) conn ∙ send_packet-done out in
    rw (send_done, ◌>>=◌, sends) refl

-- The end of the mainloop: BYE!, and the connection is closed.
abbrev pub departed : SenderNode → Bytes → SenderNode
departed n out = record n {
  conn = record { outgoing = out ++ frame bye_packet; alive = false };
  stopped = true;
}

pub disconnect-runs :
    (n : SenderNode) (out : Bytes)
    → n.conn ≡ record { outgoing = out; alive = true }
    → disconnect n ≡ ok (departed n out)
unfolding disconnect
disconnect-runs n out conn =
    let sends : send_packet n.conn bye_packet
        ≡ ok (record { outgoing = out ++ frame bye_packet; alive = true }) =
      ap (λ c. send_packet c bye_packet) conn ∙ send_packet-bye out in
    rw (disconnect, sends) refl

pub sender_loop-stopped :
    (env : Env) (n : SenderNode) (out : Bytes) (ps : List Packet)
    → n.stopped ≡ true
    → n.conn ≡ record { outgoing = out; alive = true }
    → sender_loop env n ps ≡ ok (left (departed n out))
unfolding sender_loop
sender_loop-stopped env n out [] stopped conn =
    rw (sender_loop, ◌>>=◌, disconnect-runs n out conn, stopped) refl
sender_loop-stopped env n out (p ∷ ps) stopped conn =
    rw (sender_loop, ◌>>=◌, disconnect-runs n out conn, stopped) refl

-- A body of no bytes is not decrypted.
pub decrypt_body_if-no_body :
    (c : Cipher) (key : Option Bytes) (h : Bytes)
    → decrypt_body_if c key (record { header = h; body = [] })
      ≡ ok (record { header = h; body = [] })
unfolding decrypt_body_if decrypt_body
decrypt_body_if-no_body c none h = refl
decrypt_body_if-no_body c (some key) h = refl
