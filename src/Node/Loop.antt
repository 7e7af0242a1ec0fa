-- ===== src/Node/Loop.antt =====
-- src/node/node.go, the mainloop of `receive`, and `disconnect` at its end.
pub mod Ends
use ftu.Common.{
  true, false, List, [], ◌∷◌, if◌then◌else◌, Outcome, ok, err, panic, unfinished, ◌>>=◌,
}
use ftu.Protocol.Headers
use ftu.Protocol.Headers.{header_of}
use ftu.Protocol.Packet.{Packet}
use ftu.Protocol.Send.{Conn, send_packet}
use ftu.Node.Receiver.{Surroundings, ReceiverNode}
use ftu.Node.Receiving.{receiver_step}

-- `disconnect` of a receiving node: it has a connection, and closing that succeeds.
abbrev pub closing_receiver : ReceiverNode → Outcome Conn → Outcome ReceiverNode
closing_receiver n (ok conn) =
    ok (record n { conn = record conn { alive = false }; stopped = true })
closing_receiver n (err e) = ok n
closing_receiver n panic = panic
closing_receiver n unfinished = unfinished

unfoldable pub disconnect_receiver : ReceiverNode → Outcome ReceiverNode
disconnect_receiver n =
    closing_receiver n
      (send_packet n.conn (record { header = header_of Headers.disconnecting; body = [] }))

-- How the mainloop of `receive` ends: `break` after the disconnection, or `os.Exit` when the
-- channel of incoming packets is closed.
pub data ReceiverEnding : Type 0 where
  left : ReceiverNode → ReceiverEnding
  exited : ReceiverNode → ReceiverEnding

-- The mainloop of `receive`, over the packets that arrive before the channel is closed.
unfoldable pub receiver_loop : Surroundings → ReceiverNode → List Packet → Outcome ReceiverEnding
receiver_loop env n [] =
    if n.stopped then (disconnect_receiver n >>= λ n'. ok (left n')) else ok (exited n)
receiver_loop env n (p ∷ ps) =
    let more = receiver_step env n p >>= λ n'. receiver_loop env n' ps in
    if n.stopped then (disconnect_receiver n >>= λ n'. ok (left n')) else more

-- The rest of a round of the mainloop behind its check of `stopped`, from where it waits for a
-- packet, and the rounds behind it. The goroutine of an answer may set the flag while it waits.
unfoldable pub receiver_waiting : Surroundings → ReceiverNode → List Packet → Outcome ReceiverEnding
receiver_waiting env n [] = ok (exited n)
receiver_waiting env n (p ∷ ps) = receiver_step env n p >>= λ n'. receiver_loop env n' ps
