-- ===== src/Protocol/Delivery.antt =====
-- `SendPacket` on one side of a connection and `ReceivePackets` on the other.
use ftu.Common.{
  ℕ, zero, suc, ◌+◌, ◌≤◌, ◌<◌, ◌≡◌, refl, sym, ap, ◌∙◌, true, false, some, List, [], ◌∷◌, ◌++◌,
  append-nil, append_assoc, Bytes, length, All, Outcome, ok, ◌>>=◌, eof, arith,
}
use ftu.Common.BigEndian.{put_u64}
use ftu.Protocol.Headers.{max_packet_size}
use ftu.Protocol.Packet.{Packet, contains_delimeter}
use ftu.Protocol.Packet.Framing.{payload, to_bytes_small, bytes_to_packet-payload}
use ftu.Protocol.Recv.{Pipe, receive_packets, read_from_conn}
use ftu.Protocol.Recv.Segments.{pending, read_from_conn-frame, read_from_conn_end}
use ftu.Protocol.Send.{Conn, send_packet}

-- What the packets of the program have: no delimeter in the header, and a size within the limit.
pub record IsSendable (p : Packet) : Type 0 where
  pub plain_header : contains_delimeter p.header ≡ false
  pub small : length (payload p) ≤ max_packet_size

-- One `SendPacket` after the other.
abbrev pub send_packets : Conn → List Packet → Outcome Conn
send_packets conn [] = ok conn
send_packets conn (p ∷ ps) = send_packet conn p >>= λ conn'. send_packets conn' ps

-- The bytes of packets on a connection.
abbrev pub frame : Packet → Bytes
frame p = put_u64 (length (payload p)) ++ payload p

abbrev pub frames : List Packet → Bytes
frames [] = []
frames (p ∷ ps) = frame p ++ frames ps

pub frames-append : (ps qs : List Packet) → frames (ps ++ qs) ≡ frames ps ++ frames qs
frames-append [] qs = refl
frames-append (p ∷ ps) qs =
    ap (◌++◌ (frame p)) (frames-append ps qs) ∙ sym (append_assoc (frame p) (frames ps) (frames qs))

pub send_packet-frame :
    (out : Bytes) (p : Packet)
    → IsSendable p
    → send_packet (record { outgoing = out; alive = true }) p
      ≡ ok (record { outgoing = out ++ frame p; alive = true })
unfolding send_packet
send_packet-frame out p h = rw (to_bytes_small p h.small) refl

pub send_packets-frames :
    (out : Bytes) (ps : List Packet)
    → All IsSendable ps
    → send_packets (record { outgoing = out; alive = true }) ps
      ≡ ok (record { outgoing = out ++ frames ps; alive = true })
send_packets-frames out [] h = rw append-nil refl
send_packets-frames out (p ∷ ps) (hp, hps) =
    rw
      (
        send_packet-frame out p hp,
        send_packets-frames (out ++ frame p) ps hps,
        append_assoc out (frame p) (frames ps),
      )
      refl

-- One round of `ReceivePackets` on a packet that is read, and on the end of the input.
receive_packets_step :
    (rounds fuel : ℕ) (cs rest : List Bytes) (pipe : Pipe) (p : Packet)
    → read_from_conn fuel cs ≡ ok (payload p, rest)
    → contains_delimeter p.header ≡ false
    → receive_packets (suc rounds) fuel (some cs) pipe
      ≡ receive_packets rounds fuel (some rest) (record pipe { packets = pipe.packets ++ (p ∷ []) })
unfolding receive_packets
receive_packets_step rounds fuel cs rest pipe p reads plain =
    rw (receive_packets, reads, bytes_to_packet-payload p plain) refl

receive_packets_end :
    (rounds fuel : ℕ) (cs : List Bytes) (pipe : Pipe)
    → pending cs ≡ []
    → receive_packets (suc rounds) fuel (some cs) pipe ≡ ok (record pipe { closed = true }, eof)
unfolding receive_packets
receive_packets_end rounds fuel cs pipe h = rw (receive_packets, read_from_conn_end fuel cs h) refl

pub receive_packets-frames :
    (ps : List Packet) (rounds fuel : ℕ) (cs : List Bytes) (pipe : Pipe)
    → All IsSendable ps
    → pending cs ≡ frames ps
    → length ps < rounds
    → max_packet_size + length cs < fuel
    → receive_packets rounds fuel (some cs) pipe
      ≡ ok (record { packets = pipe.packets ++ ps; closed = true }, eof)
receive_packets-frames ps zero fuel cs pipe h arrives more fuelled = absurd (omega arith)
receive_packets-frames [] (suc rounds) fuel cs pipe h arrives more fuelled =
    receive_packets_end rounds fuel cs pipe arrives
    ∙ ap (λ xs. ok (record { packets = xs; closed = true }, eof)) (sym (append-nil pipe.packets))
receive_packets-frames (p ∷ ps) (suc rounds) fuel cs pipe (hp, hps) arrives more fuelled =
    let (rest, reads, behind, fewer) =
      read_from_conn-frame (payload p) (frames ps) cs fuel (omega (arith, hp.small))
        (arrives ∙ append_assoc (put_u64 (length (payload p))) (payload p) (frames ps))
        (omega (arith, hp.small)) in
    receive_packets_step rounds fuel cs rest pipe p reads hp.plain_header
    ∙ receive_packets-frames ps rounds fuel rest
        (record pipe { packets = pipe.packets ++ (p ∷ []) }) hps behind (omega arith) (omega arith)
    ∙ ap (λ xs. ok (record { packets = xs; closed = true }, eof))
        (append_assoc pipe.packets (p ∷ []) ps)

-- What one side sends by `SendPacket` the other side's `ReceivePackets` hands on: the same packets
-- in the same order, however the connection cuts their bytes into chunks; and when the connection
-- ends it closes the channel and returns `io.EOF`. A round for each packet and one more is enough,
-- with fuel for the largest packet and each chunk.
pub receive_packets-send_packets :
    (ps : List Packet) (cs : List Bytes) (sent : Conn) (rounds fuel : ℕ)
    → All IsSendable ps
    → send_packets (record { outgoing = []; alive = true }) ps ≡ ok sent
    → pending cs ≡ sent.outgoing
    → length ps < rounds
    → max_packet_size + length cs < fuel
    → receive_packets rounds fuel (some cs) (record { packets = []; closed = false })
      ≡ ok (record { packets = ps; closed = true }, eof)
receive_packets-send_packets ps cs sent rounds fuel h sends arrives more fuelled =
    let written : frames ps ≡ sent.outgoing = cc (send_packets-frames [] ps h) in
    receive_packets-frames ps rounds fuel cs _ h (arrives ∙ sym written) more fuelled
