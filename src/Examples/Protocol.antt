-- ===== src/Examples/Protocol.antt =====
-- The theorems on packets and connections at concrete inputs.
use ftu.Common.{
  ◌≤◌, ◌<◌, ◌≡◌, refl, true, false, some, List, [], ◌∷◌, ◌++◌, Bytes, codes, length, take, drop,
  All, ◌⊎◌, err, packet_too_big, ok, unfinished, eof, arith,
}
use ftu.Common.BigEndian.{put_u64}
use ftu.Protocol.Packet.{Packet, contains_delimeter, bytes_to_packet, to_bytes}
use ftu.Protocol.Packet.Framing.{payload, bytes_to_packet-payload, to_bytes_lem}
use ftu.Protocol.Headers.{max_packet_size}
use ftu.Protocol.Recv.{receive_packets, read_from_conn}
use ftu.Protocol.Recv.Segments.{pending, read_from_conn-frame, read_from_conn_closed}
use ftu.Protocol.Delivery.{IsSendable, frames, send_packets-frames, receive_packets-send_packets}
use ftu.Examples.World.{ready_packet, endfile_packet}

abbrev two_packets : List Packet
two_packets = ready_packet ∷ endfile_packet ∷ []

two_packets-IsSendable : All IsSendable two_packets
unfolding contains_delimeter
two_packets-IsSendable = (
  record { plain_header = refl; small = omega arith },
  (record { plain_header = refl; small = omega arith }, tt),
)

-- The first chunk ends inside the size of the first packet, and the second inside the second
-- packet.
abbrev chunks : List Bytes
chunks =
    take 5 (frames two_packets)
    ∷ take 20 (drop 5 (frames two_packets))
    ∷ drop 25 (frames two_packets)
    ∷ []

receive_packets-send_packets_example :
    receive_packets 3 131080 (some chunks) (record { packets = []; closed = false })
    ≡ ok (record { packets = two_packets; closed = true }, eof)
unfolding put_u64
receive_packets-send_packets_example =
    receive_packets-send_packets two_packets chunks
      (record { outgoing = frames two_packets; alive = true }) 3 131080 two_packets-IsSendable
      (send_packets-frames [] two_packets two_packets-IsSendable) refl (omega arith) (omega arith)

read_from_conn-frame_example :
    (rest : List Bytes) × (read_from_conn 9 ((put_u64 3 ++ codes "a~") ∷ codes "bREST" ∷ [])
      ≡ ok (codes "a~b", rest))
    × (pending rest ≡ codes "REST")
    × (length rest ≤ 2)
unfolding put_u64
read_from_conn-frame_example =
    read_from_conn-frame (codes "a~b") (codes "REST")
      ((put_u64 3 ++ codes "a~") ∷ codes "bREST" ∷ []) 9 (omega arith) refl (omega arith)

read_from_conn_closed_example : read_from_conn 1000 ((put_u64 3 ++ codes "a~") ∷ []) ≡ unfinished
unfolding put_u64
read_from_conn_closed_example =
    read_from_conn_closed 3 (codes "a~") ((put_u64 3 ++ codes "a~") ∷ []) (omega arith) refl
      (omega arith) 1000

bytes_to_packet-payload_example : bytes_to_packet (codes "READY~") ≡ ok ready_packet
unfolding contains_delimeter
bytes_to_packet-payload_example = bytes_to_packet-payload ready_packet refl

to_bytes_lem_example :
    ((length (payload ready_packet) ≤ max_packet_size)
      × (to_bytes ready_packet ≡ ok (put_u64 6 ++ codes "READY~")))
    ⊎ ((max_packet_size < length (payload ready_packet))
        × (to_bytes ready_packet ≡ err packet_too_big))
to_bytes_lem_example = to_bytes_lem ready_packet (omega arith)
