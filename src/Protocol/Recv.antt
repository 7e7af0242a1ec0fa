-- ===== src/Protocol/Recv.antt =====
-- src/protocol/recv.go. What has still to arrive on a connection is a list of chunks: one `Read`
-- takes at most one chunk, and behind the last one the connection is closed.
pub mod Segments
use ftu.Common.{
  ℕ, zero, suc, ◌-◌, Bool, true, Option, none, some, List, [], ◌∷◌, ◌++◌, Bytes, ◌==◌, ltb,
  if◌then◌else◌, length, take, drop, Outcome, ok, err, panic, unfinished, ◌>>=◌, Error,
  not_connected,
}
use ftu.Common.BigEndian.{read_u64}
use ftu.Protocol.Packet.{Packet, bytes_to_packet}

-- A chunk of which a part is left.
abbrev pub unread : Bytes → List Bytes → List Bytes
unread [] cs = cs
unread (b ∷ bs) cs = (b ∷ bs) ∷ cs

-- `connection.Read` into a buffer of `n` bytes. Nothing is read of a closed connection.
unfoldable pub conn_read : ℕ → List Bytes → Bytes × List Bytes
conn_read n [] = ([], [])
conn_read n (c ∷ cs) = (take n c, unread (drop n c) cs)

-- `io.ReadFull` of `n` bytes, which `binary.Read` calls: it reads on until it has them.
unfoldable pub read_full : ℕ → List Bytes → Bytes × List Bytes
read_full n [] = ([], [])
read_full n (c ∷ cs) =
    let more = read_full (n - length c) cs in
    if n == 0
    then ([], c ∷ cs)
    else if ltb (length c) n
    then (c ++ more.0, more.1)
    else (take n c, unread (drop n c) cs)

-- The size of the buffer for one `Read`.
abbrev pub buffer_size : ℕ → ℕ
buffer_size left = if ltb left 8192 then left else 8192

-- The loop of `ReadFromConn`. The error of `connection.Read` is dropped there.
unfoldable pub read_loop : ℕ → ℕ → Bytes → List Bytes → Outcome (Bytes × List Bytes)
unfolding conn_read
read_loop zero left buffer cs = unfinished
read_loop (suc fuel) left buffer cs =
    let (got, rest) = conn_read (buffer_size left) cs in
    let more = read_loop fuel (left - length got) (buffer ++ got) rest in
    if left == 0 then ok (buffer, cs) else more

unfoldable pub read_from_conn : ℕ → List Bytes → Outcome (Bytes × List Bytes)
unfolding read_full read_loop
read_from_conn fuel cs =
    let (head, rest) = read_full 8 cs in read_u64 head >>= λ r. read_loop fuel r.0 [] rest

-- The channel that the packets go to.
pub record Pipe : Type 0 where
  pub packets : List Packet
  pub closed : Bool

-- `ReceivePackets` returns an error and nothing else: it is the second part of the result.
unfoldable pub receive_packets : ℕ → ℕ → Option (List Bytes) → Pipe → Outcome (Pipe × Error)
receive_packets zero fuel connection pipe = unfinished
receive_packets (suc rounds) fuel none pipe = ok (pipe, not_connected)
receive_packets (suc rounds) fuel (some cs) pipe = elim (read_from_conn fuel cs) [
  | ok (packet_bytes, rest) ↦ elim (bytes_to_packet packet_bytes) [
    | ok p ↦
        receive_packets rounds fuel (some rest) (record pipe { packets = pipe.packets ++ (p ∷ []) })
    | err e ↦ ok (record pipe { closed = true }, e)
    | panic ↦ panic
    | unfinished ↦ unfinished
  ]
  | err e ↦ ok (record pipe { closed = true }, e)
  | panic ↦ panic
  | unfinished ↦ unfinished
]
