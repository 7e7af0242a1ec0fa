-- ===== src/Protocol/Packet/Framing.antt =====
-- What `ToBytes` and `BytesToPacket` make of one another.
use ftu.Common.{
  ◌^◌, ◌≤◌, ◌<◌, ◌≡◌, refl, true, false, [], ◌∷◌, ◌++◌, append-nil, append_assoc, ◌||◌, Bytes,
  length, ok, err, packet_too_big, arith, lt→ltb, le→ltb, ◌⊎◌, inl, inr, dec_lt,
}
use ftu.Common.BigEndian.{put_u64}
use ftu.Protocol.Headers.{
  max_packet_size, header_delimeter, Kind, header_of, encryption_key, reject, accept, done, ready,
  disconnecting, transfer_offer, file, file_bytes, endfile, directory, already_have, symlink,
  unknown,
}
use ftu.Protocol.Packet.{Packet, size, contains_delimeter, split_loop, bytes_to_packet, to_bytes}

-- The header, the delimeter and the body, as they are sent.
abbrev pub payload : Packet → Bytes
payload p = p.header ++ (header_delimeter ++ p.body)

contains_delimeter-payload :
    (header body : Bytes) → contains_delimeter (header ++ (header_delimeter ++ body)) ≡ true
unfolding contains_delimeter
contains_delimeter-payload [] body = refl
contains_delimeter-payload (b ∷ bs) body = ground (arith, contains_delimeter-payload bs body)

split_loop-payload :
    (seen header body : Bytes)
    → contains_delimeter header ≡ false
    → split_loop seen (header ++ (header_delimeter ++ body))
      ≡ record { header = seen ++ header; body = body }
unfolding split_loop contains_delimeter
split_loop-payload seen [] body h = rw append-nil refl
split_loop-payload seen (b ∷ bs) body h =
    ground (arith, split_loop-payload (seen ++ (b ∷ [])) bs body, append_assoc seen (b ∷ []) bs)

-- The packet is read back from its bytes, provided that its header has no delimeter in it.
pub bytes_to_packet-payload :
    (p : Packet) → contains_delimeter p.header ≡ false → bytes_to_packet (payload p) ≡ ok p
unfolding bytes_to_packet
bytes_to_packet-payload p h =
    rw (contains_delimeter-payload p.header p.body, split_loop-payload [] p.header p.body h) refl

contains_delimeter-append :
    (xs ys : Bytes)
    → contains_delimeter (xs ++ ys) ≡ (contains_delimeter xs || contains_delimeter ys)
unfolding contains_delimeter
contains_delimeter-append [] ys = refl
contains_delimeter-append (x ∷ xs) ys = ground (arith, contains_delimeter-append xs ys)

-- Splitting loses nothing.
split_loop-inv :
    (seen bs : Bytes)
    → contains_delimeter bs ≡ true
    → contains_delimeter seen ≡ false
    → (payload (split_loop seen bs) ≡ seen ++ bs)
      × (contains_delimeter (split_loop seen bs).header ≡ false)
unfolding split_loop contains_delimeter
split_loop-inv seen [] h none_seen = cc
split_loop-inv seen (b ∷ bs) h none_seen = ground (
  arith,
  split_loop-inv (seen ++ (b ∷ [])) bs,
  append_assoc seen (b ∷ []) bs,
  contains_delimeter-append seen (b ∷ []),
)

-- A packet that comes out of `BytesToPacket` has exactly the bytes that went in, split at the first
-- delimeter.
bytes_to_packet-inv :
    (bs : Bytes) (p : Packet)
    → bytes_to_packet bs ≡ ok p
    → (payload p ≡ bs) × (contains_delimeter p.header ≡ false)
unfolding bytes_to_packet
bytes_to_packet-inv bs p h = ground (arith, split_loop-inv [] bs)

size-payload : (p : Packet) → length (payload p) < 2 ^ 64 → size p ≡ length (payload p)
unfolding size
size-payload p h = omega arith

pub to_bytes_small :
    (p : Packet)
    → length (payload p) ≤ max_packet_size
    → to_bytes p ≡ ok (put_u64 (length (payload p)) ++ payload p)
unfolding to_bytes
to_bytes_small p h =
    rw (size-payload p (omega arith), le→ltb max_packet_size (length (payload p)) h) refl

pub to_bytes_big :
    (p : Packet)
    → length (payload p) < 2 ^ 64
    → max_packet_size < length (payload p)
    → to_bytes p ≡ err packet_too_big
unfolding to_bytes
to_bytes_big p fits h = rw (size-payload p fits, lt→ltb max_packet_size (length (payload p)) h) refl

-- `ToBytes` on every packet that a machine can hold: up to the limit it writes the length of the
-- payload and the payload, and above the limit it fails.
pub to_bytes_lem :
    (p : Packet)
    → length (payload p) < 2 ^ 64
    → ((length (payload p) ≤ max_packet_size)
        × (to_bytes p ≡ ok (put_u64 (length (payload p)) ++ payload p)))
      ⊎ ((max_packet_size < length (payload p)) × (to_bytes p ≡ err packet_too_big))
to_bytes_lem p fits = elim (dec_lt max_packet_size (length (payload p))) [
  | yes big ↦ inr (big, to_bytes_big p fits big)
  | no small ↦ inl (omega arith, to_bytes_small p (omega arith))
]

-- No header of the protocol has the delimeter in it.
pub header_of-plain : (k : Kind) → contains_delimeter (header_of k) ≡ false
unfolding header_of contains_delimeter
header_of-plain encryption_key = refl
header_of-plain reject = refl
header_of-plain accept = refl
header_of-plain done = refl
header_of-plain ready = refl
header_of-plain disconnecting = refl
header_of-plain transfer_offer = refl
header_of-plain file = refl
header_of-plain file_bytes = refl
header_of-plain endfile = refl
header_of-plain directory = refl
header_of-plain already_have = refl
header_of-plain symlink = refl
header_of-plain unknown = refl
