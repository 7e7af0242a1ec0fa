-- ===== src/Protocol/Packet.antt =====
-- src/protocol/packet.go.
pub mod Framing
use ftu.Common.{
  ℕ, ◌+◌, ◌%◌, ◌^◌, ◌&&◌, Bool, true, false, Option, none, some, [], ◌∷◌, ◌++◌, Bytes, ◌==◌, ltb,
  if◌then◌else◌, length, Outcome, ok, err, ◌>>=◌, invalid_packet, packet_too_big,
}
use ftu.Common.BigEndian.{put_u64}
use ftu.Encryption.{Cipher, encrypt, decrypt}
use ftu.Protocol.Headers.{max_packet_size, header_delimeter, delimeter_byte}

pub record Packet : Type 0 where
  pub header : Bytes
  pub body : Bytes

-- `(*Packet).Size`, a uint64.
unfoldable pub size : Packet → ℕ
size p = length (p.header ++ (header_delimeter ++ p.body)) % 2 ^ 64

-- `strings.Contains(s, HEADERDELIMETER)`
unfoldable pub contains_delimeter : Bytes → Bool
contains_delimeter [] = false
contains_delimeter (b ∷ bs) =
    let rest = contains_delimeter bs in if b == delimeter_byte then true else rest

-- The loop of `BytesToPacket`: `seen` is `packetbytes[0:counter]`.
unfoldable pub split_loop : Bytes → Bytes → Packet
split_loop seen [] = record { header = []; body = [] }
split_loop seen (b ∷ bs) =
    let rest = split_loop (seen ++ (b ∷ [])) bs in
    if b == delimeter_byte then record { header = seen; body = bs } else rest

unfoldable pub bytes_to_packet : Bytes → Outcome Packet
unfolding contains_delimeter split_loop
bytes_to_packet bs = if contains_delimeter bs then ok (split_loop [] bs) else err invalid_packet

-- `(*Packet).ToBytes`
unfoldable pub to_bytes : Packet → Outcome Bytes
unfolding size
to_bytes p =
    let packet_size = size p in
    if ltb max_packet_size packet_size
    then err packet_too_big
    else ok (put_u64 packet_size ++ (p.header ++ (header_delimeter ++ p.body)))

module _ (c : Cipher) where
  -- `(*Packet).EncryptBody`
  unfoldable pub encrypt_body : Bytes → Packet → Outcome Packet
  encrypt_body key p = encrypt c key p.body >>= λ body. ok (record p { body = body })

  -- `(*Packet).DecryptBody`: an empty body is left as it is.
  unfoldable pub decrypt_body : Bytes → Packet → Outcome Packet
  decrypt_body key p =
      if length p.body == 0
      then ok p
      else decrypt c key p.body >>= λ body. ok (record p { body = body })

  -- `EncryptBody` where a key is set: before a piece of a file, a FILE packet and an ENDFILE packet
  -- are sent.
  unfoldable pub encrypt_body_if : Option Bytes → Packet → Outcome Packet
  encrypt_body_if none p = ok p
  encrypt_body_if (some key) p = encrypt_body key p

  -- `DecryptBody` where a key is set: what both main loops do with an incoming packet.
  unfoldable pub decrypt_body_if : Option Bytes → Packet → Outcome Packet
  decrypt_body_if none p = ok p
  decrypt_body_if (some key) p = decrypt_body key p
