-- ===== src/Protocol/Offer.antt =====
-- A transfer offer, from `SendTransferOffer` to `DecodeTransferPacket` on the other side.
use ftu.Common.{
  ℕ, ◌+◌, ◌≤◌, ◌<◌, ◌≡◌, refl, true, Option, none, some, ◌++◌, Bytes, length, ne→==, ok, ◌>>=◌,
  arith,
}
use ftu.Encryption.{Cipher, IsGcm, valid_key, decrypt}
use ftu.Encryption.Laws.{decrypt-encrypt, length-encrypt, encrypt-ok, zero_nonce}
use ftu.Fsys.Disk.{Os, Disk, File, open_handle}
use ftu.Protocol.Headers
use ftu.Protocol.Headers.{header_of, max_packet_size, file_code}
use ftu.Protocol.Packet.{Packet, encrypt_body, encrypt_body_if, decrypt_body, decrypt_body_if}
use ftu.Protocol.Packet.Framing.{header_of-plain}
use ftu.Protocol.Delivery.{IsSendable, frame, send_packet-frame}
use ftu.Protocol.Construct.{file_body, create_file_packet}
use ftu.Protocol.Decode.{decode_transfer_packet}
use ftu.Protocol.Decode.RoundTrip.{IsSent, received, decode_transfer_packet-file_body}
use ftu.Protocol.Send.{encrypt_if, offer, send_transfer_offer}

-- A usable key: none, or one that AES takes.
abbrev pub IsKey : Option Bytes → Type 0
IsKey none = Unit {0}
IsKey (some key) = valid_key key ≡ true

-- What encryption adds to a body.
abbrev pub overhead : Option Bytes → ℕ
overhead none = 0
overhead (some key) = 28

pub overhead_bound : (key : Option Bytes) → overhead key ≤ 28
overhead_bound none = omega arith
overhead_bound (some key) = omega arith

module _ (c : Cipher) (gcm : IsGcm c) where
  decrypt_body-ok :
      (key text : Bytes) (p : Packet)
      → 0 < length p.body
      → decrypt c key p.body ≡ ok text
      → decrypt_body c key p ≡ ok (record p { body = text })
  unfolding decrypt_body
  decrypt_body-ok key text p long e = rw (ne→== (length p.body) 0 (omega arith), e) refl

  -- A body under the key travels as another body, at most 28 bytes longer, that decrypts to it.
  pub encrypt_if-total :
      (key : Option Bytes) (header body : Bytes)
      → IsKey key
      → (sealed : Bytes) × (encrypt_if c key body ≡ ok sealed)
        × (length sealed ≤ length body + 28)
        × (decrypt_body_if c key (record { header = header; body = sealed })
            ≡ ok (record { header = header; body = body }))
  unfolding encrypt_if decrypt_body_if
  encrypt_if-total none header body h = (body, refl, omega arith, refl)
  encrypt_if-total (some key) header body h =
      let sealed = zero_nonce ++ c.seal key zero_nonce body in
      let e = encrypt-ok c key body h in
      let longer = length-encrypt c gcm key body sealed e in
      (
        sealed,
        e,
        omega arith,
        decrypt_body-ok key body (record { header = header; body = sealed }) (omega arith)
            (decrypt-encrypt c gcm key body sealed e),
      )

  -- The same of a packet.
  pub encrypt_body_if-total :
      (key : Option Bytes) (p : Packet)
      → IsKey key
      → (p' : Packet) × (encrypt_body_if c key p ≡ ok p')
        × (p'.header ≡ p.header)
        × (length p'.body ≤ length p.body + overhead key)
        × (decrypt_body_if c key p' ≡ ok p)
  unfolding encrypt_body_if decrypt_body_if encrypt_body
  encrypt_body_if-total none p h = (p, refl, refl, omega arith, refl)
  encrypt_body_if-total (some key) p h =
      let sealed = zero_nonce ++ c.seal key zero_nonce p.body in
      let e = encrypt-ok c key p.body h in
      let longer = length-encrypt c gcm key p.body sealed e in
      (
        record p { body = sealed },
        rw e refl,
        refl,
        omega arith,
        decrypt_body-ok key p.body (record p { body = sealed }) (omega arith)
            (decrypt-encrypt c gcm key p.body sealed e),
      )

  -- Any body that leaves room for the header and the encryption is offered, and decrypted on the
  -- other side.
  pub offer-total :
      (out : Bytes) (key : Option Bytes) (body : Bytes)
      → IsKey key
      → length body + 42 ≤ max_packet_size
      → (p : Packet) × (offer c (record { outgoing = out; alive = true }) key body
          ≡ ok (record { outgoing = out ++ frame p; alive = true }))
        × IsSendable p
        × (decrypt_body_if c key p
            ≡ ok (record { header = header_of Headers.transfer_offer; body = body }))
  unfolding offer
  offer-total out key body k room =
      let (sealed, e, small, opens) =
        encrypt_if-total key (header_of Headers.transfer_offer) body k in
      let p : Packet = record { header = header_of Headers.transfer_offer; body = sealed } in
      let sendable : IsSendable p = record {
        plain_header = header_of-plain Headers.transfer_offer;
        small = unfold header_of in omega arith;
      } in
      (p, rw e (send_packet-frame out p sendable), sendable, opens)

  -- The body of an offer of a file, in the clear.
  abbrev pub offered_file : File → Bytes
  offered_file f = file_code ++ file_body f

  -- An offer of a file that can be opened, whose description leaves room for the header and the
  -- encryption, is sent; and its packet, decrypted and decoded on the other side, is an offer of
  -- that file and of no directory.
  pub send_transfer_offer_file :
      (max_alloc : ℕ) (os : Os) (out : Bytes) (f opened : File) (key : Option Bytes) (d d' : Disk)
      → IsSent max_alloc f
      → IsKey key
      → open_handle os f d ≡ ok (opened, d')
      → length (file_body f) + 43 ≤ max_packet_size
      → (p : Packet) × (send_transfer_offer c os
            (record { outgoing = out; alive = true })
            (some f)
            none
            key
            d
          ≡ ok (record { outgoing = out ++ frame p; alive = true }, d'))
        × IsSendable p
        × ((decrypt_body_if c key p >>= decode_transfer_packet max_alloc)
            ≡ ok (some (received max_alloc f), none))
  unfolding send_transfer_offer create_file_packet
  send_transfer_offer_file max_alloc os out f opened key d d' sent k opens room =
      let (p, offers, sendable, decrypts) = offer-total out key (offered_file f) k (omega arith) in
      (
        p,
        rw (opens, offers) refl,
        sendable,
        rw (decrypts, decode_transfer_packet-file_body max_alloc f sent) refl,
      )
