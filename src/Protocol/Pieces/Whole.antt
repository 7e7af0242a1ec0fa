-- ===== src/Protocol/Pieces/Whole.antt =====
-- The calls of `SendPiece` one after the other, until it reports that the file has been sent.
use ftu.Common.{
  ℕ, zero, suc, ◌+◌, ◌-◌, ◌≤◌, ◌<◌, ◌≡◌, refl, sym, subst, ap, ◌∙◌, true, Option, none, some, List,
  [], ◌∷◌, ◌++◌, append-nil, append_assoc, Bytes, length, take, drop, take-drop, drop_all, Outcome,
  ok, unfinished, ◌>>=◌, Error, sent_all, arith, dec_lt,
}
use ftu.Common.BigEndian.{IsU64}
use ftu.Encryption.{Cipher, IsGcm}
use ftu.Fsys.Disk.{Os, Disk, File}
use ftu.Protocol.Packet.{Packet, decrypt_body_if}
use ftu.Protocol.Delivery.{IsSendable, frame, frames}
use ftu.Protocol.Offer.{IsKey}
use ftu.Protocol.Send.{Conn, can_send_bytes, send_piece}
use ftu.Protocol.Room.{piece_packet}
use ftu.Protocol.Pieces.{IsServed, send_piece_next, send_piece_end}

-- What all calls return together: the bytes sent, the last error and the connection.
unfoldable pub send_pieces :
    Cipher → ℕ → Os → File → Conn → Option Bytes → Disk → Outcome (ℕ × Error × Conn)
send_pieces c zero os f conn key d = unfinished
send_pieces c (suc fuel) os f conn key d = send_piece c os f conn key d >>= λ r. elim r.0.error [
  | none ↦ send_pieces c fuel os r.0.file r.0.conn key r.1 >>= λ t. ok (r.0.sent + t.0, t.1, t.2)
  | some e ↦ ok (r.0.sent, e, r.0.conn)
]

abbrev pub joined : List Bytes → Bytes
joined [] = []
joined (b ∷ bs) = b ++ joined bs

-- Packets that carry these pieces of the file with this ID, and can be sent.
abbrev pub Carries : Cipher → Option Bytes → ℕ → List Packet → List Bytes → Type 0
Carries c key id [] [] = Unit {0}
Carries c key id [] (b ∷ bs) = ⊥
Carries c key id (p ∷ ps) [] = ⊥
Carries c key id (p ∷ ps) (b ∷ bs) =
    IsSendable p × (decrypt_body_if c key p ≡ ok (piece_packet id b)) × Carries c key id ps bs

module _ (c : Cipher) (gcm : IsGcm c) (os : Os) (d : Disk) (content : Bytes) (key : Option Bytes)
    (k : IsKey key) where
  -- From any point on, the calls send what is left of the file and end with `ErrorSentAll`.
  pub send_pieces-rest :
      (fuel : ℕ) (f : File) (out : Bytes)
      → IsServed os d f.path content
      → length content ≡ f.size
      → IsU64 f.size
      → f.sent_bytes ≤ f.size
      → f.size - f.sent_bytes < fuel
      → (ps : List Packet) × (pieces : List Bytes) × (send_pieces c fuel os f
            (record { outgoing = out; alive = true })
            key
            d
          ≡ ok (
            f.size - f.sent_bytes,
            sent_all,
            record { outgoing = out ++ frames ps; alive = true },
          ))
        × Carries c key f.id ps pieces
        × (joined pieces ≡ drop f.sent_bytes content)
  unfolding send_pieces
  send_pieces-rest zero f out served long small le fuelled = absurd (omega arith)
  send_pieces-rest (suc fuel) f out served long small le fuelled =
      elim (dec_lt f.sent_bytes f.size) [
        | no done ↦
            let (f', ends, at) =
              send_piece_end c os d content f (record { outgoing = out; alive = true }) key served
                (omega arith) in
            let zero_left : f.size - f.sent_bytes ≡ 0 = omega arith in
            (
              [],
              [],
              rw (ends, append-nil, zero_left) refl,
              tt,
              sym (drop_all f.sent_bytes content (omega arith)),
            )
        | yes more ↦
            let n = can_send_bytes key f in
            let (p, f', sends, sendable, opens, at, some_bytes, room) =
              send_piece_next c os d content f out key gcm served long small more k in
            let (ps, pieces, rest, carried, joins) =
              send_pieces-rest fuel f' (out ++ frame p)
                (subst (λ x. IsServed os d x content) (sym at.path) served) (long ∙ sym at.size)
                (omega (arith, at.size)) (omega (arith, at.size, at.sent_bytes))
                (omega (arith, at.size, at.sent_bytes)) in
            let count : n + (f'.size - f'.sent_bytes) ≡ f.size - f.sent_bytes =
              omega (arith, at.size, at.sent_bytes) in
            (
              p ∷ ps,
              take n (drop f.sent_bytes content) ∷ pieces,
              rw (sends, rest, count, append_assoc out (frame p) (frames ps)) refl,
              (sendable, opens, subst (λ i. Carries c key i ps pieces) at.id carried),
              ap (◌++◌ (take n (drop f.sent_bytes content)))
                    (joins ∙ ap (λ m. drop m content) at.sent_bytes)
                  ∙ take-drop f.sent_bytes n (f.sent_bytes + n) content refl,
            )
      ]

-- The whole file: as many calls as the file has bytes, and one more, are enough; they report as
-- many bytes as the file has and end with `ErrorSentAll`; every packet can be sent, and the pieces
-- that the packets carry, decrypted, are together the content of the file.
pub send_pieces-whole :
    (c : Cipher) (os : Os) (d : Disk) (content : Bytes) (f : File) (key : Option Bytes) (fuel : ℕ)
    → IsGcm c
    → IsServed os d f.path content
    → length content ≡ f.size
    → IsU64 f.size
    → f.sent_bytes ≡ 0
    → IsKey key
    → f.size < fuel
    → (ps : List Packet) × (pieces : List Bytes) × (send_pieces c fuel os f
          (record { outgoing = []; alive = true })
          key
          d
        ≡ ok (f.size, sent_all, record { outgoing = frames ps; alive = true }))
      × Carries c key f.id ps pieces
      × (joined pieces ≡ content)
send_pieces-whole c os d content f key fuel gcm served long small start k fuelled =
    let (ps, pieces, sends, carried, joins) =
      send_pieces-rest c gcm os d content key k fuel f [] served long small (omega arith)
        (omega arith) in
    let all : f.size - f.sent_bytes ≡ f.size = omega arith in
    (
      ps,
      pieces,
      sends ∙ ap (λ n. ok (n, sent_all, record { outgoing = frames ps; alive = true })) all,
      carried,
      joins ∙ ap (λ n. drop n content) start,
    )
