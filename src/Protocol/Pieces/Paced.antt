-- ===== src/Protocol/Pieces/Paced.antt =====
-- src/protocol/send.go: how many packets each function writes.
use ftu.Common.{
  ℕ, ◌+◌, ◌%◌, ◌^◌, ◌≡◌, ◌⊎◌, refl, sym, ap, subst, ◌∙◌, Bool-cases, inl, inr, false, Option, none,
  some, ◌++◌, ◌==◌, Bytes, length, Outcome, ok, err, panic, unfinished, ◌>>=◌, >>=-eq-ok, Error,
  sent_all,
}
use ftu.Common.BigEndian.{put_u64}
use ftu.Encryption.{Cipher, encrypt}
use ftu.Fsys.Disk.{Disk, Os, File, open_handle, close, content_at, read_at}
use ftu.Fsys.Tree.{Symlink}
use ftu.Protocol.Headers
use ftu.Protocol.Headers.{header_of}
use ftu.Protocol.Packet.{Packet, to_bytes, contains_delimeter, encrypt_body, encrypt_body_if}
use ftu.Protocol.Packet.Framing.{header_of-plain}
use ftu.Protocol.Construct.{sized}
use ftu.Protocol.Send.{
  Conn, write, send_packet, encrypt_if, send_symlink, Piece, can_send_bytes, send_bytes,
  send_opened, send_piece,
}

-- One packet was written, whose header can be found again.
pub record WroteOne (c c' : Conn) : Type 0 where
  pub packet : Packet
  pub bytes : Bytes
  pub plain_header : contains_delimeter packet.header ≡ false
  pub framed : to_bytes packet ≡ ok bytes
  pub written : c' ≡ write bytes c

-- At most one packet was written.
abbrev pub IsPaced : Conn → Conn → Type 0
IsPaced c c' = (c' ≡ c) ⊎ WroteOne c c'

pub send_packet-WroteOne :
    (c c' : Conn) (p : Packet)
    → contains_delimeter p.header ≡ false
    → send_packet c p ≡ ok c'
    → WroteOne c c'
unfolding send_packet
send_packet-WroteOne c c' p plain e =
    let (bytes, framed, e1) = >>=-eq-ok (to_bytes p) _ e in
    let same : write bytes c ≡ c' = cc in
    record { packet = p; bytes = bytes; plain_header = plain; framed = framed; written = sym same }

-- Encryption that succeeds leaves the header.
pub encrypt_body_if-header :
    (c : Cipher) (key : Option Bytes) (p p' : Packet)
    → encrypt_body_if c key p ≡ ok p'
    → p'.header ≡ p.header
unfolding encrypt_body_if encrypt_body
encrypt_body_if-header c none p p' e = let same : p ≡ p' = cc in ap (λ x. x.header) (sym same)
encrypt_body_if-header c (some key) p p' e =
    let (sealed, seals, made) = >>=-eq-ok (encrypt c key p.body) _ e in
    let same : record p { body = sealed } ≡ p' = cc in ap (λ x. x.header) (sym same)

module _ (c : Cipher) where
  pub send_symlink-WroteOne :
      (link : Symlink) (conn conn' : Conn) (key : Option Bytes)
      → send_symlink c link conn key ≡ ok conn'
      → WroteOne conn conn'
  unfolding send_symlink
  send_symlink-WroteOne link conn conn' key e =
      let (body, seals, e1) =
        >>=-eq-ok (encrypt_if c key (sized link.path ++ sized link.target_path)) _ e in
      send_packet-WroteOne conn conn' (record { header = header_of Headers.symlink; body = body })
        (header_of-plain Headers.symlink) e1

  -- A piece was written and there is no error, or there is an error and nothing was written.
  abbrev pub IsWhole : Conn → Piece → Type 0
  IsWhole conn piece =
      ((piece.error ≡ none) × WroteOne conn piece.conn)
      ⊎ ((e : Error) × (piece.error ≡ some e) × (piece.conn ≡ conn))

  not_sent :
      (conn : Conn) (q piece : Piece) (e : Error)
      → q.error ≡ some e
      → q.conn ≡ conn
      → q ≡ piece
      → IsWhole conn piece
  not_sent conn q piece e failed same s =
      inr (e, ap (λ x. x.error) (sym s) ∙ failed, ap (λ x. x.conn) (sym s) ∙ same)

  -- The end of `send_bytes`, by the outcome of `SendPacket`.
  sent-IsWhole :
      (n : ℕ) (moved : File) (conn : Conn) (sealed : Packet) (piece : Piece) (o : Outcome Conn)
      → contains_delimeter sealed.header ≡ false
      → send_packet conn sealed ≡ o
      → (elim o [
        | ok conn' ↦ ok (record { sent = n; error = none; file = moved; conn = conn' })
        | err e ↦ ok (record { sent = 0; error = some e; file = moved; conn = conn })
        | panic ↦ panic
        | unfinished ↦ unfinished
      ])
        ≡ ok piece
      → IsWhole conn piece
  sent-IsWhole n moved conn sealed piece (ok conn') plain goes e =
      let q : Piece = record { sent = n; error = none; file = moved; conn = conn' } in
      let same : q ≡ piece = cc in
      inl (
        ap (λ x. x.error) (sym same),
        send_packet-WroteOne conn piece.conn sealed plain (goes ∙ ap ok (ap (λ x. x.conn) same)),
      )
  sent-IsWhole n moved conn sealed piece (err reason) plain goes e =
      not_sent conn (record { sent = 0; error = some reason; file = moved; conn = conn }) piece
        reason refl refl cc
  sent-IsWhole n moved conn sealed piece panic plain goes e = absurd cc
  sent-IsWhole n moved conn sealed piece unfinished plain goes e = absurd cc

  sealed-IsWhole :
      (f : File) (conn : Conn) (key : Option Bytes) (bytes : Bytes) (moved : File) (p : Packet)
      (piece : Piece) (o : Outcome Packet)
      → contains_delimeter p.header ≡ false
      → encrypt_body_if c key p ≡ o
      → (elim o [
        | ok sealed ↦ elim (send_packet conn sealed) [
          | ok conn' ↦
              ok (record { sent = can_send_bytes key f; error = none; file = moved; conn = conn' })
          | err e ↦ ok (record { sent = 0; error = some e; file = moved; conn = conn })
          | panic ↦ panic
          | unfinished ↦ unfinished
        ]
        | err e ↦
            ok (record { sent = can_send_bytes key f; error = some e; file = moved; conn = conn })
        | panic ↦ panic
        | unfinished ↦ unfinished
      ])
        ≡ ok piece
      → IsWhole conn piece
  sealed-IsWhole f conn key bytes moved p piece (ok sealed) plain seals e =
      sent-IsWhole (can_send_bytes key f) moved conn sealed piece (send_packet conn sealed)
        (ap contains_delimeter (encrypt_body_if-header c key p sealed seals) ∙ plain) refl e
  sealed-IsWhole f conn key bytes moved p piece (err reason) plain seals e =
      not_sent conn
        (record { sent = can_send_bytes key f; error = some reason; file = moved; conn = conn })
        piece reason refl refl cc
  sealed-IsWhole f conn key bytes moved p piece panic plain seals e = absurd cc
  sealed-IsWhole f conn key bytes moved p piece unfinished plain seals e = absurd cc

  send_bytes-IsWhole :
      (f : File) (conn : Conn) (key : Option Bytes) (bytes : Bytes) (piece : Piece)
      → send_bytes c f conn key bytes ≡ ok piece
      → IsWhole conn piece
  unfolding send_bytes
  send_bytes-IsWhole f conn key bytes piece e =
      sealed-IsWhole f conn key bytes
        (record f { sent_bytes = (f.sent_bytes + length bytes) % 2 ^ 64 })
        (record { header = header_of Headers.file_bytes; body = put_u64 f.id ++ bytes }) piece _
        (header_of-plain Headers.file_bytes) refl e

  -- `send_opened` from its `ReadAt` on.
  read-IsWhole :
      (f : File) (conn : Conn) (key : Option Bytes) (piece : Piece) (o : Outcome Bytes)
      → (elim o [
        | ok bytes ↦ send_bytes c f conn key bytes
        | err e ↦ ok (record { sent = 0; error = some e; file = f; conn = conn })
        | panic ↦ panic
        | unfinished ↦ unfinished
      ])
        ≡ ok piece
      → IsWhole conn piece
  read-IsWhole f conn key piece (ok bytes) e = send_bytes-IsWhole f conn key bytes piece e
  read-IsWhole f conn key piece (err reason) e =
      not_sent conn (record { sent = 0; error = some reason; file = f; conn = conn }) piece reason
        refl refl cc
  read-IsWhole f conn key piece panic e = absurd cc
  read-IsWhole f conn key piece unfinished e = absurd cc

  send_opened-IsWhole :
      (f : File) (conn : Conn) (key : Option Bytes) (d : Disk) (piece : Piece)
      → send_opened c f conn key d ≡ ok piece
      → IsWhole conn piece
  unfolding send_opened
  send_opened-IsWhole f conn key d piece e = elim (Bool-cases (f.size == f.sent_bytes)) [
    | inl all ↦
        let q : Piece = record { sent = 0; error = some sent_all; file = f; conn = conn } in
        let runs : send_opened c f conn key d ≡ ok q = rw (send_opened, all) refl in
        not_sent conn q piece sent_all refl refl cc
    | inr more ↦
        let o = read_at (content_at f.handler d) f.sent_bytes (can_send_bytes key f) in
        let runs : send_opened c f conn key d ≡ (elim o [
          | ok bytes ↦ send_bytes c f conn key bytes
          | err e ↦ ok (record { sent = 0; error = some e; file = f; conn = conn })
          | panic ↦ panic
          | unfinished ↦ unfinished
        ]) =
          rw (send_opened, more) refl in
        read-IsWhole f conn key piece o (sym runs ∙ e)
  ]

  abbrev returned : Piece → Disk → Outcome (Piece × Disk)
  returned piece d = ok (piece, d)

  opened-IsWhole :
      (os : Os) (f : File) (conn : Conn) (key : Option Bytes) (d e' : Disk) (piece : Piece)
      (o : Outcome (File × Disk))
      → (elim o [
        | ok (opened, d') ↦ send_opened c opened conn key d' >>= λ piece.
            ok (record piece { file = close os piece.file }, d')
        | err e ↦ ok (record { sent = 0; error = some e; file = close os f; conn = conn }, d)
        | panic ↦ panic
        | unfinished ↦ unfinished
      ])
        ≡ returned piece e'
      → IsWhole conn piece
  opened-IsWhole os f conn key d e' piece (ok (opened, d')) e =
      let (q, sends, e1) = >>=-eq-ok (send_opened c opened conn key d') _ e in
      let same : record q { file = close os q.file } ≡ piece = cc in
      elim (send_opened-IsWhole opened conn key d' q sends) [
        | inl (fine, wrote) ↦ inl (
          ap (λ x. x.error) (sym same) ∙ fine,
          subst (WroteOne conn) (ap (λ x. x.conn) same) wrote,
        )
        | inr (reason, failed, kept) ↦
            inr (reason, ap (λ x. x.error) (sym same) ∙ failed, ap (λ x. x.conn) (sym same) ∙ kept)
      ]
  opened-IsWhole os f conn key d e' piece (err reason) e =
      let q : Piece = record { sent = 0; error = some reason; file = close os f; conn = conn } in
      let same : q ≡ piece = cc in not_sent conn q piece reason refl refl same
  opened-IsWhole os f conn key d e' piece panic e = absurd cc
  opened-IsWhole os f conn key d e' piece unfinished e = absurd cc

  -- `SendPiece` writes one packet if it returns no error, and none if it returns one.
  pub send_piece-IsWhole :
      (os : Os) (f : File) (conn : Conn) (key : Option Bytes) (d d' : Disk) (piece : Piece)
      → send_piece c os f conn key d ≡ ok (piece, d')
      → IsWhole conn piece
  unfolding send_piece
  send_piece-IsWhole os f conn key d d' piece e =
      opened-IsWhole os f conn key d d' piece (open_handle os f d) e
