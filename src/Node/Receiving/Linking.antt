-- ===== src/Node/Receiving/Linking.antt =====
-- src/node/node.go, `receive`: strings out of a packet, and SYMLINK.
use ftu.Common.{
  ℕ, ◌-◌, ◌^◌, ◌≤◌, ◌<◌, ◌≡◌, refl, sym, ap, ◌∙◌, Option, [], ◌++◌, append-nil, Bytes, length,
  length-append, drop, drop-append, take-append, le→ltb, Outcome, ok, ◌>>=◌, ◌>>◌, arith,
}
use ftu.Common.BigEndian.{read_u64}
use ftu.Fsys.Disk.{Disk}
use ftu.Fsys.Tree.{Symlink}
use ftu.Protocol.Headers
use ftu.Protocol.Headers.{kind_of-header_of}
use ftu.Protocol.Packet.{Packet, decrypt_body_if}
use ftu.Protocol.Construct.{sized}
use ftu.Protocol.Decode.{filled, make_bytes}
use ftu.Protocol.Decode.RoundTrip.{read_u64-sized}
use ftu.Protocol.Delivery.{frame}
use ftu.Protocol.Send.{write}
use ftu.Node.Sender.{or_panic, dropping}
use ftu.Node.Receiver.{Surroundings, ReceiverNode, ready_packet, loose_sized}
use ftu.Node.Receiving.{on_symlink, made_dir, receive_packet, receiver_step}
use ftu.Node.Receiving.Whole.{send_packet-ready}
use ftu.Node.Transfer.Links.{link_packet}

loose_sized-read :
    (max_alloc : ℕ) (src : Bytes) (n : ℕ) (rest : Bytes)
    → read_u64 src ≡ ok (n, rest)
    → loose_sized max_alloc src ≡ (make_bytes max_alloc n >> ok (filled n rest, drop n rest))
unfolding loose_sized
loose_sized-read max_alloc src n rest reads =
    let then : ℕ × Bytes → Outcome (Bytes × Bytes) =
      λ r. make_bytes max_alloc r.0 >> ok (filled r.0 r.1, drop r.0 r.1) in
    let first : Outcome (ℕ × Bytes) → ℕ × Bytes = λ o. elim o [ ok r ↦ r | _ ↦ (0, []) ] in
    ap (λ o. then (first o)) reads

pub loose_sized-append :
    (max_alloc : ℕ) (s rest : Bytes)
    → length s ≤ max_alloc
    → length s < 2 ^ 64
    → loose_sized max_alloc (sized s ++ rest) ≡ ok (s, rest)
unfolding make_bytes
loose_sized-append max_alloc s rest fits small =
    let nothing : length s - length (s ++ rest) ≡ 0 = omega (arith, length-append s rest) in
    loose_sized-read max_alloc (sized s ++ rest) (length s) (s ++ rest)
      (read_u64-sized s rest small)
    ∙ rw
        (
          make_bytes,
          le→ltb max_alloc (length s) fits,
          take-append s rest,
          drop-append s rest,
          nothing,
          append-nil,
        )
        refl

pub loose_sized-sized :
    (max_alloc : ℕ) (s : Bytes)
    → length s ≤ max_alloc
    → length s < 2 ^ 64
    → loose_sized max_alloc (sized s) ≡ ok (s, [])
loose_sized-sized max_alloc s fits small =
    ap (loose_sized max_alloc) (sym (append-nil (sized s)))
    ∙ loose_sized-append max_alloc s [] fits small

-- A link is made below the downloads, in a folder that is made for it, and the node answers READY.
abbrev pub linked : Surroundings → ReceiverNode → Symlink → Disk → ReceiverNode
linked env n l d = record n {
  disk =
      env.make_link (env.join n.downloads_path l.target_path) (env.join n.downloads_path l.path) d;
  conn = write (frame ready_packet) n.conn;
}

pub receiver_step-link :
    (env : Surroundings) (n : ReceiverNode) (key : Option Bytes) (p : Packet) (l : Symlink)
    (d : Disk)
    → n.encryption_key ≡ key
    → decrypt_body_if env.cipher key p ≡ ok (link_packet l)
    → length l.path ≤ env.max_alloc
    → length l.path < 2 ^ 64
    → length l.target_path ≤ env.max_alloc
    → length l.target_path < 2 ^ 64
    → made_dir env (env.join n.downloads_path (env.parent l.path)) n.disk ≡ ok d
    → receiver_step env n p ≡ ok (linked env n l d)
unfolding receiver_step receive_packet on_symlink
receiver_step-link env n key p l d same opens fits small fits' small' makes =
    let clear : decrypt_body_if env.cipher n.encryption_key p ≡ ok (link_packet l) =
      rw same opens in
    rw
      (
        receiver_step,
        ◌>>=◌,
        clear,
        or_panic,
        kind_of-header_of Headers.symlink,
        receive_packet,
        on_symlink,
        loose_sized-append env.max_alloc l.path (sized l.target_path) fits small,
        loose_sized-sized env.max_alloc l.target_path fits' small',
        makes,
        send_packet-ready n.conn,
        dropping,
      )
      refl
