-- ===== src/Node/Start/Offers.antt =====
-- src/node/node.go: the offer of a sending node, and what the other side makes of it.
-- makes.
use ftu.Common.{
  ℕ, ◌+◌, ◌≤◌, ◌≡◌, refl, sym, ap, subst, ◌∙◌, true, Option, none, some, ◌++◌, Bytes, length,
  Outcome, ok, ◌>>=◌, arith,
}
use ftu.Common.BigEndian.{IsU64}
use ftu.Encryption.{valid_key, Cipher, IsGcm}
use ftu.Fsys.Disk.{Disk, Os, File, open_handle}
use ftu.Fsys.Tree.{Directory, info}
use ftu.Protocol.Headers
use ftu.Protocol.Headers.{
  header_of, kind_of, kind_of-header_of, max_packet_size, file_code, dir_code,
}
use ftu.Protocol.Packet.{Packet, decrypt_body_if}
use ftu.Protocol.Construct.{create_file_packet, create_directory_packet, file_body}
use ftu.Protocol.Decode.{decode_transfer_packet}
use ftu.Protocol.Decode.RoundTrip.{
  IsSent, Fits, received, received_directory, decode_transfer_packet-file_body,
  decode_transfer_packet-directory_body,
}
use ftu.Protocol.Delivery.{IsSendable, frame}
use ftu.Protocol.Offer.{IsKey, offer-total}
use ftu.Protocol.Send.{Conn, send_transfer_offer}
use ftu.Node.State.{SenderNode, Env}
use ftu.Node.Transfer.Accepting.{IsUnqueued}
use ftu.Node.Start.{Served, offer_step}

-- What can be offered: a directory or a file, whose description leaves room for the header and the
-- encryption, and a file that can be opened.
abbrev pub IsOfferable : ℕ → Os → Disk → Option File → Option Directory → Type 0
IsOfferable max_alloc os d none (some x) =
    Fits max_alloc (info x).name
    × IsU64 (info x).size
    × (length (create_directory_packet x).body + 43 ≤ max_packet_size)
IsOfferable max_alloc os d (some f) none =
    (opened : File) × (d' : Disk) × (open_handle os f d ≡ ok (opened, d'))
    × IsSent max_alloc f
    × (length (file_body f) + 43 ≤ max_packet_size)
IsOfferable max_alloc os d (some f) (some x) = ⊥
IsOfferable max_alloc os d none none = ⊥

-- What the other side makes of it.
abbrev pub offered_to : ℕ → Option File → Option Directory → Option File × Option Directory
offered_to max_alloc (some f) directory = (some (received max_alloc f), none)
offered_to max_alloc none (some x) = (none, some (received_directory max_alloc x))
offered_to max_alloc none none = (none, none)

-- An offer in the clear that is decoded to this.
abbrev IsClear : ℕ → Option File × Option Directory → Packet → Type 0
IsClear max_alloc told p =
    (kind_of p.header ≡ Headers.transfer_offer) × (decode_transfer_packet max_alloc p ≡ ok told)

module _ (c : Cipher) (gcm : IsGcm c) (os : Os) (max_alloc : ℕ) (out : Bytes) (key : Option Bytes)
    (k : IsKey key) where
  send_transfer_offer-total :
      (file : Option File) (directory : Option Directory) (d : Disk)
      → IsOfferable max_alloc os d file directory
      → (p : Packet) × (clear : Packet) × (d' : Disk) × (send_transfer_offer c os
            (record { outgoing = out; alive = true })
            file
            directory
            key
            d
          ≡ ok (record { outgoing = out ++ frame p; alive = true }, d'))
        × IsSendable p
        × (decrypt_body_if c key p ≡ ok clear)
        × IsClear max_alloc (offered_to max_alloc file directory) clear
  unfolding send_transfer_offer create_file_packet
  send_transfer_offer-total none (some x) d (name, size, room) =
      let (p, offers, sendable, decrypts) =
        offer-total c gcm out key (dir_code ++ (create_directory_packet x).body) k (omega arith) in
      (
        p,
        _,
        d,
        rw (send_transfer_offer, ◌>>=◌, offers) refl,
        sendable,
        decrypts,
        (
          kind_of-header_of Headers.transfer_offer,
          decode_transfer_packet-directory_body max_alloc x name size,
        ),
      )
  send_transfer_offer-total (some f) none d (opened, d', opens, sent, room) =
      let (p, offers, sendable, decrypts) =
        offer-total c gcm out key (file_code ++ file_body f) k (omega arith) in
      (
        p,
        _,
        d',
        rw (send_transfer_offer, ◌>>=◌, opens, offers) refl,
        sendable,
        decrypts,
        (
          kind_of-header_of Headers.transfer_offer,
          decode_transfer_packet-file_body max_alloc f sent,
        ),
      )
  send_transfer_offer-total (some f) (some x) d fits = absurd fits
  send_transfer_offer-total none none d fits = absurd fits

-- The goroutine of the offer writes one packet, which the other side decrypts and decodes to what
-- is served.
pub offer_step-offers :
    (env : Env) (max_alloc : ℕ) (served : Served) (n n' : SenderNode) (out key : Bytes)
    → IsGcm env.cipher
    → valid_key key ≡ true
    → IsUnqueued n (some key) out
    → IsOfferable max_alloc env.os n.disk served.file served.directory
    → offer_step env served n ≡ ok n'
    → (p : Packet) × (clear : Packet) × IsUnqueued n' (some key) (out ++ frame p)
      × (n'.files ≡ n.files)
      × IsSendable p
      × (decrypt_body_if env.cipher (some key) p ≡ ok clear)
      × IsClear max_alloc (offered_to max_alloc served.file served.directory) clear
unfolding offer_step
offer_step-offers env max_alloc served n n' out key gcm valid u fits goes =
    let (p, clear, d', offers, sendable, decrypts, is_clear) =
      send_transfer_offer-total env.cipher gcm env.os max_alloc out (some key) valid served.file
        served.directory n.disk fits in
    let n1 : SenderNode = record n {
      conn = record { outgoing = out ++ frame p; alive = true };
      disk = d';
    } in
    let send : Conn → Option Bytes → Outcome (Conn × Disk) =
      λ c k. send_transfer_offer env.cipher env.os c served.file served.directory k n.disk in
    let sends : send n.conn n.encryption_key ≡ ok (n1.conn, d') =
      ap (λ c. send c n.encryption_key) u.conn
      ∙ ap (send (record { outgoing = out; alive = true })) u.same_key
      ∙ offers in
    let steps : offer_step env served n ≡ ok n1 = rw (offer_step, sends) refl in
    let same : n1 ≡ n' = cc in
    (
      p,
      clear,
      subst (λ x. IsUnqueued x (some key) (out ++ frame p)) same
          (record {
            running = u.running;
            same_key = u.same_key;
            conn = refl;
            no_files = u.no_files;
            no_links = u.no_links;
            no_link_sent = u.no_link_sent;
            idle = u.idle;
            one_file = u.one_file;
          }),
      ap (λ x. x.files) (sym same),
      sendable,
      decrypts,
      is_clear,
    )
