-- ===== src/Node/Receiving/Answering.antt =====
-- src/node/node.go, `receive`: what a round of the mainloop writes, whichever packet it is on.
use ftu.Common.{
  ℕ, ◌+◌, ◌%◌, ◌^◌, ◌≡◌, ◌⊎◌, refl, sym, ap, ◌∙◌, Bool, Option-cases, inl, inr, true, false, some,
  [], ◌∷◌, ◌++◌, List, Bytes, bytes_eq, length, length-append, if◌then◌else◌, Outcome, ok, panic,
  ◌>>=◌, >>=-eq-ok, arith,
}
use ftu.Common.BigEndian.{put_u64, length-put_u64, read_u64}
use ftu.Checksum.{check_sum_of}
use ftu.Encryption.{IsGcm}
use ftu.Fsys.Disk.{File}
use ftu.Protocol.Headers
use ftu.Protocol.Headers.{
  header_of, header_delimeter, kind_of, Kind, encryption_key, reject, accept, done, ready,
  disconnecting, transfer_offer, file, file_bytes, endfile, directory, already_have, symlink,
  unknown,
}
use ftu.Protocol.Packet.{Packet, contains_delimeter, encrypt_body_if, decrypt_body_if}
use ftu.Protocol.Packet.Framing.{header_of-plain}
use ftu.Protocol.Decode.{decode_file_packet}
use ftu.Protocol.Delivery.{IsSendable, frame}
use ftu.Protocol.Send.{Conn, write, send_packet}
use ftu.Node.Sender.{or_panic, or_panic-eq-ok, dropping}
use ftu.Node.Receiver.{
  Surroundings, ReceiverNode, ready_packet, destination, accept_file, have_file, compare_file,
  on_file, loose_sized,
}
use ftu.Node.Receiving.{
  write_pieces, end_loop, made_dir, on_file_bytes, on_endfile, on_encryption_key, on_symlink,
  receive_packet, receiver_step,
}
use ftu.Node.Receiving.Written.{
  HasWritten, send_packet-HasWritten, send_ready-HasWritten, try_ready-HasWritten,
  encrypt_body_if-longer,
}

-- A FILE is answered with one READY, or one ALREADYHAVE.
abbrev pub IsFileAnswered : Conn → Conn → List Packet → List Packet → Type 0
IsFileAnswered c c' os os' =
    HasWritten c c' os os' ready_packet
    ⊎ ((q : Packet) × HasWritten c c' os os' q × (q.header ≡ header_of Headers.already_have))

-- What a packet of a kind is answered with: the bytes of a file, an ENDFILE and a link with one
-- READY; an offer is put behind those that wait, and nothing else is answered.
abbrev pub IsAnswered : Kind → Packet → Conn → Conn → List Packet → List Packet → Type 0
IsAnswered file p c c' os os' = IsFileAnswered c c' os os'
IsAnswered file_bytes p c c' os os' = HasWritten c c' os os' ready_packet
IsAnswered endfile p c c' os os' = HasWritten c c' os os' ready_packet
IsAnswered symlink p c c' os os' = HasWritten c c' os os' ready_packet
IsAnswered transfer_offer p c c' os os' = (c' ≡ c) × (os' ≡ os ++ (p ∷ []))
IsAnswered _ p c c' os os' = (c' ≡ c) × (os' ≡ os)

-- ALREADYHAVE for a file, before it is encrypted.
abbrev have_packet : ℕ → Packet
have_packet id = record { header = header_of Headers.already_have; body = put_u64 id }

module _ (env : Surroundings) (gcm : IsGcm env.cipher) where
  have_file-IsAnswered :
      (f : File) (n n' : ReceiverNode)
      → have_file env f n ≡ ok n'
      → IsFileAnswered n.conn n'.conn n.offers n'.offers
  unfolding have_file header_of
  have_file-IsAnswered f n n' e =
      let (p, seals, e1) =
        >>=-eq-ok (or_panic (encrypt_body_if env.cipher n.encryption_key (have_packet f.id))) _ e in
      let (c, sends, e2) = >>=-eq-ok (dropping n.conn (send_packet n.conn p)) _ e1 in
      let (same_header, longer) =
        encrypt_body_if-longer env.cipher gcm n.encryption_key (have_packet f.id) p
          (or_panic-eq-ok _ p seals) in
      let sendable : IsSendable p = record {
        plain_header = ap contains_delimeter same_header ∙ header_of-plain Headers.already_have;
        small = omega (
          arith,
          ap length same_header,
          length-put_u64 f.id,
          length-append p.header (header_delimeter ++ p.body),
        );
      } in
      let (goes, wrote) = send_packet-HasWritten n.conn n.offers p sendable in
      let same_conn : c ≡ write (frame p) n.conn = cc in
      let same : record n { conn = c; received_bytes = (n.received_bytes + f.size) % 2 ^ 64 } ≡ n' =
        cc in
      inr (
        p,
        record {
          sendable = sendable;
          written = ap (λ x. x.conn) (sym same) ∙ same_conn;
          same_offers = ap (λ x. x.offers) (sym same);
        },
        same_header,
      )

  accept_file-IsAnswered :
      (f : File) (n n' : ReceiverNode)
      → accept_file env f n ≡ ok n'
      → IsFileAnswered n.conn n'.conn n.offers n'.offers
  unfolding accept_file
  accept_file-IsAnswered f n n' e =
      inl (send_ready-HasWritten (record n { accepted_files = n.accepted_files ++ (f ∷ []) }) n' e)

  -- What `compare_file` does on a file that stands there, by whether it is the very same.
  abbrev Compared : File → ReceiverNode → Bool → Outcome ReceiverNode
  Compared f n same =
      if same
      then have_file env f n
      else accept_file env f (record n { disk = env.remove f.path n.disk })

  Compared-IsAnswered :
      (f : File) (n n' : ReceiverNode) (same : Bool)
      → Compared f n same ≡ ok n'
      → IsFileAnswered n.conn n'.conn n.offers n'.offers
  Compared-IsAnswered f n n' true e = have_file-IsAnswered f n n' e
  Compared-IsAnswered f n n' false e =
      accept_file-IsAnswered f (record n { disk = env.remove f.path n.disk }) n' e

  compare_file-IsAnswered :
      (f : File) (n n' : ReceiverNode)
      → compare_file env f n ≡ ok n'
      → IsFileAnswered n.conn n'.conn n.offers n'.offers
  unfolding compare_file
  compare_file-IsAnswered f n n' e = elim (Option-cases (env.open_existing n.disk f.path)) [
    | inl gone ↦
        let fails : compare_file env f n ≡ panic = rw (compare_file, gone) refl in absurd cc
    | inr (h, there) ↦
        let sum = or_panic (check_sum_of env.sha (n.disk h)) in
        let runs : compare_file env f n ≡ (sum >>= λ x. Compared f n (bytes_eq x f.checksum)) =
          rw (compare_file, there) refl in
        let (x, summed, more) =
          >>=-eq-ok sum (λ x. Compared f n (bytes_eq x f.checksum)) (sym runs ∙ e) in
        Compared-IsAnswered f n n' (bytes_eq x f.checksum) more
  ]

  abbrev Placed : File → ReceiverNode → Bool → Outcome ReceiverNode
  Placed f n there = if there then compare_file env f n else accept_file env f n

  Placed-IsAnswered :
      (f : File) (n n' : ReceiverNode) (there : Bool)
      → Placed f n there ≡ ok n'
      → IsFileAnswered n.conn n'.conn n.offers n'.offers
  Placed-IsAnswered f n n' true e = compare_file-IsAnswered f n n' e
  Placed-IsAnswered f n n' false e = accept_file-IsAnswered f n n' e

  on_file-IsAnswered :
      (p : Packet) (n n' : ReceiverNode)
      → on_file env p n ≡ ok n'
      → IsFileAnswered n.conn n'.conn n.offers n'.offers
  unfolding on_file
  on_file-IsAnswered p n n' e =
      let (f, decodes, e1) = >>=-eq-ok (or_panic (decode_file_packet env.max_alloc p)) _ e in
      let at : File = record f { path = destination env n.downloads_path f } in
      let (d, makes, e2) = >>=-eq-ok (or_panic (env.mkdir_all (env.parent at.path) n.disk)) _ e1 in
      Placed-IsAnswered at (record n { disk = d }) n' (env.stat d at.path) e2

  on_file_bytes-IsAnswered :
      (body : Bytes) (n n' : ReceiverNode)
      → on_file_bytes env body n ≡ ok n'
      → HasWritten n.conn n'.conn n.offers n'.offers ready_packet
  unfolding on_file_bytes
  on_file_bytes-IsAnswered body n n' e =
      let (r, reads, e1) = >>=-eq-ok (or_panic (read_u64 body)) _ e in
      let (w, writes, e2) =
        >>=-eq-ok (write_pieces env r.0 r.1 n.accepted_files n.disk n.received_bytes) _ e1 in
      try_ready-HasWritten (record n { accepted_files = w.0; disk = w.1; received_bytes = w.2 }) n'
        e2

  on_endfile-IsAnswered :
      (body : Bytes) (n n' : ReceiverNode)
      → on_endfile env body n ≡ ok n'
      → HasWritten n.conn n'.conn n.offers n'.offers ready_packet
  unfolding on_endfile
  on_endfile-IsAnswered body n n' e =
      let (r, reads, e1) = >>=-eq-ok (or_panic (read_u64 body)) _ e in
      let (w, ends, e2) = >>=-eq-ok (end_loop env r.0 n.accepted_files n.disk) _ e1 in
      send_ready-HasWritten (record n { accepted_files = w.0; disk = w.1 }) n' e2

  on_symlink-IsAnswered :
      (body : Bytes) (n n' : ReceiverNode)
      → on_symlink env body n ≡ ok n'
      → HasWritten n.conn n'.conn n.offers n'.offers ready_packet
  unfolding on_symlink
  on_symlink-IsAnswered body n n' e =
      let (a, reads, e1) = >>=-eq-ok (loose_sized env.max_alloc body) _ e in
      let (b, reads', e2) = >>=-eq-ok (loose_sized env.max_alloc a.1) _ e1 in
      let (d, makes, e3) =
        >>=-eq-ok (made_dir env (env.join n.downloads_path (env.parent a.0)) n.disk) _ e2 in
      try_ready-HasWritten
        (record n {
          disk = env.make_link (env.join n.downloads_path b.0) (env.join n.downloads_path a.0) d;
        })
        n' e3

  -- A node that has written nothing.
  abbrev IsQuiet : ReceiverNode → ReceiverNode → Type 0
  IsQuiet n n' = (n'.conn ≡ n.conn) × (n'.offers ≡ n.offers)

  quiet :
      (n m n' : ReceiverNode) → ok m ≡ ok n' → m.conn ≡ n.conn → m.offers ≡ n.offers → IsQuiet n n'
  quiet n m n' e same same_offers =
      let step : m ≡ n' = cc in
      (ap (λ x. x.conn) (sym step) ∙ same, ap (λ x. x.offers) (sym step) ∙ same_offers)

  on_encryption_key-IsQuiet :
      (body : Bytes) (n n' : ReceiverNode) → on_encryption_key env body n ≡ ok n' → IsQuiet n n'
  unfolding on_encryption_key
  on_encryption_key-IsQuiet body n n' e =
      let (k, reads, e1) = >>=-eq-ok (loose_sized env.max_alloc body) _ e in
      quiet n (record n { encryption_key = some k.0 }) n' e1 refl refl

  receive_packet-IsAnswered :
      (p : Packet) (n n' : ReceiverNode) (k : Kind)
      → receive_packet env p n k ≡ ok n'
      → IsAnswered k p n.conn n'.conn n.offers n'.offers
  unfolding receive_packet
  receive_packet-IsAnswered p n n' file e = on_file-IsAnswered p n n' e
  receive_packet-IsAnswered p n n' file_bytes e = on_file_bytes-IsAnswered p.body n n' e
  receive_packet-IsAnswered p n n' endfile e = on_endfile-IsAnswered p.body n n' e
  receive_packet-IsAnswered p n n' symlink e = on_symlink-IsAnswered p.body n n' e
  receive_packet-IsAnswered p n n' encryption_key e = on_encryption_key-IsQuiet p.body n n' e
  receive_packet-IsAnswered p n n' transfer_offer e =
      let step : record n { offers = n.offers ++ (p ∷ []) } ≡ n' = cc in
      (ap (λ x. x.conn) (sym step), ap (λ x. x.offers) (sym step))
  receive_packet-IsAnswered p n n' done e = quiet n _ n' e refl refl
  receive_packet-IsAnswered p n n' disconnecting e = quiet n _ n' e refl refl
  receive_packet-IsAnswered p n n' reject e = quiet n _ n' e refl refl
  receive_packet-IsAnswered p n n' accept e = quiet n _ n' e refl refl
  receive_packet-IsAnswered p n n' ready e = quiet n _ n' e refl refl
  receive_packet-IsAnswered p n n' directory e = quiet n _ n' e refl refl
  receive_packet-IsAnswered p n n' already_have e = quiet n _ n' e refl refl
  receive_packet-IsAnswered p n n' unknown e = quiet n _ n' e refl refl

  -- Every round of a receiving node that does not panic answers its packet, whatever is in it, as
  -- the kind of the packet says: a FILE with one READY or one ALREADYHAVE, the bytes of a file, an
  -- ENDFILE and a link with one READY, and no other packet with anything; what it writes can be
  -- sent; and the offers wait as before, a TRANSFEROFFER behind them.
  pub receiver_step-IsAnswered :
      (n n' : ReceiverNode) (p : Packet)
      → receiver_step env n p ≡ ok n'
      → (clear : Packet) × (decrypt_body_if env.cipher n.encryption_key p ≡ ok clear)
        × IsAnswered (kind_of clear.header) clear n.conn n'.conn n.offers n'.offers
  unfolding receiver_step
  receiver_step-IsAnswered n n' p e =
      let (clear, opens, runs) =
        >>=-eq-ok (or_panic (decrypt_body_if env.cipher n.encryption_key p)) _ e in
      (
        clear,
        or_panic-eq-ok (decrypt_body_if env.cipher n.encryption_key p) clear opens,
        receive_packet-IsAnswered clear n n' (kind_of clear.header) runs,
      )
