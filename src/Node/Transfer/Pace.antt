-- ===== src/Node/Transfer/Pace.antt =====
-- src/node/node.go, `send`: how many packets a round of the mainloop writes.
use ftu.Common.{
  ℕ, ◌≡◌, ◌⊎◌, refl, sym, ap, subst, ◌∙◌, Bool, Bool-cases, inl, inr, true, false, Option, none,
  some, List, [], ◌++◌, Bytes, length, if◌then◌else◌, Outcome, ok, err, panic, unfinished, ◌>>=◌,
  >>=-eq-ok, Error, eof, unexpected_eof, invalid_packet, packet_too_big, wrong_packet,
  not_connected, sent_all, bad_key, could_not_decrypt, not_directory, not_file, not_symlink,
  os_error,
}
use ftu.Common.BigEndian.{put_u64}
use ftu.Fsys.Disk.{File, Disk, open_handle, Os}
use ftu.Fsys.Tree.{Symlink}
use ftu.Protocol.Headers
use ftu.Protocol.Headers.{
  header_of, kind_of, Kind, encryption_key, reject, accept, done, ready, disconnecting,
  transfer_offer, file, file_bytes, endfile, directory, already_have, symlink, unknown,
}
use ftu.Protocol.Packet.{Packet, contains_delimeter, encrypt_body_if, decrypt_body_if}
use ftu.Protocol.Packet.Framing.{header_of-plain}
use ftu.Protocol.Construct.{create_file_packet}
use ftu.Protocol.Pieces.Paced.{
  IsPaced, WroteOne, send_packet-WroteOne, send_symlink-WroteOne, send_piece-IsWhole,
  encrypt_body_if-header,
}
use ftu.Protocol.Send.{Conn, send_packet, send_symlink, send_piece}
use ftu.Node.State.{SenderNode, Env, positions}
use ftu.Node.Sender.{
  or_panic, or_panic-eq-ok, dropping, index, assign_ids, id_of, already_have_loop,
  set_relative_files, set_relative_symlinks, on_accept, on_already_have, react,
}
use ftu.Node.Transfer.{
  current_index, next_symlink, send_done, announce, end_file, after_piece, send_next_piece,
  transfer, sender_step,
}

-- A call whose error is dropped wrote what it wrote, or nothing.
dropping-IsPaced :
    (c c' : Conn) (o : Outcome Conn)
    → ((x : Conn) → o ≡ ok x → WroteOne c x)
    → dropping c o ≡ ok c'
    → IsPaced c c'
dropping-IsPaced c c' (ok x) wrote e =
    let same : x ≡ c' = cc in inr (subst (WroteOne c) same (wrote x refl))
dropping-IsPaced c c' (err reason) wrote e = let same : c ≡ c' = cc in inl (sym same)
dropping-IsPaced c c' panic wrote e = absurd cc
dropping-IsPaced c c' unfinished wrote e = absurd cc

-- The node at the end of a chain of calls.
reached : (n m n' : SenderNode) → IsPaced n.conn m.conn → ok m ≡ ok n' → IsPaced n.conn n'.conn
reached n m n' paced e = let same : m ≡ n' = cc in subst (λ x. IsPaced n.conn x.conn) same paced

kept : (n m n' : SenderNode) → m.conn ≡ n.conn → ok m ≡ ok n' → n'.conn ≡ n.conn
kept n m n' same e = let step : m ≡ n' = cc in ap (λ x. x.conn) (sym step) ∙ same

create_file_packet-header :
    (os : Os) (f : File) (d : Disk) (p : Packet) (f' : File) (d' : Disk)
    → create_file_packet os f d ≡ ok (p, f', d')
    → p.header ≡ header_of Headers.file
unfolding create_file_packet
create_file_packet-header os f d p f' d' e =
    let (r, opens, made) = >>=-eq-ok (open_handle os f d) _ e in cc

module _ (env : Env) where
  -- The `switch` on the header writes nothing.
  -- What ACCEPT makes of the node, by its files and links.
  abbrev queueing : SenderNode → List File → List Symlink → List ℕ → SenderNode
  queueing n fs ls links = record n {
    files = assign_ids 0 fs;
    symlinks = ls;
    sending = record n.sending {
      allowed_to_transfer = true;
      files_to_send = n.sending.files_to_send ++ positions 0 (length fs);
      symlinks_to_send = links;
      current_file_id = 0;
    };
  }

  on_accept-quiet : (n n' : SenderNode) → on_accept env n ≡ ok n' → n'.conn ≡ n.conn
  unfolding on_accept
  on_accept-quiet n n' e = elim (Bool-cases n.sending.is_directory) [
    | inl dir ↦
        let files = or_panic (set_relative_files env n.base n.files) in
        let links = or_panic (set_relative_symlinks env n.base n.symlinks) in
        let runs : on_accept env n
            ≡ (files >>= λ fs. links >>= λ ls. ok (queueing n fs ls (positions 0 (length ls)))) =
          rw dir refl in
        let (fs, found, e1) = >>=-eq-ok files _ (sym runs ∙ e) in
        let (ls, linked, e2) = >>=-eq-ok links _ e1 in
        kept n (queueing n fs ls (positions 0 (length ls))) n' refl e2
    | inr one ↦
        let runs : on_accept env n ≡ ok (queueing n n.files n.symlinks n.sending.symlinks_to_send) =
          rw one refl in
        kept n (queueing n n.files n.symlinks n.sending.symlinks_to_send) n' refl (sym runs ∙ e)
  ]

  on_already_have-quiet :
      (n n' : SenderNode) (body : Bytes) → on_already_have n body ≡ ok n' → n'.conn ≡ n.conn
  unfolding on_already_have
  on_already_have-quiet n n' body e =
      let (r, loops, made) = >>=-eq-ok (already_have_loop _ 0 (id_of body) n.files _) _ e in
      kept n _ n' refl made

  next_symlink-IsPaced : (n n' : SenderNode) → next_symlink env n ≡ ok n' → IsPaced n.conn n'.conn
  unfolding next_symlink
  next_symlink-IsPaced n n' e =
      let s = n.sending in
      let (pointer, at, e1) = >>=-eq-ok (index s.symlinks_to_send s.current_symlink_index) _ e in
      let (link, at', e2) = >>=-eq-ok (index n.symlinks pointer) _ e1 in
      let (c, sends, e3) =
        >>=-eq-ok (dropping n.conn (send_symlink env.cipher link n.conn n.encryption_key)) _ e2 in
      reached n _ n'
        (dropping-IsPaced n.conn c (send_symlink env.cipher link n.conn n.encryption_key)
          (λ x goes. send_symlink-WroteOne env.cipher link n.conn x n.encryption_key goes) sends)
        e3

  send_done-IsPaced : (n n' : SenderNode) → send_done env n ≡ ok n' → IsPaced n.conn n'.conn
  unfolding send_done
  send_done-IsPaced n n' e =
      let p : Packet = record { header = header_of Headers.done; body = [] } in
      let (c, sends, e1) = >>=-eq-ok (dropping n.conn (send_packet n.conn p)) _ e in
      reached n _ n'
        (dropping-IsPaced n.conn c (send_packet n.conn p)
          (λ x goes. send_packet-WroteOne n.conn x p (header_of-plain Headers.done) goes) sends)
        e1

  announce-IsPaced : (n n' : SenderNode) → announce env n ≡ ok n' → IsPaced n.conn n'.conn
  unfolding announce
  announce-IsPaced n n' e =
      let s = n.sending in
      let (i, finds, e1) =
        >>=-eq-ok (current_index s.current_file_id n.files s.files_to_send 0) _ e in
      let (pointer, at, e2) = >>=-eq-ok (index s.files_to_send i) _ e1 in
      let (f, at', e3) = >>=-eq-ok (index n.files pointer) _ e2 in
      let (r, creates, e4) = >>=-eq-ok (or_panic (create_file_packet env.os f n.disk)) _ e3 in
      let (sealed, seals, e5) =
        >>=-eq-ok (or_panic (encrypt_body_if env.cipher n.encryption_key r.0)) _ e4 in
      let (c, sends, e6) = >>=-eq-ok (or_panic (send_packet n.conn sealed)) _ e5 in
      let plain : contains_delimeter sealed.header ≡ false =
        ap contains_delimeter (
          encrypt_body_if-header env.cipher n.encryption_key r.0 sealed
            (or_panic-eq-ok _ sealed seals)
          ∙ create_file_packet-header env.os f n.disk r.0 r.1 r.2
              (or_panic-eq-ok (create_file_packet env.os f n.disk) r creates))
        ∙ header_of-plain Headers.file in
      reached n _ n' (inr (send_packet-WroteOne n.conn c sealed plain (or_panic-eq-ok _ c sends)))
        e6

  end_file-IsPaced :
      (n n' : SenderNode) (i : ℕ) (f : File) → end_file env n i f ≡ ok n' → IsPaced n.conn n'.conn
  unfolding end_file
  end_file-IsPaced n n' i f e =
      let p : Packet = record { header = header_of Headers.endfile; body = put_u64 f.id } in
      let (sealed, seals, e1) =
        >>=-eq-ok (or_panic (encrypt_body_if env.cipher n.encryption_key p)) _ e in
      let (c, sends, e2) = >>=-eq-ok (dropping n.conn (send_packet n.conn sealed)) _ e1 in
      let plain : contains_delimeter sealed.header ≡ false =
        ap contains_delimeter (
          encrypt_body_if-header env.cipher n.encryption_key p sealed
            (or_panic-eq-ok _ sealed seals))
        ∙ header_of-plain Headers.endfile in
      reached n _ n'
        (dropping-IsPaced n.conn c (send_packet n.conn sealed)
          (λ x goes. send_packet-WroteOne n.conn x sealed plain goes) sends)
        e2

  -- ENDFILE is written only if the piece was not.
  after_piece-IsPaced :
      (c : Conn) (m n' : SenderNode) (i : ℕ) (f : File) (failed : Option Error)
      → ((failed ≡ none) × WroteOne c m.conn) ⊎ ((e : Error) × (failed ≡ some e) × (m.conn ≡ c))
      → after_piece env m i f failed ≡ ok n'
      → IsPaced c n'.conn
  unfolding after_piece
  after_piece-IsPaced c m n' i f none (inl (fine, wrote)) e =
      let same : record m { sending = record m.sending { can_send_bytes = false } } ≡ n' = cc in
      inr (subst (λ x. WroteOne c x.conn) same wrote)
  after_piece-IsPaced c m n' i f none (inr (reason, failed, same)) e = absurd cc
  after_piece-IsPaced c m n' i f (some sent_all) (inl (fine, wrote)) e = absurd cc
  after_piece-IsPaced c m n' i f (some sent_all) (inr (reason, failed, same)) e =
      subst (λ x. IsPaced x n'.conn) same (end_file-IsPaced m n' i f e)
  after_piece-IsPaced c m n' i f (some eof) w e = absurd cc
  after_piece-IsPaced c m n' i f (some unexpected_eof) w e = absurd cc
  after_piece-IsPaced c m n' i f (some invalid_packet) w e = absurd cc
  after_piece-IsPaced c m n' i f (some packet_too_big) w e = absurd cc
  after_piece-IsPaced c m n' i f (some wrong_packet) w e = absurd cc
  after_piece-IsPaced c m n' i f (some not_connected) w e = absurd cc
  after_piece-IsPaced c m n' i f (some bad_key) w e = absurd cc
  after_piece-IsPaced c m n' i f (some could_not_decrypt) w e = absurd cc
  after_piece-IsPaced c m n' i f (some not_directory) w e = absurd cc
  after_piece-IsPaced c m n' i f (some not_file) w e = absurd cc
  after_piece-IsPaced c m n' i f (some not_symlink) w e = absurd cc
  after_piece-IsPaced c m n' i f (some os_error) w e = absurd cc

  send_next_piece-IsPaced :
      (n n' : SenderNode) → send_next_piece env n ≡ ok n' → IsPaced n.conn n'.conn
  unfolding send_next_piece
  send_next_piece-IsPaced n n' e =
      let s = n.sending in
      let (i, finds, e1) =
        >>=-eq-ok (current_index s.current_file_id n.files s.files_to_send 0) _ e in
      let (pointer, at, e2) = >>=-eq-ok (index s.files_to_send i) _ e1 in
      let (f, at', e3) = >>=-eq-ok (index n.files pointer) _ e2 in
      let (r, sends, e4) =
        >>=-eq-ok (send_piece env.cipher env.os f n.conn n.encryption_key n.disk) _ e3 in
      after_piece-IsPaced n.conn _ n' i r.0.file r.0.error
        (send_piece-IsWhole env.cipher env.os f n.conn n.encryption_key n.disk r.1 r.0 sends) e4

  react-quiet :
      (n n' : SenderNode) (k : Kind) (body : Bytes) → react env k body n ≡ ok n' → n'.conn ≡ n.conn
  unfolding react
  react-quiet n n' accept body e = on_accept-quiet n n' e
  react-quiet n n' already_have body e = on_already_have-quiet n n' body e
  react-quiet n n' ready body e = kept n _ n' refl e
  react-quiet n n' reject body e = kept n _ n' refl e
  react-quiet n n' disconnecting body e = kept n _ n' refl e
  react-quiet n n' encryption_key body e = kept n _ n' refl e
  react-quiet n n' done body e = kept n _ n' refl e
  react-quiet n n' transfer_offer body e = kept n _ n' refl e
  react-quiet n n' file body e = kept n _ n' refl e
  react-quiet n n' file_bytes body e = kept n _ n' refl e
  react-quiet n n' endfile body e = kept n _ n' refl e
  react-quiet n n' directory body e = kept n _ n' refl e
  react-quiet n n' symlink body e = kept n _ n' refl e
  react-quiet n n' unknown body e = kept n _ n' refl e

  -- One test of the transfer section, by the value of the test.
  either_way :
      (n n' : SenderNode) (test : Bool) (one other : Outcome SenderNode)
      → (one ≡ ok n' → IsPaced n.conn n'.conn)
      → (other ≡ ok n' → IsPaced n.conn n'.conn)
      → (if test then one else other) ≡ ok n'
      → IsPaced n.conn n'.conn
  either_way n n' true one other left right e = left e
  either_way n n' false one other left right e = right e

  transfer-IsPaced : (n n' : SenderNode) → transfer env n ≡ ok n' → IsPaced n.conn n'.conn
  unfolding transfer
  transfer-IsPaced n n' e =
      either_way n n' _ _ _ (next_symlink-IsPaced n n')
        (either_way n n' _ _ _ (send_done-IsPaced n n') (
          either_way n n' _ _ _ (announce-IsPaced n n') (
            either_way n n' _ _ _ (send_next_piece-IsPaced n n')
              (λ stays. inl (kept n n n' refl stays)))))
        e

  -- Every round of a sending node that does not panic writes at most one packet, whatever packet it
  -- is on, and the header of that packet can be found again.
  pub sender_step-IsPaced :
      (n n' : SenderNode) (p : Packet) → sender_step env n p ≡ ok n' → IsPaced n.conn n'.conn
  unfolding sender_step
  sender_step-IsPaced n n' p e =
      let (clear, opens, e1) =
        >>=-eq-ok (or_panic (decrypt_body_if env.cipher n.encryption_key p)) _ e in
      let (m, reacts, e2) = >>=-eq-ok (react env (kind_of clear.header) clear.body n) _ e1 in
      subst (λ c. IsPaced c n'.conn) (react-quiet n m (kind_of clear.header) clear.body reacts)
        (transfer-IsPaced m n' e2)
