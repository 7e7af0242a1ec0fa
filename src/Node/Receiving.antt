-- ===== src/Node/Receiving.antt =====
-- src/node/node.go, `receive`: the bytes of files, their ends, keys, links, and the mainloop.
pub mod Writing
pub mod Whole
pub mod Linking
pub mod Written
pub mod Answering
pub mod Arrival
use ftu.Common.{
  ℕ, ◌+◌, ◌%◌, ◌^◌, Option, none, some, List, [], ◌∷◌, ◌++◌, true, Bytes, ◌==◌, ltb, if◌then◌else◌,
  length, Outcome, ok, err, panic, unfinished, ◌>>=◌,
}
use ftu.Common.BigEndian.{read_u64}
use ftu.Checksum.{check_sum_of}
use ftu.Fsys.Disk.{Disk, regular, File, open_handle, close, content_at, write_at, update}
use ftu.Protocol.Headers.{
  Kind, kind_of, done, disconnecting, transfer_offer, file, file_bytes, endfile, encryption_key,
  symlink, header_of,
}
use ftu.Protocol.Packet.{Packet, decrypt_body_if}
use ftu.Protocol.Send.{send_packet}
use ftu.Node.Sender.{or_panic}
use ftu.Node.Receiver.{
  Surroundings, ReceiverNode, send_ready, try_ready, loose_sized, answer_offer, on_file,
}

module _ (env : Surroundings) where
  -- The file is opened unless it is open.
  unfoldable pub with_handle : File → Disk → Outcome (File × Disk)
  with_handle f d = elim f.handler [ none ↦ or_panic (open_handle env.os f d) | some h ↦ ok (f, d) ]

  -- `Handler.WriteAt`, which refuses an offset that is negative as an int64 and leaves the file
  -- alone if there is nothing to write.
  unfoldable pub write_handle : Option Bytes → ℕ → Bytes → Disk → Outcome Disk
  write_handle none offset bytes d = panic
  write_handle (some h) offset [] d = if ltb offset (2 ^ 63) then ok d else panic
  write_handle (some h) offset (b ∷ bs) d =
      if ltb offset (2 ^ 63)
      then (if env.can_write d h
          then ok (update d h (some (regular (write_at (content_at (some h) d) offset (b ∷ bs)))))
          else panic)
      else panic

  -- The body of the loop of `case protocol.HeaderFileBytes` on an accepted file with the ID.
  unfoldable pub write_piece : Bytes → File → Disk → Outcome (File × Disk)
  write_piece bytes f d = do
    (opened, d) ← with_handle f d
    d ← write_handle opened.handler opened.sent_bytes bytes d
    ok (record opened { sent_bytes = (opened.sent_bytes + length bytes) % 2 ^ 64 }, d)

  -- The loop over the accepted files, with the count of received bytes.
  unfoldable pub write_pieces : ℕ → Bytes → List File → Disk → ℕ → Outcome (List File × Disk × ℕ)
  write_pieces id bytes [] d received = ok ([], d, received)
  write_pieces id bytes (f ∷ fs) d received =
      let other = write_pieces id bytes fs d received >>= λ r. ok (f ∷ r.0, r.1, r.2) in
      let same = (do
        (f', d') ← write_piece bytes f d
        r ← write_pieces id bytes fs d' ((received + length bytes) % 2 ^ 64)
        ok (f' ∷ r.0, r.1, r.2)) in
      if f.id == id then same else other

  -- `case protocol.HeaderFileBytes`
  unfoldable pub on_file_bytes : Bytes → ReceiverNode → Outcome ReceiverNode
  on_file_bytes body n = do
    (id, bytes) ← or_panic (read_u64 body)
    r ← write_pieces id bytes n.accepted_files n.disk n.received_bytes
    try_ready (record n { accepted_files = r.0; disk = r.1; received_bytes = r.2 })

  -- What `case protocol.HeaderEndfile` does with the file: it is opened unless it is open, and its
  -- checksum, which changes nothing but what is printed, must be readable.
  unfoldable pub end_accepted : File → Disk → Outcome Disk
  unfolding with_handle
  end_accepted f d = do
    (opened, d) ← with_handle f d
    or_panic (elim opened.handler [ none ↦ panic | some h ↦ check_sum_of env.sha (d h) ]) >>= λ sum.
        ok d

  -- The loop of `case protocol.HeaderEndfile`, which the first file with the ID ends.
  unfoldable pub end_loop : ℕ → List File → Disk → Outcome (List File × Disk)
  end_loop id [] d = ok ([], d)
  end_loop id (f ∷ fs) d =
      let later = end_loop id fs d >>= λ r. ok (f ∷ r.0, r.1) in
      if f.id == id then (end_accepted f d >>= λ d'. ok (fs, d')) else later

  -- `case protocol.HeaderEndfile`
  unfoldable pub on_endfile : Bytes → ReceiverNode → Outcome ReceiverNode
  on_endfile body n = do
    (id, rest) ← or_panic (read_u64 body)
    (fs, d) ← end_loop id n.accepted_files n.disk
    send_ready (record n { accepted_files = fs; disk = d })

  -- `case protocol.HeaderEncryptionKey`
  unfoldable pub on_encryption_key : Bytes → ReceiverNode → Outcome ReceiverNode
  on_encryption_key body n = do
    (key, rest) ← loose_sized env.max_alloc body
    ok (record n { encryption_key = some key })

  -- The disk after a `MkdirAll` whose error is dropped.
  abbrev pub made_dir : Bytes → Disk → Outcome Disk
  made_dir path d = elim (env.mkdir_all path d) [
    | ok d' ↦ ok d'
    | err e ↦ ok d
    | panic ↦ panic
    | unfinished ↦ unfinished
  ]

  -- `case protocol.HeaderSymlink`
  unfoldable pub on_symlink : Bytes → ReceiverNode → Outcome ReceiverNode
  on_symlink body n = do
    (location, rest) ← loose_sized env.max_alloc body
    (target, rest) ← loose_sized env.max_alloc rest
    d ← made_dir (env.join n.downloads_path (env.parent location)) n.disk
    let at = env.join n.downloads_path location
    let leads = env.join n.downloads_path target
    try_ready (record n { disk = env.make_link leads at d })

  -- The `switch` on the header.
  unfoldable pub receive_packet : Packet → ReceiverNode → Kind → Outcome ReceiverNode
  receive_packet p n transfer_offer = ok (record n { offers = n.offers ++ (p ∷ []) })
  receive_packet p n file = on_file env p n
  receive_packet p n file_bytes = on_file_bytes p.body n
  receive_packet p n endfile = on_endfile p.body n
  receive_packet p n encryption_key = on_encryption_key p.body n
  receive_packet p n symlink = on_symlink p.body n
  receive_packet p n done = ok (record n { stopped = true })
  receive_packet p n disconnecting = ok (record n { stopped = true })
  receive_packet p n _ = ok n

  -- One round of the mainloop on an incoming packet.
  unfoldable pub receiver_step : ReceiverNode → Packet → Outcome ReceiverNode
  receiver_step n p = do
    clear ← or_panic (decrypt_body_if env.cipher n.encryption_key p)
    receive_packet clear n (kind_of clear.header)

  -- The user's answer to the first offer that waits for one, which may come between any two rounds.
  unfoldable pub answer_step : Bytes → ReceiverNode → List Packet → Outcome ReceiverNode
  answer_step answer n [] = ok n
  answer_step answer n (p ∷ ps) = answer_offer env answer p (record n { offers = ps })

  -- The rounds on packets that arrive one after the other, while the node runs.
  unfoldable pub receiver_steps : ReceiverNode → List Packet → Outcome ReceiverNode
  receiver_steps n [] = ok n
  receiver_steps n (p ∷ ps) =
      let more = receiver_step n p >>= λ n'. receiver_steps n' ps in
      if n.stopped then ok n else more
