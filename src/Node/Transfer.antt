-- ===== src/Node/Transfer.antt =====
-- src/node/node.go, the "Transfer section" of `send` and its mainloop.
pub mod Serving
pub mod Heads
pub mod Moves
pub mod Ends
pub mod Rounds
pub mod Files
pub mod Links
pub mod Leaving
pub mod Run
pub mod Accepting
pub mod Pace
use ftu.Common.{
  ℕ, ◌+◌, ◌%◌, ◌^◌, true, false, not, ◌&&◌, Option, none, some, List, [], ◌∷◌, ◌++◌, ◌==◌, ltb,
  if◌then◌else◌, length, take, drop, set, Outcome, ok, err, panic, unfinished, ◌>>=◌, Error,
  sent_all,
}
use ftu.Common.BigEndian.{put_u64}
use ftu.Fsys.Disk.{File}
use ftu.Protocol.Headers
use ftu.Protocol.Headers.{kind_of, header_of}
use ftu.Protocol.Packet.{Packet, encrypt_body_if, decrypt_body_if}
use ftu.Protocol.Construct.{create_file_packet}
use ftu.Protocol.Send.{Conn, send_packet, send_symlink, send_piece}
use ftu.Node.State.{SenderNode, Env}
use ftu.Node.Sender.{or_panic, dropping, index, react}

-- The index of the file with the current ID, or 0 if there is none.
unfoldable pub current_index : ℕ → List File → List ℕ → ℕ → Outcome ℕ
current_index current files [] i = ok 0
current_index current files (pointer ∷ pointers) i = do
  f ← index files pointer
  let later = current_index current files pointers (i + 1)
  if f.id == current then ok i else later

-- The whole slice without its element at an index.
abbrev pub without : List ℕ → ℕ → List ℕ
without xs i = take i xs ++ drop (i + 1) xs

module _ (env : Env) where
  -- All files are sent: the next symbolic link.
  unfoldable pub next_symlink : SenderNode → Outcome SenderNode
  next_symlink n =
      let s = n.sending in
      do
        pointer ← index s.symlinks_to_send s.current_symlink_index
        link ← index n.symlinks pointer
        conn ← dropping n.conn (send_symlink env.cipher link n.conn n.encryption_key)
        ok (record n {
          conn = conn;
          sending = record s { current_symlink_index = (s.current_symlink_index + 1) % 2 ^ 64 };
        })

  -- There is nothing else to send.
  unfoldable pub send_done : SenderNode → Outcome SenderNode
  send_done n = do
    conn ←
        dropping n.conn (send_packet n.conn (record { header = header_of Headers.done; body = [] }))
    ok (record n { conn = conn; stopped = true })

  -- Notify the receiver about the next file.
  unfoldable pub announce : SenderNode → Outcome SenderNode
  announce n =
      let s = n.sending in
      do
        i ← current_index s.current_file_id n.files s.files_to_send 0
        pointer ← index s.files_to_send i
        f ← index n.files pointer
        (p, f', disk) ← or_panic (create_file_packet env.os f n.disk)
        sealed ← or_panic (encrypt_body_if env.cipher n.encryption_key p)
        conn ← or_panic (send_packet n.conn sealed)
        ok (record n {
          conn = conn;
          disk = disk;
          files = set n.files pointer f';
          sending = record s { in_transfer = true };
        })

  -- A file is sent: ENDFILE, and the file leaves the queue.
  unfoldable pub end_file : SenderNode → ℕ → File → Outcome SenderNode
  end_file n i f =
      let s = n.sending in
      do
        p ← or_panic (
            encrypt_body_if env.cipher n.encryption_key
              (record { header = header_of Headers.endfile; body = put_u64 f.id }))
        conn ← dropping n.conn (send_packet n.conn p)
        ok (record n {
          conn = conn;
          sending = record s {
            files_to_send = without s.files_to_send i;
            current_file_id = (s.current_file_id + 1) % 2 ^ 64;
            in_transfer = false;
          };
        })

  -- What follows a call of `SendPiece`, by its error.
  unfoldable pub after_piece : SenderNode → ℕ → File → Option Error → Outcome SenderNode
  after_piece n i f none = ok (record n { sending = record n.sending { can_send_bytes = false } })
  after_piece n i f (some sent_all) = end_file n i f
  after_piece n i f (some _) = panic

  -- Send one piece of the current file.
  unfoldable pub send_next_piece : SenderNode → Outcome SenderNode
  send_next_piece n =
      let s = n.sending in
      do
        i ← current_index s.current_file_id n.files s.files_to_send 0
        pointer ← index s.files_to_send i
        f ← index n.files pointer
        (piece, disk) ← send_piece env.cipher env.os f n.conn n.encryption_key n.disk
        after_piece
            (record n {
              conn = piece.conn;
              disk = disk;
              files = set n.files pointer piece.file;
              sending = record s { sent_bytes = (s.sent_bytes + piece.sent) % 2 ^ 64 };
            })
            i piece.file piece.error

  -- The "Transfer section".
  unfoldable pub transfer : SenderNode → Outcome SenderNode
  transfer n =
      let s = n.sending in
      let links = length s.symlinks_to_send in
      if length s.files_to_send == 0 && ltb s.current_symlink_index links
      then next_symlink n
      else if length s.files_to_send == 0 && s.current_symlink_index == links
      then send_done n
      else if s.allowed_to_transfer && not s.in_transfer
      then announce n
      else if s.allowed_to_transfer && (s.can_send_bytes && s.in_transfer)
      then send_next_piece n
      else ok n

  -- One round of the mainloop on an incoming packet.
  unfoldable pub sender_step : SenderNode → Packet → Outcome SenderNode
  sender_step n p = do
    clear ← or_panic (decrypt_body_if env.cipher n.encryption_key p)
    reacted ← react env (kind_of clear.header) clear.body n
    transfer reacted

-- What `disconnect` makes of the outcome of its `SendPacket`: on an error it returns at once.
-- Closing the connection succeeds.
abbrev pub closing : SenderNode → Outcome Conn → Outcome SenderNode
closing n (ok conn) = ok (record n { conn = record conn { alive = false }; stopped = true })
closing n (err e) = ok n
closing n panic = panic
closing n unfinished = unfinished

-- `disconnect`: the connection of a node in its mainloop is there.
unfoldable pub disconnect : SenderNode → Outcome SenderNode
disconnect n =
    closing n (send_packet n.conn (record { header = header_of Headers.disconnecting; body = [] }))

-- How the mainloop ends: `break` after a disconnection, or `os.Exit` when the channel of incoming
-- packets is closed.
pub data Ending : Type 0 where
  left : SenderNode → Ending
  exited : SenderNode → Ending

-- The mainloop, over the packets that arrive before the channel is closed.
unfoldable pub sender_loop : Env → SenderNode → List Packet → Outcome Ending
sender_loop env n [] = if n.stopped then (disconnect n >>= λ n'. ok (left n')) else ok (exited n)
sender_loop env n (p ∷ ps) =
    let more = sender_step env n p >>= λ n'. sender_loop env n' ps in
    if n.stopped then (disconnect n >>= λ n'. ok (left n')) else more
