-- ===== src/Node/Receiver.antt =====
-- src/node/node.go, `receive`: what an incoming packet does to a receiving node.
pub mod Entering
use ftu.Common.{
  ℕ, ◌+◌, ◌%◌, ◌^◌, Bool, true, ◌||◌, Option, none, some, List, [], ◌∷◌, ◌++◌, Bytes, bytes_eq,
  codes, if◌then◌else◌, drop, Outcome, ok, err, panic, unfinished, ◌>>=◌, ◌>>◌,
}
use ftu.Common.BigEndian.{put_u64, read_u64}
use ftu.Checksum.{check_sum_of}
use ftu.Encryption.{Cipher}
use ftu.Fsys.Disk.{Disk, Os, File}
use ftu.Fsys.Tree.{Directory, info}
use ftu.Protocol.Headers
use ftu.Protocol.Headers.{Kind, kind_of, header_of}
use ftu.Protocol.Packet.{Packet, encrypt_body_if}
use ftu.Protocol.Decode.{filled, make_bytes, decode_file_packet, decode_transfer_packet}
use ftu.Protocol.Send.{Conn, send_packet}
use ftu.Node.Sender.{or_panic, dropping}

-- What surrounds a receiving node: the cipher, the operating system with what the node asks of it,
-- `path/filepath`, `strings.TrimSpace`, sha256 in hexadecimal, and the largest slice of the
-- runtime.
pub record Surroundings : Type 0 where
  pub cipher : Cipher
  pub os : Os
  pub join : Bytes → Bytes → Bytes
  pub parent : Bytes → Bytes
  pub trim_space : Bytes → Bytes
  pub mkdir_all : Bytes → Disk → Outcome Disk
  pub stat : Disk → Bytes → Bool
  pub open_existing : Disk → Bytes → Option Bytes
  pub remove : Bytes → Disk → Disk
  pub make_link : Bytes → Bytes → Disk → Disk
  pub can_write : Disk → Bytes → Bool
  pub sha : Bytes → Bytes
  pub max_alloc : ℕ

-- `receiving`, with the parts of `Node` and `netInfo` that `receive` works on. `offers` holds the
-- packets whose goroutine waits for the user's answer.
pub record ReceiverNode : Type 0 where
  pub stopped : Bool
  pub conn : Conn
  pub encryption_key : Option Bytes
  pub accepted_files : List File
  pub downloads_path : Bytes
  pub total_download_size : ℕ
  pub received_bytes : ℕ
  pub offers : List Packet
  pub disk : Disk

abbrev pub ready_packet : Packet
ready_packet = record { header = header_of Headers.ready; body = [] }

-- A READY packet that must be sent.
abbrev pub send_ready : ReceiverNode → Outcome ReceiverNode
send_ready n = or_panic (send_packet n.conn ready_packet) >>= λ conn. ok (record n { conn = conn })

-- One whose error is dropped.
abbrev pub try_ready : ReceiverNode → Outcome ReceiverNode
try_ready n =
    dropping n.conn (send_packet n.conn ready_packet) >>= λ conn. ok (record n { conn = conn })

-- `binary.Read` of a uint64 whose error is dropped: the variable stays 0, and the input is used up.
abbrev pub u64_or_zero : Bytes → ℕ × Bytes
u64_or_zero src = elim (read_u64 src) [ ok r ↦ r | _ ↦ (0, []) ]

-- A length and a string of that length out of a `bytes.Reader`, whose errors are dropped.
unfoldable pub loose_sized : ℕ → Bytes → Outcome (Bytes × Bytes)
loose_sized max_alloc src =
    let (n, rest) = u64_or_zero src in make_bytes max_alloc n >> ok (filled n rest, drop n rest)

-- `strings.EqualFold(answer, "y") || answer == ""`
unfoldable pub is_yes : Bytes → Bool
is_yes answer = bytes_eq answer (codes "y") || bytes_eq answer (codes "Y") || bytes_eq answer []

module _ (env : Surroundings) where
  -- A directory is made below the downloads, which go there if that works.
  unfoldable pub enter_directory : Option Directory → ReceiverNode → Outcome ReceiverNode
  enter_directory none n = ok n
  enter_directory (some directory) n =
      let path = env.join n.downloads_path (info directory).name in
      elim (env.mkdir_all path n.disk) [
        | ok disk ↦ ok (record n { disk = disk; downloads_path = path })
        | err e ↦ ok n
        | panic ↦ panic
        | unfinished ↦ unfinished
      ]

  abbrev pub offered_size : Option File → Option Directory → ℕ → ℕ
  offered_size (some f) directory old = f.size
  offered_size none (some directory) old = (info directory).size
  offered_size none none old = old

  -- The goroutine of `case protocol.HeaderTransferOffer`, with the line that the user types.
  unfoldable pub answer_offer : Bytes → Packet → ReceiverNode → Outcome ReceiverNode
  unfolding is_yes enter_directory
  answer_offer answer p n = do
    (f, directory) ← or_panic (decode_transfer_packet env.max_alloc p)
    let sized = record n { total_download_size = offered_size f directory n.total_download_size }
    let accepts = do
      entered ← enter_directory directory sized
      conn ←
          or_panic
            (send_packet entered.conn (record { header = header_of Headers.accept; body = [] }))
      ok (record entered { conn = conn })
    let rejects = do
      conn ←
          or_panic
            (send_packet sized.conn (record { header = header_of Headers.reject; body = [] }))
      ok (record sized { conn = conn; stopped = true })
    if is_yes answer then accepts else rejects

  -- Where a file goes.
  unfoldable pub destination : Bytes → File → Bytes
  destination downloads f =
      if bytes_eq (env.trim_space f.relative_parent_path) []
      then env.join downloads f.name
      else env.join downloads f.relative_parent_path

  -- The file joins the pool of accepted files.
  unfoldable pub accept_file : File → ReceiverNode → Outcome ReceiverNode
  accept_file f n = send_ready (record n { accepted_files = n.accepted_files ++ (f ∷ []) })

  -- The very same file is there: ALREADYHAVE.
  unfoldable pub have_file : File → ReceiverNode → Outcome ReceiverNode
  have_file f n = do
    p ← or_panic (
        encrypt_body_if env.cipher n.encryption_key
          (record { header = header_of Headers.already_have; body = put_u64 f.id }))
    conn ← dropping n.conn (send_packet n.conn p)
    ok (record n { conn = conn; received_bytes = (n.received_bytes + f.size) % 2 ^ 64 })

  -- Something stands where the file goes.
  unfoldable pub compare_file : File → ReceiverNode → Outcome ReceiverNode
  unfolding have_file accept_file
  compare_file f n = elim (env.open_existing n.disk f.path) [
    | none ↦ panic
    | some h ↦ or_panic (check_sum_of env.sha (n.disk h)) >>= λ sum.
        if bytes_eq sum f.checksum
        then have_file f n
        else accept_file f (record n { disk = env.remove f.path n.disk })
  ]

  -- `case protocol.HeaderFile`
  unfoldable pub on_file : Packet → ReceiverNode → Outcome ReceiverNode
  unfolding destination compare_file
  on_file p n = do
    f ← or_panic (decode_file_packet env.max_alloc p)
    let placed : File = record f { path = destination n.downloads_path f }
    disk ← or_panic (env.mkdir_all (env.parent placed.path) n.disk)
    let made : ReceiverNode = record n { disk = disk }
    if env.stat disk placed.path then compare_file placed made else accept_file placed made
