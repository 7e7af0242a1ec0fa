-- ===== src/Node/Start.antt =====
-- src/node/node.go, `NewNode`, `connect`, `waitForConnection`, and what `send` and `receive` do
-- before their mainloops.
pub mod Keys
pub mod Sides
pub mod Serving
pub mod Offers
use ftu.Common.{
  ℕ, Bool, true, false, Option, none, some, List, [], ◌∷◌, ◌==◌, Bytes, if◌then◌else◌, Outcome, ok,
  err, panic, unfinished, ◌>>=◌, os_error,
}
use ftu.Cli.{Flags, NodeOptions, node_options}
use ftu.Encryption.{Cipher, generate_32_aes_key}
use ftu.Fsys.Disk.{Disk, Os, File}
use ftu.Fsys.Scan.{Looks, FileInfo, get_file, get_dir}
use ftu.Fsys.Tree.{Symlink, Directory, info, get_all_files, get_all_symlinks}
use ftu.Protocol.Headers
use ftu.Protocol.Headers.{header_of}
use ftu.Protocol.Packet.{Packet}
use ftu.Protocol.Send.{Conn, send_packet, send_encryption_key, send_transfer_offer}
use ftu.Node.State.{SenderNode, Env}
use ftu.Node.Sender.{or_panic}
use ftu.Node.Receiver.{Surroundings, ReceiverNode}
use ftu.Node.Receiving.{receiver_step}

-- `Node` with its `netInfo` and `transferInfo`, as `NewNode` leaves it. What is zero there is not
-- here.
pub record NewNode : Type 0 where
  pub verbose_output : Bool
  pub is_sending : Bool
  pub port : ℕ
  pub conn_addr : Bytes
  pub serving_path : Bytes
  pub recursive : Bool
  pub is_directory : Bool
  pub downloads_path : Bytes

abbrev pub node_of : NodeOptions → Bool → Bytes → NewNode
node_of options is_dir downloads = record {
  verbose_output = options.verbose_output;
  is_sending = options.is_sending;
  port = options.working_port;
  conn_addr = options.receiver_side.connection_addr;
  serving_path = options.sender_side.serving_path;
  recursive = options.sender_side.recursive;
  is_directory = is_dir;
  downloads_path = downloads;
}

module _ (looks : Looks) (mkdir_all : Bytes → Disk → Outcome Disk) where
  -- The node of a sender: `isDir` tells what stands at the path.
  unfoldable pub new_sender : NodeOptions → Disk → Outcome (NewNode × Disk)
  new_sender options d = elim (looks.stat d options.sender_side.serving_path) [
    | none ↦ err os_error
    | some stats ↦ ok (node_of options stats.is_dir options.receiver_side.downloads_folder_path, d)
  ]

  -- The node of a receiver: the downloads folder is made.
  unfoldable pub new_receiver : NodeOptions → Disk → Outcome (NewNode × Disk)
  new_receiver options d = elim (looks.abs options.receiver_side.downloads_folder_path) [
    | none ↦ err os_error
    | some path ↦ mkdir_all path d >>= λ d'. ok (node_of options false path, d')
  ]

  -- `NewNode`
  unfoldable pub new_node : NodeOptions → Disk → Outcome (NewNode × Disk)
  unfolding new_sender new_receiver
  new_node options d = if options.is_sending then new_sender options d else new_receiver options d

-- The network: whether the calls of `net` succeed.
pub record Net : Type 0 where
  pub finds_local : Bool
  pub listens : ℕ → Bool
  pub accepts : ℕ → Bool
  pub dials : Bytes → ℕ → Bool

abbrev pub new_conn : Conn
new_conn = record { outgoing = []; alive = true }

-- src/addr/local.go, `GetLocal`: the address is only printed.
unfoldable pub get_local : Net → Outcome (Unit {0})
get_local net = if net.finds_local then ok tt else err os_error

-- `waitForConnection`
unfoldable pub wait_for_connection : Net → ℕ → Outcome Conn
wait_for_connection net port =
    if net.listens port
    then (if net.accepts port then ok new_conn else err os_error)
    else err os_error

-- `connect`: port 0 stands for 7270.
unfoldable pub connect : Net → Bytes → ℕ → Outcome Conn
connect net address port =
    if net.dials address (if port == 0 then 7270 else port) then ok new_conn else err os_error

-- `FILETOSEND` and `DIRTOSEND`.
pub record Served : Type 0 where
  pub file : Option File
  pub directory : Option Directory
  pub disk : Disk

abbrev pub served_dir : Outcome Directory × Disk → Outcome Served
served_dir (o, d) =
    or_panic o >>= λ directory. ok (record { file = none; directory = some directory; disk = d })

abbrev pub served_file : Outcome File × Disk → Outcome Served
served_file (o, d) = or_panic o >>= λ f. ok (record { file = some f; directory = none; disk = d })

-- What `send` finds at the serving path.
unfoldable pub look_at : Looks → ℕ → NewNode → Disk → Outcome Served
look_at looks depth node d =
    if node.is_directory
    then served_dir (get_dir looks depth node.serving_path node.recursive d)
    else served_file (get_file looks node.serving_path d)

-- The files and links that ACCEPT will queue, in their order, the size of the transfer, and the
-- path that paths are made relative to.
abbrev pub files_of : Bool → Option File → Option Directory → List File
files_of recursive file (some directory) = get_all_files directory recursive
files_of recursive (some f) none = f ∷ []
files_of recursive none none = []

abbrev pub symlinks_of : Bool → Option Directory → List Symlink
symlinks_of recursive (some directory) = get_all_symlinks directory recursive
symlinks_of recursive none = []

abbrev pub total_of : Option File → Option Directory → Outcome ℕ
total_of file (some directory) = ok (info directory).size
total_of (some f) none = ok f.size
total_of none none = panic

abbrev pub base_of : Option Directory → Bytes
base_of (some directory) = (info directory).path
base_of none = []

-- A sending node before its mainloop.
abbrev pub serving : NewNode → Served → ℕ → Conn → Bytes → SenderNode
serving node s total conn key = record {
  stopped = false;
  conn = conn;
  encryption_key = some key;
  sending = record {
    is_directory = node.is_directory;
    can_send_bytes = false;
    allowed_to_transfer = false;
    in_transfer = false;
    files_to_send = [];
    symlinks_to_send = [];
    current_file_id = 0;
    sent_bytes = 0;
    total_transfer_size = total;
    current_symlink_index = 0;
  };
  files = files_of node.recursive s.file s.directory;
  symlinks = symlinks_of node.recursive s.directory;
  base = base_of s.directory;
  disk = s.disk;
}

-- `send` up to its goroutines. `draw` are the random numbers for the key.
unfoldable pub start_sending :
    Looks → Net → (ℕ → ℕ) → ℕ → NewNode → Disk → Outcome (SenderNode × Served)
unfolding get_local look_at wait_for_connection
start_sending looks net draw depth node d = do
  local ← or_panic (get_local net)
  s ← look_at looks depth node d
  total ← total_of s.file s.directory
  conn ← or_panic (wait_for_connection net node.port)
  key ← generate_32_aes_key draw
  conn ← or_panic (send_encryption_key conn key)
  ok (serving node s total conn key, s)

-- The goroutine that sends the offer. Its error is dropped. The handle that the offered file keeps
-- where closing it fails is not followed here.
unfoldable pub offer_step : Env → Served → SenderNode → Outcome SenderNode
offer_step env s n =
    elim (send_transfer_offer env.cipher env.os n.conn s.file s.directory n.encryption_key n.disk) [
      | ok (conn, d) ↦ ok (record n { conn = conn; disk = d })
      | err e ↦ ok n
      | panic ↦ panic
      | unfinished ↦ unfinished
    ]

-- `receive` up to its mainloop. An error is `os.Exit`.
unfoldable pub start_receiving : Net → NewNode → Disk → Outcome ReceiverNode
unfolding connect
start_receiving net node d = do
  conn ← connect net node.conn_addr node.port
  ok (record {
    stopped = false;
    conn = conn;
    encryption_key = none;
    accepted_files = [];
    downloads_path = node.downloads_path;
    total_download_size = 0;
    received_bytes = 0;
    offers = [];
    disk = d;
  })

-- What is running behind `Start`: a sending node and what it serves, or a receiving node.
pub data Started : Type 0 where
  sending : SenderNode → Served → Started
  receiving : ReceiverNode → Started

-- `Start` up to the mainloop.
unfoldable pub start : Looks → Net → (ℕ → ℕ) → ℕ → NewNode → Disk → Outcome Started
unfolding start_sending start_receiving
start looks net draw depth node d =
    if node.is_sending
    then (start_sending looks net draw depth node d >>= λ (n, s). ok (sending n s))
    else (start_receiving net node d >>= λ n. ok (receiving n))

-- `main` up to the mainloop. An error of `NewNode` is `os.Exit`.
unfoldable pub main :
    Looks
    → (Bytes → Disk → Outcome Disk)
    → Net
    → (ℕ → ℕ)
    → ℕ
    → Flags
    → Bool
    → Disk
    → Outcome Started
unfolding new_node start
main looks mkdir_all net draw depth f is_sending d =
    new_node looks mkdir_all (node_options f is_sending) d >>= λ (node, d').
    start looks net draw depth node d'
