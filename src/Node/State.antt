-- ===== src/Node/State.antt =====
-- src/node/node.go, the state of a sending node.
use ftu.Common.{ℕ, zero, suc, ◌+◌, Bool, Option, List, [], ◌∷◌, Bytes}
use ftu.Encryption.{Cipher}
use ftu.Fsys.Disk.{Disk, Os, File}
use ftu.Fsys.Tree.{Symlink}
use ftu.Protocol.Send.{Conn}

-- `sending`. Files and symbolic links are pointers in the source: here they are positions in the
-- node's lists of objects.
pub record Sending : Type 0 where
  pub is_directory : Bool
  pub can_send_bytes : Bool
  pub allowed_to_transfer : Bool
  pub in_transfer : Bool
  pub files_to_send : List ℕ
  pub symlinks_to_send : List ℕ
  pub current_file_id : ℕ
  pub sent_bytes : ℕ
  pub total_transfer_size : ℕ
  pub current_symlink_index : ℕ

-- What the mainloop of `send` works on: of `Node` and `netInfo` the flag, the connection and the
-- key; and the files and links of `FILETOSEND` or `DIRTOSEND`, in the order of `GetAllFiles` and
-- `GetAllSymlinks`, with the path of `DIRTOSEND`.
pub record SenderNode : Type 0 where
  pub stopped : Bool
  pub conn : Conn
  pub encryption_key : Option Bytes
  pub sending : Sending
  pub files : List File
  pub symlinks : List Symlink
  pub base : Bytes
  pub disk : Disk

-- What surrounds a node: the cipher, the operating system, and `filepath.Rel`.
pub record Env : Type 0 where
  pub cipher : Cipher
  pub os : Os
  pub rel : Bytes → Bytes → Option Bytes

-- The positions of a list of `n` objects, from `i` on.
abbrev pub positions : ℕ → ℕ → List ℕ
positions i zero = []
positions i (suc n) = i ∷ positions (i + 1) n
