-- ===== src/Cli.antt =====
-- src/main.go and src/node/options.go: the flags, their validation, and the options made of them.
pub mod Validation
use ftu.Common.{ℕ, Bool, true, false, not, ◌&&◌, [], Bytes, bytes_eq, if◌then◌else◌}

-- The flags, as `flag.Parse` leaves them.
pub record Flags : Type 0 where
  pub port : ℕ
  pub recursive : Bool
  pub address : Bytes
  pub downloads_dir : Bytes
  pub send : Bytes
  pub verbose : Bool
  pub print_version : Bool
  pub print_license : Bool

-- Where the flags lead: to `os.Exit` with 0 or -1, or on, sending or not.
pub data Verdict : Type 0 where
  exit_ok exit_error : Verdict
  goes_on : Bool → Verdict

abbrev is_empty : Bytes → Bool
is_empty s = bytes_eq s []

-- The part of `init` behind `flag.Parse`.
unfoldable pub validate : Flags → Verdict
validate f =
    if f.print_version
    then exit_ok
    else if f.print_license
    then exit_ok
    else if is_empty f.send && is_empty f.address
    then exit_error
    else if not (is_empty f.send) && not (is_empty f.address)
    then exit_error
    else if not (is_empty f.send)
    then goes_on true
    else goes_on false

-- `SenderNodeOptions`, `ReceiverNodeOptions` and `NodeOptions`.
pub record SenderNodeOptions : Type 0 where
  pub serving_path : Bytes
  pub recursive : Bool

pub record ReceiverNodeOptions : Type 0 where
  pub connection_addr : Bytes
  pub downloads_folder_path : Bytes

pub record NodeOptions : Type 0 where
  pub is_sending : Bool
  pub working_port : ℕ
  pub verbose_output : Bool
  pub sender_side : SenderNodeOptions
  pub receiver_side : ReceiverNodeOptions

-- What `main` fills in.
unfoldable pub node_options : Flags → Bool → NodeOptions
node_options f is_sending = record {
  is_sending = is_sending;
  working_port = f.port;
  verbose_output = f.verbose;
  sender_side = record { serving_path = f.send; recursive = f.recursive };
  receiver_side = record { connection_addr = f.address; downloads_folder_path = f.downloads_dir };
}
