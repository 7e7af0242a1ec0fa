-- ===== src/Examples/World.antt =====
-- A cipher, a disk and an operating system to run the code in.
use ftu.Common.{
  refl, true, some, none, [], ◌++◌, Bytes, codes, replicate, drop, bytes_eq, if◌then◌else◌, arith,
}
use ftu.Encryption.{Cipher, IsGcm}
use ftu.Fsys.Disk.{Disk, Os, File, regular}
use ftu.Protocol.Packet.{Packet}
use ftu.Protocol.Pieces.{IsServed}

-- It puts sixteen zeros in front of the text.
abbrev pub padding_cipher : Cipher
padding_cipher = record {
  seal = λ key nonce text. replicate 16 0 ++ text;
  open_sealed = λ key nonce sealed. some (drop 16 sealed);
}

pub padding_cipher-IsGcm : IsGcm padding_cipher
padding_cipher-IsGcm = record {
  open-seal = λ key nonce text. refl;
  length-seal = λ key nonce text. omega arith;
}

abbrev pub open_os : Os
open_os = record { resolve = λ d path. path; can_open = λ d path. true; can_close = λ path. true }

abbrev pub notes_path : Bytes
notes_path = codes "/notes"

abbrev pub notes_content : Bytes
notes_content = codes "hello"

abbrev pub small_disk : Disk
small_disk path = if bytes_eq notes_path path then some (regular notes_content) else none

abbrev pub notes : File
notes = record {
  id = 3;
  name = codes "notes";
  path = notes_path;
  relative_parent_path = codes "notes";
  size = 5;
  checksum = codes "2cf2";
  handler = none;
  sent_bytes = 0;
}

abbrev pub key_bytes : Bytes
key_bytes = replicate 32 b'k'

abbrev pub ready_packet : Packet
ready_packet = record { header = codes "READY"; body = [] }

abbrev pub endfile_packet : Packet
endfile_packet = record { header = codes "ENDFILE"; body = codes "01234567" }

pub notes-IsServed : IsServed open_os small_disk notes_path notes_content
unfolding bytes_eq
notes-IsServed = record { can_open = refl; found = refl }
