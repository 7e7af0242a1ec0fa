-- ===== src/Protocol/Headers.antt =====
-- src/protocol/constants.go and headers.go.
use ftu.Common.{ℕ, ◌≡◌, refl, [], Bytes, bytes_eq, codes, if◌then◌else◌}

-- `MAXPACKETSIZE`, 128 KiB.
abbrev pub max_packet_size : ℕ
max_packet_size = 131072

-- `HEADERDELIMETER`, the one byte `~`.
abbrev pub header_delimeter : Bytes
header_delimeter = codes "~"

abbrev pub delimeter_byte : ℕ
delimeter_byte = b'~'

abbrev pub file_code : Bytes
file_code = codes "f"

abbrev pub dir_code : Bytes
dir_code = codes "d"

-- The headers of the protocol, and any other string.
pub data Kind : Type 0 where
  encryption_key reject accept done ready disconnecting transfer_offer : Kind
  file file_bytes endfile directory already_have symlink : Kind
  unknown : Kind

-- The constants `HeaderEncryptionKey`, `HeaderReject` and so on. `unknown` has none: its clause
-- only completes the function.
unfoldable pub header_of : Kind → Bytes
header_of encryption_key = codes "ENCRKEY"
header_of reject = codes "REJECT"
header_of accept = codes "ACCEPT"
header_of done = codes "DONE"
header_of ready = codes "READY"
header_of disconnecting = codes "BYE!"
header_of transfer_offer = codes "TRANSFEROFFER"
header_of file = codes "FILE"
header_of file_bytes = codes "FILEBYTES"
header_of endfile = codes "ENDFILE"
header_of directory = codes "DIRECTORY"
header_of already_have = codes "ALREADYHAVE"
header_of symlink = codes "SYMLINK"
header_of unknown = []

-- Which case of a `switch` on a header is taken.
unfoldable pub kind_of : Bytes → Kind
unfolding header_of bytes_eq
kind_of h =
    if bytes_eq h (header_of ready)
    then ready
    else if bytes_eq h (header_of accept)
    then accept
    else if bytes_eq h (header_of reject)
    then reject
    else if bytes_eq h (header_of disconnecting)
    then disconnecting
    else if bytes_eq h (header_of already_have)
    then already_have
    else if bytes_eq h (header_of transfer_offer)
    then transfer_offer
    else if bytes_eq h (header_of file)
    then file
    else if bytes_eq h (header_of file_bytes)
    then file_bytes
    else if bytes_eq h (header_of endfile)
    then endfile
    else if bytes_eq h (header_of encryption_key)
    then encryption_key
    else if bytes_eq h (header_of symlink)
    then symlink
    else if bytes_eq h (header_of done)
    then done
    else if bytes_eq h (header_of directory)
    then directory
    else unknown

-- Different headers are told apart.
pub kind_of-header_of : (k : Kind) → kind_of (header_of k) ≡ k
unfolding kind_of
kind_of-header_of encryption_key = refl
kind_of-header_of reject = refl
kind_of-header_of accept = refl
kind_of-header_of done = refl
kind_of-header_of ready = refl
kind_of-header_of disconnecting = refl
kind_of-header_of transfer_offer = refl
kind_of-header_of file = refl
kind_of-header_of file_bytes = refl
kind_of-header_of endfile = refl
kind_of-header_of directory = refl
kind_of-header_of already_have = refl
kind_of-header_of symlink = refl
kind_of-header_of unknown = refl
