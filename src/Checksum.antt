-- ===== src/Checksum.antt =====
-- src/checksum/checksum.go: which bytes of a file its checksum is made of. `sha` is the sum in
-- hexadecimal. Asking for the size of an open file and seeking in it do not fail.
pub mod Blocks
use ftu.Common.{
  ℕ, zero, suc, ◌+◌, ◌*◌, ◌-◌, [], ◌++◌, Bytes, ltb, if◌then◌else◌, length, take, drop, replicate,
  Option, none, some, Outcome, ok, err, os_error,
}
use ftu.Fsys.Disk.{Entry, regular, folder, link}

-- The loop over the chunks: those that are left, and where the next begins. The buffer has its full
-- size even if less was read.
unfoldable pub captured : ℕ → ℕ → Bytes → Bytes
captured zero read content = []
captured (suc chunks) read content =
    let got = take 50 (drop read content) in
    let rest = captured chunks (read + length got + 250) content in
    (got ++ replicate (50 - length got) 0) ++ rest

unfoldable pub get_partial_check_sum : (Bytes → Bytes) → Bytes → Bytes
unfolding captured
get_partial_check_sum sha content =
    if ltb (length content) (50 * 50 + 250 * (50 - 1))
    then sha content
    else sha (captured 50 0 content)

-- What an open handle gives: a folder can be opened but not read.
unfoldable pub check_sum_of : (Bytes → Bytes) → Option Entry → Outcome Bytes
check_sum_of sha none = ok (get_partial_check_sum sha [])
check_sum_of sha (some (regular content)) = ok (get_partial_check_sum sha content)
check_sum_of sha (some folder) = err os_error
check_sum_of sha (some (link target)) = err os_error
