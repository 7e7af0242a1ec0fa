-- ===== src/Protocol/Construct.antt =====
-- src/protocol/packetConstruct.go.
use ftu.Common.{◌%◌, ◌^◌, ◌++◌, Bytes, length, Outcome, ok, ◌>>=◌}
use ftu.Common.BigEndian.{put_u64}
use ftu.Fsys.Disk.{Disk, Os, File, open_handle, close}
use ftu.Fsys.Tree.{Directory, info}
use ftu.Protocol.Headers
use ftu.Protocol.Headers.{header_of}
use ftu.Protocol.Packet.{Packet}

-- A string behind its length in binary.
abbrev pub sized : Bytes → Bytes
sized s = put_u64 (length s % 2 ^ 64) ++ s

-- The body of a FILE packet.
unfoldable pub file_body : File → Bytes
file_body f =
    put_u64 f.id
    ++ (sized f.name ++ (put_u64 f.size ++ (sized f.checksum ++ sized f.relative_parent_path)))

-- `CreateFilePacket` opens the file, and closes it on its way out.
unfoldable pub create_file_packet : Os → File → Disk → Outcome (Packet × File × Disk)
unfolding file_body
create_file_packet os f d = do
  (opened, d') ← open_handle os f d
  ok (record { header = header_of Headers.file; body = file_body f }, close os opened, d')

unfoldable pub create_directory_packet : Directory → Packet
create_directory_packet directory =
    let i = info directory in
    record { header = header_of Headers.directory; body = sized i.name ++ put_u64 i.size }
