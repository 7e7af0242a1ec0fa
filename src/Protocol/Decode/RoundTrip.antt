-- ===== src/Protocol/Decode/RoundTrip.antt =====
-- The decoders read back what the constructors write.
use ftu.Common.{
  ℕ, ◌-◌, ◌%◌, ◌^◌, ◌≤◌, ◌<◌, ◌≡◌, refl, ap, none, some, [], ◌∷◌, ◌++◌, append-nil, append_assoc,
  Bytes, bytes_eq_refl, length, length-append, take-append, drop-append, le→ltb, ok, arith,
}
use ftu.Common.BigEndian.{IsU64, put_u64, read_u64, read_u64-put_u64, length-put_u64}
use ftu.Fsys.Disk.{Os, Disk, File}
use ftu.Fsys.Tree.{Directory, dir, nil, info}
use ftu.Protocol.Headers
use ftu.Protocol.Headers.{header_of, file_code, dir_code}
use ftu.Protocol.Packet.{Packet}
use ftu.Protocol.Construct.{sized, file_body, create_file_packet, create_directory_packet}
use ftu.Protocol.Decode.{
  filled, buffer_read, reader_read, read_sized, decode_file_body, decode_file_packet,
  decode_directory_packet, decode_transfer_packet,
}

-- Where the input is long enough a buffer is filled from it.
filled-append : (s rest : Bytes) → filled (length s) (s ++ rest) ≡ s
filled-append s rest =
    let e : length s - length (s ++ rest) ≡ 0 = omega (arith, length-append s rest) in
    rw (e, take-append s rest, append-nil) refl

pub buffer_read-append : (s rest : Bytes) → buffer_read (length s) (s ++ rest) ≡ ok (s, rest)
unfolding buffer_read
buffer_read-append [] [] = refl
buffer_read-append [] (b ∷ rest) = ap (λ s. ok (s, b ∷ rest)) (filled-append [] (b ∷ rest))
buffer_read-append (b ∷ s) rest = rw (filled-append (b ∷ s) rest, drop-append s rest) refl

pub reader_read-append :
    (s rest : Bytes) → 0 < length rest → reader_read (length s) (s ++ rest) ≡ ok (s, rest)
unfolding reader_read
reader_read-append [] [] h = absurd (omega arith)
reader_read-append [] (b ∷ rest) h = ap (λ s. ok (s, b ∷ rest)) (filled-append [] (b ∷ rest))
reader_read-append (b ∷ s) rest h = rw (filled-append (b ∷ s) rest, drop-append s rest) refl

-- A string that can be sent: its length fits a uint64, and a slice of that length can be made.
abbrev pub Fits : ℕ → Bytes → Type 0
Fits max_alloc s = (length s < 2 ^ 64) × (length s ≤ max_alloc)

pub read_u64-sized :
    (s rest : Bytes) → IsU64 (length s) → read_u64 (sized s ++ rest) ≡ ok (length s, s ++ rest)
read_u64-sized s rest h =
    let e : length s % 2 ^ 64 ≡ length s = omega arith in
    rw (e, append_assoc (put_u64 (length s)) s rest) (read_u64-put_u64 (length s) (s ++ rest) h)

module _ (max_alloc : ℕ) where
  pub read_sized-sized :
      (s rest : Bytes) → Fits max_alloc s → read_sized max_alloc (sized s ++ rest) ≡ ok (s, rest)
  unfolding read_sized
  read_sized-sized s rest (fits, small) =
      rw (read_u64-sized s rest fits, le→ltb max_alloc (length s) small) (buffer_read-append s rest)

  -- What a file is on the receiving side: the path, the handle and the progress are not sent.
  abbrev pub received : File → File
  received f = record f { path = []; handler = none; sent_bytes = 0 }

  pub record IsSent (f : File) : Type 0 where
    pub id : IsU64 f.id
    pub size : IsU64 f.size
    pub name : Fits max_alloc f.name
    pub checksum : Fits max_alloc f.checksum
    pub relative_parent_path : Fits max_alloc f.relative_parent_path

  pub decode_file_body-file_body :
      (f : File) → IsSent f → decode_file_body max_alloc (file_body f) ≡ ok (received f)
  unfolding decode_file_body file_body
  decode_file_body-file_body f h =
      rw
        (
          read_u64-put_u64 f.id _ h.id,
          read_sized-sized f.name _ h.name,
          read_u64-put_u64 f.size _ h.size,
          read_sized-sized f.checksum _ h.checksum,
          ← append-nil (sized f.relative_parent_path),
          read_sized-sized f.relative_parent_path [] h.relative_parent_path,
        )
        refl

  pub decode_file_packet-file_body :
      (f : File)
      → IsSent f
      → decode_file_packet max_alloc
          (record { header = header_of Headers.file; body = file_body f })
        ≡ ok (received f)
  unfolding decode_file_packet
  decode_file_packet-file_body f h =
      rw (bytes_eq_refl (header_of Headers.file)) (decode_file_body-file_body f h)

  -- `DecodeFilePacket` gives back the file that `CreateFilePacket` was called on, but for what is
  -- not sent, provided that the strings are no longer than a slice can be.
  pub decode_file_packet-create_file_packet :
      (os : Os) (f f' : File) (d d' : Disk) (p : Packet)
      → IsSent f
      → create_file_packet os f d ≡ ok (p, f', d')
      → decode_file_packet max_alloc p ≡ ok (received f)
  unfolding create_file_packet
  decode_file_packet-create_file_packet os f f' d d' p h e =
      let created : p ≡ record { header = header_of Headers.file; body = file_body f } =
        ground arith in
      rw created (decode_file_packet-file_body f h)

  -- What a directory is on the receiving side: its name and its size.
  abbrev pub received_directory : Directory → Directory
  received_directory d =
      dir
        (record {
          name = (info d).name;
          path = [];
          size = (info d).size;
          relative_parent_path = [];
        })
        [] [] nil

  -- The name and the size that `CreateDirectoryPacket` wrote are what `DecodeDirectoryPacket` gives
  -- back, provided that the name is no longer than a slice can be.
  decode_directory_packet-create_directory_packet :
      (d : Directory)
      → Fits max_alloc (info d).name
      → IsU64 (info d).size
      → decode_directory_packet max_alloc (create_directory_packet d) ≡ ok (received_directory d)
  unfolding decode_directory_packet create_directory_packet
  decode_directory_packet-create_directory_packet d (fits, small) size =
      rw
        (
          bytes_eq_refl (header_of Headers.directory),
          read_u64-sized (info d).name (put_u64 (info d).size) fits,
          le→ltb max_alloc (length (info d).name) small,
          reader_read-append (info d).name (put_u64 (info d).size)
              (omega (arith, length-put_u64 (info d).size)),
          ← append-nil (put_u64 (info d).size),
          read_u64-put_u64 (info d).size [] size,
        )
        refl

  -- The body of a transfer offer, by its first byte.
  pub decode_transfer_packet-file_body :
      (f : File)
      → IsSent f
      → decode_transfer_packet max_alloc
          (record { header = header_of Headers.transfer_offer; body = file_code ++ file_body f })
        ≡ ok (some (received f), none)
  unfolding decode_transfer_packet
  decode_transfer_packet-file_body f h =
      rw (bytes_eq_refl (header_of Headers.transfer_offer), decode_file_packet-file_body f h) refl

  pub decode_transfer_packet-directory_body :
      (d : Directory)
      → Fits max_alloc (info d).name
      → IsU64 (info d).size
      → decode_transfer_packet max_alloc (record {
        header = header_of Headers.transfer_offer;
        body = dir_code ++ (create_directory_packet d).body;
      })
        ≡ ok (none, some (received_directory d))
  unfolding decode_transfer_packet create_directory_packet
  decode_transfer_packet-directory_body d name size =
      rw
        (
          bytes_eq_refl (header_of Headers.transfer_offer),
          decode_directory_packet-create_directory_packet d name size,
        )
        refl
