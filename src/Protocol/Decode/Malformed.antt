-- ===== src/Protocol/Decode/Malformed.antt =====
-- The decoders on bodies that `CreateFilePacket` does not write.
use ftu.Common.{
  ℕ, ◌+◌, ◌-◌, ◌≤◌, ◌<◌, ◌≡◌, refl, ap, ◌∙◌, [], ◌∷◌, ◌++◌, Bytes, length, replicate, drop,
  take_all, drop_all, ok, err, panic, eof, ◌>>=◌, le→ltb, lt→ltb, arith,
}
use ftu.Common.BigEndian.{IsU64, put_u64, read_u64, read_u64-put_u64}
use ftu.Fsys.Disk.{File}
use ftu.Protocol.Construct.{sized}
use ftu.Protocol.Decode.{filled, buffer_read, read_sized, decode_file_body}
use ftu.Protocol.Decode.RoundTrip.{read_sized-sized, received, IsSent}

-- A body up to its checksum.
abbrev pub without_relative_path : File → Bytes → Bytes
without_relative_path f rest =
    put_u64 f.id ++ (sized f.name ++ (put_u64 f.size ++ (sized f.checksum ++ rest)))

module _ (max_alloc : ℕ) where
  decode_up_to_path :
      (f : File) (rest : Bytes)
      → IsSent max_alloc f
      → decode_file_body max_alloc (without_relative_path f rest) ≡ (
          read_sized max_alloc rest >>= λ r.
          ok (record (received max_alloc f) { relative_parent_path = r.0 }))
  unfolding decode_file_body
  decode_up_to_path f rest h =
      rw
        (
          read_u64-put_u64 f.id _ h.id,
          read_sized-sized max_alloc f.name _ h.name,
          read_u64-put_u64 f.size _ h.size,
          read_sized-sized max_alloc f.checksum _ h.checksum,
        )
        refl

  -- A FILE body that leaves the relative path out, as the protocol's description allows, is
  -- refused.
  pub decode_file_body_no_path :
      (f : File)
      → IsSent max_alloc f
      → decode_file_body max_alloc (without_relative_path f []) ≡ err eof
  decode_file_body_no_path f h = decode_up_to_path f [] h ∙ unfold read_sized read_u64 in refl

  filled_short : (s : Bytes) (k : ℕ) → filled (length s + k) s ≡ s ++ replicate k 0
  filled_short s k =
      let e : length s + k - length s ≡ k = omega arith in
      rw (e, take_all (length s + k) s (omega arith)) refl

  buffer_read_short :
      (b : ℕ) (bs : Bytes) (k : ℕ)
      → buffer_read (length (b ∷ bs) + k) (b ∷ bs) ≡ ok ((b ∷ bs) ++ replicate k 0, [])
  unfolding buffer_read
  buffer_read_short b bs k =
      let cut : drop (length (b ∷ bs) + k) (b ∷ bs) ≡ [] = drop_all _ (b ∷ bs) (omega arith) in
      ap (λ s. ok (s, drop (length (b ∷ bs) + k) (b ∷ bs))) (filled_short (b ∷ bs) k)
      ∙ ap (λ s. ok ((b ∷ bs) ++ replicate k 0, s)) cut

  read_sized_short :
      (b : ℕ) (bs : Bytes) (k : ℕ)
      → IsU64 (length (b ∷ bs) + k)
      → length (b ∷ bs) + k ≤ max_alloc
      → read_sized max_alloc (put_u64 (length (b ∷ bs) + k) ++ (b ∷ bs))
        ≡ ok ((b ∷ bs) ++ replicate k 0, [])
  unfolding read_sized
  read_sized_short b bs k small fits =
      rw
        (
          read_u64-put_u64 (length (b ∷ bs) + k) (b ∷ bs) small,
          le→ltb max_alloc (length (b ∷ bs) + k) fits,
        )
        (buffer_read_short b bs k)

  -- A relative path that was cut short is taken all the same: the missing bytes become zeros.
  pub decode_file_body_cut_path :
      (f : File) (b : ℕ) (bs : Bytes) (k : ℕ)
      → IsSent max_alloc f
      → IsU64 (length (b ∷ bs) + k)
      → length (b ∷ bs) + k ≤ max_alloc
      → decode_file_body max_alloc
          (without_relative_path f (put_u64 (length (b ∷ bs) + k) ++ (b ∷ bs)))
        ≡ ok (record (received max_alloc f) { relative_parent_path = (b ∷ bs) ++ replicate k 0 })
  decode_file_body_cut_path f b bs k h small fits =
      decode_up_to_path f (put_u64 (length (b ∷ bs) + k) ++ (b ∷ bs)) h
      ∙ rw (read_sized_short b bs k small fits) refl

  -- A length that is larger than any slice makes the decoder panic, whatever the body holds
  -- besides.
  pub decode_file_body_huge :
      (id n : ℕ) (rest : Bytes)
      → IsU64 id
      → IsU64 n
      → max_alloc < n
      → decode_file_body max_alloc (put_u64 id ++ (put_u64 n ++ rest)) ≡ panic
  unfolding decode_file_body read_sized
  decode_file_body_huge id n rest hid hn huge =
      rw (read_u64-put_u64 id _ hid, read_u64-put_u64 n rest hn, lt→ltb max_alloc n huge) refl
