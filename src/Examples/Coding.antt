-- ===== src/Examples/Coding.antt =====
-- The theorems on constructors, decoders and encryption at concrete inputs.
use ftu.Common.{
  ◌*◌, ◌%◌, ◌≡◌, ◌<◌, ◌↔◌, refl, true, some, none, [], ◌∷◌, ◌++◌, Bytes, codes, length, replicate,
  All, ok, err, panic, eof, ◌>>=◌, arith,
}
use ftu.Common.BigEndian.{put_u64}
use ftu.Encryption.{encrypt, decrypt, valid_key, key_len, generate_32_aes_key}
use ftu.Encryption.Laws.{
  IsChar, decrypt-encrypt, decrypt_short, generate_32_aes_key-total, zero_nonce, encrypt-ok,
}
use ftu.Fsys.Disk.{close}
use ftu.Protocol.Headers
use ftu.Protocol.Headers.{header_of}
use ftu.Protocol.Packet.{Packet, decrypt_body_if}
use ftu.Protocol.Construct.{file_body, create_file_packet}
use ftu.Protocol.Decode.{decode_file_body, decode_file_packet, decode_transfer_packet}
use ftu.Protocol.Decode.RoundTrip.{IsSent, received, decode_file_packet-create_file_packet}
use ftu.Protocol.Decode.Malformed.{
  without_relative_path, decode_file_body_no_path, decode_file_body_cut_path, decode_file_body_huge,
}
use ftu.Protocol.Delivery.{IsSendable, frame}
use ftu.Protocol.Offer.{send_transfer_offer_file}
use ftu.Protocol.Pieces.{opened_file, open_handle-IsServed}
use ftu.Protocol.Send.{send_transfer_offer}
use ftu.Examples.World.{
  padding_cipher, padding_cipher-IsGcm, open_os, small_disk, notes, notes_content, key_bytes,
  notes-IsServed,
}

abbrev sealed_hello : Bytes
sealed_hello = zero_nonce ++ (replicate 16 0 ++ codes "hello")

encrypts_hello : encrypt padding_cipher key_bytes (codes "hello") ≡ ok sealed_hello
unfolding valid_key
encrypts_hello = encrypt-ok padding_cipher key_bytes (codes "hello") refl

decrypt-encrypt_example : decrypt padding_cipher key_bytes sealed_hello ≡ ok (codes "hello")
decrypt-encrypt_example =
    decrypt-encrypt padding_cipher padding_cipher-IsGcm key_bytes (codes "hello") sealed_hello
      encrypts_hello

decrypt_short_example :
    (decrypt padding_cipher key_bytes (codes "short") ≡ panic)
    ↔ ((valid_key key_bytes ≡ true) × (length (codes "short") < 12))
unfolding valid_key
decrypt_short_example = decrypt_short padding_cipher key_bytes (codes "short")

generate_32_aes_key-total_example :
    (key : Bytes) × (generate_32_aes_key (λ k. k * 7 % 62) ≡ ok key)
    × (length key ≡ key_len)
    × All IsChar key
    × (valid_key key ≡ true)
generate_32_aes_key-total_example = generate_32_aes_key-total (λ k. k * 7 % 62) (λ k. omega arith)

notes-IsSent : IsSent 1000 notes
notes-IsSent = omega arith

notes_packet : Packet
notes_packet = record { header = header_of Headers.file; body = file_body notes }

decode_file_packet-create_file_packet_example :
    decode_file_packet 1000 notes_packet ≡ ok (received 1000 notes)
unfolding create_file_packet notes_packet
decode_file_packet-create_file_packet_example =
    decode_file_packet-create_file_packet 1000 open_os notes
      (close open_os (opened_file open_os small_disk notes)) small_disk small_disk notes_packet
      notes-IsSent
      (rw (open_handle-IsServed open_os small_disk notes_content notes notes-IsServed) refl)

decode_file_body_no_path_example : decode_file_body 1000 (without_relative_path notes []) ≡ err eof
decode_file_body_no_path_example = decode_file_body_no_path 1000 notes notes-IsSent

decode_file_body_cut_path_example :
    decode_file_body 1000 (without_relative_path notes (put_u64 5 ++ codes "no"))
    ≡ ok (record (received 1000 notes) { relative_parent_path = codes "no" ++ (0 ∷ 0 ∷ 0 ∷ []) })
decode_file_body_cut_path_example =
    decode_file_body_cut_path 1000 notes b'n' (b'o' ∷ []) 3 notes-IsSent (omega arith) (omega arith)

decode_file_body_huge_example : decode_file_body 1000 (put_u64 0 ++ (put_u64 1001 ++ [])) ≡ panic
decode_file_body_huge_example =
    decode_file_body_huge 1000 0 1001 [] (omega arith) (omega arith) (omega arith)

send_transfer_offer_file_example :
    (p : Packet) × (send_transfer_offer padding_cipher open_os
        (record { outgoing = []; alive = true })
        (some notes)
        none
        (some key_bytes)
        small_disk
      ≡ ok (record { outgoing = frame p; alive = true }, small_disk))
    × IsSendable p
    × ((decrypt_body_if padding_cipher (some key_bytes) p >>= decode_transfer_packet 1000)
        ≡ ok (some (received 1000 notes), none))
unfolding file_body put_u64 valid_key
send_transfer_offer_file_example =
    send_transfer_offer_file padding_cipher padding_cipher-IsGcm 1000 open_os [] notes
      (opened_file open_os small_disk notes) (some key_bytes) small_disk small_disk notes-IsSent
      refl (open_handle-IsServed open_os small_disk notes_content notes notes-IsServed)
      (omega arith)
