-- ===== src/Encryption/Laws.antt =====
-- What encryption keeps, what it adds, and where decryption fails.
use ftu.Common.{
  ℕ, zero, suc, ◌+◌, ◌<◌, ◌≡◌, ◌↔◌, refl, ap, ◌∙◌, true, some, [], ◌∷◌, ◌++◌, Bytes, length,
  length-append, replicate, ne→==, lt→ltb, le→ltb, All, All-append, get_elem?, get_elem?_inside, ok,
  panic, arith,
}
use ftu.Encryption.{
  Cipher, IsGcm, valid_key, nonce_size, encrypt, decrypt, opened, key_len, chars, char_at,
  generate_loop, generate_32_aes_key,
}

abbrev pub zero_nonce : Bytes
zero_nonce = replicate nonce_size 0

encrypt-eq-ok :
    (c : Cipher) (key text sealed : Bytes)
    → encrypt c key text ≡ ok sealed
    → (valid_key key ≡ true) × (sealed ≡ zero_nonce ++ c.seal key zero_nonce text)
unfolding encrypt
encrypt-eq-ok c key text sealed h = ground arith

module _ (c : Cipher) (gcm : IsGcm c) where
  decrypt-sealed :
      (key text : Bytes)
      → valid_key key ≡ true
      → decrypt c key (zero_nonce ++ c.seal key zero_nonce text) ≡ ok text
  unfolding decrypt
  decrypt-sealed key text v =
      rw
        (
          v,
          le→ltb (length (zero_nonce ++ c.seal key zero_nonce text)) nonce_size (omega arith),
          gcm.open-seal key zero_nonce text,
        )
        refl

  -- Under the same key decryption gives back what was encrypted.
  pub decrypt-encrypt :
      (key text sealed : Bytes) → encrypt c key text ≡ ok sealed → decrypt c key sealed ≡ ok text
  decrypt-encrypt key text sealed h =
      let (v, e) = encrypt-eq-ok c key text sealed h in
      ap (decrypt c key) e ∙ decrypt-sealed key text v

  -- The ciphertext is longer than the text by the nonce and the tag, 28 bytes.
  pub length-encrypt :
      (key text sealed : Bytes) → encrypt c key text ≡ ok sealed → length sealed ≡ length text + 28
  length-encrypt key text sealed h =
      let (v, e) = encrypt-eq-ok c key text sealed h in
      omega (arith, ap length e, gcm.length-seal key zero_nonce text)

panics-decrypt :
    (c : Cipher) (key sealed : Bytes)
    → decrypt c key sealed ≡ panic
    → (valid_key key ≡ true) × (length sealed < nonce_size)
unfolding decrypt opened
panics-decrypt c key sealed h = ground arith

-- Decryption panics just when the key is of a valid length and what is decrypted is shorter than a
-- nonce, whatever the cipher does.
pub decrypt_short :
    (c : Cipher) (key sealed : Bytes)
    → (decrypt c key sealed ≡ panic) ↔ ((valid_key key ≡ true) × (length sealed < nonce_size))
unfolding decrypt
decrypt_short c key sealed =
    (panics-decrypt c key sealed, λ (v, h). rw (v, lt→ltb (length sealed) nonce_size h) refl)

-- A byte of `CHARS`, and a source of random indices into it.
abbrev pub IsChar : ℕ → Type 0
IsChar b = (i : ℕ) × (get_elem? chars i ≡ some b)

abbrev pub IsDraw : (ℕ → ℕ) → Type 0
IsDraw draw = (k : ℕ) → draw k < length chars

char_at-ok : (i b : ℕ) → get_elem? chars i ≡ some b → char_at i ≡ ok b
unfolding char_at
char_at-ok i b h = ground arith

generate_loop_done :
    (draw : ℕ → ℕ) (fuel k : ℕ) (key : Bytes)
    → length key ≡ key_len
    → generate_loop draw (suc fuel) k key ≡ ok key
unfolding generate_loop
generate_loop_done draw fuel k key e = ground arith

generate_loop_step :
    (draw : ℕ → ℕ) (fuel k : ℕ) (key : Bytes) (b : ℕ)
    → length key < key_len
    → get_elem? chars (draw k) ≡ some b
    → generate_loop draw (suc fuel) k key ≡ generate_loop draw fuel (k + 1) (key ++ (b ∷ []))
unfolding generate_loop
generate_loop_step draw fuel k key b short drawn =
    rw (ne→== (length key) key_len (omega arith), char_at-ok (draw k) b drawn) refl

generate_loop-total :
    (draw : ℕ → ℕ)
    → IsDraw draw
    → (fuel k : ℕ) (key : Bytes) → length key + fuel ≡ key_len
    → All IsChar key
    → (done : Bytes) × (generate_loop draw (suc fuel) k key ≡ ok done)
      × (length done ≡ key_len)
      × All IsChar done
generate_loop-total draw drawn zero k key e all =
    (key, generate_loop_done draw zero k key (omega arith), omega arith, all)
generate_loop-total draw drawn (suc fuel) k key e all =
    let (b, at) = get_elem?_inside chars (draw k) (drawn k) in
    let (key', runs, long, all') =
      generate_loop-total draw drawn fuel (k + 1) (key ++ (b ∷ []))
        (omega (arith, length-append key (b ∷ [])))
        (All-append IsChar key (b ∷ []) all ((draw k, at), tt)) in
    (key', generate_loop_step draw (suc fuel) k key b (omega arith) at ∙ runs, long, all')

-- The generator of keys ends, with a key of 32 bytes out of `CHARS` that AES takes.
pub generate_32_aes_key-total :
    (draw : ℕ → ℕ)
    → IsDraw draw
    → (key : Bytes) × (generate_32_aes_key draw ≡ ok key)
      × (length key ≡ key_len)
      × All IsChar key
      × (valid_key key ≡ true)
unfolding generate_32_aes_key valid_key
generate_32_aes_key-total draw drawn =
    let (key, runs, long, all) = generate_loop-total draw drawn key_len 0 [] (omega arith) tt in
    (key, runs, long, all, rw long refl)

-- A valid key encrypts everything.
pub encrypt-ok :
    (c : Cipher) (key text : Bytes)
    → valid_key key ≡ true
    → encrypt c key text ≡ ok (zero_nonce ++ c.seal key zero_nonce text)
unfolding encrypt
encrypt-ok c key text v = rw v refl
