-- ===== src/Encryption.antt =====
-- src/encryption: AES-GCM around a packet's body, and the generator of keys.
pub mod Laws
use ftu.Common.{
  ℕ, zero, suc, ◌+◌, ◌≡◌, Bool, ◌||◌, Option, none, some, [], ◌∷◌, ◌++◌, Bytes, ◌==◌, ltb,
  if◌then◌else◌, length, take, drop, replicate, get_elem?, Outcome, ok, err, panic, unfinished,
  ◌>>=◌, bad_key, could_not_decrypt, codes,
}

-- `crypto/aes` and `crypto/cipher`: sealing and opening under a key and a nonce.
pub record Cipher : Type 0 where
  pub seal : Bytes → Bytes → Bytes → Bytes
  pub open_sealed : Bytes → Bytes → Bytes → Option Bytes

-- What GCM promises: a sealed text opens to what was sealed, and is 16 bytes longer.
pub record IsGcm (c : Cipher) : Type 0 where
  pub open-seal :
      (key nonce text : Bytes) → c.open_sealed key nonce (c.seal key nonce text) ≡ some text
  pub length-seal : (key nonce text : Bytes) → length (c.seal key nonce text) ≡ length text + 16

-- `aes.NewCipher` takes keys of 16, 24 and 32 bytes. `cipher.NewGCM` takes every AES block.
unfoldable pub valid_key : Bytes → Bool
valid_key key = length key == 16 || (length key == 24 || length key == 32)

-- `aesGCM.NonceSize()`
abbrev pub nonce_size : ℕ
nonce_size = 12

module _ (c : Cipher) where
  -- `Seal(nonce, nonce, …)` appends to the nonce, which is left at zero.
  unfoldable pub encrypt : Bytes → Bytes → Outcome Bytes
  encrypt key text =
      let nonce = replicate nonce_size 0 in
      if valid_key key then ok (nonce ++ c.seal key nonce text) else err bad_key

  opened : Option Bytes → Outcome Bytes
  opened none = err could_not_decrypt
  opened (some text) = ok text

  -- Slicing off the nonce panics on fewer bytes than a nonce has.
  unfoldable pub decrypt : Bytes → Bytes → Outcome Bytes
  unfolding opened
  decrypt key sealed =
      if valid_key key
      then (if ltb (length sealed) nonce_size
          then panic
          else opened (c.open_sealed key (take nonce_size sealed) (drop nonce_size sealed)))
      else err bad_key

-- `KEYLEN` and `CHARS`
abbrev pub key_len : ℕ
key_len = 32

abbrev pub chars : Bytes
chars = codes "abcdefghijklmnopqrstuvwxyzABCDEFGHIJKLMNOPQRSTUVWXYZ0123456789"

unfoldable pub char_at : ℕ → Outcome ℕ
char_at i = elim (get_elem? chars i) [ none ↦ panic | some b ↦ ok b ]

-- The loop of `Generate32AESkey`; `draw k` is what the k-th call of `rand.Intn(len(CHARS))`
-- returns.
unfoldable pub generate_loop : (ℕ → ℕ) → ℕ → ℕ → Bytes → Outcome Bytes
generate_loop draw zero k key = unfinished
generate_loop draw (suc fuel) k key =
    let rest = char_at (draw k) >>= λ b. generate_loop draw fuel (k + 1) (key ++ (b ∷ [])) in
    if length key == key_len then ok key else rest

-- One round for each byte of the key, and one to see that it is complete.
unfoldable pub generate_32_aes_key : (ℕ → ℕ) → Outcome Bytes
unfolding generate_loop
generate_32_aes_key draw = generate_loop draw (key_len + 1) 0 []
