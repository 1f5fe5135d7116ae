-- ===== src/Crypto/Gcm.antt =====
-- `ghash_multiply` and `aes_128_gcm_encrypt` of kernel/src/crypto.rs.
use latency_os.Prelude.{
  ℕ, zero, suc, ◌+◌, ◌*◌, ◌/◌, ◌%◌, ◌^◌, List, [], ◌∷◌, ◌++◌, bit_xor, length, take, drop, ◌==◌,
  if◌then◌else◌,
}
use latency_os.Image.{to_be_bytes, from_be_bytes}
use latency_os.Crypto.{Aes128Key, encrypt_block, zero_block}

-- The product so far, and the second factor, which is multiplied by the variable in each round: two
-- words each.
pub record Product : Type 0 where
  pub z0 : ℕ
  pub z1 : ℕ
  pub v0 : ℕ
  pub v1 : ℕ

-- `if bit != 0 { z ^= v }`
abbrev pub xor_if : ℕ → ℕ → ℕ → ℕ
xor_if bit z v = if bit == 1 then bit_xor z v else z

-- one bit of the first factor
unfoldable pub ghash_bit : ℕ → Product → Product
ghash_bit bit p = record {
  z0 = xor_if bit p.z0 p.v0;
  z1 = xor_if bit p.z1 p.v1;
  v0 = xor_if (p.v1 % 2) (p.v0 / 2) 0xe100_0000_0000_0000;
  v1 = p.v1 / 2 + p.v0 % 2 * 2 ^ 63;
}

-- the lowest `n` bits of a byte, the highest of them first
unfoldable pub ghash_byte : ℕ → ℕ → Product → Product
unfolding ghash_bit
ghash_byte zero b p = p
ghash_byte (suc n) b p = ghash_byte n b (ghash_bit (b / 2 ^ n % 2) p)

unfoldable pub ghash_bytes : List ℕ → Product → Product
unfolding ghash_byte
ghash_bytes [] p = p
ghash_bytes (b ∷ bs) p = ghash_bytes bs (ghash_byte 8 b p)

-- both factors have sixteen bytes
unfoldable pub ghash_multiply : List ℕ → List ℕ → List ℕ
unfolding ghash_bytes to_be_bytes from_be_bytes
ghash_multiply x y =
    let p = ghash_bytes x (record {
      z0 = 0;
      z1 = 0;
      v0 = from_be_bytes 0 (take 8 y);
      v1 = from_be_bytes 0 (take 8 (drop 8 y));
    }) in
    to_be_bytes 8 p.z0 ++ to_be_bytes 8 p.z1

-- `a[i] ^= b[i]` for each `i` below the length of `a`; a byte that `b` lacks is 0
unfoldable pub xor_bytes : List ℕ → List ℕ → List ℕ
xor_bytes [] bs = []
xor_bytes (a ∷ as') [] = a ∷ as'
xor_bytes (a ∷ as') (b ∷ bs) = bit_xor a b ∷ xor_bytes as' bs

-- the block that is encrypted for the keystream
abbrev pub counter_block : List ℕ → ℕ → List ℕ
counter_block iv ctr = iv ++ to_be_bytes 4 ctr

-- The loop over the payload. Each round takes sixteen bytes or what is left; `n` rounds at most.
unfoldable pub ctr_from : ℕ → List ℕ → List ℕ → ℕ → List ℕ → List ℕ
unfolding xor_bytes to_be_bytes encrypt_block
ctr_from zero keys iv ctr payload = payload
ctr_from (suc n) keys iv ctr payload =
    let ctr' = (ctr + 1) % 2 ^ 32 in
    let ks = encrypt_block keys (counter_block iv ctr') in
    xor_bytes (take 16 payload) ks ++ ctr_from n keys iv ctr' (drop 16 payload)

-- one block taken into the hash, filled up with zeros
unfoldable pub ghash_block : List ℕ → List ℕ → List ℕ → List ℕ
unfolding xor_bytes ghash_multiply
ghash_block h state block = ghash_multiply (xor_bytes state block) h

-- The loop over a text in blocks of sixteen bytes, `n` rounds at most.
unfoldable pub ghash_text : ℕ → List ℕ → List ℕ → List ℕ → List ℕ
unfolding ghash_block
ghash_text zero h state text = state
ghash_text (suc n) h state text =
    let rest = ghash_text n h (ghash_block h state (take 16 text)) (drop 16 text) in
    if length text == 0 then state else rest

abbrev pub len_block : List ℕ → List ℕ → List ℕ
len_block aad payload =
    to_be_bytes 8 (length aad * 8 % 2 ^ 64) ++ to_be_bytes 8 (length payload * 8 % 2 ^ 64)

-- what the payload becomes
unfoldable pub gcm_payload : Aes128Key → List ℕ → List ℕ → List ℕ
unfolding ctr_from
gcm_payload key iv payload = ctr_from (length payload) key.round_keys iv 1 payload

-- the tag of an encrypted payload
unfoldable pub gcm_tag : Aes128Key → List ℕ → List ℕ → List ℕ → List ℕ
unfolding encrypt_block ghash_text ghash_block xor_bytes to_be_bytes
gcm_tag key iv aad payload =
    let hashed_aad = ghash_text (length aad) key.h zero_block aad in
    let hashed = ghash_text (length payload) key.h hashed_aad payload in
    xor_bytes (ghash_block key.h hashed (len_block aad payload))
      (encrypt_block key.round_keys (counter_block iv 1))

-- `aes_128_gcm_encrypt`: the payload and the tag afterwards
unfoldable pub aes_128_gcm_encrypt : Aes128Key → List ℕ → List ℕ → List ℕ → List ℕ × List ℕ
unfolding gcm_payload gcm_tag
aes_128_gcm_encrypt key iv aad payload =
    let out = gcm_payload key iv payload in (out, gcm_tag key iv aad out)
