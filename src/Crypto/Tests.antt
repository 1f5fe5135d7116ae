-- ===== src/Crypto/Tests.antt =====
-- Runs of kernel/src/crypto.rs.
use latency_os.Prelude.{
  ℕ, ◌+◌, ◌/◌, ◌%◌, ◌^◌, ◌≡◌, ◌≢◌, ◌↔◌, refl, arith, List, [], ◌∷◌, bit_xor, get_or, drop,
}
use latency_os.Crypto.{Aes128Key, new_key, encrypt_block}
use latency_os.Crypto.Tables.{sub_byte}
use latency_os.Crypto.Gcm.{ghash_multiply, gcm_payload, counter_block}
use latency_os.Crypto.SBox.{rijndael, sub_byte-eq-rijndael}
use latency_os.Crypto.Block.{masked, encrypt_block-collides}
use latency_os.Crypto.Stream.{gcm_payload-gcm_payload, get_or-gcm_payload}

-- the key and the block of appendix C of FIPS 197, which meets no wrong entry
abbrev key : List ℕ
key =
    0x00 ∷ 0x01 ∷ 0x02 ∷ 0x03 ∷ 0x04 ∷ 0x05 ∷ 0x06 ∷ 0x07 ∷ 0x08 ∷ 0x09 ∷ 0x0a ∷ 0x0b ∷ 0x0c ∷ 0x0d
    ∷ 0x0e ∷ 0x0f ∷ []

abbrev block : List ℕ
block =
    0x00 ∷ 0x11 ∷ 0x22 ∷ 0x33 ∷ 0x44 ∷ 0x55 ∷ 0x66 ∷ 0x77 ∷ 0x88 ∷ 0x99 ∷ 0xaa ∷ 0xbb ∷ 0xcc ∷ 0xdd
    ∷ 0xee ∷ 0xff ∷ []

encrypted :
    encrypt_block (new_key key).round_keys block
    ≡ 0x69 ∷ 0xc4 ∷ 0xe0 ∷ 0xd8 ∷ 0x6a ∷ 0x7b ∷ 0x04 ∷ 0x30 ∷ 0xd8 ∷ 0xcd ∷ 0xb7 ∷ 0x80 ∷ 0x70
      ∷ 0xb4 ∷ 0xc5 ∷ 0x5a ∷ []
unfolding new_key encrypt_block
encrypted = refl

product :
    ghash_multiply key block
    ≡ 0xf4 ∷ 0xd9 ∷ 0x0e ∷ 0xe8 ∷ 0xca ∷ 0x96 ∷ 0x1e ∷ 0x8f ∷ 0xdb ∷ 0x6d ∷ 0x4f ∷ 0x74 ∷ 0x8b
      ∷ 0x0a ∷ 0x5f ∷ 0x13 ∷ []
unfolding ghash_multiply
product = refl

sub_byte-eq-rijndael_example : (sub_byte 0x53 ≡ rijndael 0x53) ↔ (◌≢◌ {A = ℕ} 0x53 0xa7)
sub_byte-eq-rijndael_example = sub_byte-eq-rijndael 0x53 (omega arith)

abbrev words : List ℕ
words =
    0x4050607 ∷ 0x8090a0b ∷ 0xc0d0e0f ∷ 0xd6aa74fd ∷ 0xd2af72fa ∷ 0xdaa678f1 ∷ 0xd6ab76fe
    ∷ 0xb692cf0b ∷ 0x643dbdf1 ∷ 0xbe9bc500 ∷ 0x6830b3fe ∷ 0xb6ff744e ∷ 0xd2c2c9bf ∷ 0x6c590cbf
    ∷ 0x469bf41 ∷ 0x47f7f7bc ∷ 0x95353e03 ∷ 0xf96c32bc ∷ 0xfd058dfd ∷ 0x3caaa3e8 ∷ 0xa99f9deb
    ∷ 0x50f3af57 ∷ 0xadf622aa ∷ 0x5e390f7d ∷ 0xf7a69296 ∷ 0xa7553dc1 ∷ 0xaa31f6b ∷ 0x14f9701a
    ∷ 0xe35fe28c ∷ 0x440adf4d ∷ 0x4ea9c026 ∷ 0x47438735 ∷ 0xa41c65b9 ∷ 0xe016baf4 ∷ 0xaebf7ad2
    ∷ 0x549932d1 ∷ 0xf0855768 ∷ 0x1093ed9c ∷ 0xbe2c974e ∷ 0x13111d7f ∷ 0xe3944a17 ∷ 0xf307a78b
    ∷ 0x4d2b30c5 ∷ []

encrypt_block-collides_example :
    (masked 0x10203 0x9d (0x11 ∷ 0x22 ∷ 0x33 ∷ drop 4 block)
      ≢ masked 0x10203 0xa7 (0x11 ∷ 0x22 ∷ 0x33 ∷ drop 4 block))
    × (encrypt_block (0x10203 ∷ words) (masked 0x10203 0x9d (0x11 ∷ 0x22 ∷ 0x33 ∷ drop 4 block))
        ≡ encrypt_block (0x10203 ∷ words) (masked 0x10203 0xa7 (0x11 ∷ 0x22 ∷ 0x33 ∷ drop 4 block)))
encrypt_block-collides_example = encrypt_block-collides 0x10203 words 0x11 0x22 0x33 (drop 4 block)

abbrev some_key : Aes128Key
some_key = record { round_keys = 0x10203 ∷ words; h = [] }

abbrev nonce : List ℕ
nonce = 0 ∷ 1 ∷ 2 ∷ 3 ∷ 4 ∷ 5 ∷ 6 ∷ 7 ∷ 8 ∷ 9 ∷ 10 ∷ 11 ∷ []

gcm_payload-gcm_payload_example :
    gcm_payload some_key nonce (gcm_payload some_key nonce (1 ∷ 2 ∷ 3 ∷ [])) ≡ 1 ∷ 2 ∷ 3 ∷ []
gcm_payload-gcm_payload_example = gcm_payload-gcm_payload some_key nonce (1 ∷ 2 ∷ 3 ∷ [])

get_or-gcm_payload_example :
    get_or (gcm_payload some_key nonce (0x10 ∷ block)) 16 0
    ≡ bit_xor (get_or (0x10 ∷ block) 16 0) (
        get_or
          (encrypt_block some_key.round_keys (counter_block nonce ((2 + 16 / 16) % 2 ^ 32)))
          (16 % 16)
          0)
get_or-gcm_payload_example = get_or-gcm_payload some_key nonce (0x10 ∷ block) 16 (omega arith)
