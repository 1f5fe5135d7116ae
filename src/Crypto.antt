-- ===== src/Crypto.antt =====
-- kernel/src/crypto.rs: AES-128 and the authenticated encryption GCM. A block is the list of its
-- bytes, and a word is a number below 2 ^ 32.
pub mod Tables
pub mod Gcm
pub mod SBox
pub mod Block
pub mod Stream
mod Tests
use latency_os.Prelude.{
  ℕ, zero, suc, ◌+◌, ◌-◌, ◌*◌, ◌/◌, ◌%◌, ◌^◌, List, [], ◌∷◌, ◌++◌, map, bit_xor, length, get_or,
  take, drop, ltb, ◌==◌, if◌then◌else◌,
}
use mathlib.Core.List.{reverse}
use latency_os.Image.{to_be_bytes, from_be_bytes}
use latency_os.Crypto.Tables.{rcon, sub_byte, sub_word, rot_word, double_byte, word_byte}

pub record Aes128Key : Type 0 where
  pub round_keys : List ℕ
  pub h : List ℕ

-- the first four words of the key schedule
unfoldable pub key_words : List ℕ → List ℕ
unfolding from_be_bytes
key_words key =
    from_be_bytes 0 (take 4 key)
    ∷ from_be_bytes 0 (take 4 (drop 4 key))
    ∷ from_be_bytes 0 (take 4 (drop 8 key))
    ∷ from_be_bytes 0 (take 4 (drop 12 key))
    ∷ []

-- the word behind those before it, which stand with the last one first
unfoldable pub next_word : ℕ → List ℕ → ℕ
unfolding sub_word rot_word
next_word i ws =
    let temp = get_or ws 0 0 in
    bit_xor (get_or ws 3 0)
      (if i % 4 == 0 then bit_xor (sub_word (rot_word temp)) (get_or rcon (i / 4 - 1) 0) else temp)

-- `n` more words, the first of them with the number `i`
unfoldable pub expand : ℕ → ℕ → List ℕ → List ℕ
unfolding next_word
expand zero i ws = ws
expand (suc n) i ws = expand n (i + 1) (next_word i ws ∷ ws)

-- AddRoundKey: each word of the key is added to four bytes.
unfoldable pub add_round_key : List ℕ → List ℕ → List ℕ
add_round_key (w ∷ ws) (a ∷ b ∷ c ∷ d ∷ rest) =
    bit_xor a (word_byte w 24)
    ∷ bit_xor b (word_byte w 16)
    ∷ bit_xor c (word_byte w 8)
    ∷ bit_xor d (word_byte w 0)
    ∷ add_round_key ws rest
add_round_key _ state = state

-- where ShiftRows takes each byte from
abbrev pub shifted : List ℕ
shifted = 0 ∷ 5 ∷ 10 ∷ 15 ∷ 4 ∷ 9 ∷ 14 ∷ 3 ∷ 8 ∷ 13 ∷ 2 ∷ 7 ∷ 12 ∷ 1 ∷ 6 ∷ 11 ∷ []

unfoldable pub shift_rows : List ℕ → List ℕ
shift_rows state = map (λ i. get_or state i 0) shifted

abbrev pub xor_five : ℕ → ℕ → ℕ → ℕ → ℕ → ℕ
xor_five a b c d e = bit_xor (bit_xor (bit_xor (bit_xor a b) c) d) e

unfoldable pub mix_columns : List ℕ → List ℕ
unfolding double_byte
mix_columns (a0 ∷ a1 ∷ a2 ∷ a3 ∷ rest) =
    xor_five (double_byte a0) (double_byte a1) a1 a2 a3
    ∷ xor_five a0 (double_byte a1) (double_byte a2) a2 a3
    ∷ xor_five a0 a1 (double_byte a2) (double_byte a3) a3
    ∷ xor_five (double_byte a0) a0 a1 a2 (double_byte a3)
    ∷ mix_columns rest
mix_columns state = state

-- the rounds from number `round` on, `n` of them
unfoldable pub main_rounds : ℕ → ℕ → List ℕ → List ℕ → List ℕ
unfolding add_round_key shift_rows mix_columns sub_byte
main_rounds zero round keys state = state
main_rounds (suc n) round keys state =
    main_rounds n (round + 1) keys (
      add_round_key (take 4 (drop (4 * round) keys))
        (mix_columns (shift_rows (map sub_byte state))))

unfoldable pub encrypt_block : List ℕ → List ℕ → List ℕ
unfolding main_rounds
encrypt_block keys block =
    add_round_key (take 4 (drop 40 keys))
      (shift_rows (map sub_byte (main_rounds 9 1 keys (add_round_key (take 4 keys) block))))

abbrev pub zero_block : List ℕ
zero_block = 0 ∷ 0 ∷ 0 ∷ 0 ∷ 0 ∷ 0 ∷ 0 ∷ 0 ∷ 0 ∷ 0 ∷ 0 ∷ 0 ∷ 0 ∷ 0 ∷ 0 ∷ 0 ∷ []

-- `Aes128Key::new`
unfoldable pub new_key : List ℕ → Aes128Key
unfolding key_words expand encrypt_block
new_key key =
    let keys = reverse (expand 40 4 (reverse (key_words key))) in
    record { round_keys = keys; h = encrypt_block keys zero_block }
