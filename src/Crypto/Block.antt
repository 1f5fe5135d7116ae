-- ===== src/Crypto/Block.antt =====
-- What the wrong entry of the S-box does to `encrypt_block` of kernel/src/crypto.rs.
use latency_os.Prelude.{
  ℕ, suc, ◌+◌, ◌*◌, ◌≡◌, refl, ap, ◌∙◌, sym, arith, ◌≢◌, List, ◌∷◌, bit_xor, get_or, take, drop,
  map,
}
use latency_os.Prelude.Bits.{xor-xor_self}
use latency_os.Crypto.Tables.{sub_byte, word_byte}
use latency_os.Crypto.{add_round_key, shift_rows, mix_columns, encrypt_block, main_rounds}

-- the block that has `v` as its first byte once the first word of the key is added
abbrev pub masked : ℕ → ℕ → List ℕ → List ℕ
masked w v rest = bit_xor v (word_byte w 24) ∷ rest

same_entry : sub_byte 0x9d ≡ sub_byte 0xa7
unfolding sub_byte
same_entry = refl

-- A round sees of the state only what the S-box makes of it.
main_rounds-map :
    (n round : ℕ) (keys s t : List ℕ)
    → map sub_byte s ≡ map sub_byte t
    → main_rounds (suc n) round keys s ≡ main_rounds (suc n) round keys t
unfolding main_rounds
main_rounds-map n round keys s t e =
    ap
      (λ (u : List ℕ).
        main_rounds n (round + 1) keys
          (add_round_key (take 4 (drop (4 * round) keys)) (mix_columns (shift_rows u))))
      e

module _ (w : ℕ) (ws : List ℕ) (b c d : ℕ) (rest : List ℕ) where
  -- the state in front of the first round
  keyed : ℕ → List ℕ
  keyed v = add_round_key (w ∷ ws) (masked w v (b ∷ c ∷ d ∷ rest))

  tail : List ℕ
  tail =
      bit_xor b (word_byte w 16)
      ∷ bit_xor c (word_byte w 8)
      ∷ bit_xor d (word_byte w 0)
      ∷ add_round_key ws rest

  keyed-eq : (v : ℕ) → keyed v ≡ v ∷ tail
  unfolding keyed tail add_round_key
  keyed-eq v = ap (λ (t : ℕ). t ∷ tail) (xor-xor_self v (word_byte w 24))

  keyed-map : map sub_byte (keyed 0x9d) ≡ map sub_byte (keyed 0xa7)
  keyed-map =
      ap (map sub_byte) (keyed-eq 0x9d)
      ∙ ap (λ (t : ℕ). t ∷ map sub_byte tail) same_entry
      ∙ sym (ap (map sub_byte) (keyed-eq 0xa7))

-- For every key there are two different blocks that are encrypted to the same block: those whose
-- first bytes are 0x9d and 0xa7 once the first word of the key is added, and whose other bytes are
-- the same.
pub encrypt_block-collides :
    (w : ℕ) (ws : List ℕ) (b c d : ℕ) (rest : List ℕ)
    → (masked w 0x9d (b ∷ c ∷ d ∷ rest) ≢ masked w 0xa7 (b ∷ c ∷ d ∷ rest))
      × (encrypt_block (w ∷ ws) (masked w 0x9d (b ∷ c ∷ d ∷ rest))
          ≡ encrypt_block (w ∷ ws) (masked w 0xa7 (b ∷ c ∷ d ∷ rest)))
unfolding encrypt_block keyed
encrypt_block-collides w ws b c d rest = (
  λ same.
      let first : bit_xor 0x9d (word_byte w 24) ≡ bit_xor 0xa7 (word_byte w 24) =
        ap (λ (s : List ℕ). get_or s 0 0) same in
      absurd (
        omega (
          arith,
          xor-xor_self 0x9d (word_byte w 24),
          xor-xor_self 0xa7 (word_byte w 24),
          ap (λ (t : ℕ). bit_xor t (word_byte w 24)) first,
        )),
  ap (λ (s : List ℕ). add_round_key (take 4 (drop 40 (w ∷ ws))) (shift_rows (map sub_byte s)))
      (main_rounds-map 8 1 (w ∷ ws) (keyed w (take 3 ws) b c d rest 0x9d)
        (keyed w (take 3 ws) b c d rest 0xa7) (keyed-map w (take 3 ws) b c d rest)),
)
