-- ===== src/Vm/Crc.antt =====
-- `compute_crc32` of pulselang-core/src/vm.rs, with its table and with the bytes of a word.
use latency_os.Prelude.{
  ℕ, zero, suc, ◌-◌, ◌/◌, ◌%◌, ◌^◌, List, [], ◌∷◌, Cells, bit_and, bit_xor, ◌==◌, if◌then◌else◌,
}

-- one round of the loop that fills the table
unfoldable pub crc_bit : ℕ → ℕ
crc_bit crc = if bit_and crc 1 == 0 then crc / 2 else bit_xor (crc / 2) 0xedb8_8320

unfoldable pub crc_bits : ℕ → ℕ → ℕ
crc_bits zero crc = crc
crc_bits (suc k) crc = crc_bits k (crc_bit crc)

-- `CRC32_TABLE`
unfoldable pub crc32_table : Cells ℕ
unfolding crc_bits crc_bit
crc32_table i = crc_bits 8 i

-- the loop over the bytes
unfoldable pub crc_loop : ℕ → List ℕ → ℕ
unfolding crc32_table
crc_loop crc [] = crc
crc_loop crc (byte ∷ bytes) =
    crc_loop (bit_xor (crc / 2 ^ 8) (crc32_table (bit_and (bit_xor crc byte) 0xff))) bytes

unfoldable pub compute_crc32 : List ℕ → ℕ
unfolding crc_loop
compute_crc32 bytes = 2 ^ 32 - 1 - crc_loop (2 ^ 32 - 1) bytes

-- `to_le_bytes` of a number of `k` bytes
unfoldable pub to_le_bytes : ℕ → ℕ → List ℕ
to_le_bytes zero v = []
to_le_bytes (suc k) v = v % 256 ∷ to_le_bytes k (v / 256)
