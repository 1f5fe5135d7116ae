-- ===== src/Isa/Codes.antt =====
-- The opcodes `PX64_OP_*` and the native functions `NATIVE_*` of isa.rs, each in the order of its
-- number. A byte is decoded by its place in the list.
use latency_os.Prelude.{ℕ, zero, suc, Option, none, List, [], ◌∷◌, get_elem?}

-- In the order of the constants, from 0.
pub data Opcode : Type 0 where
  nop mov_imm mov_reg mov_str add sub mul div mod_op cmp_eq cmp_ne cmp_lt cmp_le cmp_gt cmp_ge :
      Opcode
  jmp jz jnz call_nat within_start within_end drop halt ldc addi subi and_op or_op xor_op shl :
      Opcode
  shr arr_def arr_load arr_store assert call ret struct_def struct_load struct_store tbl_def :
      Opcode
  tbl_load streq spill_store spill_load : Opcode

abbrev opcodes : List Opcode
opcodes =
    nop ∷ mov_imm ∷ mov_reg ∷ mov_str ∷ add ∷ sub ∷ mul ∷ div ∷ mod_op ∷ cmp_eq ∷ cmp_ne ∷ cmp_lt
    ∷ cmp_le ∷ cmp_gt ∷ cmp_ge ∷ jmp ∷ jz ∷ jnz ∷ call_nat ∷ within_start ∷ within_end ∷ drop ∷ halt
    ∷ ldc ∷ addi ∷ subi ∷ and_op ∷ or_op ∷ xor_op ∷ shl ∷ shr ∷ arr_def ∷ arr_load ∷ arr_store
    ∷ assert ∷ call ∷ ret ∷ struct_def ∷ struct_load ∷ struct_store ∷ tbl_def ∷ tbl_load ∷ streq
    ∷ spill_store ∷ spill_load ∷ []

-- The byte that `match op` looks at; `none` is its last arm.
unfoldable pub decode_opcode : ℕ → Option Opcode
decode_opcode b = get_elem? opcodes b

-- In the order of the constants, from 1.
pub data Native : Type 0 where
  print println sys_tsc net_rtt net_set_rate gpu_capture net_send script_argc script_arg tag_ok :
      Native
  tag_err is_ok is_err unwrap str_eq_call core_id tsc_freq uptime_ns busy_wait ring_depth : Native
  math_min math_max math_abs math_clamp bit_popcnt bit_lzcnt crc32 vram_read vram_write : Native
  fix_to_fix fix_to_i64 fix_mul fix_div release_frame term_raw term_read_key term_size : Native
  file_read file_write file_exists str_len char_at : Native

abbrev natives : List Native
natives =
    print ∷ println ∷ sys_tsc ∷ net_rtt ∷ net_set_rate ∷ gpu_capture ∷ net_send ∷ script_argc
    ∷ script_arg ∷ tag_ok ∷ tag_err ∷ is_ok ∷ is_err ∷ unwrap ∷ str_eq_call ∷ core_id ∷ tsc_freq
    ∷ uptime_ns ∷ busy_wait ∷ ring_depth ∷ math_min ∷ math_max ∷ math_abs ∷ math_clamp ∷ bit_popcnt
    ∷ bit_lzcnt ∷ crc32 ∷ vram_read ∷ vram_write ∷ fix_to_fix ∷ fix_to_i64 ∷ fix_mul ∷ fix_div
    ∷ release_frame ∷ term_raw ∷ term_read_key ∷ term_size ∷ file_read ∷ file_write ∷ file_exists
    ∷ str_len ∷ char_at ∷ []

-- The byte that `match func_id` looks at; `none` is its last arm.
unfoldable pub decode_native : ℕ → Option Native
decode_native zero = none
decode_native (suc n) = get_elem? natives n
