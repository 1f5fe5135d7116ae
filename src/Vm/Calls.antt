-- ===== src/Vm/Calls.antt =====
-- CALL_NAT: the native functions of `run_with_output` (pulselang-core/src/vm.rs). Further arguments
-- stand in the registers below the argument register; where that names none, the index panics.

use latency_os.Prelude.{
  ℕ, zero, suc, ◌+◌, ◌-◌, ◌*◌, ◌%◌, ◌^◌, not, ◌&&◌, Option, none, some, List, ◌∷◌, Cells, update,
  bit_and, bit_or, bit_xor, length, get_elem?, get_or, ltb, leb, ◌==◌, if◌then◌else◌,
}
use latency_os.Prelude.Word.{
  has_bit, without, is_negative, word_mul, word_div, signed_min, signed_max, saturating_abs,
  shift_left, shift_right_signed, count_ones, leading_zeros,
}
use latency_os.Isa.{Native, decode_native}
use latency_os.Isa.Limits.{arg_tag, err_tag}
use latency_os.Vm.State.{
  Host, Setup, Vm, Operands, Outcome, running, failed, panicked, VmError, unwrap_failed,
  div_by_zero, is_reg, reg_or, set_reg, get_tsc, get_uptime_ns, write_str,
}
use latency_os.Vm.Text.{is_utf8, get_str_bytes, shown, shown_line}
use latency_os.Vm.Alu.{flag, equal_strings}
use latency_os.Vm.Slots.{minus_one}
use latency_os.Vm.Crc.{compute_crc32, to_le_bytes}

-- A native function gives a value, returns an error or panics.
pub data Reply : Type 0 where
  gives : ℕ → Vm → Reply
  fails : VmError → Reply
  panics : Reply

-- `if arg_reg > k - 1 { self.regs[arg_reg - k] } else { default }`
abbrev pub argument : ℕ → ℕ → ℕ → Vm → (ℕ → Reply) → Reply
argument k arg_reg default vm next =
    if ltb arg_reg k
    then next default
    else if is_reg (arg_reg - k)
    then next (vm.regs (arg_reg - k))
    else panics

-- the second argument, and the third
abbrev pub second : ℕ → Vm → (ℕ → Reply) → Reply
second arg_reg = argument 1 arg_reg 0

abbrev pub third : ℕ → Vm → (ℕ → Reply) → Reply
third arg_reg = argument 2 arg_reg 0

-- `.and_then(|b| from_utf8(b).ok())`
unfoldable pub path_of : Setup → ℕ → Option (List ℕ)
path_of s v = elim (get_str_bytes s v) [
  | none ↦ none
  | some bytes ↦ if is_utf8 bytes then some bytes else none
]

-- `i64::from_le_bytes` of eight bytes, and `i32::from_le_bytes(..) as i64`
unfoldable pub le_value : ℕ → Cells ℕ → ℕ → ℕ
le_value zero cells at = 0
le_value (suc k) cells at = cells at + 256 * le_value k cells (at + 1)

abbrev pub sign_extend_32 : ℕ → ℕ
sign_extend_32 v = if leb (2 ^ 31) v then v + 2 ^ 64 - 2 ^ 32 else v

abbrev pub vram_size : ℕ
vram_size = 4096

-- `offset + 8` and `offset + 4` are sums of usize: where one passes 2 ^ 64, either the sum panics
-- or the index behind it does.
unfoldable pub vram_read : ℕ → ℕ → Vm → Reply
unfolding le_value
vram_read slot offset vm =
    let cells = vm.vram (slot % 4) in
    if leb (2 ^ 64) (offset + 8)
    then panics
    else if leb (offset + 8) vram_size
    then gives (le_value 8 cells offset) vm
    else if leb (offset + 4) vram_size
    then gives (sign_extend_32 (le_value 4 cells offset)) vm
    else gives 0 vm

-- `slot_data[offset..offset + 8].copy_from_slice(&val.to_le_bytes())`
abbrev pub write_le : Cells ℕ → ℕ → ℕ → Cells ℕ
write_le cells offset v j =
    if leb offset j && ltb j (offset + 8) then get_or (to_le_bytes 8 v) (j - offset) 0 else cells j

unfoldable pub vram_write : ℕ → ℕ → ℕ → Vm → Reply
vram_write slot offset v vm =
    let cells = write_le (vm.vram (slot % 4)) offset v in
    if leb (2 ^ 64) (offset + 8)
    then panics
    else if leb (offset + 8) vram_size
    then gives 0 (record vm { vram = update vm.vram (slot % 4) cells })
    else gives 0 vm

-- The byte of a string, or -1.
unfoldable pub char_at : Setup → ℕ → ℕ → ℕ
char_at s v idx = elim (get_str_bytes s v) [
  | none ↦ minus_one
  | some bytes ↦
      if is_negative idx
      then minus_one
      else elim (get_elem? bytes idx) [ none ↦ minus_one | some c ↦ c ]
]

unfoldable pub str_len : Setup → ℕ → ℕ
str_len s v = elim (get_str_bytes s v) [ none ↦ 0 | some bytes ↦ length bytes ]

unfoldable pub script_arg : Setup → ℕ → ℕ
script_arg s v =
    if not (is_negative v) && (ltb v (length s.args) && ltb v 256)
    then bit_or arg_tag (bit_and v 0xff)
    else 0

-- The host is asked to write only where both strings can be read.
unfoldable pub file_write : Host → Option (List ℕ) → Option (List ℕ) → Vm → Reply
file_write h none content vm = gives minus_one vm
file_write h (some path) none vm = gives minus_one vm
file_write h (some path) (some content) vm =
    gives (if h.file_write vm.clock path content then length content else minus_one)
      (record vm { requests = (path, content) ∷ vm.requests })

unfoldable pub tag_ok : ℕ → ℕ
tag_ok v = without v err_tag

unfoldable pub tag_err : ℕ → ℕ
tag_err v = bit_or err_tag (without v err_tag)

unfoldable pub unwrap : ℕ → Vm → Reply
unwrap v vm = if has_bit v err_tag then fails unwrap_failed else gives v vm

unfoldable pub fix_div : ℕ → ℕ → ℕ → Vm → Reply
fix_div a b q vm =
    if b == 0 then fails div_by_zero else gives (word_div (shift_left a (bit_and q 63)) b) vm

unfoldable pub crc_of_word : ℕ → ℕ → ℕ
crc_of_word seed v = bit_xor (compute_crc32 (to_le_bytes 8 v)) (seed % 2 ^ 32)

-- the default for the number of fraction digits
abbrev pub fraction_bits : ℕ
fraction_bits = 16

-- `match func_id`, for the functions that read further registers. `r` is the argument register and
-- `v` its value.
module _ (h : Host) (s : Setup) where
  unfoldable pub native_call : Native → ℕ → ℕ → Vm → Reply
  unfolding unwrap
  native_call Native.print r v vm = gives 0 (write_str (shown s v) vm)
  native_call Native.println r v vm = gives 0 (write_str (shown_line s r v) vm)
  native_call Native.sys_tsc r v vm = gives (get_tsc h s vm) vm
  native_call Native.net_rtt r v vm = gives 100 vm
  native_call Native.net_set_rate r v vm = gives 0 vm
  native_call Native.gpu_capture r v vm = gives 0 vm
  native_call Native.net_send r v vm = gives 1 vm
  native_call Native.release_frame r v vm = gives 0 vm
  native_call Native.term_raw r v vm = gives 0 vm
  native_call Native.term_read_key r v vm = gives (h.read_key vm.clock) (record vm { steps = 0 })
  native_call Native.term_size r v vm = gives (h.term_size vm.clock) vm
  native_call Native.str_len r v vm = gives (str_len s v) vm
  native_call Native.char_at r v vm = second r vm λ idx. gives (char_at s v idx) vm
  native_call Native.file_exists r v vm = elim (path_of s v) [
    | none ↦ gives 0 vm
    | some path ↦ gives (flag (h.file_exists vm.clock path)) vm
  ]
  native_call Native.file_write r v vm =
      second r vm λ content. file_write h (path_of s v) (get_str_bytes s content) vm
  native_call Native.file_read r v vm = gives 0 vm
  native_call Native.script_argc r v vm = gives (length s.args) vm
  native_call Native.script_arg r v vm = gives (script_arg s v) vm
  native_call Native.tag_ok r v vm = gives (tag_ok v) vm
  native_call Native.tag_err r v vm = gives (tag_err v) vm
  native_call Native.is_ok r v vm = gives (flag (not (has_bit v err_tag))) vm
  native_call Native.is_err r v vm = gives (flag (has_bit v err_tag)) vm
  native_call Native.unwrap r v vm = unwrap v vm
  native_call Native.str_eq_call r v vm = second r vm λ w. gives (equal_strings s v w) vm
  native_call Native.core_id r v vm = gives 0 vm
  native_call Native.tsc_freq r v vm = gives 3_000_000_000 vm
  native_call Native.uptime_ns r v vm = gives (get_uptime_ns h s vm) vm
  native_call Native.busy_wait r v vm = gives 0 vm
  native_call Native.ring_depth r v vm = gives 0 vm
  native_call Native.math_min r v vm = second r vm λ w. gives (signed_min v w) vm
  native_call Native.math_max r v vm = second r vm λ w. gives (signed_max v w) vm
  native_call Native.math_abs r v vm = gives (saturating_abs v) vm
  native_call Native.math_clamp r v vm =
      second r vm λ lo. third r vm λ hi. gives (signed_min (signed_max v lo) hi) vm
  native_call Native.bit_popcnt r v vm = gives (count_ones 64 v) vm
  native_call Native.bit_lzcnt r v vm = gives (leading_zeros 64 v) vm
  native_call Native.crc32 r v vm = second r vm λ w. gives (crc_of_word v w) vm
  native_call Native.vram_read r v vm = second r vm λ offset. vram_read v offset vm
  native_call Native.vram_write r v vm =
      second r vm λ offset. third r vm λ w. vram_write v offset w vm
  native_call Native.fix_to_fix r v vm =
      argument 1 r fraction_bits vm λ q. gives (shift_left v (bit_and q 63)) vm
  native_call Native.fix_to_i64 r v vm =
      argument 1 r fraction_bits vm λ q. gives (shift_right_signed v (bit_and q 63)) vm
  native_call Native.fix_mul r v vm = second r vm λ b.
      argument 2 r fraction_bits vm λ q. gives (shift_right_signed (word_mul v b) (bit_and q 63)) vm
  native_call Native.fix_div r v vm =
      second r vm λ b. argument 2 r fraction_bits vm λ q. fix_div v b q vm

  -- the arms of `match func_id`, the last one included
  unfoldable pub call_native : ℕ → ℕ → ℕ → Vm → Reply
  call_native id r v vm = elim (decode_native id) [
    | none ↦ gives 0 vm
    | some f ↦ native_call f r v vm
  ]

  -- CALL_NAT: the operands are the result's register, the function's number and the argument's
  -- register.
  unfoldable pub exec_call_nat : Operands → Vm → Outcome
  exec_call_nat i vm = elim (call_native i.rs1 i.rs2 (reg_or vm i.rs2 0) vm) [
    | gives ret vm' ↦ running (set_reg vm' i.rd ret)
    | fails e ↦ failed e vm
    | panics ↦ panicked
  ]
