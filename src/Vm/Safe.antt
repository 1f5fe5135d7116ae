-- ===== src/Vm/Safe.antt =====
-- When `run_with_output` (pulselang-core/src/vm.rs) cannot panic: the conditions on the state and on
-- the next instruction.
pub mod Panics
pub mod Layout
pub mod Turn
use latency_os.Prelude.{
  ℕ, zero, suc, ◌+◌, ◌-◌, ◌%◌, ◌^◌, ◌≤◌, ◌<◌, ◌≡◌, refl, ◌≢◌, ◌∙◌, ap, subst, arith, Option, none,
  some, Bool, true, false, update, lt→ltb, le→ltb,
}
use native.Mathlib.Decide.{dec_lt}
use latency_os.Isa.{Opcode, Native, decode_opcode, decode_native}
use latency_os.Vm.State.{
  Host, Setup, Vm, Operands, Outcome, running, halted, failed, panicked, set_reg, reg_or, imm16,
}
use latency_os.Vm.Alu.{
  three_regs, two_regs, exec_addi, exec_subi, exec_mov_imm, exec_mov_reg, exec_mov_str, exec_ldc,
  divide,
}
use latency_os.Vm.Slots.{
  exec_arr_def, exec_arr_load, exec_arr_store, exec_struct_def, exec_struct_load, exec_struct_store,
  exec_tbl_def, exec_tbl_load, exec_spill_store, exec_spill_load, sum_below, slot_count,
}
use latency_os.Vm.Flow.{
  exec_jmp, exec_jz, exec_jnz, exec_assert, exec_call, exec_ret, exec_within_start, exec_within_end,
  exec_drop,
}
use latency_os.Vm.Calls.{
  Reply, gives, fails, panics, unwrap, vram_read, vram_write, file_write, fix_div, native_call,
  call_native, exec_call_nat,
}
use latency_os.Vm.Exec.{exec, dispatch, turn, fetched, byte_at, operands_at}
use latency_os.Vm.Effect.{Keeps, KeepsReply, exec_call_nat-Keeps, turn-Keeps}

-- Each array and each struct lies within the slots.
pub record IsLaidOut (vm : Vm) : Type 0 where
  pub arrays : (a : ℕ) → a < 16 → vm.array_bases a + vm.array_lens a ≤ slot_count
  pub structs : (a : ℕ) → a < 16 → vm.struct_bases a + vm.struct_field_counts a ≤ slot_count

-- What an instruction must respect beyond the descriptors: a native function's argument register
-- is at most the one behind the last, its offset into video memory can be counted up from, and a
-- definition fits the slots behind the ones with smaller numbers.
pub record Fits (o : Opcode) (i : Operands) (vm : Vm) : Type 0 where
  pub argument_register : o ≡ Opcode.call_nat → i.rs2 ≤ 20
  pub offset : o ≡ Opcode.call_nat → 0 < i.rs2 → vm.regs (i.rs2 - 1) + 8 < 2 ^ 64
  pub array :
      o ≡ Opcode.arr_def
      → i.rd < 16
      → sum_below i.rd (update vm.array_lens i.rd (imm16 i)) + imm16 i ≤ slot_count
  pub struct :
      o ≡ Opcode.struct_def
      → i.rd < 16
      → sum_below i.rd (update vm.struct_field_counts i.rd i.rs1) + i.rs1 ≤ slot_count
