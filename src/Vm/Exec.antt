-- ===== src/Vm/Exec.antt =====
-- One turn of the loop of `run_with_output` (pulselang-core/src/vm.rs), and the loop.
use latency_os.Prelude.{
  ℕ, zero, suc, ◌+◌, none, some, bit_and, bit_or, bit_xor, length, get_or, leb, if◌then◌else◌,
}
use latency_os.Prelude.Word.{word_add, word_sub, word_mul, word_div, word_rem}
use latency_os.Isa.{Opcode, decode_opcode}
use latency_os.Vm.State.{
  Host, Setup, Vm, Operands, Outcome, running, halted, failed, panicked, VmError, wcet_exceeded,
  invalid_opcode,
}
use latency_os.Vm.Alu.{
  three_regs, exec_addi, exec_subi, exec_mov_imm, exec_mov_reg, exec_mov_str, exec_ldc, divide,
  shift_left_op, shift_right_op, equal_values, unequal_values, equal_strings, less, less_equal,
  greater, greater_equal,
}
use latency_os.Vm.Slots.{
  exec_arr_def, exec_arr_load, exec_arr_store, exec_struct_def, exec_struct_load, exec_struct_store,
  exec_tbl_def, exec_tbl_load, exec_spill_store, exec_spill_load,
}
use latency_os.Vm.Flow.{
  exec_jmp, exec_jz, exec_jnz, exec_assert, exec_call, exec_ret, exec_within_start, exec_within_end,
  exec_drop,
}
use latency_os.Vm.Calls.{exec_call_nat}

-- What the loop comes to: `Ok(())`, an error, a panic, or it is still going when the fuel is out.
pub data Verdict : Type 0 where
  finished : Vm → Verdict
  errored : VmError → Vm → Verdict
  crashed : Verdict
  unfinished : Vm → Verdict

module _ (s : Setup) where
  abbrev pub byte_at : ℕ → ℕ
  byte_at at = get_or s.code at 0

  abbrev pub operands_at : ℕ → Operands
  operands_at at = record { rd = byte_at (at + 1); rs1 = byte_at (at + 2); rs2 = byte_at (at + 3) }

-- the state when an instruction has been fetched
abbrev pub fetched : Vm → Vm
fetched vm = record vm { ip = vm.ip + 4; steps = vm.steps + 1; clock = vm.clock + 1 }

module _ (h : Host) (s : Setup) where
  -- `match op`
  unfoldable pub exec : Opcode → Operands → Vm → Outcome
  exec Opcode.nop i vm = running vm
  exec Opcode.mov_imm i vm = exec_mov_imm i vm
  exec Opcode.mov_reg i vm = exec_mov_reg i vm
  exec Opcode.mov_str i vm = exec_mov_str i vm
  exec Opcode.add i vm = three_regs word_add i vm
  exec Opcode.sub i vm = three_regs word_sub i vm
  exec Opcode.mul i vm = three_regs word_mul i vm
  exec Opcode.div i vm = divide word_div i vm
  exec Opcode.mod_op i vm = divide word_rem i vm
  exec Opcode.cmp_eq i vm = three_regs (equal_values s) i vm
  exec Opcode.cmp_ne i vm = three_regs (unequal_values s) i vm
  exec Opcode.cmp_lt i vm = three_regs less i vm
  exec Opcode.cmp_le i vm = three_regs less_equal i vm
  exec Opcode.cmp_gt i vm = three_regs greater i vm
  exec Opcode.cmp_ge i vm = three_regs greater_equal i vm
  exec Opcode.jmp i vm = exec_jmp i vm
  exec Opcode.jz i vm = exec_jz i vm
  exec Opcode.jnz i vm = exec_jnz i vm
  exec Opcode.call_nat i vm = exec_call_nat h s i vm
  exec Opcode.within_start i vm = exec_within_start h s i vm
  exec Opcode.within_end i vm = exec_within_end vm
  exec Opcode.drop i vm = exec_drop h s vm
  exec Opcode.halt i vm = halted vm
  exec Opcode.ldc i vm = exec_ldc s i vm
  exec Opcode.addi i vm = exec_addi i vm
  exec Opcode.subi i vm = exec_subi i vm
  exec Opcode.and_op i vm = three_regs bit_and i vm
  exec Opcode.or_op i vm = three_regs bit_or i vm
  exec Opcode.xor_op i vm = three_regs bit_xor i vm
  exec Opcode.shl i vm = three_regs shift_left_op i vm
  exec Opcode.shr i vm = three_regs shift_right_op i vm
  exec Opcode.arr_def i vm = exec_arr_def i vm
  exec Opcode.arr_load i vm = exec_arr_load i vm
  exec Opcode.arr_store i vm = exec_arr_store i vm
  exec Opcode.assert i vm = exec_assert i vm
  exec Opcode.call i vm = exec_call i vm
  exec Opcode.ret i vm = exec_ret vm
  exec Opcode.struct_def i vm = exec_struct_def i vm
  exec Opcode.struct_load i vm = exec_struct_load i vm
  exec Opcode.struct_store i vm = exec_struct_store i vm
  exec Opcode.tbl_def i vm = exec_tbl_def i vm
  exec Opcode.tbl_load i vm = exec_tbl_load s i vm
  exec Opcode.streq i vm = three_regs (equal_strings s) i vm
  exec Opcode.spill_store i vm = exec_spill_store i vm
  exec Opcode.spill_load i vm = exec_spill_load i vm

  -- the arms of `match op`, the last one included
  unfoldable pub dispatch : ℕ → Operands → Vm → Outcome
  dispatch op i vm = elim (decode_opcode op) [
    | none ↦ failed invalid_opcode vm
    | some o ↦ exec o i vm
  ]

  -- One turn of the loop, its condition included.
  unfoldable pub turn : Vm → Outcome
  turn vm =
      if leb (vm.ip + 4) (length s.code)
      then (if leb s.max_steps vm.steps
          then failed wcet_exceeded vm
          else dispatch (byte_at s vm.ip) (operands_at s vm.ip) (fetched vm))
      else halted vm

  unfoldable pub run : ℕ → Vm → Verdict
  run zero vm = unfinished vm
  run (suc fuel) vm = elim (turn vm) [
    | running vm' ↦ run fuel vm'
    | halted vm' ↦ finished vm'
    | failed e vm' ↦ errored e vm'
    | panicked ↦ crashed
  ]
