-- ===== src/Vm/Bounded.antt =====
-- The two stack pointers of `run_with_output` (pulselang-core/src/vm.rs).
use latency_os.Prelude.{ℕ, ◌≤◌, arith}
use latency_os.Isa.{Opcode, Native}
use latency_os.Vm.State.{Host, Setup, Vm, Operands}
use latency_os.Vm.Alu.{
  three_regs, exec_addi, exec_subi, exec_mov_imm, exec_mov_reg, exec_mov_str, exec_ldc, divide,
}
use latency_os.Vm.Slots.{
  exec_arr_def, exec_arr_load, exec_arr_store, exec_struct_def, exec_struct_load, exec_struct_store,
  exec_tbl_def, exec_tbl_load, exec_spill_store, exec_spill_load,
}
use latency_os.Vm.Flow.{
  exec_jmp, exec_jz, exec_jnz, exec_assert, exec_call, exec_ret, exec_within_start, exec_within_end,
  exec_drop,
}
use latency_os.Vm.Calls.{unwrap, vram_read, vram_write, file_write, fix_div, native_call}
use latency_os.Vm.Exec.{exec, turn, fetched}
use latency_os.Vm.Effect.{Keeps, KeepsReply, exec_call_nat-Keeps, turn-Keeps}

-- The call stack and the stack of deadlines stay within their eight places.
pub record IsBounded (vm : Vm) : Type 0 where
  pub calls : vm.call_sp ≤ 8
  pub deadlines : vm.dl_sp ≤ 8

module _ (h : Host) (s : Setup) where
  native_call-IsBounded :
      (f : Native) (r v : ℕ) (vm : Vm)
      → IsBounded vm
      → KeepsReply IsBounded (native_call h s f r v vm)
  unfolding native_call unwrap vram_read vram_write file_write fix_div
  native_call-IsBounded Native.term_read_key r v vm b = ground arith
  native_call-IsBounded _ r v vm b = ground arith

  exec-IsBounded :
      (o : Opcode) (i : Operands) (vm : Vm) → IsBounded vm → Keeps IsBounded (exec h s o i vm)
  unfolding exec three_regs exec_addi exec_subi exec_mov_imm exec_mov_reg exec_mov_str exec_ldc
      divide exec_arr_def exec_arr_load exec_arr_store exec_struct_def exec_struct_load
      exec_struct_store exec_tbl_def exec_tbl_load exec_spill_store exec_spill_load exec_jmp exec_jz
      exec_jnz exec_assert exec_call exec_ret exec_within_start exec_within_end exec_drop
  exec-IsBounded Opcode.call_nat i vm b =
      exec_call_nat-Keeps h s IsBounded i vm (λ v x k. ground arith) b
        (λ f e. native_call-IsBounded f _ _ vm b)
  exec-IsBounded _ i vm b = ground arith

  -- Every instruction keeps the two stack pointers within their arrays.
  pub turn-IsBounded : (vm : Vm) → IsBounded vm → Keeps IsBounded (turn h s vm)
  turn-IsBounded vm b =
      turn-Keeps h s IsBounded vm b (record { calls = b.calls; deadlines = b.deadlines })
        (λ o e.
          exec-IsBounded o _ (fetched vm) (record { calls = b.calls; deadlines = b.deadlines }))
