-- ===== src/Vm/Safe/Panics.antt =====
-- No instruction of `run_with_output` (pulselang-core/src/vm.rs) that fits its state panics.
use latency_os.Prelude.{ℕ, ◌+◌, ◌-◌, ◌^◌, ◌≤◌, ◌<◌, refl, ◌≢◌, arith, Option, none, some}
use latency_os.Isa.{Opcode, Native, decode_native}
use latency_os.Vm.State.{
  Host, Setup, Vm, Operands, Outcome, running, failed, panicked, set_reg, reg_or,
}
use latency_os.Vm.Alu.{
  three_regs, exec_addi, exec_subi, exec_mov_imm, exec_mov_reg, exec_mov_str, exec_ldc, divide,
}
use latency_os.Vm.Slots.{
  exec_arr_def, exec_arr_load, exec_arr_store, exec_struct_def, exec_struct_load, exec_struct_store,
  exec_tbl_def, exec_tbl_load, exec_spill_store, exec_spill_load,
}
use latency_os.Vm.Flow.{
  exec_jmp, exec_jz, exec_jnz, exec_assert, exec_call, exec_ret, exec_within_start, exec_within_end,
  exec_drop,
}
use latency_os.Vm.Calls.{
  Reply, gives, fails, panics, unwrap, vram_read, vram_write, file_write, fix_div, native_call,
  call_native, exec_call_nat,
}
use latency_os.Vm.Exec.{exec}
use latency_os.Vm.Bounded.{IsBounded}
use latency_os.Vm.Safe.{IsLaidOut, Fits}

module _ (h : Host) (s : Setup) (i : Operands) (vm : Vm) (l : IsLaidOut vm) where
  arr_load-ne-panicked : exec_arr_load i vm ≢ panicked
  unfolding exec_arr_load
  arr_load-ne-panicked = ground (arith, l.arrays i.rs1)

  arr_store-ne-panicked : exec_arr_store i vm ≢ panicked
  unfolding exec_arr_store
  arr_store-ne-panicked = ground (arith, l.arrays i.rd)

  native_call-ne-panics :
      (f : Native) (v : ℕ)
      → i.rs2 ≤ 20
      → (0 < i.rs2 → vm.regs (i.rs2 - 1) + 8 < 2 ^ 64)
      → native_call h s f i.rs2 v vm ≢ panics
  unfolding native_call unwrap vram_read vram_write file_write fix_div
  native_call-ne-panics Native.print v le off = ground arith
  native_call-ne-panics _ v le off = ground arith

  call_nat-ne-panicked :
      i.rs2 ≤ 20
      → (0 < i.rs2 → vm.regs (i.rs2 - 1) + 8 < 2 ^ 64)
      → exec_call_nat h s i vm ≢ panicked
  unfolding exec_call_nat call_native
  call_nat-ne-panicked le off = go (decode_native i.rs1)
    where
      outcome : Reply → Outcome
      outcome reply = elim reply [
        | gives ret vm' ↦ running (set_reg vm' i.rd ret)
        | fails e ↦ failed e vm
        | panics ↦ panicked
      ]

      of_reply : (reply : Reply) → reply ≢ panics → outcome reply ≢ panicked
      of_reply (gives ret vm') ne = cc
      of_reply (fails e) ne = cc
      of_reply panics ne = absurd (ne refl)

      go :
          (d : Option Native)
          → outcome (elim d [
            | none ↦ gives 0 vm
            | some f ↦ native_call h s f i.rs2 (reg_or vm i.rs2 0) vm
          ])
            ≢ panicked
      go none = cc
      go (some f) = of_reply _ (native_call-ne-panics f (reg_or vm i.rs2 0) le off)

  pub exec-ne-panicked : IsBounded vm → (o : Opcode) → Fits o i vm → exec h s o i vm ≢ panicked
  unfolding exec three_regs exec_addi exec_subi exec_mov_imm exec_mov_reg exec_mov_str exec_ldc
      divide exec_arr_def exec_struct_def exec_struct_load exec_struct_store exec_tbl_def
      exec_tbl_load exec_spill_store exec_spill_load exec_jmp exec_jz exec_jnz exec_assert exec_call
      exec_ret exec_within_start exec_within_end exec_drop
  exec-ne-panicked b Opcode.call_nat fits =
      call_nat-ne-panicked (fits.argument_register refl) (fits.offset refl)
  exec-ne-panicked b Opcode.arr_load fits = arr_load-ne-panicked
  exec-ne-panicked b Opcode.arr_store fits = arr_store-ne-panicked
  exec-ne-panicked b _ fits = ground (arith, b.calls, b.deadlines, l.structs i.rs1, l.structs i.rd)
