-- ===== src/Vm/Safe/Layout.antt =====
-- The descriptors of arrays and structs, which only two instructions of `run_with_output`
-- (pulselang-core/src/vm.rs) change.
use latency_os.Prelude.{ℕ, ◌+◌, ◌≤◌, ◌<◌, ◌≡◌, refl, ◌≢◌, arith, update, lt→ltb, le→ltb}
use native.Mathlib.Decide.{dec_lt}
use latency_os.Isa.{Opcode, Native}
use latency_os.Vm.State.{
  Host, Setup, Vm, Operands, Outcome, running, halted, failed, panicked, imm16,
}
use latency_os.Vm.Alu.{
  three_regs, exec_addi, exec_subi, exec_mov_imm, exec_mov_reg, exec_mov_str, exec_ldc, divide,
}
use latency_os.Vm.Slots.{
  exec_arr_def, exec_arr_load, exec_arr_store, exec_struct_def, exec_struct_load, exec_struct_store,
  exec_tbl_def, exec_tbl_load, exec_spill_store, exec_spill_load, sum_below, slot_count,
}
use latency_os.Vm.Flow.{
  exec_jmp, exec_jz, exec_jnz, exec_assert, exec_call, exec_ret, exec_within_start, exec_within_end,
  exec_drop,
}
use latency_os.Vm.Calls.{unwrap, vram_read, vram_write, file_write, fix_div, native_call}
use latency_os.Vm.Exec.{exec}
use latency_os.Vm.Effect.{Keeps, KeepsReply, exec_call_nat-Keeps}
use latency_os.Vm.Safe.{IsLaidOut, Fits}

-- Only the two definitions change a descriptor.
abbrev SameLayout : Vm → Vm → Type 0
SameLayout vm vm' =
    (vm'.array_bases ≡ vm.array_bases)
    × (vm'.array_lens ≡ vm.array_lens)
    × (vm'.struct_bases ≡ vm.struct_bases)
    × (vm'.struct_field_counts ≡ vm.struct_field_counts)

module _ (h : Host) (s : Setup) where
  native_call-SameLayout :
      (f : Native) (r v : ℕ) (vm : Vm) → KeepsReply (SameLayout vm) (native_call h s f r v vm)
  unfolding native_call unwrap vram_read vram_write file_write fix_div
  native_call-SameLayout Native.term_read_key r v vm = ground arith
  native_call-SameLayout _ r v vm = ground arith

  exec-SameLayout :
      (o : Opcode) (i : Operands) (vm : Vm)
      → o ≢ Opcode.arr_def
      → o ≢ Opcode.struct_def
      → Keeps (SameLayout vm) (exec h s o i vm)
  unfolding exec three_regs exec_addi exec_subi exec_mov_imm exec_mov_reg exec_mov_str exec_ldc
      divide exec_arr_load exec_arr_store exec_struct_load exec_struct_store exec_tbl_def
      exec_tbl_load exec_spill_store exec_spill_load exec_jmp exec_jz exec_jnz exec_assert exec_call
      exec_ret exec_within_start exec_within_end exec_drop
  exec-SameLayout Opcode.call_nat i vm n m =
      exec_call_nat-Keeps h s (SameLayout vm) i vm (λ v x k. ground arith) (refl, refl, refl, refl)
        (λ f e. native_call-SameLayout f _ _ vm)
  exec-SameLayout Opcode.arr_def i vm n m = absurd (n refl)
  exec-SameLayout Opcode.struct_def i vm n m = absurd (m refl)
  exec-SameLayout _ i vm n m = ground arith

SameLayout-IsLaidOut : {vm v : Vm} → IsLaidOut vm → SameLayout vm v → IsLaidOut v
SameLayout-IsLaidOut l (p, q, p', q') = record {
  arrays = λ a lt. rw (p, q) (l.arrays a lt);
  structs = λ a lt. rw (p', q') (l.structs a lt);
}

Keeps-map : {P Q : Vm → Type 0} (o : Outcome) → ((v : Vm) → P v → Q v) → Keeps P o → Keeps Q o
Keeps-map (running v) f k = f v k
Keeps-map (halted v) f k = f v k
Keeps-map (failed e v) f k = f v k
Keeps-map panicked f k = tt

module _ (i : Operands) (vm : Vm) (l : IsLaidOut vm) where
  arr_def-IsLaidOut :
      (i.rd < 16 → sum_below i.rd (update vm.array_lens i.rd (imm16 i)) + imm16 i ≤ slot_count)
      → Keeps IsLaidOut (exec_arr_def i vm)
  unfolding exec_arr_def
  arr_def-IsLaidOut fits = elim (dec_lt i.rd 16) [
    | yes lt ↦
        rw (lt→ltb i.rd 16 lt)
          (record { arrays = λ a p. ground (arith, fits lt, l.arrays a p); structs = l.structs })
    | no ge ↦ rw (le→ltb i.rd 16 (omega arith)) l
  ]

  struct_def-IsLaidOut :
      (i.rd < 16 → sum_below i.rd (update vm.struct_field_counts i.rd i.rs1) + i.rs1 ≤ slot_count)
      → Keeps IsLaidOut (exec_struct_def i vm)
  unfolding exec_struct_def
  struct_def-IsLaidOut fits = elim (dec_lt i.rd 16) [
    | yes lt ↦
        rw (lt→ltb i.rd 16 lt)
          (record { arrays = l.arrays; structs = λ a p. ground (arith, fits lt, l.structs a p) })
    | no ge ↦ rw (le→ltb i.rd 16 (omega arith)) l
  ]

module _ (h : Host) (s : Setup) where
  pub exec-IsLaidOut :
      (o : Opcode) (i : Operands) (vm : Vm)
      → IsLaidOut vm
      → Fits o i vm
      → Keeps IsLaidOut (exec h s o i vm)
  unfolding exec
  exec-IsLaidOut Opcode.arr_def i vm l fits = arr_def-IsLaidOut i vm l (fits.array refl)
  exec-IsLaidOut Opcode.struct_def i vm l fits = struct_def-IsLaidOut i vm l (fits.struct refl)
  exec-IsLaidOut o i vm l fits =
      let n : o ≢ Opcode.arr_def = cc in
      let m : o ≢ Opcode.struct_def = cc in
      Keeps-map {P = SameLayout vm} {Q = IsLaidOut} (exec h s o i vm)
        (λ v k. SameLayout-IsLaidOut {v = v} l k) (exec-SameLayout h s o i vm n m)
