-- ===== src/Vm/Frames.antt =====
-- CALL and RET of `run_with_output` (pulselang-core/src/vm.rs): what a subroutine can change.
use latency_os.Prelude.{
  ℕ, ◌+◌, ◌-◌, ◌%◌, ◌^◌, ◌≤◌, ◌<◌, ◌≡◌, refl, ap, Cells, ◌∙◌, subst, ◌≢◌, arith,
}
use latency_os.Isa.{Opcode, Native}
use latency_os.Vm.State.{Host, Setup, Vm, Operands, running}
use latency_os.Vm.Alu.{
  three_regs, exec_addi, exec_subi, exec_mov_imm, exec_mov_reg, exec_mov_str, exec_ldc, divide,
}
use latency_os.Vm.Slots.{
  exec_arr_def, exec_arr_load, exec_arr_store, exec_struct_def, exec_struct_load, exec_struct_store,
  exec_tbl_def, exec_tbl_load, exec_spill_store, exec_spill_load,
}
use latency_os.Vm.Flow.{
  restore, exec_jmp, exec_jz, exec_jnz, exec_assert, exec_call, exec_ret, exec_within_start,
  exec_within_end, exec_drop,
}
use latency_os.Vm.Calls.{
  unwrap, vram_read, vram_write, file_write, fix_div, native_call, exec_call_nat,
}
use latency_os.Vm.Exec.{exec, turn, fetched}
use latency_os.Vm.Effect.{Keeps, KeepsReply, exec_call_nat-Keeps, turn-Keeps}

-- The saved frame and return address of level `d` are the same in both states.
abbrev pub SameFrame : ℕ → Vm → Vm → Type 0
SameFrame d vm vm' = (vm'.frame_stack d ≡ vm.frame_stack d) × (vm'.call_stack d ≡ vm.call_stack d)

module _ (h : Host) (s : Setup) (d : ℕ) where
  native_call-SameFrame :
      (f : Native) (r v : ℕ) (vm : Vm) → KeepsReply (SameFrame d vm) (native_call h s f r v vm)
  unfolding native_call unwrap vram_read vram_write file_write fix_div
  native_call-SameFrame Native.term_read_key r v vm = ground arith
  native_call-SameFrame _ r v vm = ground arith

  exec_call_nat-SameFrame :
      (i : Operands) (vm : Vm) → Keeps (SameFrame d vm) (exec_call_nat h s i vm)
  exec_call_nat-SameFrame i vm =
      exec_call_nat-Keeps h s (SameFrame d vm) i vm (λ v x k. ground arith) (refl, refl)
        (λ f e. native_call-SameFrame f _ _ vm)

  exec-SameFrame :
      (o : Opcode) (i : Operands) (vm : Vm)
      → d < vm.call_sp
      → Keeps (SameFrame d vm) (exec h s o i vm)
  unfolding exec three_regs exec_addi exec_subi exec_mov_imm exec_mov_reg exec_mov_str exec_ldc
      divide exec_arr_def exec_arr_load exec_arr_store exec_struct_def exec_struct_load
      exec_struct_store exec_tbl_def exec_tbl_load exec_spill_store exec_spill_load exec_jmp exec_jz
      exec_jnz exec_assert exec_call exec_ret exec_within_start exec_within_end exec_drop
  exec-SameFrame Opcode.call_nat i vm lt = exec_call_nat-SameFrame i vm
  exec-SameFrame _ i vm lt = ground arith

  turn-SameFrame : (vm : Vm) → d < vm.call_sp → Keeps (SameFrame d vm) (turn h s vm)
  turn-SameFrame vm lt =
      turn-Keeps h s (SameFrame d vm) vm (refl, refl) (refl, refl)
        (λ o e. exec-SameFrame o _ (fetched vm) lt)

-- The loop goes from one state to another by turns that all begin above level `d`.
pub data StepsAbove (h : Host) (s : Setup) (d : ℕ) : Vm → Vm → Type 0 where
  stop : {vm : Vm} → StepsAbove h s d vm vm
  step :
      {vm v w : Vm}
      → d < vm.call_sp
      → turn h s vm ≡ running v
      → StepsAbove h s d v w
      → StepsAbove h s d vm w

module _ (h : Host) (s : Setup) where
  StepsAbove-SameFrame : {d : ℕ} {vm w : Vm} → StepsAbove h s d vm w → SameFrame d vm w
  StepsAbove-SameFrame stop = (refl, refl)
  StepsAbove-SameFrame {d} (step {vm} {v} {w} lt e rest) =
      let k : SameFrame d vm v = subst (Keeps (SameFrame d vm)) e (turn-SameFrame h s d vm lt) in
      let l : SameFrame d v w = StepsAbove-SameFrame rest in (l.0 ∙ k.0, l.1 ∙ k.1)

-- `after` is the state `before` the call, as far as a caller can tell, with the result in `$rax`.
pub record Returns (before inside after : Vm) : Type 0 where
  pub depth : after.call_sp ≡ before.call_sp
  pub resumes : after.ip ≡ before.ip % 2 ^ 16
  pub result : after.regs 0 ≡ inside.regs 0
  pub saved : (r : ℕ) → r ≢ 0 → r < 16 → after.regs r ≡ before.regs r
  pub slots : (r : ℕ) → 16 ≤ r → after.regs r ≡ inside.regs r

call_frame :
    (i : Operands) (before : Vm) {entry : Vm}
    → exec_call i before ≡ running entry
    → (entry.frame_stack before.call_sp ≡ before.regs)
      × (entry.call_stack before.call_sp ≡ before.ip % 2 ^ 16)
unfolding exec_call
call_frame i before e = ground arith

-- A call that was made had a place on the call stack.
call_below :
    (i : Operands) (before : Vm) {entry : Vm}
    → exec_call i before ≡ running entry
    → before.call_sp < 8
unfolding exec_call
call_below i before e = ground arith

restore_saved : (frame regs : Cells ℕ) (r : ℕ) → r ≢ 0 → r < 16 → restore frame regs r ≡ frame r
restore_saved frame regs r ne lt = ground arith

-- what RET leaves at a level above the bottom
abbrev ret_state : ℕ → Vm → Vm
ret_state sp vm = record vm {
  call_sp = sp;
  regs = restore (vm.frame_stack sp) vm.regs;
  ip = vm.call_stack sp;
}

ret_lem :
    (sp : ℕ) (vm : Vm) → vm.call_sp ≡ sp + 1 → sp < 8 → exec_ret vm ≡ running (ret_state sp vm)
unfolding exec_ret
ret_lem sp vm e below = let p : vm.call_sp - 1 ≡ sp = omega arith in ground arith

module _ (h : Host) (s : Setup) where
  -- A subroutine call restores the caller's registers `$rcx` to `$r15` and the call depth, keeps
  -- `$rax` and the DMA slots from the callee, and goes on behind the call, whatever the callee did
  -- in between, as long as it stayed above the caller's level: nested calls included.
  pub call-Returns :
      (i : Operands) {before entry inside : Vm}
      → exec_call i before ≡ running entry
      → StepsAbove h s before.call_sp entry inside
      → inside.call_sp ≡ before.call_sp + 1
      → (after : Vm) × (exec_ret inside ≡ running after) × Returns before inside after
  call-Returns i {before} {entry} {inside} called steps level =
      let same : SameFrame before.call_sp entry inside = StepsAbove-SameFrame h s steps in
      let frame = call_frame i before called in
      let saved : inside.frame_stack before.call_sp ≡ before.regs = same.0 ∙ frame.0 in
      (
        ret_state before.call_sp inside,
        ret_lem before.call_sp inside level (call_below i before called),
        record {
          depth = refl;
          resumes = same.1 ∙ frame.1;
          result = ground arith;
          saved = λ r ne lt.
              restore_saved (inside.frame_stack before.call_sp) inside.regs r ne lt
              ∙ ap (λ (f : Cells ℕ). f r) saved;
          slots = λ r le. ground arith;
        },
      )
