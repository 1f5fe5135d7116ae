-- ===== src/Vm/Effect.antt =====
-- What an instruction of `run_with_output` (pulselang-core/src/vm.rs) leaves, as a predicate on its
-- outcome, and which instructions leave the two counters alone.
use latency_os.Prelude.{
  ◌+◌, ◌∙◌, ap, Bool-cases, inl, inr, leb, length, ℕ, suc, ◌≡◌, refl, ◌≢◌, arith, Option, none,
  some,
}
use latency_os.Isa.{Opcode, Native, decode_opcode, decode_native}
use latency_os.Vm.State.{
  reg_or, Host, Setup, Vm, Operands, Outcome, running, halted, failed, panicked, invalid_opcode,
  set_reg,
}
use latency_os.Vm.Alu.{
  three_regs, exec_addi, exec_subi, exec_mov_imm, exec_mov_reg, exec_mov_str, exec_ldc, divide,
}
use latency_os.Vm.Slots.{
  exec_arr_def, exec_arr_load, exec_arr_store, exec_struct_def, exec_struct_load, exec_struct_store,
  exec_tbl_def, exec_tbl_load, exec_spill_store, exec_spill_load,
}
use latency_os.Vm.Flow.{
  exec_jmp, exec_jz, exec_jnz, exec_assert, exec_call, exec_ret, exec_within_start, exec_within_end,
  exec_drop,
}
use latency_os.Vm.Calls.{
  Reply, gives, fails, panics, unwrap, vram_read, vram_write, file_write, fix_div, native_call,
  call_native, exec_call_nat,
}
use latency_os.Vm.Exec.{exec, dispatch, turn, run, fetched, byte_at, operands_at}

-- `P` holds of the state that an instruction leaves, unless it panics.
abbrev pub Keeps : (Vm → Type 0) → Outcome → Type 0
Keeps P (running vm) = P vm
Keeps P (halted vm) = P vm
Keeps P (failed e vm) = P vm
Keeps P panicked = Unit

-- the same for a native function
abbrev pub KeepsReply : (Vm → Type 0) → Reply → Type 0
KeepsReply P (gives v vm) = P vm
KeepsReply P (fails e) = Unit
KeepsReply P panics = Unit

-- To lift a predicate from the native functions to CALL_NAT, from the instructions to `dispatch`,
-- and from there to a turn of the loop.
module _ (h : Host) (s : Setup) (P : Vm → Type 0) where
  call_native-Keeps :
      (id r v : ℕ) (vm : Vm)
      → P vm
      → ((f : Native) → decode_native id ≡ some f → KeepsReply P (native_call h s f r v vm))
      → KeepsReply P (call_native h s id r v vm)
  unfolding call_native
  call_native-Keeps id r v vm p k = go (decode_native id) k
    where
      go :
          (d : Option Native)
          → ((f : Native) → d ≡ some f → KeepsReply P (native_call h s f r v vm))
          → KeepsReply P (elim d [ none ↦ gives 0 vm | some f ↦ native_call h s f r v vm ])
      go none k = p
      go (some f) k = k f refl

  pub exec_call_nat-Keeps :
      (i : Operands) (vm : Vm)
      → ((v : Vm) (x : ℕ) → P v → P (set_reg v i.rd x))
      → P vm
      → ((f : Native)
          → decode_native i.rs1 ≡ some f
          → KeepsReply P (native_call h s f i.rs2 (reg_or vm i.rs2 0) vm))
      → Keeps P (exec_call_nat h s i vm)
  unfolding exec_call_nat
  exec_call_nat-Keeps i vm stable p k =
      go _ (call_native-Keeps i.rs1 i.rs2 (reg_or vm i.rs2 0) vm p k)
    where
      go :
          (reply : Reply)
          → KeepsReply P reply
          → Keeps P (elim reply [
            | gives ret vm' ↦ running (set_reg vm' i.rd ret)
            | fails e ↦ failed e vm
            | panics ↦ panicked
          ])
      go (gives ret vm') q = stable vm' ret q
      go (fails e) q = p
      go panics q = tt

  pub dispatch-Keeps :
      (op : ℕ) (i : Operands) (vm : Vm)
      → P vm
      → ((o : Opcode) → decode_opcode op ≡ some o → Keeps P (exec h s o i vm))
      → Keeps P (dispatch h s op i vm)
  unfolding dispatch
  dispatch-Keeps op i vm p k = go (decode_opcode op) k
    where
      go :
          (d : Option Opcode)
          → ((o : Opcode) → d ≡ some o → Keeps P (exec h s o i vm))
          → Keeps P (elim d [ none ↦ failed invalid_opcode vm | some o ↦ exec h s o i vm ])
      go none k = p
      go (some o) k = k o refl

  pub turn-Keeps :
      (vm : Vm)
      → P vm
      → P (fetched vm)
      → ((o : Opcode)
          → decode_opcode (byte_at s vm.ip) ≡ some o
          → Keeps P (exec h s o (operands_at s vm.ip) (fetched vm)))
      → Keeps P (turn h s vm)
  unfolding turn
  turn-Keeps vm p q k = elim (Bool-cases (leb (vm.ip + 4) (length s.code))) [
    | inr out ↦ rw out p
    | inl inside ↦ rw inside (elim (Bool-cases (leb s.max_steps vm.steps)) [
      | inl over ↦ rw over p
      | inr left ↦ rw left (dispatch-Keeps (byte_at s vm.ip) (operands_at s vm.ip) (fetched vm) q k)
    ])
  ]

abbrev pub Counts : Vm → Vm → Type 0
Counts vm vm' = (vm'.steps ≡ vm.steps) × (vm'.clock ≡ vm.clock)

module _ (h : Host) (s : Setup) where
  native_call-Counts :
      (f : Native) (r v : ℕ) (vm : Vm)
      → f ≢ Native.term_read_key
      → KeepsReply (Counts vm) (native_call h s f r v vm)
  unfolding native_call unwrap vram_read vram_write file_write fix_div
  native_call-Counts Native.term_read_key r v vm ne = absurd (ne refl)
  native_call-Counts _ r v vm ne = ground arith

  -- No instruction but CALL_NAT touches the counters.
  exec-Counts :
      (o : Opcode) (i : Operands) (vm : Vm)
      → (o ≡ Opcode.call_nat → decode_native i.rs1 ≢ some Native.term_read_key)
      → Keeps (Counts vm) (exec h s o i vm)
  unfolding exec three_regs exec_addi exec_subi exec_mov_imm exec_mov_reg exec_mov_str exec_ldc
      divide exec_arr_def exec_arr_load exec_arr_store exec_struct_def exec_struct_load
      exec_struct_store exec_tbl_def exec_tbl_load exec_spill_store exec_spill_load exec_jmp exec_jz
      exec_jnz exec_assert exec_call exec_ret exec_within_start exec_within_end exec_drop
  exec-Counts Opcode.call_nat i vm ne =
      exec_call_nat-Keeps h s (Counts vm) i vm (λ v x k. ground arith) (refl, refl)
        (λ f e. native_call-Counts f _ _ vm (λ p. ne refl (e ∙ ap some p)))
  exec-Counts _ i vm ne = ground arith

  pub dispatch-Counts :
      (op : ℕ) (i : Operands) (vm : Vm)
      → (decode_opcode op ≡ some Opcode.call_nat → decode_native i.rs1 ≢ some Native.term_read_key)
      → Keeps (Counts vm) (dispatch h s op i vm)
  dispatch-Counts op i vm ne =
      dispatch-Keeps h s (Counts vm) op i vm (refl, refl)
        (λ o e. exec-Counts o i vm (λ p. ne (e ∙ ap some p)))

  -- one step of the loop
  pub run-running :
      (fuel : ℕ) (vm v : Vm) → turn h s vm ≡ running v → run h s (suc fuel) vm ≡ run h s fuel v
  unfolding run
  run-running fuel vm v e = rw (e, run)
