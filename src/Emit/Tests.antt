-- ===== src/Emit/Tests.antt =====
-- The emitter of pulselang-core/src/compiler.rs at work: two constants and a jump over them.
use latency_os.Prelude.{false, none, some, ◌≡◌, refl, arith, [], ◌∷◌, update}
use latency_os.Vm.State.{Host, Setup, running, set_reg, new_vm}
use latency_os.Vm.Exec.{fetched, turn}
use latency_os.Emit.{
  Emitter, done, emit_const, emit_imm16, emit_inst, add_constant, append_table_constant, index_from,
  patch_imm16,
}
use latency_os.Emit.Growth.{Extends-refl}
use latency_os.Emit.Constants.{Holds, turn-emit_const}
use latency_os.Emit.Operators.{times, factor_round}
use latency_os.Emit.Jumps.{op_jmp, turn-patch_imm16}

abbrev idle_host : Host
idle_host = record {
  rdtsc = λ _. 0;
  read_key = λ _. 0;
  term_size = λ _. 0;
  file_exists = λ _ _. false;
  file_write = λ _ _ _. false;
}

-- one constant in the pool, and no code yet
abbrev begun : Emitter
begun = record { code = λ _. 0; code_len = 0; const_pool = 70_000 ∷ []; temp_used = 5 }

-- `emit_const 3 90_000`
abbrev with_constant : Emitter
with_constant = record {
  code = update (update (update (update begun.code 0 23) 1 3) 2 0) 3 1;
  code_len = 4;
  const_pool = 70_000 ∷ 90_000 ∷ [];
  temp_used = 5;
}

emits_constant : emit_const 3 90_000 begun ≡ done 0 with_constant
unfolding emit_const emit_imm16 emit_inst add_constant append_table_constant index_from
emits_constant = refl

-- the machine with that code and a HALT behind it
abbrev loading : Setup
loading = record {
  code = 23 ∷ 3 ∷ 0 ∷ 1 ∷ 22 ∷ 0 ∷ 0 ∷ 0 ∷ [];
  str_pool = [];
  const_pool = 70_000 ∷ 90_000 ∷ [];
  args = [];
  max_steps = 10_000;
  replay_config = none;
}

loading-Holds : Holds loading with_constant
loading-Holds = record { room = omega arith; code = λ i lt. ground arith; consts = λ i x e. e }

turn-emit_const_example :
    turn idle_host loading new_vm ≡ running (set_reg (fetched new_vm) 3 90_000)
unfolding new_vm
turn-emit_const_example =
    turn-emit_const idle_host loading 3 90_000 begun {pos = 0} {c' = with_constant} new_vm
      (omega arith) emits_constant loading-Holds refl (omega arith)

-- `emit_imm16 op_jmp 0 0`
abbrev with_jump : Emitter
with_jump = record {
  code = update (update (update (update begun.code 0 15) 1 0) 2 0) 3 0;
  code_len = 4;
  const_pool = 70_000 ∷ [];
  temp_used = 5;
}

emits_jump : emit_imm16 op_jmp 0 0 begun ≡ done 0 with_jump
unfolding emit_imm16 emit_inst
emits_jump = refl

abbrev jumping : Setup
jumping = record loading { code = 15 ∷ 0 ∷ 1 ∷ 4 ∷ []; const_pool = 70_000 ∷ [] }

jumping-Holds : Holds jumping (patch_imm16 0 260 with_jump)
unfolding patch_imm16
jumping-Holds = record { room = omega arith; code = λ i lt. ground arith; consts = λ i x e. e }

turn-patch_imm16_example :
    turn idle_host jumping new_vm ≡ running (record (fetched new_vm) { ip = 260 })
unfolding new_vm
turn-patch_imm16_example =
    turn-patch_imm16 idle_host jumping 0 260 begun {pos = 0} {c1 = with_jump} {c2 = with_jump}
      new_vm emits_jump (Extends-refl with_jump) (omega arith) (omega arith) jumping-Holds refl
      (omega arith)

-- the right operand 90_000 for `$a + 90_000`, with `$a` in register 8
abbrev with_sum : Emitter
with_sum = record {
  code =
      update
        (update
          (update (update (update (update (update (update begun.code 0 23) 1 9) 2 0) 3 1) 4 4) 5 8)
          6 8)
        7 9;
  code_len = 8;
  const_pool = 70_000 ∷ 90_000 ∷ [];
  temp_used = 5;
}

abbrev adding : Setup
adding = record loading { code = 23 ∷ 9 ∷ 0 ∷ 1 ∷ 4 ∷ 8 ∷ 8 ∷ 9 ∷ [] }

-- 1.5 * 2.0 with a scale of 16 bits: the product of the literals is not shifted back.
unscaled :
    factor_round times 8 9 (some 16) (some 16) (some 98_304) (some 131_072) begun
    ≡ done (some 12_884_901_888, some 16) begun
unfolding factor_round
unscaled = refl
