-- ===== src/Emit/Jumps.antt =====
-- Jumps forward: `emit_imm16` with a target that is not known yet, and `patch_imm16`, when it is
-- (pulselang-core/src/compiler.rs), run by the machine (pulselang-core/src/vm.rs).
use latency_os.Prelude.{ℕ, ◌+◌, ◌*◌, ◌/◌, ◌%◌, ◌^◌, ◌≤◌, ◌<◌, ◌≡◌, ap, ◌∙◌, arith, length}
use latency_os.Isa.{decode_opcode}
use latency_os.Vm.State.{Host, Setup, Vm, running}
use latency_os.Vm.Flow.{exec_jmp}
use latency_os.Vm.Exec.{byte_at, fetched, exec, dispatch, turn}
use latency_os.Emit.{Emitter, done, emit_imm16, patch_imm16}
use latency_os.Emit.Growth.{Extends}
use latency_os.Emit.Constants.{Holds, emit_imm16-Emits}

abbrev pub op_jmp : ℕ
op_jmp = 15

patched :
    (pos imm : ℕ) (c : Emitter)
    → pos + 4 ≤ 4096
    → ((patch_imm16 pos imm c).code_len ≡ c.code_len)
      × ((patch_imm16 pos imm c).code pos ≡ c.code pos)
      × ((patch_imm16 pos imm c).code (pos + 2) ≡ imm / 256 % 256)
      × ((patch_imm16 pos imm c).code (pos + 3) ≡ imm % 256)
unfolding patch_imm16
patched pos imm c room = (ground arith, ground arith, ground arith, ground arith)

module _ (h : Host) (s : Setup) where
  turn-jmp :
      (vm : Vm) (target : ℕ)
      → vm.ip + 4 ≤ length s.code
      → vm.steps < s.max_steps
      → byte_at s vm.ip ≡ op_jmp
      → byte_at s (vm.ip + 2) * 256 + byte_at s (vm.ip + 3) ≡ target
      → turn h s vm ≡ running (record (fetched vm) { ip = target })
  unfolding turn dispatch exec exec_jmp decode_opcode
  turn-jmp vm target room left e there = rw e (ground arith)

  -- A jump that was emitted before its target was known goes there once it is patched, whatever
  -- was emitted in between and whatever follows.
  pub turn-patch_imm16 :
      (placeholder target : ℕ) (c : Emitter) {pos : ℕ} {c1 c2 : Emitter} (vm : Vm)
      → emit_imm16 op_jmp 0 placeholder c ≡ done pos c1
      → Extends c1 c2
      → c2.code_len ≤ 4096
      → target < 2 ^ 16
      → Holds s (patch_imm16 pos target c2)
      → vm.ip ≡ pos
      → vm.steps < s.max_steps
      → turn h s vm ≡ running (record (fetched vm) { ip = target })
  turn-patch_imm16 placeholder target c {pos} {c1} {c2} vm e grown fits small held p left =
      let (here, first) = emit_imm16-Emits op_jmp 0 placeholder c e in
      let room : pos + 4 ≤ c2.code_len = omega (arith, first.length, grown.length) in
      let (len, op, high, low) = patched pos target c2 (omega arith) in
      let opcode : c2.code pos ≡ op_jmp =
        grown.code pos (omega (arith, first.length)) ∙ ap c1.code here ∙ first.opcode in
      turn-jmp vm target (omega (arith, held.room)) left
        (rw p (held.code pos (omega arith) ∙ op ∙ opcode))
        (rw p (
          omega (
            arith,
            held.code (pos + 2) (omega arith),
            high,
            held.code (pos + 3) (omega arith),
            low,
          )))
