-- ===== src/Emit/Machine.antt =====
-- The instruction of a binary operator (pulselang-core/src/compiler.rs), run by the machine
-- (pulselang-core/src/vm.rs).
use latency_os.Prelude.{
  ℕ, ◌+◌, ◌≤◌, ◌<◌, ◌≡◌, bit_and, bit_or, bit_xor, refl, ap, ap₂, ◌∙◌, arith, true, false, not,
  ◌&&◌, none, some, update, length, leb, ◌==◌, if◌then◌else◌, Bool-cases, inl, inr,
}
use latency_os.Isa.{decode_opcode}
use latency_os.Vm.State.{Host, Setup, Vm, Operands, running, is_reg}
use latency_os.Prelude.Word.{word_add, word_sub, word_mul, word_div, word_rem}
use latency_os.Vm.Alu.{
  three_regs, divide, equal_values, unequal_values, flag, less, less_equal, greater, greater_equal,
  shift_left_op, shift_right_op,
}
use latency_os.Vm.Text.{is_text}
use latency_os.Vm.Exec.{byte_at, operands_at, fetched, exec, dispatch, turn}
use latency_os.Emit.{Emitter, done, emit_inst}
use latency_os.Emit.Constants.{Holds}
use latency_os.Emit.Growth.{Extends}
use latency_os.Emit.Operators.{
  BinOp, eq_eq, not_eq, lt, lt_eq, gt, gt_eq, pipe, caret, amp, shl, shr, plus, minus, star, slash,
  percent, fold, opcode_of,
}

-- a setup that holds an emitter's code holds what was emitted before, too
pub Holds-Extends : {s : Setup} {c c' : Emitter} → Extends c c' → Holds s c' → Holds s c
Holds-Extends e held = record {
  room = omega (arith, e.length, held.room);
  code = λ i lt. held.code i (omega (arith, e.length)) ∙ e.code i lt;
  consts = λ i x found. held.consts i x (e.consts i x found);
}

some-cancel : {a b : ℕ} → some a ≡ some b → a ≡ b
some-cancel e = ground arith

pub emit_inst-bytes :
    (op rd rs1 rs2 : ℕ) (c : Emitter) {pos : ℕ} {c' : Emitter}
    → emit_inst op rd rs1 rs2 c ≡ done pos c'
    → (c'.code_len ≡ c.code_len + 4)
      × (c'.code c.code_len ≡ op)
      × (c'.code (c.code_len + 1) ≡ rd)
      × (c'.code (c.code_len + 2) ≡ rs1)
      × (c'.code (c.code_len + 3) ≡ rs2)
unfolding emit_inst
emit_inst-bytes op rd rs1 rs2 c {pos} {c'} e =
    (ground arith, ground arith, ground arith, ground arith, ground arith)

abbrev pub AreRegs : Operands → Type 0
AreRegs i = (is_reg i.rd ≡ true) × (is_reg i.rs1 ≡ true) × (is_reg i.rs2 ≡ true)

module _ (h : Host) (s : Setup) where
  -- turns of the machine, one after the other
  pub data Reaches : Vm → Vm → Type 0 where
    here : {vm : Vm} → Reaches vm vm
    next : {vm vm1 vm2 : Vm} → turn h s vm ≡ running vm1 → Reaches vm1 vm2 → Reaches vm vm2

  turn-dispatch :
      (vm : Vm)
      → vm.ip + 4 ≤ length s.code
      → vm.steps < s.max_steps
      → turn h s vm ≡ dispatch h s (byte_at s vm.ip) (operands_at s vm.ip) (fetched vm)
  unfolding turn
  turn-dispatch vm room left =
      let fits : leb (vm.ip + 4) (length s.code) ≡ true = ground arith in
      let more : leb s.max_steps vm.steps ≡ false = ground arith in rw (fits, more) refl

  pub turn-emit_inst :
      (op rd rs1 rs2 : ℕ) (c : Emitter) {pos : ℕ} {c' : Emitter} (vm : Vm)
      → emit_inst op rd rs1 rs2 c ≡ done pos c'
      → Holds s c'
      → vm.ip ≡ c.code_len
      → vm.steps < s.max_steps
      → turn h s vm ≡ dispatch h s op (record { rd = rd; rs1 = rs1; rs2 = rs2 }) (fetched vm)
  turn-emit_inst op rd rs1 rs2 c {pos} {c'} vm e held p left =
      let (len, b0, b1, b2, b3) = emit_inst-bytes op rd rs1 rs2 c e in
      let at_op : byte_at s vm.ip ≡ op = rw p (held.code c.code_len (omega (arith, len)) ∙ b0) in
      let at_rd : byte_at s (vm.ip + 1) ≡ rd =
        rw p (held.code (c.code_len + 1) (omega (arith, len)) ∙ b1) in
      let at_rs1 : byte_at s (vm.ip + 2) ≡ rs1 =
        rw p (held.code (c.code_len + 2) (omega (arith, len)) ∙ b2) in
      let at_rs2 : byte_at s (vm.ip + 3) ≡ rs2 =
        rw p (held.code (c.code_len + 3) (omega (arith, len)) ∙ b3) in
      turn-dispatch vm (omega (arith, len, held.room)) left
      ∙ ap₂
          (λ (o d : ℕ).
            dispatch h s o
              (record { rd = d; rs1 = byte_at s (vm.ip + 2); rs2 = byte_at s (vm.ip + 3) })
              (fetched vm))
          at_op at_rd
      ∙ ap₂ (λ (a b : ℕ). dispatch h s op (record { rd = rd; rs1 = a; rs2 = b }) (fetched vm))
          at_rs1 at_rs2

  three_regs_lem :
      (f : ℕ → ℕ → ℕ) (i : Operands) (vm : Vm) (v : ℕ)
      → AreRegs i
      → f (vm.regs i.rs1) (vm.regs i.rs2) ≡ v
      → three_regs f i vm ≡ running (record vm { regs = update vm.regs i.rd v })
  unfolding three_regs
  three_regs_lem f i vm v (rd, rs1, rs2) e =
      rw (rd, rs1, rs2) (ap (λ (x : ℕ). running (record vm { regs = update vm.regs i.rd x })) e)

  divide_lem :
      (f : ℕ → ℕ → ℕ) (i : Operands) (vm : Vm) (v : ℕ)
      → AreRegs i
      → (if vm.regs i.rs2 == 0 then none else some (f (vm.regs i.rs1) (vm.regs i.rs2))) ≡ some v
      → divide f i vm ≡ running (record vm { regs = update vm.regs i.rd v })
  unfolding divide
  divide_lem f i vm v (rd, rs1, rs2) e = elim (Bool-cases (vm.regs i.rs2 == 0)) [
    | inl zero_divisor ↦ absurd (ground (arith, zero_divisor, e))
    | inr nonzero ↦
        let value : f (vm.regs i.rs1) (vm.regs i.rs2) ≡ v = ground (arith, nonzero, e) in
        rw (rd, rs1, rs2, nonzero)
          (ap (λ (x : ℕ). running (record vm { regs = update vm.regs i.rd x })) value)
  ]

  equal_values-fold :
      (a b : ℕ) → (is_text a && is_text b) ≡ false → equal_values s a b ≡ flag (a == b)
  unfolding equal_values
  equal_values-fold a b plain = elim (Bool-cases (a == b)) [
    | inl same ↦ rw same refl
    | inr other ↦ rw (other, plain) refl
  ]

  unequal_values-fold :
      (a b : ℕ) → (is_text a && is_text b) ≡ false → unequal_values s a b ≡ flag (not (a == b))
  unfolding unequal_values
  unequal_values-fold a b plain = elim (Bool-cases (a == b)) [
    | inl same ↦ rw same refl
    | inr other ↦ rw (other, plain) refl
  ]

  -- The instruction of an operator computes what two constants would be folded to. Comparisons for
  -- equality look at the texts behind two tagged values, so one of the two is no tagged value.
  pub dispatch-opcode_of :
      (op : BinOp) (i : Operands) (vm : Vm) (v : ℕ)
      → AreRegs i
      → (is_text (vm.regs i.rs1) && is_text (vm.regs i.rs2)) ≡ false
      → fold op (vm.regs i.rs1) (vm.regs i.rs2) ≡ some v
      → dispatch h s (opcode_of op) i vm ≡ running (record vm { regs = update vm.regs i.rd v })
  unfolding dispatch exec decode_opcode opcode_of fold
  dispatch-opcode_of eq_eq i vm v regs plain e =
      three_regs_lem (equal_values s) i vm v regs (equal_values-fold _ _ plain ∙ some-cancel e)
  dispatch-opcode_of not_eq i vm v regs plain e =
      three_regs_lem (unequal_values s) i vm v regs (unequal_values-fold _ _ plain ∙ some-cancel e)
  dispatch-opcode_of lt i vm v regs plain e = three_regs_lem less i vm v regs (some-cancel e)
  dispatch-opcode_of lt_eq i vm v regs plain e =
      three_regs_lem less_equal i vm v regs (some-cancel e)
  dispatch-opcode_of gt i vm v regs plain e = three_regs_lem greater i vm v regs (some-cancel e)
  dispatch-opcode_of gt_eq i vm v regs plain e =
      three_regs_lem greater_equal i vm v regs (some-cancel e)
  dispatch-opcode_of pipe i vm v regs plain e = three_regs_lem bit_or i vm v regs (some-cancel e)
  dispatch-opcode_of caret i vm v regs plain e = three_regs_lem bit_xor i vm v regs (some-cancel e)
  dispatch-opcode_of amp i vm v regs plain e = three_regs_lem bit_and i vm v regs (some-cancel e)
  dispatch-opcode_of shl i vm v regs plain e =
      three_regs_lem shift_left_op i vm v regs (some-cancel e)
  dispatch-opcode_of shr i vm v regs plain e =
      three_regs_lem shift_right_op i vm v regs (some-cancel e)
  dispatch-opcode_of plus i vm v regs plain e = three_regs_lem word_add i vm v regs (some-cancel e)
  dispatch-opcode_of minus i vm v regs plain e = three_regs_lem word_sub i vm v regs (some-cancel e)
  dispatch-opcode_of star i vm v regs plain e = three_regs_lem word_mul i vm v regs (some-cancel e)
  dispatch-opcode_of slash i vm v regs plain e = divide_lem word_div i vm v regs e
  dispatch-opcode_of percent i vm v regs plain e = divide_lem word_rem i vm v regs e

  pub Reaches-trans : {vm vm1 vm2 : Vm} → Reaches vm vm1 → Reaches vm1 vm2 → Reaches vm vm2
  Reaches-trans here r = r
  Reaches-trans (next e q) r = next e (Reaches-trans q r)
