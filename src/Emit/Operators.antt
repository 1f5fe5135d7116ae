-- ===== src/Emit/Operators.antt =====
-- The binary operators of `Compiler` in pulselang-core/src/compiler.rs: what one round of the loops
-- of `logic_or` down to `factor` does when both operands have been compiled. An operand is a
-- constant, or its value is in its register when the code emitted so far has run.
use latency_os.Prelude.{
  ℕ, ◌%◌, ◌^◌, Bool, true, false, not, ◌&&◌, ◌||◌, Option, none, some, bit_and, bit_or, bit_xor,
  ◌==◌, if◌then◌else◌,
}
use latency_os.Prelude.Word.{word_add, word_sub, word_mul, word_div, word_rem}
use latency_os.Vm.Alu.{
  flag, less, less_equal, greater, greater_equal, shift_left_op, shift_right_op,
}
use latency_os.Emit.{
  Emitter, Emitted, done, refused, const_div_by_zero, fixed_scale_mismatch, emit_inst, emit_imm16,
  emit_const, alloc_temp, free_temp, op_mov_imm,
}

-- the operators whose rounds emit one instruction
pub data BinOp : Type 0 where
  eq_eq not_eq lt lt_eq gt gt_eq pipe caret amp shl shr plus minus star slash percent : BinOp

-- what two constants come to; `none` is a division by zero
unfoldable pub fold : BinOp → ℕ → ℕ → Option ℕ
fold eq_eq a b = some (flag (a == b))
fold not_eq a b = some (flag (not (a == b)))
fold lt a b = some (less a b)
fold lt_eq a b = some (less_equal a b)
fold gt a b = some (greater a b)
fold gt_eq a b = some (greater_equal a b)
fold pipe a b = some (bit_or a b)
fold caret a b = some (bit_xor a b)
fold amp a b = some (bit_and a b)
fold shl a b = some (shift_left_op a b)
fold shr a b = some (shift_right_op a b)
fold plus a b = some (word_add a b)
fold minus a b = some (word_sub a b)
fold star a b = some (word_mul a b)
fold slash a b = if b == 0 then none else some (word_div a b)
fold percent a b = if b == 0 then none else some (word_rem a b)

unfoldable pub opcode_of : BinOp → ℕ
opcode_of eq_eq = 9
opcode_of not_eq = 10
opcode_of lt = 11
opcode_of lt_eq = 12
opcode_of gt = 13
opcode_of gt_eq = 14
opcode_of pipe = 27
opcode_of caret = 28
opcode_of amp = 26
opcode_of shl = 29
opcode_of shr = 30
opcode_of plus = 4
opcode_of minus = 5
opcode_of star = 6
opcode_of slash = 7
opcode_of percent = 8

-- `?` on a result, with the state passed on
infixl 5 ◌>>=◌
abbrev pub ◌>>=◌ : {A B : Type 0} → Emitted A → (A → Emitter → Emitted B) → Emitted B
done a c >>= f = f a c
refused e >>= f = refused e

-- `if let Some(a) = val { self.emit_const(reg, a)?; }`
unfoldable pub materialize : Option ℕ → ℕ → Emitter → Emitted Unit
unfolding emit_const
materialize none reg c = done tt c
materialize (some a) reg c = emit_const reg a c >>= λ _ c'. done tt c'

abbrev pub materialize_both : Option ℕ → Option ℕ → ℕ → ℕ → Emitter → Emitted Unit
materialize_both val rhs_val dst rhs_reg c =
    materialize val dst c >>= λ _ c1. materialize rhs_val rhs_reg c1

-- the part of a round for operands that are not both constants
unfoldable pub emit_operator : BinOp → ℕ → ℕ → Option ℕ → Option ℕ → Emitter → Emitted (Option ℕ)
unfolding materialize emit_inst opcode_of
emit_operator op dst rhs_reg val rhs_val c =
    materialize_both val rhs_val dst rhs_reg c
    >>= (λ _ c1. emit_inst (opcode_of op) dst dst rhs_reg c1)
    >>= λ _ c2. done none c2

abbrev pub folded : Option ℕ → Emitter → Emitted (Option ℕ)
folded none c = refused const_div_by_zero
folded (some v) c = done (some v) c

-- The part of a round that knows nothing of scales: all of a round of `equality`, `comparison`,
-- `bitwise_or`, `bitwise_xor`, `bitwise_and` and `shift`, and that of `term` behind its test.
unfoldable pub binary_round : BinOp → ℕ → ℕ → Option ℕ → Option ℕ → Emitter → Emitted (Option ℕ)
unfolding fold emit_operator
binary_round op dst rhs_reg (some a) (some b) c = folded (fold op a b) c
binary_round op dst rhs_reg (some a) none c = emit_operator op dst rhs_reg (some a) none c
binary_round op dst rhs_reg none rhs_val c = emit_operator op dst rhs_reg none rhs_val c

-- The scales of both operands of `term`, and the scale afterwards; different scales are an error.
abbrev pub term_scale : Option ℕ → Option ℕ → Emitter → Emitted (Option ℕ)
term_scale (some s1) (some s2) c =
    if s1 == s2 then done (some s1) c else refused fixed_scale_mismatch
term_scale none rhs_scale c = done rhs_scale c
term_scale (some s1) none c = done none c

-- a round of `term`: `+` and `-`
unfoldable pub term_round :
    Bool
    → ℕ
    → ℕ
    → Option ℕ
    → Option ℕ
    → Option ℕ
    → Option ℕ
    → Emitter
    → Emitted (Option ℕ × Option ℕ)
unfolding binary_round
term_round is_plus dst rhs_reg lhs_scale rhs_scale val rhs_val c =
    term_scale lhs_scale rhs_scale c >>= λ scale c1.
    binary_round (if is_plus then plus else minus) dst rhs_reg val rhs_val c1 >>= λ v c2.
    done (v, scale) c2

-- a shift of `dst` by the scale, which is loaded into a scratch register
unfoldable pub emit_scale_shift : BinOp → ℕ → ℕ → Emitter → Emitted Unit
unfolding alloc_temp emit_imm16 emit_inst free_temp opcode_of
emit_scale_shift op dst s c = alloc_temp c >>= λ shift_reg c1.
    emit_imm16 op_mov_imm shift_reg (s % 2 ^ 16) c1 >>= λ _ c2.
    emit_inst (opcode_of op) dst dst shift_reg c2 >>= λ _ c3. done tt (free_temp shift_reg c3)

-- a product, and the shift that brings it back to the scale
abbrev emit_scaled_star : ℕ → ℕ → ℕ → Option ℕ → Emitter → Emitted (Option ℕ)
emit_scaled_star dst rhs_reg s scale c = emit_inst (opcode_of star) dst dst rhs_reg c >>= λ _ c1.
    emit_scale_shift shr dst s c1 >>= λ _ c2. done scale c2

-- the instructions of `factor` for operands in their registers, and the scale afterwards
unfoldable pub emit_star : ℕ → ℕ → Option ℕ → Option ℕ → Emitter → Emitted (Option ℕ)
unfolding emit_inst emit_scale_shift opcode_of
emit_star dst rhs_reg (some s1) (some s2) c =
    if s1 == s2 then emit_scaled_star dst rhs_reg s1 (some s1) c else refused fixed_scale_mismatch
emit_star dst rhs_reg (some s) none c = emit_scaled_star dst rhs_reg s none c
emit_star dst rhs_reg none (some s) c = emit_scaled_star dst rhs_reg s none c
emit_star dst rhs_reg none none c =
    emit_inst (opcode_of star) dst dst rhs_reg c >>= λ _ c1. done none c1

abbrev emit_quotient : ℕ → ℕ → Option ℕ → Emitter → Emitted (Option ℕ)
emit_quotient dst rhs_reg scale c =
    emit_inst (opcode_of slash) dst dst rhs_reg c >>= λ _ c1. done scale c1

abbrev emit_scaled_slash : ℕ → ℕ → ℕ → Emitter → Emitted (Option ℕ)
emit_scaled_slash dst rhs_reg s c =
    emit_scale_shift shl dst s c >>= λ _ c1. emit_quotient dst rhs_reg (some s) c1

unfoldable pub emit_slash : ℕ → ℕ → Option ℕ → Option ℕ → Emitter → Emitted (Option ℕ)
unfolding emit_inst emit_scale_shift opcode_of
emit_slash dst rhs_reg (some s1) (some s2) c =
    if s1 == s2 then emit_scaled_slash dst rhs_reg s1 c else refused fixed_scale_mismatch
emit_slash dst rhs_reg (some s1) none c = emit_quotient dst rhs_reg none c
emit_slash dst rhs_reg none rhs_scale c = emit_quotient dst rhs_reg none c

-- the operators of `factor`
pub data FactorOp : Type 0 where
  times over modulo : FactorOp

abbrev pub factor_op : FactorOp → BinOp
factor_op times = star
factor_op over = slash
factor_op modulo = percent

unfoldable pub emit_factor : FactorOp → ℕ → ℕ → Option ℕ → Option ℕ → Emitter → Emitted (Option ℕ)
unfolding emit_star emit_slash emit_inst opcode_of
emit_factor times dst rhs_reg lhs_scale rhs_scale c = emit_star dst rhs_reg lhs_scale rhs_scale c
emit_factor over dst rhs_reg lhs_scale rhs_scale c = emit_slash dst rhs_reg lhs_scale rhs_scale c
emit_factor modulo dst rhs_reg lhs_scale rhs_scale c =
    emit_inst (opcode_of percent) dst dst rhs_reg c >>= λ _ c1. done none c1

-- nothing is folded then
abbrev pub factor_end : Option ℕ → Emitter → Emitted (Option ℕ × Option ℕ)
factor_end scale c = done (none, scale) c

abbrev pub emit_factor_round :
    FactorOp
    → ℕ
    → ℕ
    → Option ℕ
    → Option ℕ
    → Option ℕ
    → Option ℕ
    → Emitter
    → Emitted (Option ℕ × Option ℕ)
emit_factor_round op dst rhs_reg lhs_scale rhs_scale val rhs_val c =
    materialize_both val rhs_val dst rhs_reg c >>= λ _ c1.
    emit_factor op dst rhs_reg lhs_scale rhs_scale c1 >>= factor_end

-- A round of `factor`. Two constants are folded as they are, and the scale stays as it is.
unfoldable pub factor_round :
    FactorOp
    → ℕ
    → ℕ
    → Option ℕ
    → Option ℕ
    → Option ℕ
    → Option ℕ
    → Emitter
    → Emitted (Option ℕ × Option ℕ)
unfolding fold materialize emit_factor
factor_round op dst rhs_reg lhs_scale rhs_scale (some a) (some b) c =
    folded (fold (factor_op op) a b) c >>= λ v c1. done (v, rhs_scale) c1
factor_round op dst rhs_reg lhs_scale rhs_scale (some a) none c =
    emit_factor_round op dst rhs_reg lhs_scale rhs_scale (some a) none c
factor_round op dst rhs_reg lhs_scale rhs_scale none rhs_val c =
    emit_factor_round op dst rhs_reg lhs_scale rhs_scale none rhs_val c

-- The round of any of the operators, in the loop that reads it, with the scales before and
-- afterwards. Only `term` and `factor` read or set a scale: the other loops leave that of the right
-- operand.
unfoldable pub round :
    BinOp
    → ℕ
    → ℕ
    → Option ℕ
    → Option ℕ
    → Option ℕ
    → Option ℕ
    → Emitter
    → Emitted (Option ℕ × Option ℕ)
unfolding binary_round term_round factor_round
round plus dst rhs_reg lhs_scale rhs_scale val rhs_val c =
    term_round true dst rhs_reg lhs_scale rhs_scale val rhs_val c
round minus dst rhs_reg lhs_scale rhs_scale val rhs_val c =
    term_round false dst rhs_reg lhs_scale rhs_scale val rhs_val c
round star dst rhs_reg lhs_scale rhs_scale val rhs_val c =
    factor_round times dst rhs_reg lhs_scale rhs_scale val rhs_val c
round slash dst rhs_reg lhs_scale rhs_scale val rhs_val c =
    factor_round over dst rhs_reg lhs_scale rhs_scale val rhs_val c
round percent dst rhs_reg lhs_scale rhs_scale val rhs_val c =
    factor_round modulo dst rhs_reg lhs_scale rhs_scale val rhs_val c
round op dst rhs_reg lhs_scale rhs_scale val rhs_val c =
    binary_round op dst rhs_reg val rhs_val c >>= λ v c1. done (v, rhs_scale) c1

-- whether `factor` shifts for the scales of the operands
unfoldable pub shifts : BinOp → Option ℕ → Option ℕ → Bool
shifts star (some s1) rhs_scale = true
shifts star none (some s2) = true
shifts slash (some s1) (some s2) = true
shifts op lhs_scale rhs_scale = false

-- `&&` and `||`: of two constants
unfoldable pub fold_logic : Bool → ℕ → ℕ → ℕ
fold_logic is_and a b =
    if is_and then flag (not (a == 0) && not (b == 0)) else flag (not (a == 0) || not (b == 0))

-- each operand is compared with 0, and the results are put together
unfoldable pub emit_logic : Bool → ℕ → ℕ → Option ℕ → Option ℕ → Emitter → Emitted (Option ℕ)
unfolding materialize alloc_temp emit_const emit_inst free_temp opcode_of
emit_logic is_and dst rhs_reg val rhs_val c = materialize_both val rhs_val dst rhs_reg c >>= λ _ c1.
    alloc_temp c1 >>= λ zero_reg c2. emit_const zero_reg 0 c2 >>= λ _ c3.
    emit_inst (opcode_of not_eq) dst dst zero_reg c3 >>= λ _ c4. alloc_temp c4 >>= λ rhs_bool c5.
    emit_inst (opcode_of not_eq) rhs_bool rhs_reg zero_reg c5 >>= λ _ c6.
    emit_inst (if is_and then opcode_of amp else opcode_of pipe) dst dst rhs_bool c6 >>= λ _ c7.
    done none (free_temp zero_reg (free_temp rhs_bool c7))

-- a round of `logic_and` or `logic_or`
unfoldable pub logic_round : Bool → ℕ → ℕ → Option ℕ → Option ℕ → Emitter → Emitted (Option ℕ)
unfolding fold_logic emit_logic
logic_round is_and dst rhs_reg (some a) (some b) c = done (some (fold_logic is_and a b)) c
logic_round is_and dst rhs_reg (some a) none c = emit_logic is_and dst rhs_reg (some a) none c
logic_round is_and dst rhs_reg none rhs_val c = emit_logic is_and dst rhs_reg none rhs_val c
