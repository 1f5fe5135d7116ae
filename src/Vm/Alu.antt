-- ===== src/Vm/Alu.antt =====
-- The instructions of `run_with_output` (pulselang-core/src/vm.rs) that only compute a register
-- from registers.
use Prim.Native.Nat.{bit_and, bit_or}
use latency_os.Prelude.{ℕ, Bool, not, ◌&&◌, none, some, update, get_elem?, ◌==◌, if◌then◌else◌}
use latency_os.Prelude.Word.{word_add, word_sub, signed_lt, shift_left, shift_right}
use latency_os.Isa.Limits.{str_tag}
use latency_os.Vm.State.{
  Setup, Vm, Operands, Outcome, running, failed, div_by_zero, const_out_of_bounds, imm16, is_reg,
  set_reg,
}
use latency_os.Vm.Text.{same_str, is_text}

-- `if rd < N && rs1 < N && rs2 < N { self.regs[rd] = f(self.regs[rs1], self.regs[rs2]) }`
unfoldable pub three_regs : (ℕ → ℕ → ℕ) → Operands → Vm → Outcome
three_regs f i vm =
    if is_reg i.rd && (is_reg i.rs1 && is_reg i.rs2)
    then running (record vm { regs = update vm.regs i.rd (f (vm.regs i.rs1) (vm.regs i.rs2)) })
    else running vm

-- the same for two registers
unfoldable pub two_regs : (ℕ → ℕ) → Operands → Vm → Outcome
two_regs f i vm =
    if is_reg i.rd && is_reg i.rs1
    then running (record vm { regs = update vm.regs i.rd (f (vm.regs i.rs1)) })
    else running vm

-- The immediate operand of ADDI and SUBI is the byte `rs2`.
unfoldable pub exec_addi : Operands → Vm → Outcome
unfolding two_regs
exec_addi i vm = two_regs (λ a. word_add a i.rs2) i vm

unfoldable pub exec_subi : Operands → Vm → Outcome
unfolding two_regs
exec_subi i vm = two_regs (λ a. word_sub a i.rs2) i vm

unfoldable pub exec_mov_imm : Operands → Vm → Outcome
exec_mov_imm i vm = running (set_reg vm i.rd (imm16 i))

unfoldable pub exec_mov_reg : Operands → Vm → Outcome
unfolding two_regs
exec_mov_reg i vm = two_regs (λ a. a) i vm

unfoldable pub exec_mov_str : Operands → Vm → Outcome
exec_mov_str i vm = running (set_reg vm i.rd (bit_or (bit_or str_tag (shift_left i.rs1 32)) i.rs2))

unfoldable pub exec_ldc : Setup → Operands → Vm → Outcome
exec_ldc s i vm = elim (get_elem? s.const_pool (imm16 i)) [
  | none ↦ failed const_out_of_bounds vm
  | some c ↦ running (set_reg vm i.rd c)
]

-- Division and remainder return an error on a zero denominator.
unfoldable pub divide : (ℕ → ℕ → ℕ) → Operands → Vm → Outcome
unfolding three_regs
divide f i vm =
    if is_reg i.rd && (is_reg i.rs1 && is_reg i.rs2)
    then (if vm.regs i.rs2 == 0 then failed div_by_zero vm else three_regs f i vm)
    else running vm

abbrev pub flag : Bool → ℕ
flag b = if b then 1 else 0

unfoldable pub shift_left_op : ℕ → ℕ → ℕ
shift_left_op a b = shift_left a (bit_and b 63)

unfoldable pub shift_right_op : ℕ → ℕ → ℕ
shift_right_op a b = shift_right a (bit_and b 63)

-- `==` and `!=`: two tagged values are compared by what they stand for.
unfoldable pub equal_values : Setup → ℕ → ℕ → ℕ
equal_values s a b =
    if a == b then 1 else if is_text a && is_text b then flag (same_str s a b) else 0

unfoldable pub unequal_values : Setup → ℕ → ℕ → ℕ
unequal_values s a b =
    if a == b then 0 else if is_text a && is_text b then flag (not (same_str s a b)) else 1

unfoldable pub equal_strings : Setup → ℕ → ℕ → ℕ
equal_strings s a b = if a == b then 1 else flag (same_str s a b)

abbrev pub less : ℕ → ℕ → ℕ
less a b = flag (signed_lt a b)

abbrev pub less_equal : ℕ → ℕ → ℕ
less_equal a b = flag (not (signed_lt b a))

abbrev pub greater : ℕ → ℕ → ℕ
greater a b = flag (signed_lt b a)

abbrev pub greater_equal : ℕ → ℕ → ℕ
greater_equal a b = flag (not (signed_lt a b))
