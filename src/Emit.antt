-- ===== src/Emit.antt =====
-- The code generator's own state in pulselang-core/src/compiler.rs: the code buffer, the pool of
-- constants and the scratch registers of `Compiler`, and the methods that change them.
pub mod Constants
pub mod Growth
pub mod Jumps
pub mod Operators
pub mod Rounds
pub mod Machine
pub mod Binary
pub mod Temps
mod Tests
use latency_os.Prelude.{
  ℕ, zero, suc, ◌+◌, ◌-◌, ◌*◌, ◌/◌, ◌%◌, ◌^◌, Option, none, some, List, [], ◌∷◌, ◌++◌, ◌&&◌, Cells,
  update, bit_and, bit_or, length, ltb, leb, ◌==◌, if◌then◌else◌,
}
use latency_os.Isa.Limits.{max_const_pool}

-- The fields `code`, `code_len`, `const_pool` up to `const_pool_len`, and `temp_used`.
pub record Emitter : Type 0 where
  pub code : Cells ℕ
  pub code_len : ℕ
  pub const_pool : List ℕ
  pub temp_used : ℕ

unfoldable pub new_emitter : Emitter
new_emitter = record { code = λ _. 0; code_len = 0; const_pool = []; temp_used = 0 }

pub data EmitError : Type 0 where
  bytecode_overflow const_pool_full expr_too_complex : EmitError
  const_div_by_zero fixed_scale_mismatch : EmitError

-- An error ends the compilation, so no state goes with it.
pub data Emitted (A : Type 0) : Type 0 where
  done : A → Emitter → Emitted A
  refused : EmitError → Emitted A

abbrev pub max_bytecode_size : ℕ
max_bytecode_size = 4096

abbrev pub op_mov_imm : ℕ
op_mov_imm = 1

abbrev pub op_ldc : ℕ
op_ldc = 23

-- The position of the instruction is the result.
unfoldable pub emit_inst : ℕ → ℕ → ℕ → ℕ → Emitter → Emitted ℕ
emit_inst op rd rs1 rs2 c =
    let pos = c.code_len in
    if ltb max_bytecode_size (c.code_len + 4)
    then refused bytecode_overflow
    else done pos (record c {
      code =
          update (update (update (update c.code pos op) (pos + 1) rd) (pos + 2) rs1) (pos + 3) rs2;
      code_len = c.code_len + 4;
    })

unfoldable pub emit_imm16 : ℕ → ℕ → ℕ → Emitter → Emitted ℕ
unfolding emit_inst
emit_imm16 op rd imm c = emit_inst op rd (imm / 256 % 256) (imm % 256) c

-- The target of a jump, filled in when it is known.
unfoldable pub patch_imm16 : ℕ → ℕ → Emitter → Emitter
patch_imm16 pos imm c =
    if ltb (pos + 3) max_bytecode_size
    then record c {
      code = update (update c.code (pos + 2) (imm / 256 % 256)) (pos + 3) (imm % 256);
    }
    else c

-- the loop of `add_constant`: the first place of a value, counted from `i`
unfoldable pub index_from : ℕ → ℕ → List ℕ → Option ℕ
index_from i v [] = none
index_from i v (x ∷ xs) = if x == v then some i else index_from (suc i) v xs

unfoldable pub append_table_constant : ℕ → Emitter → Emitted ℕ
append_table_constant v c =
    if leb max_const_pool (length c.const_pool)
    then refused const_pool_full
    else done (length c.const_pool % 2 ^ 16) (record c { const_pool = c.const_pool ++ v ∷ [] })

-- A value that the pool has already is used again. The part behind the loop is the same as
-- `append_table_constant`.
unfoldable pub add_constant : ℕ → Emitter → Emitted ℕ
unfolding index_from append_table_constant
add_constant v c = elim (index_from 0 v c.const_pool) [
  | some i ↦ done (i % 2 ^ 16) c
  | none ↦ append_table_constant v c
]

-- A value of 16 bits stands in the instruction, any other in the pool. An i64 below zero is a word
-- from 2 ^ 63 on, so one test covers both ends of the range. The position is dropped.
unfoldable pub emit_const : ℕ → ℕ → Emitter → Emitted ℕ
unfolding emit_imm16 add_constant
emit_const dst v c =
    if leb v 65535 then emit_imm16 op_mov_imm dst (v % 2 ^ 16) c else elim (add_constant v c) [
      | done idx c' ↦ emit_imm16 op_ldc dst idx c'
      | refused e ↦ refused e
    ]

-- the loop of `alloc_temp`, with `n` bits left from bit `i` on
unfoldable pub alloc_from : ℕ → ℕ → Emitter → Emitted ℕ
alloc_from zero i c = refused expr_too_complex
alloc_from (suc n) i c =
    let rest = alloc_from n (suc i) c in
    if bit_and c.temp_used (2 ^ i) == 0
    then done (15 - i) (record c { temp_used = bit_or c.temp_used (2 ^ i) })
    else rest

unfoldable pub alloc_temp : Emitter → Emitted ℕ
unfolding alloc_from
alloc_temp c = alloc_from 8 0 c

unfoldable pub free_temp : ℕ → Emitter → Emitter
free_temp reg c =
    if leb 8 reg && leb reg 15
    then record c { temp_used = bit_and c.temp_used (255 - 2 ^ (15 - reg)) }
    else c
