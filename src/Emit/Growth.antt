-- ===== src/Emit/Growth.antt =====
-- The methods of `Compiler` that emit code (pulselang-core/src/compiler.rs) only add to it.
use latency_os.Prelude.{
  ◌/◌, ◌%◌, ◌^◌, ℕ, zero, suc, ◌≤◌, ◌<◌, ◌≡◌, refl, ap, ◌∙◌, subst, arith, some, List, [], ◌∷◌,
  ◌++◌, length, get_elem?, Bool-cases, Option-cases, inl, inr, leb, get_elem?-append_left,
  length-append,
}
use latency_os.Emit.Constants.{emit_const-add_constant, get_elem?-add_constant}
use latency_os.Emit.{
  Emitter, done, emit_inst, emit_imm16, append_table_constant, add_constant, emit_const, index_from,
  op_mov_imm, op_ldc,
}

-- The buffers hold what was emitted.
pub record IsWithin (c : Emitter) : Type 0 where
  pub code : c.code_len ≤ 4096
  pub consts : length c.const_pool ≤ 64

-- `c'` has the code and the constants of `c` at their places.
pub record Extends (c c' : Emitter) : Type 0 where
  pub length : c.code_len ≤ c'.code_len
  pub code : (i : ℕ) → i < c.code_len → c'.code i ≡ c.code i
  pub consts : (i x : ℕ) → get_elem? c.const_pool i ≡ some x → get_elem? c'.const_pool i ≡ some x

pub Extends-refl : (c : Emitter) → Extends c c
Extends-refl c = record { length = omega arith; code = λ i lt. refl; consts = λ i x e. e }

pub Extends-trans : {c c1 c2 : Emitter} → Extends c c1 → Extends c1 c2 → Extends c c2
Extends-trans p q = record {
  length = omega (arith, p.length, q.length);
  code = λ i lt. q.code i (omega (arith, p.length)) ∙ p.code i lt;
  consts = λ i x e. q.consts i x (p.consts i x e);
}

get_elem?-some : (xs : List ℕ) (i x : ℕ) → get_elem? xs i ≡ some x → i < length xs
get_elem?-some [] i x e = absurd (ground arith)
get_elem?-some (y ∷ xs) zero x e = omega arith
get_elem?-some (y ∷ xs) (suc i) x e = omega (arith, get_elem?-some xs i x e)

-- what a method promises of the state that it leaves
abbrev pub Grows : Emitter → Emitter → Type 0
Grows c c' = IsWithin c' × Extends c c'

pub emit_inst-Extends :
    (op rd rs1 rs2 : ℕ) (c : Emitter) {pos : ℕ} {c' : Emitter}
    → IsWithin c
    → emit_inst op rd rs1 rs2 c ≡ done pos c'
    → (pos ≡ c.code_len) × Grows c c'
unfolding emit_inst
emit_inst-Extends op rd rs1 rs2 c {pos} {c'} w e = (
  ground arith,
  (
    record { code = ground arith; consts = ground (arith, w.consts) },
    record {
      length = ground arith;
      code = λ i lt. ground arith;
      consts = λ i x found. ground arith;
    },
  ),
)

append_table_constant-Extends :
    (v : ℕ) (c : Emitter) {idx : ℕ} {c' : Emitter}
    → IsWithin c
    → append_table_constant v c ≡ done idx c'
    → Grows c c'
unfolding append_table_constant
append_table_constant-Extends v c {idx} {c'} w e =
    let left : length c.const_pool < 64 = ground arith in
    let pool : c'.const_pool ≡ c.const_pool ++ v ∷ [] = ground arith in
    (
      record {
        code = ground (arith, w.code);
        consts =
            omega (arith, ap (λ (p : List ℕ). length p) pool, length-append c.const_pool (v ∷ []));
      },
      record {
        length = ground arith;
        code = λ i lt. ground arith;
        consts = λ i x found.
            ap (λ (p : List ℕ). get_elem? p i) pool
            ∙ get_elem?-append_left c.const_pool (v ∷ []) i (get_elem?-some c.const_pool i x found)
            ∙ found;
      },
    )

add_constant-Extends :
    (v : ℕ) (c : Emitter) {idx : ℕ} {c' : Emitter}
    → IsWithin c
    → add_constant v c ≡ done idx c'
    → Grows c c'
unfolding add_constant
add_constant-Extends v c {idx} {c'} w e = elim (Option-cases (index_from 0 v c.const_pool)) [
  | inl fresh ↦ append_table_constant-Extends v c {idx = idx} w (ground arith)
  | inr (i, there) ↦ let same : c ≡ c' = ground arith in subst (Grows c) same (w, Extends-refl c)
]

-- For an emitter within its buffers: `emit_const` stays within them, keeps all the code and every
-- constant at its place, and tells the place of the instruction, which is the end of the old code.
pub emit_const-Extends :
    (dst v : ℕ) (c : Emitter) {pos : ℕ} {c' : Emitter}
    → IsWithin c
    → emit_const dst v c ≡ done pos c'
    → (pos ≡ c.code_len) × IsWithin c' × Extends c c'
unfolding emit_const emit_imm16
emit_const-Extends dst v c {pos} {c'} w e = elim (Bool-cases (leb v 65535)) [
  | inl small ↦
      let (here, (w', all)) =
        emit_inst-Extends op_mov_imm dst (v % 2 ^ 16 / 256 % 256) (v % 2 ^ 16 % 256) c {pos = pos}
          {c' = c'} w (ground arith) in
      (here, w', all)
  | inr large ↦
      let (idx, c1, added, emitted) = emit_const-add_constant dst v c large e in
      let (_, _, len) = get_elem?-add_constant v c w.consts added in
      let (w1, first) = add_constant-Extends v c w added in
      let (here, (w2, second)) =
        emit_inst-Extends op_ldc dst (idx / 256 % 256) (idx % 256) c1 w1 emitted in
      (here ∙ len, w2, Extends-trans first second)
]
