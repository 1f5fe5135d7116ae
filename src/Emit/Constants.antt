-- ===== src/Emit/Constants.antt =====
-- What `emit_const` (pulselang-core/src/compiler.rs) emits, run by the machine
-- (pulselang-core/src/vm.rs).
use latency_os.Prelude.{
  subst, ap₂, false, ◌/◌, ◌%◌, ◌^◌, leb, ◌∙◌, ℕ, suc, ◌+◌, ◌-◌, ◌*◌, ◌≤◌, ◌<◌, ◌≡◌, refl, ap, arith,
  some, List, [], ◌∷◌, ◌++◌, length, get_elem?, Bool-cases, Option-cases, inl, inr, ==_iff, ◌==◌,
  get_elem?-append_last,
}
use latency_os.Isa.{decode_opcode}
use latency_os.Vm.State.{Host, Setup, Vm, running, set_reg}
use latency_os.Vm.Alu.{exec_mov_imm, exec_ldc}
use latency_os.Vm.Exec.{byte_at, fetched, exec, dispatch, turn}
use latency_os.Emit.{
  Emitter, Emitted, refused, emit_imm16, emit_inst, emit_const, done, append_table_constant,
  add_constant, index_from, op_mov_imm, op_ldc,
}

-- The machine is set up with what the emitter has so far; more code and more constants may follow.
pub record Holds (s : Setup) (c : Emitter) : Type 0 where
  pub room : c.code_len ≤ length s.code
  pub code : (i : ℕ) → i < c.code_len → byte_at s i ≡ c.code i
  pub consts : (i x : ℕ) → get_elem? c.const_pool i ≡ some x → get_elem? s.const_pool i ≡ some x

get_elem?-index_from :
    (i v : ℕ) (xs : List ℕ) (j : ℕ)
    → index_from i v xs ≡ some j
    → (i ≤ j) × (j < i + length xs) × (get_elem? xs (j - i) ≡ some v)
unfolding index_from
get_elem?-index_from i v [] j h = absurd (ground arith)
get_elem?-index_from i v (x ∷ xs) j h = elim (Bool-cases (x == v)) [
  | inl e ↦
      let here : i ≡ j = ground arith in
      let first : j - i ≡ 0 = omega arith in
      (omega arith, omega arith, rw first (ap some ((==_iff x v).0 e)))
  | inr ne ↦
      let rest : index_from (suc i) v xs ≡ some j = ground arith in
      let (le, lt, found) = get_elem?-index_from (suc i) v xs j rest in
      let next : j - i ≡ suc (j - suc i) = omega arith in (omega arith, omega arith, rw next found)
]

-- A constant that was added stands in the pool, at an index of 16 bits; the code is as before.
pub get_elem?-add_constant :
    (v : ℕ) (c : Emitter) {idx : ℕ} {c' : Emitter}
    → length c.const_pool ≤ 64
    → add_constant v c ≡ done idx c'
    → (get_elem? c'.const_pool idx ≡ some v) × (idx < 64) × (c'.code_len ≡ c.code_len)
unfolding add_constant append_table_constant
get_elem?-add_constant v c {idx} {c'} room e = elim (Option-cases (index_from 0 v c.const_pool)) [
  | inl fresh ↦
      let left : length c.const_pool < 64 = ground arith in
      let at : idx ≡ length c.const_pool = ground arith in
      let pool : c'.const_pool ≡ c.const_pool ++ v ∷ [] = ground arith in
      (rw (at, pool) (get_elem?-append_last c.const_pool v), omega arith, ground arith)
  | inr (i, there) ↦
      let (le, lt, found) = get_elem?-index_from 0 v c.const_pool i there in
      let at : idx ≡ i = ground arith in
      let same : c' ≡ c = ground arith in
      let first : i - 0 ≡ i = omega arith in
      let found' : get_elem? c.const_pool i ≡ some v =
        subst (λ k. get_elem? c.const_pool k ≡ some v) first found in
      (rw (at, same) found', omega arith, rw same refl)
]

-- the bytes that an instruction with an immediate operand of 16 bits leaves
pub record Emits (op rd imm : ℕ) (c c' : Emitter) : Type 0 where
  pub length : c'.code_len ≡ c.code_len + 4
  pub opcode : c'.code c.code_len ≡ op
  pub register : c'.code (c.code_len + 1) ≡ rd
  pub high : c'.code (c.code_len + 2) ≡ imm / 256 % 256
  pub low : c'.code (c.code_len + 3) ≡ imm % 256
  pub pool : c'.const_pool ≡ c.const_pool

pub emit_imm16-Emits :
    (op rd imm : ℕ) (c : Emitter) {pos : ℕ} {c' : Emitter}
    → emit_imm16 op rd imm c ≡ done pos c'
    → (pos ≡ c.code_len) × Emits op rd imm c c'
unfolding emit_imm16 emit_inst
emit_imm16-Emits op rd imm c {pos} {c'} e = (
  ground arith,
  record {
    length = ground arith;
    opcode = ground arith;
    register = ground arith;
    high = ground arith;
    low = ground arith;
    pool = ground arith;
  },
)

-- A value of more than 16 bits was added to the pool first.
pub emit_const-add_constant :
    (dst v : ℕ) (c : Emitter) {pos : ℕ} {c' : Emitter}
    → leb v 65535 ≡ false
    → emit_const dst v c ≡ done pos c'
    → (idx : ℕ) × (c1 : Emitter) × (add_constant v c ≡ done idx c1)
      × (emit_imm16 op_ldc dst idx c1 ≡ done pos c')
unfolding emit_const
emit_const-add_constant dst v c {pos} {c'} large e = go (add_constant v c) refl (ground arith)
  where
    go :
        (r : Emitted ℕ)
        → add_constant v c ≡ r
        → elim r [ done idx c1 ↦ emit_imm16 op_ldc dst idx c1 | refused f ↦ refused f ]
          ≡ done pos c'
        → (idx : ℕ) × (c1 : Emitter) × (add_constant v c ≡ done idx c1)
          × (emit_imm16 op_ldc dst idx c1 ≡ done pos c')
    go (done idx c1) p q = (idx, c1, p, q)
    go (refused f) p q = absurd (ground arith)

module _ (h : Host) (s : Setup) where
  turn-mov_imm :
      (vm : Vm)
      → vm.ip + 4 ≤ length s.code
      → vm.steps < s.max_steps
      → byte_at s vm.ip ≡ op_mov_imm
      → turn h s vm
        ≡ running (
            set_reg
              (fetched vm)
              (byte_at s (vm.ip + 1))
              (byte_at s (vm.ip + 2) * 256 + byte_at s (vm.ip + 3)))
  unfolding turn dispatch exec exec_mov_imm decode_opcode
  turn-mov_imm vm room left e = rw e (ground arith)

  turn-ldc :
      (vm : Vm) (x : ℕ)
      → vm.ip + 4 ≤ length s.code
      → vm.steps < s.max_steps
      → byte_at s vm.ip ≡ op_ldc
      → get_elem? s.const_pool (byte_at s (vm.ip + 2) * 256 + byte_at s (vm.ip + 3)) ≡ some x
      → turn h s vm ≡ running (set_reg (fetched vm) (byte_at s (vm.ip + 1)) x)
  unfolding turn dispatch exec exec_ldc decode_opcode
  turn-ldc vm x room left e found = rw e (ground arith)

  -- The machine reads the operand that was emitted.
  operand :
      {op rd imm : ℕ} {c c' : Emitter} (vm : Vm)
      → imm < 2 ^ 16
      → Emits op rd imm c c'
      → Holds s c'
      → vm.ip ≡ c.code_len
      → (byte_at s vm.ip ≡ op)
        × (byte_at s (vm.ip + 1) ≡ rd)
        × (byte_at s (vm.ip + 2) * 256 + byte_at s (vm.ip + 3) ≡ imm)
        × (vm.ip + 4 ≤ length s.code)
  operand {op} {rd} {imm} {c} {c'} vm small e held p = (
    rw p (held.code c.code_len (omega (arith, e.length)) ∙ e.opcode),
    rw p (held.code (c.code_len + 1) (omega (arith, e.length)) ∙ e.register),
    rw p (
        omega (
          arith,
          held.code (c.code_len + 2) (omega (arith, e.length)),
          e.high,
          held.code (c.code_len + 3) (omega (arith, e.length)),
          e.low,
        )),
    omega (arith, e.length, held.room),
  )

  -- The code that `emit_const` emits loads its constant: on a machine that is set up with the code
  -- and the constants emitted so far, whatever follows them, a turn at the emitted position puts
  -- the value into the register and nothing else.
  pub turn-emit_const :
      (dst v : ℕ) (c : Emitter) {pos : ℕ} {c' : Emitter} (vm : Vm)
      → length c.const_pool ≤ 64
      → emit_const dst v c ≡ done pos c'
      → Holds s c'
      → vm.ip ≡ pos
      → vm.steps < s.max_steps
      → turn h s vm ≡ running (set_reg (fetched vm) dst v)
  unfolding emit_const
  turn-emit_const dst v c {pos} {c'} vm room e held p left = elim (Bool-cases (leb v 65535)) [
    | inl small ↦
        let emitted : emit_imm16 op_mov_imm dst (v % 2 ^ 16) c ≡ done pos c' = ground arith in
        let (here, e') = emit_imm16-Emits op_mov_imm dst (v % 2 ^ 16) c emitted in
        let (op, reg, imm, room') = operand vm (omega arith) e' held (p ∙ here) in
        let value : v % 2 ^ 16 ≡ v = ground arith in
        turn-mov_imm vm room' left op
        ∙ ap₂ (λ (r x : ℕ). running (set_reg (fetched vm) r x)) reg (imm ∙ value)
    | inr large ↦
        let (idx, c1, added, emitted) = emit_const-add_constant dst v c large e in
        let (found, small, _) = get_elem?-add_constant v c room added in
        let (here, e') = emit_imm16-Emits op_ldc dst idx c1 emitted in
        let (op, reg, imm, room') = operand vm (omega arith) e' held (p ∙ here) in
        let stored : get_elem? c'.const_pool idx ≡ some v =
          ap (λ (pool : List ℕ). get_elem? pool idx) e'.pool ∙ found in
        turn-ldc vm v room' left op (ap (get_elem? s.const_pool) imm ∙ held.consts idx v stored)
        ∙ ap (λ (r : ℕ). running (set_reg (fetched vm) r v)) reg
  ]
