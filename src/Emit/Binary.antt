-- ===== src/Emit/Binary.antt =====
-- What `binary_round` (pulselang-core/src/compiler.rs) emits, run by the machine
-- (pulselang-core/src/vm.rs).
use latency_os.Prelude.{
  ℕ, ◌+◌, ◌%◌, ◌^◌, ◌≤◌, ◌<◌, ◌≡◌, ◌≢◌, refl, sym, ap, ap₂, subst, ◌∙◌, arith, true, false, ◌&&◌,
  Option, none, some, update, length, leb, Bool-cases, inl, inr, ==_refl, ==_ne, lt→ltb,
}
use latency_os.Vm.State.{Host, Setup, Vm, Operands, running, set_reg, is_reg}
use latency_os.Vm.Text.{is_text}
use latency_os.Vm.Exec.{fetched, dispatch, turn}
use latency_os.Emit.{
  Emitter, Emitted, done, refused, emit_inst, emit_imm16, emit_const, op_mov_imm, op_ldc,
}
use latency_os.Emit.Constants.{
  Holds, turn-emit_const, emit_imm16-Emits, emit_const-add_constant, get_elem?-add_constant,
}
use latency_os.Emit.Growth.{
  IsWithin, Extends, Extends-refl, Grows, emit_inst-Extends, emit_const-Extends,
}
use latency_os.Emit.Machine.{
  Holds-Extends, emit_inst-bytes, Reaches, here, next, turn-emit_inst, dispatch-opcode_of,
  Reaches-trans,
}
use latency_os.Emit.Operators.{
  BinOp, fold, opcode_of, materialize, materialize_both, folded, emit_operator, binary_round, ◌>>=◌,
}

pub >>=-eq-done :
    {A B : Type 0} (m : Emitted A) (f : A → Emitter → Emitted B) {b : B} {c' : Emitter}
    → (m >>= f) ≡ done b c'
    → (a : A) × (c1 : Emitter) × (m ≡ done a c1) × (f a c1 ≡ done b c')
>>=-eq-done (done a c1) f e = (a, c1, refl, e)
>>=-eq-done (refused r) f e = absurd (ground arith)

materialize-Grows :
    (val : Option ℕ) (reg : ℕ) (c : Emitter) {c' : Emitter}
    → IsWithin c
    → materialize val reg c ≡ done tt c'
    → Grows c c'
unfolding materialize
materialize-Grows none reg c {c'} w e =
    let same : c ≡ c' = ground arith in subst (Grows c) same (w, Extends-refl c)
materialize-Grows (some v) reg c {c'} w e =
    let (pos, c1, emitted, rest) = >>=-eq-done (emit_const reg v c) (λ _ c2. done tt c2) e in
    let same : c1 ≡ c' = ground arith in
    let (_, w', extends) = emit_const-Extends reg v c w emitted in
    subst (Grows c) same (w', extends)

emit_const-length :
    (dst v : ℕ) (c : Emitter) {pos : ℕ} {c' : Emitter}
    → length c.const_pool ≤ 64
    → emit_const dst v c ≡ done pos c'
    → c'.code_len ≡ c.code_len + 4
unfolding emit_const
emit_const-length dst v c {pos} {c'} room e = elim (Bool-cases (leb v 65535)) [
  | inl small ↦
      let emitted : emit_imm16 op_mov_imm dst (v % 2 ^ 16) c ≡ done pos c' = ground arith in
      (emit_imm16-Emits op_mov_imm dst (v % 2 ^ 16) c emitted).1.length
  | inr large ↦
      let (idx, c1, added, emitted) = emit_const-add_constant dst v c large e in
      let (_, _, len) = get_elem?-add_constant v c room added in
      (emit_imm16-Emits op_ldc dst idx c1 emitted).1.length ∙ ap (λ (n : ℕ). n + 4) len
]

module _ (h : Host) (s : Setup) where
  -- What a round knows of an operand: it is a constant, or the value is in the register.
  abbrev pub Denotes : Option ℕ → ℕ → Vm → ℕ → Type 0
  Denotes none reg vm a = vm.regs reg ≡ a
  Denotes (some v) reg vm a = v ≡ a

  -- the machine after code that ends at `c'` and changes at most the register `reg`
  record Loaded (vm : Vm) (c' : Emitter) (reg a : ℕ) : Type 0 where
    after : Vm
    reaches : Reaches h s vm after
    at : after.ip ≡ c'.code_len
    value : after.regs reg ≡ a
    kept : (q : ℕ) → q ≢ reg → after.regs q ≡ vm.regs q
    steps : after.steps ≤ vm.steps + 1

  emit_const-Loaded :
      (v reg : ℕ) (c : Emitter) {pos : ℕ} {c' : Emitter} (vm : Vm)
      → IsWithin c
      → emit_const reg v c ≡ done pos c'
      → is_reg reg ≡ true
      → Holds s c'
      → vm.ip ≡ c.code_len
      → vm.steps < s.max_steps
      → IsWithin c' × Extends c c' × Loaded vm c' reg v
  emit_const-Loaded v reg c {pos} {c'} vm w e is held p left =
      let (start, w', extends) = emit_const-Extends reg v c w e in
      let turned : turn h s vm ≡ running (set_reg (fetched vm) reg v) =
        turn-emit_const h s reg v c vm w.consts e held (p ∙ sym start) left in
      let after : Vm = record (fetched vm) { regs = update vm.regs reg v } in
      let stored : running (set_reg (fetched vm) reg v) ≡ running after = rw is refl in
      (
        w',
        extends,
        record {
          after = after;
          reaches = next (turned ∙ stored) here;
          at = omega (arith, emit_const-length reg v c w.consts e);
          value = rw (==_refl reg) refl;
          kept = λ q ne. rw (==_ne q reg ne) refl;
          steps = omega arith;
        },
      )

  materialize-Loaded :
      (val : Option ℕ) (reg a : ℕ) (c : Emitter) {c' : Emitter} (vm : Vm)
      → IsWithin c
      → materialize val reg c ≡ done tt c'
      → is_reg reg ≡ true
      → Denotes val reg vm a
      → Holds s c'
      → vm.ip ≡ c.code_len
      → vm.steps < s.max_steps
      → IsWithin c' × Extends c c' × Loaded vm c' reg a
  unfolding materialize
  materialize-Loaded none reg a c {c'} vm w e is value held p left =
      let same : c ≡ c' = ground arith in
      subst (λ (x : Emitter). IsWithin x × Extends c x × Loaded vm x reg a) same
        (
          w,
          Extends-refl c,
          record {
            after = vm;
            reaches = here;
            at = p;
            value = value;
            kept = λ q ne. refl;
            steps = omega arith;
          },
        )
  materialize-Loaded (some v) reg a c {c'} vm w e is value held p left =
      let (pos, c1, emitted, rest) = >>=-eq-done (emit_const reg v c) (λ _ c2. done tt c2) e in
      let same : c1 ≡ c' = ground arith in
      let done_at : emit_const reg v c ≡ done pos c' = emitted ∙ ap (done pos) same in
      let (w', extends, l) = emit_const-Loaded v reg c vm w done_at is held p left in
      (w', extends, subst (Loaded vm c' reg) value l)

  -- Both operands are in their registers, and then the instruction is run.
  pub record Computes (vm : Vm) (c' : Emitter) (dst rhs_reg : ℕ) (r : Option ℕ) (v : ℕ)
      : Type 0 where
    pub after : Vm
    pub reaches : Reaches h s vm after
    pub at : after.ip ≡ c'.code_len
    pub value : Denotes r dst after v
    pub kept : (q : ℕ) → q ≢ dst → q ≢ rhs_reg → after.regs q ≡ vm.regs q

  Denotes-kept :
      (o : Option ℕ) (reg : ℕ) (vm vm' : Vm) (b : ℕ)
      → vm'.regs reg ≡ vm.regs reg
      → Denotes o reg vm b
      → Denotes o reg vm' b
  Denotes-kept none reg vm vm' b same d = same ∙ d
  Denotes-kept (some v) reg vm vm' b same d = d

  -- the parts of a successful `emit_operator`
  emit_operator-parts :
      (op : BinOp) (dst rhs_reg : ℕ) (val rhs_val : Option ℕ) (c : Emitter) {r : Option ℕ}
      {c' : Emitter}
      → emit_operator op dst rhs_reg val rhs_val c ≡ done r c'
      → (c1 : Emitter) × (c2 : Emitter) × (pos : ℕ) × (materialize val dst c ≡ done tt c1)
        × (materialize rhs_val rhs_reg c1 ≡ done tt c2)
        × (emit_inst (opcode_of op) dst dst rhs_reg c2 ≡ done pos c')
        × (r ≡ none)
  unfolding emit_operator
  emit_operator-parts op dst rhs_reg val rhs_val c {r} {c'} e =
      let (pos, c3, e1, last) =
        >>=-eq-done
          (materialize_both val rhs_val dst rhs_reg c >>= λ _ c1.
            emit_inst (opcode_of op) dst dst rhs_reg c1)
          (λ _ c2. done none c2) e in
      let (u, c2, e2, inst) =
        >>=-eq-done (materialize_both val rhs_val dst rhs_reg c)
          (λ _ c1. emit_inst (opcode_of op) dst dst rhs_reg c1) e1 in
      let (u', c1, lhs, rhs) =
        >>=-eq-done (materialize val dst c) (λ _ c1. materialize rhs_val rhs_reg c1) e2 in
      let same : c3 ≡ c' = ground arith in
      (c1, c2, pos, lhs, rhs, inst ∙ ap (done pos) same, ground arith)

  emit_operator-Computes :
      (op : BinOp) (dst rhs_reg : ℕ) (val rhs_val : Option ℕ) (a b v : ℕ) (c : Emitter)
      {r : Option ℕ} {c' : Emitter} (vm : Vm)
      → IsWithin c
      → emit_operator op dst rhs_reg val rhs_val c ≡ done r c'
      → is_reg dst ≡ true
      → is_reg rhs_reg ≡ true
      → rhs_reg ≢ dst
      → (is_text a && is_text b) ≡ false
      → fold op a b ≡ some v
      → Denotes val dst vm a
      → Denotes rhs_val rhs_reg vm b
      → Holds s c'
      → vm.ip ≡ c.code_len
      → vm.steps + 3 ≤ s.max_steps
      → Computes vm c' dst rhs_reg r v
  emit_operator-Computes op dst rhs_reg val rhs_val a b v c {r} {c'} vm w e is_dst is_rhs apart
        plain folds lhs rhs held p left =
      let (c1, c2, pos, e1, e2, e3, none_left) =
        emit_operator-parts op dst rhs_reg val rhs_val c e in
      let (w1, x1) = materialize-Grows val dst c w e1 in
      let (w2, x2) = materialize-Grows rhs_val rhs_reg c1 w1 e2 in
      let (_, (w3, x3)) = emit_inst-Extends (opcode_of op) dst dst rhs_reg c2 w2 e3 in
      let held2 : Holds s c2 = Holds-Extends x3 held in
      let (_, _, l1) =
        materialize-Loaded val dst a c vm w e1 is_dst lhs (Holds-Extends x2 held2) p
          (omega arith) in
      let vm1 : Vm = l1.after in
      let rhs1 : Denotes rhs_val rhs_reg vm1 b =
        Denotes-kept rhs_val rhs_reg vm vm1 b (l1.kept rhs_reg apart) rhs in
      let (_, _, l2) =
        materialize-Loaded rhs_val rhs_reg b c1 vm1 w1 e2 is_rhs rhs1 held2 l1.at
          (omega (arith, l1.steps)) in
      let vm2 : Vm = l2.after in
      let at_dst : vm2.regs dst ≡ a = l2.kept dst (λ same. apart (sym same)) ∙ l1.value in
      let turned =
        turn-emit_inst h s (opcode_of op) dst dst rhs_reg c2 vm2 e3 held l2.at
          (omega (arith, l1.steps, l2.steps)) in
      let i : Operands = record { rd = dst; rs1 = dst; rs2 = rhs_reg } in
      let ran : dispatch h s (opcode_of op) i (fetched vm2)
          ≡ running (record (fetched vm2) { regs = update vm2.regs dst v }) =
        dispatch-opcode_of h s op i (fetched vm2) v (is_dst, is_dst, is_rhs)
          (ap₂ (λ (x y : ℕ). is_text x && is_text y) at_dst l2.value ∙ plain)
          (ap₂ (λ (x y : ℕ). fold op x y) at_dst l2.value ∙ folds) in
      subst (λ (o : Option ℕ). Computes vm c' dst rhs_reg o v) (sym none_left)
        (record {
          after = record (fetched vm2) { regs = update vm2.regs dst v };
          reaches =
              Reaches-trans h s l1.reaches
                (Reaches-trans h s l2.reaches (next (turned ∙ ran) here));
          at = omega (arith, l2.at, (emit_inst-bytes (opcode_of op) dst dst rhs_reg c2 e3).0);
          value = rw (==_refl dst) refl;
          kept =
              λ q not_dst not_rhs. rw (==_ne q dst not_dst) (l2.kept q not_rhs ∙ l1.kept q not_dst);
        })

-- Whichever of its operands are constants, the part of a round that knows nothing of scales leaves
-- the value of the operator: folded, if both are constants, and else in the register `dst` once the machine has run
-- the code that was emitted. No other register but the right operand's has changed then. The
-- machine holds the code and the constants emitted so far, whatever follows them, it stands at the
-- code of the round and has three steps left; the right operand's register is another than `dst`;
-- and the operands are not both tagged texts, which the machine would compare by their bytes.
pub binary_round-Computes :
    (h : Host) (s : Setup) (op : BinOp) (dst rhs_reg : ℕ) (val rhs_val : Option ℕ) (a b v : ℕ)
    (c : Emitter) {r : Option ℕ} {c' : Emitter} (vm : Vm)
    → IsWithin c
    → binary_round op dst rhs_reg val rhs_val c ≡ done r c'
    → (dst < 20) × (rhs_reg < 20) × (rhs_reg ≢ dst)
    → (is_text a && is_text b) ≡ false
    → fold op a b ≡ some v
    → Denotes h s val dst vm a
    → Denotes h s rhs_val rhs_reg vm b
    → Holds s c'
    → vm.ip ≡ c.code_len
    → vm.steps + 3 ≤ s.max_steps
    → Computes h s vm c' dst rhs_reg r v
unfolding binary_round
binary_round-Computes h s op dst rhs_reg (some x) (some y) a b v c {r} {c'} vm w e
      (dst_lt, rhs_lt, apart) plain folds lhs rhs held p left =
    let value : fold op x y ≡ some v = ap₂ (λ (m n : ℕ). fold op m n) lhs rhs ∙ folds in
    let shown : folded (some v) c ≡ done r c' = ap (λ (o : Option ℕ). folded o c) (sym value) ∙ e in
    let same : c ≡ c' = ground (arith, shown) in
    let result : some v ≡ r = ground (arith, shown) in
    subst (λ (o : Option ℕ). Computes h s vm c' dst rhs_reg o v) result
      (record {
        after = vm;
        reaches = here;
        at = p ∙ ap (λ (k : Emitter). k.code_len) same;
        value = refl;
        kept = λ q not_dst not_rhs. refl;
      })
binary_round-Computes h s op dst rhs_reg (some x) none a b v c vm w e (dst_lt, rhs_lt, apart) plain
      folds lhs rhs held p left =
    emit_operator-Computes h s op dst rhs_reg (some x) none a b v c vm w e (lt→ltb _ _ dst_lt)
      (lt→ltb _ _ rhs_lt) apart plain folds lhs rhs held p left
binary_round-Computes h s op dst rhs_reg none rhs_val a b v c vm w e (dst_lt, rhs_lt, apart) plain
      folds lhs rhs held p left =
    emit_operator-Computes h s op dst rhs_reg none rhs_val a b v c vm w e (lt→ltb _ _ dst_lt)
      (lt→ltb _ _ rhs_lt) apart plain folds lhs rhs held p left
