-- ===== src/Vm/Watchdog.antt =====
-- The step limit of `run_with_output` (pulselang-core/src/vm.rs): what it bounds, and how a program
-- that reads keys gets round it.
use latency_os.Prelude.{
  ℕ, zero, suc, ◌+◌, ◌-◌, ◌≤◌, ◌<◌, ◌≡◌, refl, ◌∙◌, subst, ◌≢◌, arith, Bool, true, false, not, ◌&&◌,
  Option, some, List, [], ◌∷◌, length, get_or, Bool-cases, leb, inl, inr,
}
use mathlib.Core.Bool.{and-eq-true_iff}
use latency_os.Isa.{Opcode, Native, decode_opcode, decode_native}
use latency_os.Vm.State.{
  Host, Setup, Vm, Outcome, running, halted, failed, panicked, new_vm, imm16, set_reg,
}
use latency_os.Vm.Effect.{Keeps, Counts, dispatch-Counts, run-running}
use latency_os.Vm.Calls.{native_call, call_native, exec_call_nat}
use latency_os.Vm.Flow.{exec_jmp}
use latency_os.Vm.Exec.{
  byte_at, operands_at, fetched, exec, dispatch, turn, run, Verdict, finished, errored, crashed,
  unfinished,
}

is_key_call : Option Opcode → Option Native → Bool
is_key_call (some Opcode.call_nat) (some Native.term_read_key) = true
is_key_call _ _ = false

-- No four bytes of the code, wherever they begin, call `@term_read_key`. A jump may go to any byte.
unfoldable pub reads_no_key : List ℕ → Bool
unfolding is_key_call
reads_no_key [] = true
reads_no_key (op ∷ rest) =
    not (is_key_call (decode_opcode op) (decode_native (get_or rest 1 0))) && reads_no_key rest

is_key_call_false :
    (a : Option Opcode) (b : Option Native)
    → not (is_key_call a b) ≡ true
    → a ≡ some Opcode.call_nat
    → b ≢ some Native.term_read_key
unfolding is_key_call
is_key_call_false a b h p q = ground arith

reads_no_key_at :
    (code : List ℕ) (at : ℕ)
    → reads_no_key code ≡ true
    → decode_opcode (get_or code at 0) ≡ some Opcode.call_nat
    → decode_native (get_or code (suc (suc at)) 0) ≢ some Native.term_read_key
unfolding reads_no_key decode_native
reads_no_key_at [] at h p = cc
reads_no_key_at (op ∷ rest) zero h p = is_key_call_false _ _ ((and-eq-true_iff _ _).0 h).0 p
reads_no_key_at (op ∷ rest) (suc at) h p = reads_no_key_at rest at ((and-eq-true_iff _ _).0 h).1 p

-- What one turn of the loop costs, from a state that has fetched `vm.clock` instructions.
abbrev CostsOne : ℕ → Vm → Outcome → Type 0
CostsOne max vm (running v) = (v.steps ≡ vm.steps + 1) × (v.clock ≡ vm.clock + 1) × (vm.steps < max)
CostsOne max vm (halted v) = v.clock ≤ vm.clock + (max - vm.steps)
CostsOne max vm (failed e v) = v.clock ≤ vm.clock + (max - vm.steps)
CostsOne max vm panicked = Unit

CostsOne-Counts :
    (max : ℕ) (vm : Vm) (o : Outcome)
    → vm.steps < max
    → Keeps (Counts (fetched vm)) o
    → CostsOne max vm o
CostsOne-Counts max vm (running v) lt k = omega arith
CostsOne-Counts max vm (halted v) lt k = omega arith
CostsOne-Counts max vm (failed e v) lt k = omega arith
CostsOne-Counts max vm panicked lt k = tt

-- The loop has ended, and the clock stands at `n` at most.
abbrev pub EndsWithin : ℕ → Verdict → Type 0
EndsWithin n (finished vm) = vm.clock ≤ n
EndsWithin n (errored e vm) = vm.clock ≤ n
EndsWithin n crashed = Unit
EndsWithin n (unfinished vm) = ⊥

module _ (h : Host) (s : Setup) (no_key : reads_no_key s.code ≡ true) where
  no_key_at :
      (at : ℕ)
      → decode_opcode (byte_at s at) ≡ some Opcode.call_nat
      → decode_native (byte_at s (at + 2)) ≢ some Native.term_read_key
  no_key_at at p =
      let e : at + 2 ≡ suc (suc at) = omega arith in rw e (reads_no_key_at s.code at no_key p)

  turn-CostsOne : (vm : Vm) → CostsOne s.max_steps vm (turn h s vm)
  unfolding turn
  turn-CostsOne vm = elim (Bool-cases (leb (vm.ip + 4) (length s.code))) [
    | inr out ↦ rw out (omega arith)
    | inl inside ↦ rw inside (elim (Bool-cases (leb s.max_steps vm.steps)) [
      | inl over ↦ rw over (omega arith)
      | inr left ↦ rw left (
          CostsOne-Counts s.max_steps vm _ (ground arith) (
            dispatch-Counts h s (byte_at s vm.ip) (operands_at s vm.ip) (fetched vm)
              (no_key_at vm.ip)))
    ])
  ]

  run-EndsWithin :
      (fuel : ℕ) (vm : Vm)
      → s.max_steps - vm.steps < fuel
      → EndsWithin (vm.clock + (s.max_steps - vm.steps)) (run h s fuel vm)
  unfolding run
  run-EndsWithin zero vm lt = elim lt [ ]
  run-EndsWithin (suc fuel) vm lt = go (run-EndsWithin fuel) (turn h s vm) (turn-CostsOne vm)
    where
      go :
          ((v : Vm)
            → s.max_steps - v.steps < fuel
            → EndsWithin (v.clock + (s.max_steps - v.steps)) (run h s fuel v))
          → (o : Outcome) → CostsOne s.max_steps vm o
          → EndsWithin (vm.clock + (s.max_steps - vm.steps)) (elim o [
            | running vm' ↦ run h s fuel vm'
            | halted vm' ↦ finished vm'
            | failed e vm' ↦ errored e vm'
            | panicked ↦ crashed
          ])
      go rec (running v) (p, q, lt') =
          let e : v.clock + (s.max_steps - v.steps) ≡ vm.clock + (s.max_steps - vm.steps) =
            omega arith in
          subst (λ n. EndsWithin n (run h s fuel v)) e (rec v (omega arith))
      go rec (halted v) c = c
      go rec (failed e v) c = c
      go rec panicked c = tt

  -- A program that reads no key ends by itself within the step limit, on any host: it returns, with
  -- or without an error, or panics, after at most `max_steps` instructions.
  pub run_ends : (fuel : ℕ) → s.max_steps < fuel → EndsWithin s.max_steps (run h s fuel new_vm)
  unfolding new_vm
  run_ends fuel lt =
      subst (λ n. EndsWithin n (run h s fuel new_vm))
        {x = new_vm.clock + (s.max_steps - new_vm.steps)} (omega arith)
        (run-EndsWithin fuel new_vm (omega arith))

-- A key read that is followed by a jump back to it.
pub record IsKeyLoop (s : Setup) (at : ℕ) : Type 0 where
  pub inside : at + 8 ≤ length s.code
  pub calls : decode_opcode (byte_at s at) ≡ some Opcode.call_nat
  pub reads : decode_native (byte_at s (at + 2)) ≡ some Native.term_read_key
  pub jumps : decode_opcode (byte_at s (at + 4)) ≡ some Opcode.jmp
  pub back : imm16 (operands_at s (at + 4)) ≡ at

module _ (h : Host) (s : Setup) (at : ℕ) (loop : IsKeyLoop s at) (limit : 2 ≤ s.max_steps) where
  abbrev key_state : Vm → Vm
  key_state vm =
      set_reg (record (fetched vm) { steps = 0 }) (byte_at s (vm.ip + 1))
        (h.read_key (vm.clock + 1))

  turn_key :
      (vm : Vm)
      → vm.ip ≡ at
      → vm.steps < s.max_steps
      → (v : Vm) × (turn h s vm ≡ running v)
        × (v.ip ≡ at + 4)
        × (v.steps ≡ 0)
        × (v.clock ≡ vm.clock + 1)
  unfolding turn dispatch exec exec_call_nat call_native native_call
  turn_key vm p lt = (
    key_state vm,
    ground (arith, loop.inside, loop.calls, loop.reads),
    ground arith,
    ground arith,
    ground arith,
  )

  turn_back :
      (vm : Vm)
      → vm.ip ≡ at + 4
      → vm.steps ≡ 0
      → (v : Vm) × (turn h s vm ≡ running v)
        × (v.ip ≡ at)
        × (v.steps ≡ 1)
        × (v.clock ≡ vm.clock + 1)
  unfolding turn dispatch exec exec_jmp
  turn_back vm p z = (
    record (fetched vm) { ip = at },
    ground (arith, loop.inside, loop.jumps, loop.back),
    refl,
    ground arith,
    refl,
  )

  -- However long one waits, the loop is still going, and the clock has counted every turn: a key
  -- read that is followed by a jump back to it is not stopped by the step limit, on any host.
  pub run-key_loop :
      (fuel : ℕ) (vm : Vm)
      → vm.ip ≡ at
      → vm.steps < s.max_steps
      → (v : Vm) × (run h s fuel vm ≡ unfinished v) × (v.clock ≡ vm.clock + fuel)
  unfolding run
  run-key_loop zero vm p lt = (vm, refl, omega arith)
  run-key_loop (suc zero) vm p lt =
      let (v, e, _, _, c) = turn_key vm p lt in (v, run-running h s 0 vm v e, omega arith)
  run-key_loop (suc (suc fuel)) vm p lt =
      let (v, e, q, z, c) = turn_key vm p lt in
      let (w, e', q', z', c') = turn_back v q z in
      let (x, e'', c'') = run-key_loop fuel w q' (omega arith) in
      (x, run-running h s (suc fuel) vm v e ∙ run-running h s fuel v w e' ∙ e'', omega arith)
