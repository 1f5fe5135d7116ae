-- ===== src/Vm/Replay.antt =====
-- Deterministic replay (`DeterministicReplayConfig` of pulselang-core/src/vm.rs).
use latency_os.Prelude.{ℕ, zero, suc, ◌≡◌, refl, ap, ◌∙◌, true, Option, none, some, List}
use latency_os.Isa.{Opcode, Native, decode_opcode, decode_native}
use latency_os.Vm.State.{
  invalid_opcode, Host, Setup, Vm, Operands, Outcome, running, halted, failed, panicked,
  ReplayConfig, get_tsc, get_uptime_ns, reg_or, set_reg,
}
use latency_os.Vm.Flow.{exec_within_start, exec_drop}
use latency_os.Vm.Text.{get_str_bytes}
use mathlib.Core.Path.{fun_ext}
use latency_os.Vm.Calls.{
  file_write, path_of, second, Reply, gives, fails, panics, native_call, call_native, exec_call_nat,
}
use latency_os.Vm.Exec.{
  exec, dispatch, turn, run, Verdict, finished, errored, crashed, fetched, byte_at, operands_at,
}

module _ (h : Host) (other : ℕ → ℕ) (s : Setup) (cfg : ReplayConfig)
    (replays : s.replay_config ≡ some cfg) (on : cfg.enabled ≡ true) where
  -- the same host with another time stamp counter
  abbrev h' : Host
  h' = record h { rdtsc = other }

  get_tsc-replay : (vm : Vm) → get_tsc h s vm ≡ get_tsc h' s vm
  unfolding get_tsc
  get_tsc-replay vm = rw (replays, on)

  get_uptime-replay : (vm : Vm) → get_uptime_ns h s vm ≡ get_uptime_ns h' s vm
  unfolding get_uptime_ns
  get_uptime-replay vm = rw (replays, on)

  file_write-replay :
      (path content : Option (List ℕ)) (vm : Vm)
      → file_write h path content vm ≡ file_write h' path content vm
  unfolding file_write
  file_write-replay none content vm = refl
  file_write-replay (some path) none vm = refl
  file_write-replay (some path) (some content) vm = refl

  native_call-replay :
      (f : Native) (r v : ℕ) (vm : Vm) → native_call h s f r v vm ≡ native_call h' s f r v vm
  unfolding native_call
  native_call-replay Native.sys_tsc r v vm = ap (λ t. gives t vm) (get_tsc-replay vm)
  native_call-replay Native.uptime_ns r v vm = ap (λ t. gives t vm) (get_uptime-replay vm)
  native_call-replay Native.file_write r v vm =
      ap (λ (next : ℕ → Reply). second r vm next)
        (fun_ext λ content. file_write-replay (path_of s v) (get_str_bytes s content) vm)
  native_call-replay _ r v vm = refl

  exec_call_nat-replay : (i : Operands) (vm : Vm) → exec_call_nat h s i vm ≡ exec_call_nat h' s i vm
  unfolding exec_call_nat call_native
  exec_call_nat-replay i vm = go (decode_native i.rs1)
    where
      outcome : Reply → Outcome
      outcome reply = elim reply [
        | gives ret v ↦ running (set_reg v i.rd ret)
        | fails e ↦ failed e vm
        | panics ↦ panicked
      ]

      go :
          (d : Option Native)
          → outcome (elim d [
            | none ↦ gives 0 vm
            | some f ↦ native_call h s f i.rs2 (reg_or vm i.rs2 0) vm
          ])
            ≡ outcome (elim d [
              | none ↦ gives 0 vm
              | some f ↦ native_call h' s f i.rs2 (reg_or vm i.rs2 0) vm
            ])
      go none = refl
      go (some f) = ap outcome (native_call-replay f i.rs2 (reg_or vm i.rs2 0) vm)

  exec-replay : (o : Opcode) (i : Operands) (vm : Vm) → exec h s o i vm ≡ exec h' s o i vm
  unfolding exec exec_within_start exec_drop
  exec-replay Opcode.call_nat i vm = exec_call_nat-replay i vm
  exec-replay Opcode.within_start i vm = rw (get_uptime-replay vm)
  exec-replay Opcode.drop i vm = rw (get_uptime-replay vm)
  exec-replay _ i vm = refl

  dispatch-replay : (op : ℕ) (i : Operands) (vm : Vm) → dispatch h s op i vm ≡ dispatch h' s op i vm
  unfolding dispatch
  dispatch-replay op i vm = go (decode_opcode op)
    where
      go :
          (d : Option Opcode)
          → elim d [ none ↦ failed invalid_opcode vm | some o ↦ exec h s o i vm ]
            ≡ elim d [ none ↦ failed invalid_opcode vm | some o ↦ exec h' s o i vm ]
      go none = refl
      go (some o) = exec-replay o i vm

  turn-replay : (vm : Vm) → turn h s vm ≡ turn h' s vm
  unfolding turn
  turn-replay vm = rw (dispatch-replay (byte_at s vm.ip) (operands_at s vm.ip) (fetched vm))

  -- With replay switched on, a run does not depend on the time stamp counter of the host: for any
  -- number of turns and from any state, the result, the output and every register are the same.
  pub run-replay : (fuel : ℕ) (vm : Vm) → run h s fuel vm ≡ run h' s fuel vm
  unfolding run
  run-replay zero vm = refl
  run-replay (suc fuel) vm = go (turn h s vm) (turn h' s vm) (turn-replay vm) (run-replay fuel)
    where
      verdict : Host → Outcome → Verdict
      verdict k o = elim o [
        | running v ↦ run k s fuel v
        | halted v ↦ finished v
        | failed e v ↦ errored e v
        | panicked ↦ crashed
      ]

      same :
          (o : Outcome) → ((v : Vm) → run h s fuel v ≡ run h' s fuel v) → verdict h o ≡ verdict h' o
      same (running v) rec = rec v
      same (halted v) rec = refl
      same (failed e v) rec = refl
      same panicked rec = refl

      go :
          (o o' : Outcome)
          → o ≡ o'
          → ((v : Vm) → run h s fuel v ≡ run h' s fuel v)
          → verdict h o ≡ verdict h' o'
      go o o' e rec = same o rec ∙ ap (verdict h') e
