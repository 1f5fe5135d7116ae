-- ===== src/Vm/Tests.antt =====
-- Runs of the machine of pulselang-core/src/vm.rs.
use latency_os.Prelude.{
  ℕ, ◌+◌, ◌-◌, ◌*◌, ◌%◌, ◌^◌, ◌≡◌, refl, ◌≢◌, arith, true, false, Option, none, some, bit_or, ◌/◌,
  List, [], ◌∷◌, leb, if◌then◌else◌, length, update,
}
use latency_os.Isa.{Opcode, decode_opcode, decode_native}
use latency_os.Isa.Limits.{err_tag, str_tag}
use latency_os.Vm.State.{
  Host, Setup, Vm, Operands, running, panicked, unwrap_failed, new_vm, with_seed,
  with_replay_config,
}
use latency_os.Vm.Text.{get_str_bytes, slice, shown}
use latency_os.Vm.Alu.{exec_mov_str, exec_ldc, exec_addi, exec_mov_reg, two_regs}
use latency_os.Vm.Flow.{exec_call, exec_ret}
use latency_os.Vm.Calls.{tag_ok, tag_err, unwrap, gives, fails}
use latency_os.Vm.Exec.{
  dispatch, exec, Verdict, finished, unfinished, turn, run, byte_at, operands_at, fetched,
}
use latency_os.Prelude.Word.{shift_left}
use latency_os.Vm.Slots.{sum_below}
use latency_os.Vm.Effect.{Keeps}
use latency_os.Vm.Watchdog.{reads_no_key, EndsWithin, run_ends, IsKeyLoop, run-key_loop}
use latency_os.Vm.Frames.{StepsAbove, stop, step, Returns, call-Returns}
use latency_os.Vm.Bounded.{IsBounded, turn-IsBounded}
use latency_os.Vm.Safe.{IsLaidOut, Fits}
use latency_os.Vm.Safe.Turn.{turn_safe}
use latency_os.Vm.Tags.{unwrap-tag}
use latency_os.Vm.Strings.{get_str_bytes-exec_mov_str}
use latency_os.Vm.Replay.{run-replay}

-- a machine whose counter runs by ten, without keys and files
abbrev host : Host
host = record {
  rdtsc = λ n. n * 10;
  read_key = λ _. 0;
  term_size = λ _. 80 * 65536 + 25;
  file_exists = λ _ _. false;
  file_write = λ _ _ _. false;
}

-- what `new_setup` makes of the code, the string pool, the constants and the arguments
abbrev setup_of : List ℕ → List ℕ → List ℕ → List (List ℕ) → Setup
setup_of code str_pool const_pool args = record {
  code = code;
  str_pool = str_pool;
  const_pool = const_pool;
  args = args;
  max_steps = 10_000;
  replay_config = none;
}

-- LDC r1 0; CALL 12; HALT; ADDI r1 r1 5; MOV_REG r0 r1; RET, with the constant 37
abbrev calling : Setup
calling =
    setup_of
      (23 ∷ 1 ∷ 0 ∷ 0 ∷ 35 ∷ 0 ∷ 0 ∷ 12 ∷ 22 ∷ 0 ∷ 0 ∷ 0 ∷ 24 ∷ 1 ∷ 1 ∷ 5 ∷ 2 ∷ 0 ∷ 1 ∷ 0 ∷ 36 ∷ 0
        ∷ 0 ∷ 0 ∷ [])
      [] (37 ∷ []) []

-- the registers a run leaves, if it ends without an error
abbrev register_after : ℕ → Verdict → Option ℕ
register_after r (finished vm) = some (vm.regs r)
register_after r _ = none

result_of_calling : register_after 0 (run host calling 7 new_vm) ≡ some 42
unfolding run turn dispatch exec new_vm decode_opcode exec_ldc exec_call exec_addi exec_mov_reg
    two_regs exec_ret
result_of_calling = refl

caller_register : register_after 1 (run host calling 7 new_vm) ≡ some 37
unfolding run turn dispatch exec new_vm decode_opcode exec_ldc exec_call exec_addi exec_mov_reg
    two_regs exec_ret
caller_register = refl

no_key_in_calling : reads_no_key calling.code ≡ true
unfolding reads_no_key decode_opcode
no_key_in_calling = refl

run_ends_example : EndsWithin 10_000 (run host calling 10_001 new_vm)
run_ends_example = run_ends host calling no_key_in_calling 10_001 (omega arith)

-- CALL_NAT term_read_key r0; JMP 0
abbrev key_loop : Setup
key_loop = setup_of (18 ∷ 0 ∷ 36 ∷ 0 ∷ 15 ∷ 0 ∷ 0 ∷ 0 ∷ []) [] [] []

key_loop-IsKeyLoop : IsKeyLoop key_loop 0
unfolding decode_opcode decode_native
key_loop-IsKeyLoop = record {
  inside = omega arith;
  calls = refl;
  reads = refl;
  jumps = refl;
  back = refl;
}

run-key_loop_example :
    (v : Vm) × (run host key_loop 1_000_000 new_vm ≡ unfinished v)
    × (v.clock ≡ new_vm.clock + 1_000_000)
unfolding new_vm
run-key_loop_example =
    run-key_loop host key_loop 0 key_loop-IsKeyLoop (omega arith) 1_000_000 new_vm refl
      (omega arith)

run-replay_example :
    run host (with_replay_config calling (with_seed 5)) 7 new_vm
    ≡ run (record host { rdtsc = λ n. n }) (with_replay_config calling (with_seed 5)) 7 new_vm
unfolding with_replay_config with_seed
run-replay_example =
    run-replay host (λ n. n) (with_replay_config calling (with_seed 5)) (with_seed 5) refl refl 7
      new_vm

-- in the call of `calling`, and before its RET
abbrev before : Vm
before = record new_vm { ip = 8; regs = update (λ _. 0) 1 37; steps = 2; clock = 2 }

abbrev call_operands : Operands
call_operands = record { rd = 0; rs1 = 0; rs2 = 12 }

abbrev entry : Vm
entry = record before {
  frame_stack = update before.frame_stack 0 before.regs;
  call_stack = update before.call_stack 0 8;
  call_sp = 1;
  ip = 12;
}

abbrev inside : Vm
inside = record entry { regs = update entry.regs 1 42; ip = 16; steps = 3; clock = 3 }

calls_entry : exec_call call_operands before ≡ running entry
unfolding exec_call new_vm
calls_entry = refl

steps_inside : StepsAbove host calling 0 entry inside
unfolding turn dispatch exec decode_opcode exec_addi two_regs
steps_inside = step (omega arith) refl stop

call-Returns_example :
    (after : Vm) × (exec_ret inside ≡ running after) × Returns before inside after
unfolding new_vm
call-Returns_example =
    call-Returns host calling call_operands {before = before} {entry = entry} {inside = inside}
      calls_entry steps_inside refl

new_vm-IsBounded : IsBounded new_vm
unfolding new_vm
new_vm-IsBounded = record { calls = omega arith; deadlines = omega arith }

turn-IsBounded_example : Keeps IsBounded (turn host calling new_vm)
turn-IsBounded_example = turn-IsBounded host calling new_vm new_vm-IsBounded

new_vm-IsLaidOut : IsLaidOut new_vm
unfolding new_vm
new_vm-IsLaidOut = record { arrays = λ a lt. omega arith; structs = λ a lt. omega arith }

-- ARR_DEF 3 with 200 elements
abbrev defining : Setup
defining = setup_of (31 ∷ 3 ∷ 0 ∷ 200 ∷ []) [] [] []

defining-Fits :
    (o : Opcode)
    → decode_opcode (byte_at defining new_vm.ip) ≡ some o
    → Fits o (operands_at defining new_vm.ip) (fetched new_vm)
unfolding new_vm decode_opcode sum_below
defining-Fits o e = record {
  argument_register = λ p. absurd (ground arith);
  offset = λ p. absurd (ground arith);
  array = λ p lt. omega arith;
  struct = λ p lt. omega arith;
}

turn_safe_example :
    (turn host defining new_vm ≢ panicked)
    × Keeps IsLaidOut (turn host defining new_vm)
    × Keeps IsBounded (turn host defining new_vm)
turn_safe_example = turn_safe host defining new_vm new_vm-IsLaidOut new_vm-IsBounded defining-Fits

unwrap-tag_example :
    (unwrap (tag_ok 77) new_vm ≡ gives (tag_ok 77) new_vm)
    × (unwrap (tag_err 77) new_vm ≡ fails unwrap_failed)
    × (tag_ok (tag_err 77) ≡ tag_ok 77)
    × (tag_err (tag_ok 77) ≡ tag_err 77)
    × (tag_err 77 ≡ tag_ok 77 + err_tag)
    × (tag_ok 77 + 77 / 2 ^ 60 % 2 * err_tag ≡ 77)
unwrap-tag_example = unwrap-tag 77 new_vm (omega arith)

minus_one-shown : shown calling (2 ^ 64 - 1) ≡ []
unfolding shown
minus_one-shown = refl

-- the string pool "hello"
abbrev greeting : Setup
greeting = setup_of [] (b'h' ∷ b'e' ∷ b'l' ∷ b'l' ∷ b'o' ∷ []) [] []

abbrev ell : Operands
ell = record { rd = 2; rs1 = 1; rs2 = 3 }

abbrev loaded_ell : Vm
loaded_ell = record new_vm {
  regs = update (λ _. 0) 2 (bit_or (bit_or str_tag (shift_left 1 32)) 3);
}

loads_ell : exec_mov_str ell new_vm ≡ running loaded_ell
unfolding exec_mov_str new_vm
loads_ell = refl

get_str_bytes-exec_mov_str_example :
    get_str_bytes greeting (loaded_ell.regs 2)
    ≡ (if leb (1 + 3) (length greeting.str_pool) then some (slice greeting.str_pool 1 3) else none)
get_str_bytes-exec_mov_str_example =
    get_str_bytes-exec_mov_str greeting ell new_vm {v = loaded_ell} (omega arith) (omega arith)
      (omega arith) loads_ell
