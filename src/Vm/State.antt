-- ===== src/Vm/State.antt =====
-- The state of `PX64VM` (pulselang-core/src/vm.rs). What `run_with_output` never changes is
-- `Setup`, what it changes is `Vm`, and what it asks of the machine below it is `Host`.
use latency_os.Prelude.{
  ℕ, zero, suc, ◌+◌, ◌*◌, ◌/◌, Bool, true, Option, none, some, List, [], ◌++◌, Cells, update, ltb,
  if◌then◌else◌,
}
use latency_os.Prelude.Word.{word_add, word_mul}
use latency_os.Isa.Limits.{num_registers, max_vm_steps}

-- `DeterministicReplayConfig`
pub record ReplayConfig : Type 0 where
  pub enabled : Bool
  pub tsc_seed : ℕ
  pub tsc_step : ℕ
  pub uptime_base_ns : ℕ
  pub uptime_step_ns : ℕ

unfoldable pub with_seed : ℕ → ReplayConfig
with_seed seed = record {
  enabled = true;
  tsc_seed = seed;
  tsc_step = 10;
  uptime_base_ns = 1_000_000;
  uptime_step_ns = 15;
}

pub record Setup : Type 0 where
  pub code : List ℕ
  pub str_pool : List ℕ
  pub const_pool : List ℕ
  pub args : List (List ℕ)
  pub max_steps : ℕ
  pub replay_config : Option ReplayConfig

-- The machine and the operating system that the interpreter runs on. Each answer may depend on the
-- number of instructions that were fetched before it.
pub record Host : Type 0 where
  pub rdtsc : ℕ → ℕ
  pub read_key : ℕ → ℕ
  pub term_size : ℕ → ℕ
  pub file_exists : ℕ → List ℕ → Bool
  pub file_write : ℕ → List ℕ → List ℕ → Bool

-- `clock` counts the fetched instructions. The source has no such field: `steps` is the counter
-- that it tests, and `@term_read_key` resets that. `output` holds the bytes that were written, and
-- `requests` the file writes that were handed to the host, the last one first.
pub record Vm : Type 0 where
  pub ip : ℕ
  pub regs : Cells ℕ
  pub call_stack : Cells ℕ
  pub frame_stack : Cells (Cells ℕ)
  pub call_sp : ℕ
  pub deadline_stack : Cells ℕ
  pub dl_sp : ℕ
  pub array_slots : Cells ℕ
  pub array_lens : Cells ℕ
  pub array_bases : Cells ℕ
  pub struct_slots : Cells ℕ
  pub struct_field_counts : Cells ℕ
  pub struct_bases : Cells ℕ
  pub table_lens : Cells ℕ
  pub table_bases : Cells ℕ
  pub vram : Cells (Cells ℕ)
  pub spill_slots : Cells ℕ
  pub steps : ℕ
  pub clock : ℕ
  pub output : List ℕ
  pub requests : List (List ℕ × List ℕ)

unfoldable pub vram_fill : ℕ → ℕ
vram_fill zero = 0x5a
vram_fill (suc zero) = 0xa5
vram_fill (suc (suc zero)) = 0x00
vram_fill _ = 0xff

-- `PX64VM::new`, in its two parts
unfoldable pub new_setup : List ℕ → List ℕ → List ℕ → List (List ℕ) → Setup
new_setup code str_pool const_pool args = record {
  code = code;
  str_pool = str_pool;
  const_pool = const_pool;
  args = args;
  max_steps = max_vm_steps;
  replay_config = none;
}

unfoldable pub new_vm : Vm
unfolding vram_fill
new_vm = record {
  ip = 0;
  regs = λ _. 0;
  call_stack = λ _. 0;
  frame_stack = λ _ _. 0;
  call_sp = 0;
  deadline_stack = λ _. 0;
  dl_sp = 0;
  array_slots = λ _. 0;
  array_lens = λ _. 0;
  array_bases = λ _. 0;
  struct_slots = λ _. 0;
  struct_field_counts = λ _. 0;
  struct_bases = λ _. 0;
  table_lens = λ _. 0;
  table_bases = λ _. 0;
  vram = λ slot _. vram_fill slot;
  spill_slots = λ _. 0;
  steps = 0;
  clock = 0;
  output = [];
  requests = [];
}

unfoldable pub with_replay_config : Setup → ReplayConfig → Setup
with_replay_config s cfg = record s { replay_config = some cfg }

-- The errors of `run_with_output` and `run_binary_with_output`, by their code.
pub data VmError : Type 0 where
  wcet_exceeded const_out_of_bounds array_invalid_id array_out_of_bounds : VmError
  struct_out_of_bounds table_invalid_id table_out_of_bounds assertion_failed : VmError
  stack_overflow div_by_zero unwrap_failed invalid_opcode : VmError
  binary_version_mismatch binary_truncated binary_invalid_magic : VmError

-- What one turn of the loop does: go on, leave the loop, return an error, or panic on an index out
-- of range or an overflow.
pub data Outcome : Type 0 where
  running halted : Vm → Outcome
  failed : VmError → Vm → Outcome
  panicked : Outcome

-- The operands `rd`, `rs1`, `rs2` of a fetched instruction.
pub record Operands : Type 0 where
  pub rd : ℕ
  pub rs1 : ℕ
  pub rs2 : ℕ

abbrev pub imm16 : Operands → ℕ
imm16 i = i.rs1 * 256 + i.rs2

abbrev pub is_reg : ℕ → Bool
is_reg r = ltb r num_registers

-- a register, or what the source takes where the operand names none
abbrev pub reg_or : Vm → ℕ → ℕ → ℕ
reg_or vm r default = if is_reg r then vm.regs r else default

-- `if rd < PX64_NUM_REGISTERS { self.regs[rd] = v }`
abbrev pub set_reg : Vm → ℕ → ℕ → Vm
set_reg vm r v = if is_reg r then record vm { regs = update vm.regs r v } else vm

abbrev pub write_str : List ℕ → Vm → Vm
write_str s vm = record vm { output = vm.output ++ s }

module _ (h : Host) (s : Setup) where
  unfoldable pub get_tsc : Vm → ℕ
  get_tsc vm = elim s.replay_config [
    | none ↦ h.rdtsc vm.clock
    | some cfg ↦
        if cfg.enabled
        then word_add cfg.tsc_seed (word_mul vm.steps cfg.tsc_step)
        else h.rdtsc vm.clock
  ]

  unfoldable pub get_uptime_ns : Vm → ℕ
  get_uptime_ns vm = elim s.replay_config [
    | none ↦ h.rdtsc vm.clock / 3
    | some cfg ↦
        if cfg.enabled
        then word_add cfg.uptime_base_ns (word_mul vm.steps cfg.uptime_step_ns)
        else h.rdtsc vm.clock / 3
  ]
