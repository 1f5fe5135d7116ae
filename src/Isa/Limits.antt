-- ===== src/Isa/Limits.antt =====
-- The resource limits and tag masks of isa.rs.
use latency_os.Prelude.{ℕ, ◌^◌}

abbrev pub num_registers : ℕ
num_registers = 20

abbrev pub max_const_pool : ℕ
max_const_pool = 64

abbrev pub header_size : ℕ
header_size = 16

abbrev pub bin_version : ℕ
bin_version = 3

abbrev pub max_vm_steps : ℕ
max_vm_steps = 10_000

abbrev pub max_call_depth : ℕ
max_call_depth = 8

abbrev pub str_tag : ℕ
str_tag = 2 ^ 62

abbrev pub arg_tag : ℕ
arg_tag = 2 ^ 61

abbrev pub err_tag : ℕ
err_tag = 2 ^ 60
