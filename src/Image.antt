-- ===== src/Image.antt =====
-- The binary container: the header and payload that `compile_pulse_to_binary_with_tokens` of
-- pulselang-core/src/lib.rs writes, and `run_binary_with_output` of pulselang-core/src/vm.rs, which
-- reads them.
pub mod RoundTrip
mod Tests
use Prim.Native.Nat.{min}
use latency_os.Prelude.{
  ℕ, zero, suc, ◌+◌, ◌-◌, ◌*◌, ◌/◌, ◌%◌, ◌^◌, Bool, true, false, not, ◌&&◌, List, [], ◌∷◌, ◌++◌,
  length, get_or, take, drop, same_bytes, ltb, leb, ◌==◌, if◌then◌else◌,
}
use latency_os.Isa.Limits.{header_size, bin_version, num_registers, max_const_pool}
use latency_os.Vm.State.{
  Host, Setup, Vm, new_setup, new_vm, VmError, binary_version_mismatch, binary_truncated,
  binary_invalid_magic,
}
use latency_os.Vm.Exec.{Verdict, errored, run}

-- `b"PX64"`
abbrev pub magic : List ℕ
magic = b'P' ∷ b'X' ∷ b'6' ∷ b'4' ∷ []

-- `to_be_bytes` of a number of `k` bytes
unfoldable pub to_be_bytes : ℕ → ℕ → List ℕ
to_be_bytes zero v = []
to_be_bytes (suc k) v = to_be_bytes k (v / 256) ++ v % 256 ∷ []

-- `from_be_bytes`, the value so far first
unfoldable pub from_be_bytes : ℕ → List ℕ → ℕ
from_be_bytes acc [] = acc
from_be_bytes acc (b ∷ bs) = from_be_bytes (acc * 256 + b) bs

unfoldable pub const_bytes : List ℕ → List ℕ
unfolding to_be_bytes
const_bytes [] = []
const_bytes (c ∷ cs) = to_be_bytes 8 c ++ const_bytes cs

abbrev pub header : ℕ → ℕ → ℕ → List ℕ
header code_len str_pool_len const_count =
    magic
    ++ (to_be_bytes 2 bin_version
        ++ (to_be_bytes 2 (code_len % 2 ^ 16)
            ++ (to_be_bytes 2 (str_pool_len % 2 ^ 16)
                ++ (to_be_bytes 2 (const_count % 2 ^ 16)
                    ++ (to_be_bytes 2 num_registers ++ 0 ∷ 0 ∷ [])))))

-- The file for the compiled code, string pool and constant pool.
unfoldable pub write_binary : List ℕ → List ℕ → List ℕ → List ℕ
unfolding to_be_bytes const_bytes
write_binary code str_pool consts =
    header (length code) (length str_pool) (length consts)
    ++ (code ++ (str_pool ++ const_bytes consts))

-- `count` constants of eight bytes each
unfoldable pub read_consts : ℕ → List ℕ → List ℕ
unfolding from_be_bytes
read_consts zero bytes = []
read_consts (suc n) bytes = from_be_bytes 0 (take 8 bytes) ∷ read_consts n (drop 8 bytes)

-- `u16::from_be_bytes([bin[at], bin[at + 1]])`
abbrev pub u16_at : List ℕ → ℕ → ℕ
u16_at bin at = get_or bin at 0 * 256 + get_or bin (at + 1) 0

pub data Loaded : Type 0 where
  loaded : Setup → Loaded
  refused : VmError → Loaded

-- the part behind the version test
unfoldable pub read_payload : List ℕ → List (List ℕ) → Loaded
unfolding read_consts
read_payload bin args =
    let code_len = u16_at bin 6 in
    let str_pool_len = u16_at bin 8 in
    let const_count = u16_at bin 10 in
    let body = drop header_size bin in
    let consts = drop (code_len + str_pool_len) body in
    if ltb (length bin) (header_size + code_len + str_pool_len + const_count * 8)
    then refused binary_truncated
    else loaded (
        new_setup (take code_len body) (take str_pool_len (drop code_len body))
          (read_consts (min const_count max_const_pool) consts) args)

unfoldable pub read_binary : List ℕ → List (List ℕ) → Loaded
unfolding read_payload
read_binary bin args =
    if leb header_size (length bin) && same_bytes (take 4 bin) magic
    then (if u16_at bin 4 == bin_version
        then read_payload bin args
        else refused binary_version_mismatch)
    else refused binary_invalid_magic

-- `run_binary_with_output`, with fuel for the loop
unfoldable pub run_binary : Host → ℕ → List ℕ → List (List ℕ) → Verdict
unfolding new_vm read_binary
run_binary h fuel bin args = elim (read_binary bin args) [
  | refused e ↦ errored e new_vm
  | loaded s ↦ run h s fuel new_vm
]
