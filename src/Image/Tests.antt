-- ===== src/Image/Tests.antt =====
-- A container file with a program, a string and two constants, for the format of
-- pulselang-core/src/lib.rs and vm.rs.
use latency_os.Prelude.{ℕ, ◌-◌, ◌^◌, ◌≡◌, refl, arith, List, [], ◌∷◌}
use latency_os.Vm.State.{new_setup}
use latency_os.Image.{write_binary, read_binary, loaded, const_bytes, to_be_bytes}
use latency_os.Image.RoundTrip.{read-write_binary}

abbrev code : List ℕ
code = 23 ∷ 1 ∷ 0 ∷ 1 ∷ 22 ∷ 0 ∷ 0 ∷ 0 ∷ []

abbrev str_pool : List ℕ
str_pool = b'o' ∷ b'k' ∷ []

abbrev consts : List ℕ
consts = (2 ^ 64 - 1) ∷ 300 ∷ []

bytes_of_consts :
    const_bytes consts
    ≡ (255 ∷ 255 ∷ 255 ∷ 255 ∷ 255 ∷ 255 ∷ 255 ∷ 255 ∷ 0 ∷ 0 ∷ 0 ∷ 0 ∷ 0 ∷ 0 ∷ 1 ∷ 44 ∷ [])
unfolding const_bytes to_be_bytes
bytes_of_consts = refl

read-write_binary_example :
    read_binary (write_binary code str_pool consts) ((b'a' ∷ []) ∷ [])
    ≡ loaded (new_setup code str_pool consts ((b'a' ∷ []) ∷ []))
read-write_binary_example =
    read-write_binary code str_pool consts ((b'a' ∷ []) ∷ []) (omega arith) (omega arith)
      (omega arith) (omega arith, (omega arith, tt))
