-- ===== src/Vm/Strings.antt =====
-- Tagged strings of pulselang-core/src/vm.rs: what MOV_STR makes is what the string functions read,
-- and what `@print` does to numbers that look like tagged strings.
use latency_os.Prelude.{
  ℕ, ◌+◌, ◌-◌, ◌*◌, ◌%◌, ◌^◌, ◌≤◌, ◌<◌, ◌≡◌, refl, ap, ◌∙◌, arith, true, none, some, List, [], ◌∷◌,
  bit_or, length, leb, if◌then◌else◌, get_elem?, zero, suc,
}
use latency_os.Prelude.Word.{IsWord, has_bit, without}
use latency_os.Prelude.Bits.{and-bit, and-clear, or-bit, and-mask, or-fields}
use latency_os.Isa.Limits.{str_tag, arg_tag}
use latency_os.Vm.State.{Setup, Operands, Vm, running}
use latency_os.Vm.Alu.{exec_mov_str}
use latency_os.Vm.Text.{get_str_bytes, pool_slice, slice, str_offset, str_length, shown}

-- the value that MOV_STR makes
abbrev pub string_value : ℕ → ℕ → ℕ
string_value offset len = bit_or (bit_or str_tag (offset * 2 ^ 32 % 2 ^ 64)) len

string_value-sum :
    (offset len : ℕ)
    → offset < 256
    → len < 256
    → string_value offset len ≡ str_tag + offset * 2 ^ 32 + len
string_value-sum offset len ho hl =
    let high : bit_or str_tag (offset * 2 ^ 32 % 2 ^ 64) ≡ str_tag + offset * 2 ^ 32 % 2 ^ 64 =
      or-bit 62 (offset * 2 ^ 32 % 2 ^ 64) (omega arith) in
    let e : str_tag + offset * 2 ^ 32 % 2 ^ 64 ≡ (2 ^ 30 + offset) * 2 ^ 32 = omega arith in
    ap (λ (t : ℕ). bit_or t len) (high ∙ e)
    ∙ or-fields 32 (2 ^ 30 + offset) len (omega arith)
    ∙ omega arith

module _ (s : Setup) (offset len : ℕ) (ho : offset < 256) (hl : len < 256) where
  value-IsWord : string_value offset len < 2 ^ 64
  value-IsWord = omega (arith, string_value-sum offset len ho hl)

  without-tag : without (string_value offset len) str_tag ≡ offset * 2 ^ 32 + len
  without-tag = omega (
    arith,
    string_value-sum offset len ho hl,
    and-clear 64 62 (string_value offset len) (omega arith) value-IsWord,
    and-bit 62 (string_value offset len),
  )

  fields :
      (str_offset (string_value offset len) ≡ offset) × (str_length (string_value offset len) ≡ len)
  fields = (
    omega (arith, without-tag),
    omega (arith, without-tag, and-mask 32 (without (string_value offset len) str_tag)),
  )

  -- A string that MOV_STR makes from an offset and a length is read back as those bytes of the
  -- string pool, if the pool has them, and as nothing if it does not.
  get_str_bytes-mov_str : get_str_bytes s (string_value offset len) ≡ (
      if leb (offset + len) (length s.str_pool) then some (slice s.str_pool offset len) else none)
  unfolding get_str_bytes pool_slice
  get_str_bytes-mov_str =
      let tagged : has_bit (string_value offset len) str_tag ≡ true =
        ground (arith, and-bit 62 (string_value offset len), string_value-sum offset len ho hl) in
      rw (tagged, fields.0, fields.1)

get_elem?-none {ℓ} : {A : Type ℓ} (xs : List A) (i : ℕ) → length xs ≤ i → get_elem? xs i ≡ none
get_elem?-none [] i h = refl
get_elem?-none (x ∷ xs) zero h = absurd (omega arith)
get_elem?-none (x ∷ xs) (suc i) h = get_elem?-none xs i (omega arith)

-- A number from -2 ^ 61 to -1 has the bits of both tags, so `@print` takes it for an argument: it
-- writes nothing, unless the program was given more arguments than its lowest byte tells.
pub shown_negative :
    (s : Setup) (v : ℕ) → 2 ^ 64 - 2 ^ 61 ≤ v → IsWord v → length s.args ≤ v % 256 → shown s v ≡ []
unfolding shown
shown_negative s v lo w few =
    let tagged : has_bit v arg_tag ≡ true = ground (arith, and-bit 61 v) in
    rw (tagged, and-mask 8 v, get_elem?-none s.args (v % 256) few)

-- MOV_STR puts a value into a register from which the string functions read `len` bytes of the
-- string pool at `offset`, or nothing where the pool ends before; both operands are bytes.
pub get_str_bytes-exec_mov_str :
    (s : Setup) (i : Operands) (vm : Vm) {v : Vm}
    → i.rd < 20
    → i.rs1 < 256
    → i.rs2 < 256
    → exec_mov_str i vm ≡ running v
    → get_str_bytes s (v.regs i.rd) ≡ (
        if leb (i.rs1 + i.rs2) (length s.str_pool)
        then some (slice s.str_pool i.rs1 i.rs2)
        else none)
unfolding exec_mov_str
get_str_bytes-exec_mov_str s i vm {v} reg ho hl e =
    let p : v.regs i.rd ≡ string_value i.rs1 i.rs2 = ground arith in
    ap (get_str_bytes s) p ∙ get_str_bytes-mov_str s i.rs1 i.rs2 ho hl
