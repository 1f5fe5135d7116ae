-- ===== src/Vm/Text.antt =====
-- Tagged strings, and the text that `@print` writes: `get_str_bytes` of
-- pulselang-core/src/vm.rs, and what the arms for print and println do.
use Prim.Native.Char.{code}
use Prim.Native.String.{String}
use latency_os.Prelude.{
  ℕ, zero, suc, ◌+◌, ◌/◌, ◌%◌, ◌^◌, Bool, true, false, ◌&&◌, ◌||◌, Option, none, some, List, [],
  ◌∷◌, ◌++◌, bit_and, length, get_elem?, take, drop, same_bytes, ltb, leb, ◌==◌, if◌then◌else◌,
}
use latency_os.Prelude.Word.{has_bit, without, is_negative, magnitude}
use latency_os.Isa.Limits.{str_tag, arg_tag}
use latency_os.Vm.State.{Setup}

-- the bytes of an ASCII literal
abbrev pub codes : String → List ℕ
codes String.[] = []
codes (String.◌∷◌ c s) = code c ∷ codes s

abbrev pub slice : List ℕ → ℕ → ℕ → List ℕ
slice xs offset len = take len (drop offset xs)

-- the offset and the length in a value tagged `STR_TAG`
abbrev pub str_offset : ℕ → ℕ
str_offset v = without v str_tag / 2 ^ 32

abbrev pub str_length : ℕ → ℕ
str_length v = bit_and (without v str_tag) 0xffff_ffff

module _ (s : Setup) where
  -- `&self.str_pool[offset..offset + len]`, where it is in range
  unfoldable pub pool_slice : ℕ → Option (List ℕ)
  pool_slice v =
      if leb (str_offset v + str_length v) (length s.str_pool)
      then some (slice s.str_pool (str_offset v) (str_length v))
      else none

  unfoldable pub get_str_bytes : ℕ → Option (List ℕ)
  get_str_bytes v =
      if has_bit v str_tag
      then pool_slice v
      else if has_bit v arg_tag
      then get_elem? s.args (bit_and v 0xff)
      else none

  unfoldable pub same_str : ℕ → ℕ → Bool
  same_str a b = elim (get_str_bytes a) [
    | none ↦ false
    | some x ↦ elim (get_str_bytes b) [ none ↦ false | some y ↦ same_bytes x y ]
  ]

abbrev pub is_text : ℕ → Bool
is_text v = has_bit v str_tag || has_bit v arg_tag

-- `{}` of an i64: a sign, and the decimal digits, the lowest taken last. Twenty digits are enough
-- for a word.
unfoldable pub digits_of : ℕ → ℕ → List ℕ
digits_of zero n = []
digits_of (suc k) n =
    let rest = digits_of k (n / 10) in
    if ltb n 10 then (48 + n) ∷ [] else rest ++ (48 + n % 10) ∷ []

unfoldable pub show_i64 : ℕ → List ℕ
unfolding digits_of
show_i64 v = if is_negative v then b'-' ∷ digits_of 20 (magnitude v) else digits_of 20 (magnitude v)

-- `core::str::from_utf8(..).is_ok()`: well-formed UTF-8, by the length that the first byte tells.
abbrev in_range : ℕ → ℕ → ℕ → Bool
in_range lo hi b = leb lo b && leb b hi

-- the least and the greatest byte that may follow `b` in a longer sequence
abbrev second_low : ℕ → ℕ
second_low b = if b == 0xe0 then 0xa0 else if b == 0xf0 then 0x90 else 0x80

abbrev second_high : ℕ → ℕ
second_high b = if b == 0xed then 0x9f else if b == 0xf4 then 0x8f else 0xbf

-- how many bytes follow the first byte `b`; `none` where `b` starts no sequence
unfoldable pub utf8_tail : ℕ → Option ℕ
utf8_tail b =
    if ltb b 0x80
    then some 0
    else if in_range 0xc2 0xdf b
    then some 1
    else if in_range 0xe0 0xef b
    then some 2
    else if in_range 0xf0 0xf4 b
    then some 3
    else none

-- the state: how many bytes are still to follow, and the range of the next one
unfoldable pub utf8_from : ℕ → ℕ → ℕ → List ℕ → Bool
utf8_from zero lo hi [] = true
utf8_from (suc k) lo hi [] = false
utf8_from zero lo hi (b ∷ bs) = elim (utf8_tail b) [
  | none ↦ false
  | some n ↦ utf8_from n (second_low b) (second_high b) bs
]
utf8_from (suc k) lo hi (b ∷ bs) =
    let rest = utf8_from k 0x80 0xbf bs in if in_range lo hi b then rest else false

unfoldable pub is_utf8 : List ℕ → Bool
unfolding utf8_from utf8_tail
is_utf8 bs = utf8_from 0 0x80 0xbf bs

module _ (s : Setup) where
  -- what `@print` writes for a value
  unfoldable pub shown : ℕ → List ℕ
  unfolding pool_slice is_utf8 show_i64
  shown v =
      if has_bit v arg_tag
      then elim (get_elem? s.args (bit_and v 0xff)) [ none ↦ [] | some text ↦ text ]
      else if has_bit v str_tag
      then elim (pool_slice s v) [ none ↦ [] | some bytes ↦ if is_utf8 bytes then bytes else [] ]
      else show_i64 v

  -- what `@println` writes, which is only the end of the line for no argument
  unfoldable pub shown_line : ℕ → ℕ → List ℕ
  unfolding shown
  shown_line arg_reg v =
      if is_text v || (ltb 0 arg_reg || ltb 0 v) then shown v ++ b'\n' ∷ [] else b'\n' ∷ []
