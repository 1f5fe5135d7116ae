-- ===== src/Prelude/Word.antt =====
-- A 64-bit register value is its bit pattern, a number below 2 ^ 64. These are the operations of
-- Rust's `i64` and `u64` on patterns.
use Prim.Native.Nat.{ℕ, zero, suc, ◌+◌, ◌-◌, ◌*◌, ◌/◌, ◌%◌, ◌^◌, ◌<◌, bit_and}
use mathlib.Core.Bool.{Bool, not, xor}
use latency_os.Prelude.Tests.{ltb, leb, ◌==◌, if◌then◌else◌}

abbrev pub IsWord : ℕ → Type 0
IsWord a = a < 2 ^ 64

abbrev pub sign_bit : ℕ
sign_bit = 2 ^ 63

-- `wrapping_add`, `wrapping_sub`, `wrapping_mul`
abbrev pub word_add : ℕ → ℕ → ℕ
word_add a b = (a + b) % 2 ^ 64

abbrev pub word_sub : ℕ → ℕ → ℕ
word_sub a b = (a + 2 ^ 64 - b) % 2 ^ 64

abbrev pub word_mul : ℕ → ℕ → ℕ
word_mul a b = a * b % 2 ^ 64

abbrev pub is_negative : ℕ → Bool
is_negative a = leb sign_bit a

abbrev pub word_neg : ℕ → ℕ
word_neg a = (2 ^ 64 - a) % 2 ^ 64

-- `unsigned_abs`
abbrev pub magnitude : ℕ → ℕ
magnitude a = if is_negative a then 2 ^ 64 - a else a

-- `wrapping_div` and `wrapping_rem`, which cut towards zero
unfoldable pub word_div : ℕ → ℕ → ℕ
word_div a b =
    let q = magnitude a / magnitude b in
    if xor (is_negative a) (is_negative b) then word_neg q else q

unfoldable pub word_rem : ℕ → ℕ → ℕ
word_rem a b = let r = magnitude a % magnitude b in if is_negative a then word_neg r else r

-- signed `<`, `min` and `max`
abbrev pub signed_lt : ℕ → ℕ → Bool
signed_lt a b = ltb ((a + sign_bit) % 2 ^ 64) ((b + sign_bit) % 2 ^ 64)

abbrev pub signed_min : ℕ → ℕ → ℕ
signed_min a b = if signed_lt b a then b else a

abbrev pub signed_max : ℕ → ℕ → ℕ
signed_max a b = if signed_lt b a then a else b

-- `saturating_abs`: the most negative value has no opposite.
abbrev pub saturating_abs : ℕ → ℕ
saturating_abs a = if a == sign_bit then sign_bit - 1 else magnitude a

-- shifts by an amount below 64: left, logical right, arithmetic right
abbrev pub shift_left : ℕ → ℕ → ℕ
shift_left a k = a * 2 ^ k % 2 ^ 64

abbrev pub shift_right : ℕ → ℕ → ℕ
shift_right a k = a / 2 ^ k

abbrev pub shift_right_signed : ℕ → ℕ → ℕ
shift_right_signed a k = if is_negative a then 2 ^ 64 - 1 - (2 ^ 64 - 1 - a) / 2 ^ k else a / 2 ^ k

-- `a & !mask`
abbrev pub without : ℕ → ℕ → ℕ
without a mask = bit_and a (2 ^ 64 - 1 - mask)

-- `a & mask != 0`
abbrev pub has_bit : ℕ → ℕ → Bool
has_bit a mask = not (bit_and a mask == 0)

-- the ones among the lowest `k` binary digits
unfoldable pub count_ones : ℕ → ℕ → ℕ
count_ones zero a = 0
count_ones (suc k) a = a % 2 + count_ones k (a / 2)

-- the zeros above the highest one, in a word of `k` digits
unfoldable pub leading_zeros : ℕ → ℕ → ℕ
leading_zeros zero a = 0
leading_zeros (suc k) a = if a == 0 then suc k else leading_zeros k (a / 2)
