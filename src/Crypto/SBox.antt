-- ===== src/Crypto/SBox.antt =====
-- The S-box of kernel/src/crypto.rs beside the definition that AES gives of it.
use latency_os.Prelude.{
  ℕ, zero, suc, ◌+◌, ◌-◌, ◌*◌, ◌/◌, ◌%◌, ◌^◌, ◌<◌, ◌≡◌, refl, ap, ◌∙◌, Bool-cases, inl, inr, false,
  subst, arith, ◌≢◌, ◌↔◌, Bool, true, bit_xor, ◌==◌, ==_iff, if◌then◌else◌,
}
use native.Mathlib.Decide.{ℕ_discrete}
use latency_os.Crypto.Tables.{sub_byte, double_byte}

-- The product in the field of AES, the second factor digit by digit from the lowest.
field_mul : ℕ → ℕ → ℕ → ℕ
unfolding double_byte
field_mul zero a b = 0
field_mul (suc n) a b = bit_xor (if b % 2 == 1 then a else 0) (field_mul n (double_byte a) (b / 2))

abbrev square : ℕ → ℕ
square a = field_mul 8 a a

-- The inverse is the power 254 = 2 + 4 + 8 + 16 + 32 + 64 + 128; it is 0 for 0.
power_from : ℕ → ℕ → ℕ → ℕ
unfolding field_mul
power_from zero a acc = acc
power_from (suc n) a acc = let a2 = square a in power_from n a2 (field_mul 8 acc a2)

abbrev rotated : ℕ → ℕ → ℕ
rotated a k = a * 2 ^ k % 256 + a / 2 ^ (8 - k)

-- The affine map of AES behind the inverse.
pub rijndael : ℕ → ℕ
unfolding power_from
rijndael b =
    let i = power_from 7 b 1 in
    bit_xor
      (bit_xor (bit_xor (bit_xor (bit_xor i (rotated i 1)) (rotated i 2)) (rotated i 3))
        (rotated i 4))
      0x63

abbrev agrees : ℕ → Bool
agrees b = if b == 0xa7 then true else sub_byte b == rijndael b

-- the first `k` entries agree, but for the wrong one
entries_agree : ℕ → Bool
unfolding rijndael sub_byte
entries_agree zero = true
entries_agree (suc k) = if agrees k then entries_agree k else false

entry-agrees : (k : ℕ) → entries_agree k ≡ true → (b : ℕ) → b < k → agrees b ≡ true
unfolding entries_agree
entry-agrees zero all b lt = absurd (omega arith)
entry-agrees (suc k) all b lt = elim (Bool-cases (agrees k)) [
  | inr h ↦ absurd (ground (arith, h))
  | inl h ↦ elim (ℕ_discrete b k) [
    | yes last ↦ ap agrees last ∙ h
    | no before ↦ entry-agrees k (ground (arith, h)) b (omega arith)
  ]
]

table : entries_agree 256 ≡ true
unfolding entries_agree
table = refl

wrong : sub_byte 0xa7 ≡ 0x5e
unfolding sub_byte
wrong = refl

right : rijndael 0xa7 ≡ 0x5c
unfolding rijndael
right = refl

-- The entry of the S-box for a byte is the one that AES defines, the affine map of the inverse in
-- the field of 256 elements, exactly if the byte is not 0xa7: the table has one wrong entry.
pub sub_byte-eq-rijndael : (b : ℕ) → b < 256 → (sub_byte b ≡ rijndael b) ↔ (b ≢ 0xa7)
sub_byte-eq-rijndael b lt = (
  λ same at.
      let here : sub_byte 0xa7 ≡ rijndael 0xa7 =
        subst (λ (t : ℕ). sub_byte t ≡ rijndael t) at same in
      absurd (omega (arith, wrong, right)),
  λ other.
      let checked : agrees b ≡ true = entry-agrees 256 table b lt in
      (==_iff _ _).0 (ground (arith, checked, other)),
)
