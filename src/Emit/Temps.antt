-- ===== src/Emit/Temps.antt =====
-- The scratch registers of pulselang-core/src/compiler.rs: eight bits for `$r8` to `$r15`.
use latency_os.Prelude.{
  ℕ, zero, suc, ◌+◌, ◌-◌, ◌*◌, ◌/◌, ◌%◌, ◌^◌, ◌≤◌, ◌<◌, ◌≡◌, refl, ap, ◌∙◌, arith, bit_and, bit_or,
  Bool-cases, inl, inr, ◌⊎◌, ◌==◌, true, false,
}
use latency_os.Prelude.Bits.{and-bit, and-clear, or-bit, or-lt, or_comm, pow-lt-pow}
use native.Mathlib.Nat.{one-le-pow, add-div_left}
use native.Mathlib.Decide.{ℕ_discrete}
use latency_os.Emit.{Emitter, done, refused, expr_too_complex, alloc_temp, alloc_from, free_temp}

-- whether a scratch register is in use
abbrev pub in_use : Emitter → ℕ → ℕ
in_use c reg = c.temp_used / 2 ^ (15 - reg) % 2

-- The register was free, and its bit is what the state has more.
pub record Allocates (c : Emitter) (reg : ℕ) (c' : Emitter) : Type 0 where
  pub low : 8 ≤ reg
  pub high : reg ≤ 15
  pub was_free : in_use c reg ≡ 0
  pub taken : c' ≡ record c { temp_used = 2 ^ (15 - reg) + c.temp_used }

zero-product : (b k : ℕ) → b < 2 → b * 2 ^ k ≡ 0 → b ≡ 0
zero-product zero k lt e = refl
zero-product (suc zero) k lt e = absurd (omega (arith, one-le-pow k 2))
zero-product (suc (suc b)) k lt e = absurd (omega arith)

-- what the test of `alloc_temp` tells of the bit
bit_zero : (i v : ℕ) → (bit_and v (2 ^ i) == 0) ≡ true → v / 2 ^ i % 2 ≡ 0
bit_zero i v e =
    let none_left : bit_and v (2 ^ i) ≡ 0 = ground arith in
    zero-product (v / 2 ^ i % 2) i (omega arith) (omega (arith, and-bit i v))

bit_one : (i v : ℕ) → (bit_and v (2 ^ i) == 0) ≡ false → v / 2 ^ i % 2 ≡ 1
bit_one i v e = elim (ℕ_discrete (v / 2 ^ i % 2) 0) [
  | yes z ↦ absurd (ground (arith, and-bit i v))
  | no nz ↦ omega arith
]

allocated :
    (i : ℕ) (c : Emitter)
    → i ≤ 7
    → c.temp_used / 2 ^ i % 2 ≡ 0
    → Allocates c (15 - i) (record c { temp_used = bit_or c.temp_used (2 ^ i) })
allocated i c le z =
    let back : 15 - (15 - i) ≡ i = omega arith in
    record {
      low = omega arith;
      high = omega arith;
      was_free = rw back z;
      taken = rw back (
          ap (λ (t : ℕ). record c { temp_used = t })
            (or_comm c.temp_used (2 ^ i) ∙ or-bit i c.temp_used z));
    }

-- Either the loop finds a free register, or all those from bit `i` on are in use.
alloc_from-Allocates :
    (n i : ℕ) (c : Emitter)
    → n + i ≡ 8
    → ((alloc_from n i c ≡ refused expr_too_complex)
        × ((j : ℕ) → i ≤ j → j < 8 → c.temp_used / 2 ^ j % 2 ≡ 1))
      ⊎ ((reg : ℕ) × (c' : Emitter) × (alloc_from n i c ≡ done reg c') × Allocates c reg c')
unfolding alloc_from
alloc_from-Allocates zero i c len = inl (refl, λ j le lt. absurd (omega arith))
alloc_from-Allocates (suc n) i c len = elim (Bool-cases (bit_and c.temp_used (2 ^ i) == 0)) [
  | inl free ↦ inr (
    15 - i,
    record c { temp_used = bit_or c.temp_used (2 ^ i) },
    rw free refl,
    allocated i c (omega arith) (bit_zero i c.temp_used free),
  )
  | inr used ↦ rw used (elim (alloc_from-Allocates n (suc i) c (omega arith)) [
    | inl (e, all) ↦ inl (
      e,
      λ j le lt. elim (ℕ_discrete j i) [
        | yes same ↦ rw same (bit_one i c.temp_used used)
        | no other ↦ all j (omega arith) lt
      ],
    )
    | inr found ↦ inr found
  ])
]

-- a bit added by itself is set, and taking it away leaves the rest
freed : (k v : ℕ) → k < 8 → v < 256 → v / 2 ^ k % 2 ≡ 0 → bit_and (2 ^ k + v) (255 - 2 ^ k) ≡ v
freed k v lt byte z =
    let below : bit_or (2 ^ k) v < 2 ^ 8 = or-lt 8 (2 ^ k) v (pow-lt-pow k 8 lt) (omega arith) in
    let sum : bit_or (2 ^ k) v ≡ 2 ^ k + v = or-bit k v z in
    let next : (2 ^ k + v) / 2 ^ k ≡ v / 2 ^ k + 1 =
      add-div_left v {k = 2 ^ k} (one-le-pow k 2 (omega arith)) in
    let set : (2 ^ k + v) / 2 ^ k % 2 ≡ 1 = omega (arith, next) in
    let bit : bit_and (2 ^ k + v) (2 ^ k) ≡ 2 ^ k =
      and-bit k (2 ^ k + v) ∙ ap (λ (t : ℕ). t * 2 ^ k) set ∙ omega arith in
    omega (arith, and-clear 8 k (2 ^ k + v) lt (omega arith))

free_temp-Allocates :
    (c : Emitter) {reg : ℕ} {c' : Emitter}
    → c.temp_used < 256
    → Allocates c reg c'
    → free_temp reg c' ≡ c
unfolding free_temp
free_temp-Allocates c {reg} {c'} byte a =
    let low = a.low in
    let high = a.high in
    let back = freed (15 - reg) c.temp_used (omega arith) byte a.was_free in
    rw a.taken (ground (arith, back))

-- `alloc_temp` gives one of the registers `$r8` to `$r15` that was free and marks only that one,
-- and `free_temp` gives it back; it refuses only if all eight are in use. The eight bits are a byte.
pub alloc_temp-free_temp :
    (c : Emitter)
    → c.temp_used < 256
    → ((alloc_temp c ≡ refused expr_too_complex) × (c.temp_used ≡ 255))
      ⊎ ((reg : ℕ) × (c' : Emitter) × (alloc_temp c ≡ done reg c')
          × Allocates c reg c'
          × (free_temp reg c' ≡ c))
unfolding alloc_temp
alloc_temp-free_temp c byte = elim (alloc_from-Allocates 8 0 c refl) [
  | inl (e, all) ↦ inl (
    e,
    omega (
      arith,
      all 0 (omega arith) (omega arith),
      all 1 (omega arith) (omega arith),
      all 2 (omega arith) (omega arith),
      all 3 (omega arith) (omega arith),
      all 4 (omega arith) (omega arith),
      all 5 (omega arith) (omega arith),
      all 6 (omega arith) (omega arith),
      all 7 (omega arith) (omega arith),
    ),
  )
  | inr (reg, c', e, a) ↦ inr (reg, c', e, a, free_temp-Allocates c byte a)
]
