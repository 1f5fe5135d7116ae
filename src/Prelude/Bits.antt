-- ===== src/Prelude/Bits.antt =====
-- Laws of `bit_and`, `bit_or` and `bit_xor` at variables, which the native operations lack: one
-- equation for the lowest digit, then bounds, masks and single bits by induction on the width.
use Prim.Native.Nat.{
  min, max, differ, digits, bitwise, bit_and-bitwise, bit_or-bitwise, bit_xor-bitwise,
}
use Prim.Native.Nat.{ℕ, zero, suc, ◌+◌, ◌-◌, ◌*◌, ◌/◌, ◌%◌, ◌^◌, ◌≤◌, ◌<◌}
use Prim.Native.Nat.{bit_and, bit_or, bit_xor}
use mathlib.Core.Path.{◌≡◌, refl, sym, ap}
use native.Mathlib.Nat.{pow-suc, one-le-pow, div-div-eq-div-mul, div-add-mod, mod-eq_of_lt}
use native.Mathlib.Omega.{arith}

-- A walk over the digits gives the same number on any fuel that covers the first argument.
module _ (z : ℕ → ℕ) (f : ℕ → ℕ → ℕ) where
  digits-fuel : (n m a b : ℕ) → a ≤ n → a ≤ m → digits z f n a b ≡ digits z f m a b
  digits-fuel zero zero a b p q = refl
  digits-fuel zero (suc m) zero b p q = refl
  digits-fuel zero (suc m) (suc a) b p q = absurd (omega arith)
  digits-fuel (suc n) zero zero b p q = refl
  digits-fuel (suc n) zero (suc a) b p q = absurd (omega arith)
  digits-fuel (suc n) (suc m) zero b p q = refl
  digits-fuel (suc n) (suc m) (suc a) b p q =
      omega (arith, digits-fuel n m (suc a / 2) (b / 2) (omega arith) (omega arith))

  digits_step :
      (a b : ℕ)
      → bitwise z f (suc a) b ≡ bitwise z f (suc a / 2) (b / 2) * 2 + f (suc a % 2) (b % 2)
  digits_step a b =
      omega (arith, digits-fuel a (suc a / 2) (suc a / 2) (b / 2) (omega arith) (omega arith))

pub and_step : (a b : ℕ) → bit_and a b ≡ bit_and (a / 2) (b / 2) * 2 + min (a % 2) (b % 2)
and_step zero b = simp bit_and-bitwise (omega arith)
and_step (suc a) b = simp bit_and-bitwise (digits_step (λ _. 0) min a b)

pub or_step : (a b : ℕ) → bit_or a b ≡ bit_or (a / 2) (b / 2) * 2 + max (a % 2) (b % 2)
or_step zero b = simp bit_or-bitwise (omega arith)
or_step (suc a) b = simp bit_or-bitwise (digits_step (λ y. y) max a b)

differ-mod : (x y : ℕ) → x < 2 → y < 2 → differ x y ≡ (x + y) % 2
differ-mod zero y hx hy = omega arith
differ-mod (suc zero) zero hx hy = refl
differ-mod (suc zero) (suc zero) hx hy = refl
differ-mod (suc zero) (suc (suc y)) hx hy = absurd (omega arith)
differ-mod (suc (suc x)) y hx hy = absurd (omega arith)

xor_digit : (a b : ℕ) → bit_xor a b ≡ bit_xor (a / 2) (b / 2) * 2 + differ (a % 2) (b % 2)
xor_digit zero b = simp bit_xor-bitwise (omega arith)
xor_digit (suc a) b = simp bit_xor-bitwise (digits_step (λ y. y) differ a b)

pub xor_step : (a b : ℕ) → bit_xor a b ≡ bit_xor (a / 2) (b / 2) * 2 + (a + b) % 2
xor_step a b = omega (arith, xor_digit a b, differ-mod (a % 2) (b % 2) (omega arith) (omega arith))

zero-and : (b : ℕ) → bit_and 0 b ≡ 0
zero-and b = bit_and-bitwise 0 b

half-lt : (k a : ℕ) → a < 2 ^ suc k → a / 2 < 2 ^ k
half-lt k a h = omega (arith, pow-suc 2 k)

-- Each operation stays within the width of its arguments.
pub and-le : (k a b : ℕ) → a < 2 ^ k → bit_and a b ≤ a
and-le zero zero b h = omega (arith, zero-and b)
and-le zero (suc a) b h = absurd (omega arith)
and-le (suc k) a b h = omega (arith, and_step a b, and-le k (a / 2) (b / 2) (half-lt k a h))

pub or-lt : (k a b : ℕ) → a < 2 ^ k → b < 2 ^ k → bit_or a b < 2 ^ k
or-lt zero zero zero ha hb = omega arith
or-lt zero (suc a) b ha hb = absurd (omega arith)
or-lt zero zero (suc b) ha hb = absurd (omega arith)
or-lt (suc k) a b ha hb =
    omega
      (arith, or_step a b, pow-suc 2 k, or-lt k (a / 2) (b / 2) (half-lt k a ha) (half-lt k b hb))

pub xor-lt : (k a b : ℕ) → a < 2 ^ k → b < 2 ^ k → bit_xor a b < 2 ^ k
xor-lt zero zero zero ha hb = omega arith
xor-lt zero (suc a) b ha hb = absurd (omega arith)
xor-lt zero zero (suc b) ha hb = absurd (omega arith)
xor-lt (suc k) a b ha hb =
    omega
      (arith, xor_step a b, pow-suc 2 k, xor-lt k (a / 2) (b / 2) (half-lt k a ha) (half-lt k b hb))

or_comm_width : (k a b : ℕ) → a < 2 ^ k → b < 2 ^ k → bit_or a b ≡ bit_or b a
or_comm_width zero zero zero ha hb = refl
or_comm_width zero (suc a) b ha hb = absurd (omega arith)
or_comm_width zero zero (suc b) ha hb = absurd (omega arith)
or_comm_width (suc k) a b ha hb = omega (
  arith,
  or_step a b,
  or_step b a,
  or_comm_width k (a / 2) (b / 2) (half-lt k a ha) (half-lt k b hb),
)

lt-pow_self : (a : ℕ) → a < 2 ^ a
lt-pow_self zero = omega arith
lt-pow_self (suc a) = omega (arith, pow-suc 2 a, lt-pow_self a)

pub or_comm : (a b : ℕ) → bit_or a b ≡ bit_or b a
or_comm a b =
    or_comm_width (a + b) a b (omega (arith, lt-pow_self (a + b)))
      (omega (arith, lt-pow_self (a + b)))

and-zero_width : (k a : ℕ) → a < 2 ^ k → bit_and a 0 ≡ 0
and-zero_width zero zero h = refl
and-zero_width zero (suc a) h = absurd (omega arith)
and-zero_width (suc k) a h = omega (arith, and_step a 0, and-zero_width k (a / 2) (half-lt k a h))

pub and-zero : (a : ℕ) → bit_and a 0 ≡ 0
and-zero a = and-zero_width a a (lt-pow_self a)

or-zero_width : (k a : ℕ) → a < 2 ^ k → bit_or a 0 ≡ a
or-zero_width zero zero h = refl
or-zero_width zero (suc a) h = absurd (omega arith)
or-zero_width (suc k) a h = omega (arith, or_step a 0, or-zero_width k (a / 2) (half-lt k a h))

pub or-zero : (a : ℕ) → bit_or a 0 ≡ a
or-zero a = or-zero_width a a (lt-pow_self a)

zero-or : (b : ℕ) → bit_or 0 b ≡ b
zero-or b = bit_or-bitwise 0 b

double : (k : ℕ) → 2 ^ suc k ≡ 2 * 2 ^ k
double k = omega (arith, pow-suc 2 k)

-- Division and remainder by twice a power of two, one digit at a time.
pub div-pow-suc : (k a : ℕ) → a / 2 ^ suc k ≡ a / 2 / 2 ^ k
div-pow-suc k a = rw double (sym (div-div-eq-div-mul a 2 (2 ^ k)))

pub mod-pow-suc : (k a : ℕ) → a % 2 ^ suc k ≡ a / 2 % 2 ^ k * 2 + a % 2
mod-pow-suc k a = omega (
  arith,
  div-add-mod a (2 ^ suc k),
  div-add-mod (a / 2) (2 ^ k),
  ap (λ (t : ℕ). t * (a / 2 ^ suc k)) (double k),
  ap (λ (t : ℕ). 2 ^ k * t) (div-pow-suc k a),
)

half-mask : (k : ℕ) → (2 ^ suc k - 1) / 2 ≡ 2 ^ k - 1
half-mask k = omega (arith, pow-suc 2 k, one-le-pow k 2)

-- A mask of `k` low ones keeps the remainder.
pub and-mask : (k a : ℕ) → bit_and a (2 ^ k - 1) ≡ a % 2 ^ k
and-mask zero a = omega (arith, and-zero a)
and-mask (suc k) a = omega (
  arith,
  and_step a (2 ^ suc k - 1),
  pow-suc 2 k,
  one-le-pow k 2,
  mod-pow-suc k a,
  ap (λ (t : ℕ). bit_and (a / 2) t) (half-mask k),
  and-mask k (a / 2),
)

half-pow : (k : ℕ) → 2 ^ suc k / 2 ≡ 2 ^ k
half-pow k = omega (arith, pow-suc 2 k)

-- One bit of a number.
pub and-bit : (k a : ℕ) → bit_and a (2 ^ k) ≡ a / 2 ^ k % 2 * 2 ^ k
and-bit zero a = omega (arith, and_step a 1, and-zero (a / 2))
and-bit (suc k) a = omega (
  arith,
  and_step a (2 ^ suc k),
  double k,
  ap (λ (t : ℕ). bit_and (a / 2) t) (half-pow k),
  and-bit k (a / 2),
  ap (λ (t : ℕ). t % 2 * 2 ^ suc k) (div-pow-suc k a),
  ap (λ (t : ℕ). a / 2 / 2 ^ k % 2 * t) (double k),
)

-- Setting a bit that is clear adds it.
pub or-bit : (k a : ℕ) → a / 2 ^ k % 2 ≡ 0 → bit_or (2 ^ k) a ≡ 2 ^ k + a
or-bit zero a h = omega (arith, or_step 1 a, zero-or (a / 2))
or-bit (suc k) a h = omega (
  arith,
  or_step (2 ^ suc k) a,
  double k,
  ap (λ (t : ℕ). bit_or t (a / 2)) (half-pow k),
  or-bit k (a / 2) (omega (arith, ap (λ (t : ℕ). t % 2) (div-pow-suc k a))),
)

pub pow-lt-pow : (k w : ℕ) → k < w → 2 ^ k < 2 ^ w
pow-lt-pow zero zero h = absurd (omega arith)
pow-lt-pow zero (suc w) h = omega (arith, double w, one-le-pow w 2)
pow-lt-pow (suc k) zero h = absurd (omega arith)
pow-lt-pow (suc k) (suc w) h = omega (arith, double k, double w, pow-lt-pow k w)

-- Clearing one bit of a number of `w` digits takes it away.
pub and-clear :
    (w k a : ℕ) → k < w → a < 2 ^ w → bit_and a (2 ^ w - 1 - 2 ^ k) + bit_and a (2 ^ k) ≡ a
and-clear zero k a h ha = absurd (omega arith)
and-clear (suc w) zero a h ha =
    let e : (2 ^ suc w - 1 - 1) / 2 ≡ 2 ^ w - 1 = omega (arith, double w) in
    omega (
      arith,
      and_step a (2 ^ suc w - 1 - 1),
      and_step a 1,
      and-zero (a / 2),
      double w,
      one-le-pow w 2,
      ap (λ (t : ℕ). bit_and (a / 2) t) e,
      and-mask w (a / 2),
      mod-eq_of_lt (half-lt w a ha),
    )
and-clear (suc w) (suc k) a h ha =
    let lt : 2 ^ k < 2 ^ w = pow-lt-pow k w (omega arith) in
    let e : (2 ^ suc w - 1 - 2 ^ suc k) / 2 ≡ 2 ^ w - 1 - 2 ^ k =
      omega (arith, double w, double k) in
    omega (
      arith,
      and_step a (2 ^ suc w - 1 - 2 ^ suc k),
      and_step a (2 ^ suc k),
      double w,
      double k,
      ap (λ (t : ℕ). bit_and (a / 2) t) e,
      ap (λ (t : ℕ). bit_and (a / 2) t) (half-pow k),
      and-clear w k (a / 2) (omega arith) (half-lt w a ha),
    )

mul-pow-suc : (q k : ℕ) → q * 2 ^ suc k ≡ 2 * (q * 2 ^ k)
mul-pow-suc q k = omega (arith, ap (λ (t : ℕ). q * t) (double k))

-- Fields that do not overlap add up.
pub or-fields : (k q r : ℕ) → r < 2 ^ k → bit_or (q * 2 ^ k) r ≡ q * 2 ^ k + r
or-fields zero q zero h = ground (arith, or-zero q)
or-fields zero q (suc r) h = absurd (omega arith)
or-fields (suc k) q r h =
    let e : q * 2 ^ suc k / 2 ≡ q * 2 ^ k = omega (arith, mul-pow-suc q k) in
    omega (
      arith,
      or_step (q * 2 ^ suc k) r,
      mul-pow-suc q k,
      ap (λ (t : ℕ). bit_or t (r / 2)) e,
      or-fields k q (r / 2) (half-lt k r h),
    )

xor-self_width : (k a b : ℕ) → a < 2 ^ k → b < 2 ^ k → bit_xor (bit_xor a b) b ≡ a
xor-self_width zero zero zero ha hb = refl
xor-self_width zero (suc a) b ha hb = absurd (omega arith)
xor-self_width zero zero (suc b) ha hb = absurd (omega arith)
xor-self_width (suc k) a b ha hb =
    let half : bit_xor a b / 2 ≡ bit_xor (a / 2) (b / 2) = omega (arith, xor_step a b) in
    omega (
      arith,
      xor_step a b,
      xor_step (bit_xor a b) b,
      ap (λ (t : ℕ). bit_xor t (b / 2)) half,
      xor-self_width k (a / 2) (b / 2) (half-lt k a ha) (half-lt k b hb),
    )

-- Adding the same bits twice gives the first number back.
pub xor-xor_self : (a b : ℕ) → bit_xor (bit_xor a b) b ≡ a
xor-xor_self a b =
    xor-self_width (a + b) a b (omega (arith, lt-pow_self (a + b)))
      (omega (arith, lt-pow_self (a + b)))

xor-zero_width : (k a : ℕ) → a < 2 ^ k → bit_xor a 0 ≡ a
xor-zero_width zero zero h = refl
xor-zero_width zero (suc a) h = absurd (omega arith)
xor-zero_width (suc k) a h = omega (arith, xor_step a 0, xor-zero_width k (a / 2) (half-lt k a h))

pub xor-zero : (a : ℕ) → bit_xor a 0 ≡ a
xor-zero a = xor-zero_width a a (lt-pow_self a)
