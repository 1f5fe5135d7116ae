-- ===== src/Image/RoundTrip.antt =====
-- Reading back what the compiler's container format wrote (pulselang-core/src/lib.rs and vm.rs).
use Prim.Native.Nat.{min}
use native.Mathlib.Nat.{pow-suc}
use latency_os.Prelude.{
  ℕ, zero, suc, ◌+◌, ◌*◌, ◌/◌, ◌%◌, ◌^◌, ◌≤◌, ◌<◌, ◌≡◌, refl, sym, ap, ap₂, ◌∙◌, arith, true, List,
  [], ◌∷◌, ◌++◌, length, take, drop, same_bytes, leb, le→ltb, length-append, take-append,
  drop-append,
}
use mathlib.Core.List.{append_assoc}
use latency_os.Isa.Limits.{max_const_pool}
use latency_os.Vm.State.{new_setup}
use latency_os.Image.{
  to_be_bytes, from_be_bytes, const_bytes, header, write_binary, read_consts, loaded, read_payload,
  read_binary,
}

abbrev IsWords : List ℕ → Type 0
IsWords [] = Unit
IsWords (c ∷ cs) = (c < 2 ^ 64) × IsWords cs

length-to_be_bytes : (k v : ℕ) → length (to_be_bytes k v) ≡ k
unfolding to_be_bytes
length-to_be_bytes zero v = refl
length-to_be_bytes (suc k) v =
    length-append (to_be_bytes k (v / 256)) (v % 256 ∷ [])
    ∙ omega (arith, length-to_be_bytes k (v / 256))

from_be_bytes-append :
    (acc : ℕ) (xs ys : List ℕ)
    → from_be_bytes acc (xs ++ ys) ≡ from_be_bytes (from_be_bytes acc xs) ys
unfolding from_be_bytes
from_be_bytes-append acc [] ys = refl
from_be_bytes-append acc (x ∷ xs) ys = from_be_bytes-append (acc * 256 + x) xs ys

from-to_be_bytes : (k v : ℕ) → v < 256 ^ k → from_be_bytes 0 (to_be_bytes k v) ≡ v
unfolding to_be_bytes from_be_bytes
from-to_be_bytes zero v h = omega arith
from-to_be_bytes (suc k) v h =
    from_be_bytes-append 0 (to_be_bytes k (v / 256)) (v % 256 ∷ [])
    ∙ omega (arith, from-to_be_bytes k (v / 256) (omega (arith, pow-suc 256 k)))

length-const_bytes : (cs : List ℕ) → length (const_bytes cs) ≡ length cs * 8
unfolding const_bytes
length-const_bytes [] = refl
length-const_bytes (c ∷ cs) =
    length-append (to_be_bytes 8 c) (const_bytes cs)
    ∙ omega (arith, length-to_be_bytes 8 c, length-const_bytes cs)

take-exact : (n : ℕ) (xs ys : List ℕ) → length xs ≡ n → take n (xs ++ ys) ≡ xs
take-exact n xs ys e = ap (λ k. take k (xs ++ ys)) (sym e) ∙ take-append xs ys

drop-exact : (n : ℕ) (xs ys : List ℕ) → length xs ≡ n → drop n (xs ++ ys) ≡ ys
drop-exact n xs ys e = ap (λ k. drop k (xs ++ ys)) (sym e) ∙ drop-append xs ys

read-const_bytes : (cs : List ℕ) → IsWords cs → read_consts (length cs) (const_bytes cs) ≡ cs
unfolding read_consts const_bytes
read-const_bytes [] w = refl
read-const_bytes (c ∷ cs) (wc, ws) =
    let taken = take-exact 8 (to_be_bytes 8 c) (const_bytes cs) (length-to_be_bytes 8 c) in
    let left = drop-exact 8 (to_be_bytes 8 c) (const_bytes cs) (length-to_be_bytes 8 c) in
    ap₂ ◌∷◌ (ap (from_be_bytes 0) taken ∙ from-to_be_bytes 8 c (omega arith))
      (ap (read_consts (length cs)) left ∙ read-const_bytes cs ws)

-- The header is sixteen bytes that say the three lengths.
abbrev header_bytes : ℕ → ℕ → ℕ → List ℕ
header_bytes a b c =
    b'P'
    ∷ b'X'
    ∷ b'6'
    ∷ b'4'
    ∷ 0
    ∷ 3
    ∷ (a / 256 % 256)
    ∷ (a % 256)
    ∷ (b / 256 % 256)
    ∷ (b % 256)
    ∷ (c / 256 % 256)
    ∷ (c % 256)
    ∷ 0
    ∷ 20
    ∷ 0
    ∷ 0
    ∷ []

low_16 : (a : ℕ) → a < 2 ^ 16 → a % 2 ^ 16 ≡ a
low_16 a h = omega arith

header_lem : (a b c : ℕ) → a < 2 ^ 16 → b < 2 ^ 16 → c < 2 ^ 16 → header a b c ≡ header_bytes a b c
unfolding to_be_bytes
header_lem a b c ha hb hc = rw (low_16 a ha, low_16 b hb, low_16 c hc)

u16_bytes : (a : ℕ) → a < 2 ^ 16 → a / 256 % 256 * 256 + a % 256 ≡ a
u16_bytes a h = omega arith

le→leb : (a b : ℕ) → a ≤ b → leb a b ≡ true
le→leb a b h = ground arith

module _ (a b c : ℕ) (body : List ℕ) (args : List (List ℕ)) where
  -- A file that begins with the header is not refused for its magic or its version.
  read-header_bytes :
      read_binary (header_bytes a b c ++ body) args ≡ read_payload (header_bytes a b c ++ body) args
  unfolding read_binary same_bytes
  read-header_bytes = rw (le→leb 16 (length (header_bytes a b c ++ body)) (omega arith))

  read-payload_body :
      a < 2 ^ 16
      → b < 2 ^ 16
      → c < 2 ^ 16
      → a + b + c * 8 ≤ length body
      → read_payload (header_bytes a b c ++ body) args
        ≡ loaded (
            new_setup
              (take a body)
              (take b (drop a body))
              (read_consts (min c 64) (drop (a + b) body))
              args)
  unfolding read_payload
  read-payload_body ha hb hc fits =
      rw
        (
          u16_bytes a ha,
          u16_bytes b hb,
          u16_bytes c hc,
          le→ltb (length (header_bytes a b c ++ body)) (16 + a + b + c * 8) (omega arith),
        )
        refl

module _ (code str_pool consts : List ℕ) (args : List (List ℕ)) (code_fits : length code < 2 ^ 16)
    (pool_fits : length str_pool < 2 ^ 16) (consts_fit : length consts ≤ max_const_pool)
    (words : IsWords consts) where
  abbrev body : List ℕ
  body = code ++ (str_pool ++ const_bytes consts)

  body_fits : length code + length str_pool + length consts * 8 ≤ length body
  body_fits = omega (
    arith,
    length-append code (str_pool ++ const_bytes consts),
    length-append str_pool (const_bytes consts),
    length-const_bytes consts,
  )

  code_part : take (length code) body ≡ code
  code_part = take-append code (str_pool ++ const_bytes consts)

  pool_part : take (length str_pool) (drop (length code) body) ≡ str_pool
  pool_part =
      ap (take (length str_pool)) (drop-append code (str_pool ++ const_bytes consts))
      ∙ take-append str_pool (const_bytes consts)

  consts_part :
      read_consts (min (length consts) 64) (drop (length code + length str_pool) body) ≡ consts
  consts_part =
      ap₂ read_consts (omega arith) (
        ap (drop (length code + length str_pool))
          (sym (append_assoc code str_pool (const_bytes consts)))
        ∙ drop-exact (length code + length str_pool) (code ++ str_pool) (const_bytes consts)
            (length-append code str_pool))
      ∙ read-const_bytes consts words

  -- What the compiler wrote is what the machine is set up with: for code and a string pool below
  -- 65536 bytes and at most 64 constants of 64 bits, reading the written file gives the same code,
  -- string pool and constants, with the arguments at hand.
  pub read-write_binary :
      read_binary (write_binary code str_pool consts) args
      ≡ loaded (new_setup code str_pool consts args)
  unfolding write_binary
  read-write_binary =
      ap (λ t. read_binary (t ++ body) args)
        (header_lem (length code) (length str_pool) (length consts) code_fits pool_fits
          (omega arith))
      ∙ read-header_bytes (length code) (length str_pool) (length consts) body args
      ∙ read-payload_body (length code) (length str_pool) (length consts) body args code_fits
          pool_fits (omega arith) body_fits
      ∙ rw (code_part, pool_part, consts_part) refl
