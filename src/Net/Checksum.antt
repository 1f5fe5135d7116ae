-- ===== src/Net/Checksum.antt =====
-- `compute_ip_checksum` of kernel/src/net.rs.
use latency_os.Prelude.{
  ℕ, ◌+◌, ◌-◌, ◌*◌, ◌/◌, ◌%◌, ◌^◌, ◌≤◌, ◌<◌, ◌≡◌, sym, ap, ◌∙◌, arith, Option, none, some, List, [],
  ◌∷◌, ◌++◌, length,
}
use latency_os.Net.{sum_words, fold_carry, compute_ip_checksum}

-- Folding the carries keeps the number modulo 2 ^ 16 - 1, and it is 0 only for 0.
fold_carry_lem :
    (sum : ℕ)
    → sum < 2 ^ 32
    → (fold_carry 2 sum < 2 ^ 16)
      × (fold_carry 2 sum % 65535 ≡ sum % 65535)
      × (fold_carry 2 sum ≤ sum)
      × (0 < sum → 0 < fold_carry 2 sum)
unfolding fold_carry
fold_carry_lem sum lt = (ground arith, ground arith, ground arith, λ pos. ground arith)

-- A header as words, the high byte first.
abbrev pub bytes_of : List (ℕ × ℕ) → List ℕ
bytes_of [] = []
bytes_of ((hi, lo) ∷ ws) = hi ∷ lo ∷ bytes_of ws

abbrev total : List (ℕ × ℕ) → ℕ
total [] = 0
total ((hi, lo) ∷ ws) = hi * 256 + lo + total ws

abbrev pub AreBytes : List (ℕ × ℕ) → Type 0
AreBytes [] = Unit
AreBytes ((hi, lo) ∷ ws) = (hi < 256) × (lo < 256) × AreBytes ws

total-le : (ws : List (ℕ × ℕ)) → AreBytes ws → total ws ≤ 65535 * length ws
total-le [] b = omega arith
total-le ((hi, lo) ∷ ws) (h, l, b) = omega (arith, total-le ws b)

sum_words-total :
    (sum : ℕ) (ws : List (ℕ × ℕ))
    → sum + total ws < 2 ^ 32
    → sum_words sum (bytes_of ws) ≡ some (sum + total ws)
unfolding sum_words
sum_words-total sum [] lt = ap some (omega arith)
sum_words-total sum ((hi, lo) ∷ ws) lt =
    sum_words-total ((sum + (hi * 256 + lo)) % 2 ^ 32) ws (omega arith) ∙ ap some (omega arith)

total-append : (pre post : List (ℕ × ℕ)) → total (pre ++ post) ≡ total pre + total post
total-append [] post = omega arith
total-append ((hi, lo) ∷ pre) post = omega (arith, total-append pre post)

-- what the checksum makes of a sum
abbrev negated : Option ℕ → Option ℕ
negated none = none
negated (some sum) = some (2 ^ 16 - 1 - fold_carry 2 sum % 2 ^ 16)

checksum_of :
    (ws : List (ℕ × ℕ))
    → total ws < 2 ^ 32
    → compute_ip_checksum (bytes_of ws) ≡ some (2 ^ 16 - 1 - fold_carry 2 (total ws) % 2 ^ 16)
unfolding compute_ip_checksum
checksum_of ws lt =
    let sum : sum_words 0 (bytes_of ws) ≡ some (total ws) =
      sum_words-total 0 ws (omega arith) ∙ ap some (omega arith) in
    ap negated sum

-- The receiver's test: a header that was given the checksum of itself with zeros in its place has
-- the checksum 0. The header is of whole words, of at most 30000, wherever the checksum stands.
pub compute_ip_checksum-verifies :
    (pre post : List (ℕ × ℕ)) (sum : ℕ)
    → AreBytes pre
    → AreBytes post
    → length pre + length post ≤ 30_000
    → compute_ip_checksum (bytes_of (pre ++ (0, 0) ∷ post)) ≡ some sum
    → compute_ip_checksum (bytes_of (pre ++ (sum / 256, sum % 256) ∷ post)) ≡ some 0
compute_ip_checksum-verifies pre post sum bp bq short e =
    let rest : ℕ = total pre + total post in
    let small : rest ≤ 65535 * 30_000 = omega (arith, total-le pre bp, total-le post bq) in
    let before : total (pre ++ (0, 0) ∷ post) ≡ rest =
      omega (arith, total-append pre ((0, 0) ∷ post)) in
    let after : total (pre ++ (sum / 256, sum % 256) ∷ post) ≡ rest + sum =
      omega (arith, total-append pre ((sum / 256, sum % 256) ∷ post)) in
    let first : some (2 ^ 16 - 1 - fold_carry 2 (total (pre ++ (0, 0) ∷ post)) % 2 ^ 16)
        ≡ some sum =
      sym (checksum_of (pre ++ (0, 0) ∷ post) (omega arith)) ∙ e in
    let folded = fold_carry_lem rest (omega arith) in
    let value : sum ≡ 2 ^ 16 - 1 - fold_carry 2 rest % 2 ^ 16 = ground (arith, first, before) in
    let again = fold_carry_lem (rest + sum) (omega (arith, folded.0)) in
    let positive : 0 < rest + sum = omega (arith, value, folded.0, folded.2) in
    let full = again.3 positive in
    checksum_of (pre ++ (sum / 256, sum % 256) ∷ post) (omega arith)
    ∙ ap (λ (t : ℕ). some (2 ^ 16 - 1 - fold_carry 2 t % 2 ^ 16)) after
    ∙ ap some (omega (arith, value, folded.0, folded.1, again.0, again.1, full))
