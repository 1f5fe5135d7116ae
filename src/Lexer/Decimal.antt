-- ===== src/Lexer/Decimal.antt =====
-- A number that is written in decimal is read back by the lexer of pulselang-core/src/lexer.rs.
use mathlib.Core.List.{append_assoc}
use mathlib.Core.Bool.{and-false}
use latency_os.Prelude.{
  ℕ, zero, suc, ◌+◌, ◌/◌, ◌%◌, ◌^◌, ◌<◌, ◌≡◌, refl, sym, ap, ◌∙◌, subst, arith, Option, none, some,
  Bool, true, false, not, ◌&&◌, ◌||◌, List, [], ◌∷◌, ◌++◌, length, drop-append, length-append, ltb,
  ◌==◌, Bool-cases, inl, inr,
}
use native.Mathlib.Nat.{pow-suc}
use latency_os.Prelude.Word.{is_negative}
use latency_os.Vm.Text.{digits_of, show_i64}
use latency_os.Lexer.Tokens.{TokenKind}
use latency_os.Lexer.Words.{Symbol, symbols, find_symbol}
use latency_os.Lexer.Scanner.{
  Scan, token, count_while, is_digit, begins, decimal_from, match_suffix, scan_decimal, scan_number,
  scan_symbol, scan_word, scan_token,
}

-- a byte that may stand behind a number without being taken for a part of it
abbrev is_separator : ℕ → Bool
is_separator b = not (
    is_digit b
    || b == b'.'
    || b == b'n'
    || b == b'u'
    || b == b'm'
    || b == b's'
    || b == b'x'
    || b == b'X')

-- the text ends, or goes on with such a byte
abbrev pub separates : List ℕ → Bool
separates [] = true
separates (b ∷ bs) = is_separator b

decimal_from-digits_of :
    (k n : ℕ) (rest : List ℕ)
    → n < 10 ^ k
    → n < 2 ^ 64
    → decimal_from 0 (digits_of k n ++ rest) ≡ decimal_from n rest
unfolding decimal_from digits_of
decimal_from-digits_of zero n rest fits word = ap (λ (m : ℕ). decimal_from m rest) (omega arith)
decimal_from-digits_of (suc k) n rest fits word = elim (Bool-cases (ltb n 10)) [
  | inl small ↦
      let digit : is_digit (48 + n) ≡ true = ground arith in
      rw (small, digit) (ap (λ (m : ℕ). decimal_from m rest) (ground arith))
  | inr large ↦
      let digit : is_digit (48 + n % 10) ≡ true = ground arith in
      let less : n / 10 < 10 ^ k = omega (arith, pow-suc 10 k) in
      rw large (
        ap (decimal_from 0) (append_assoc (digits_of k (n / 10)) ((48 + n % 10) ∷ []) rest)
        ∙ decimal_from-digits_of k (n / 10) ((48 + n % 10) ∷ rest) less (omega arith)
        ∙ rw digit (ap (λ (m : ℕ). decimal_from m rest) (omega arith)))
]

abbrev AllDigits : List ℕ → Type 0
AllDigits [] = Unit
AllDigits (b ∷ bs) = (is_digit b ≡ true) × AllDigits bs

AllDigits-append :
    (ds : List ℕ) (b : ℕ) → AllDigits ds → is_digit b ≡ true → AllDigits (ds ++ b ∷ [])
AllDigits-append [] b all digit = (digit, tt)
AllDigits-append (d ∷ ds) b (first, all) digit = (first, AllDigits-append ds b all digit)

digits_of-AllDigits : (k n : ℕ) → AllDigits (digits_of k n)
unfolding digits_of
digits_of-AllDigits zero n = tt
digits_of-AllDigits (suc k) n = elim (Bool-cases (ltb n 10)) [
  | inl small ↦ rw small (ground arith, tt)
  | inr large ↦ rw large (
      AllDigits-append (digits_of k (n / 10)) (48 + n % 10) (digits_of-AllDigits k (n / 10))
        (ground arith))
]

digits_of-pos : (k n : ℕ) → 0 < length (digits_of (suc k) n)
unfolding digits_of
digits_of-pos k n = elim (Bool-cases (ltb n 10)) [
  | inl small ↦ rw small (omega arith)
  | inr large ↦ rw large (omega (arith, length-append (digits_of k (n / 10)) ((48 + n % 10) ∷ [])))
]

count_while-digits :
    (ds rest : List ℕ)
    → AllDigits ds
    → separates rest ≡ true
    → count_while is_digit (ds ++ rest) ≡ length ds
unfolding count_while
count_while-digits [] [] all apart = refl
count_while-digits [] (b ∷ rest) all apart =
    let other : is_digit b ≡ false = ground (arith, apart) in rw other refl
count_while-digits (d ∷ ds) rest (digit, all) apart =
    rw digit (ap suc (count_while-digits ds rest all apart))

decimal_from-separates : (n : ℕ) (rest : List ℕ) → separates rest ≡ true → decimal_from n rest ≡ n
unfolding decimal_from
decimal_from-separates n [] apart = refl
decimal_from-separates n (b ∷ rest) apart =
    let other : is_digit b ≡ false = ground (arith, apart) in rw other refl

-- behind the digits stands nothing that would be a part of the number
scan_decimal-separates :
    (num n : ℕ) (rest : List ℕ)
    → separates rest ≡ true
    → scan_decimal num n rest ≡ token (TokenKind.number num) n
unfolding scan_decimal match_suffix
scan_decimal-separates num n [] apart = refl
scan_decimal-separates num n (b ∷ rest) apart =
    let dot : (b == b'.') ≡ false = ground (arith, apart) in
    let n' : (b'n' == b) ≡ false = ground (arith, apart) in
    let u : (b'u' == b) ≡ false = ground (arith, apart) in
    let m : (b'm' == b) ≡ false = ground (arith, apart) in
    let s : (b's' == b) ≡ false = ground (arith, apart) in rw (dot, n', u, m, s) refl

-- the second byte is no `x`
not_hex :
    (ds rest : List ℕ)
    → AllDigits ds
    → separates rest ≡ true
    → begins (λ b. b == b'x' || b == b'X') (ds ++ rest) ≡ false
not_hex [] [] all apart = refl
not_hex [] (b ∷ rest) all apart = ground (arith, apart)
not_hex (e ∷ ds) rest (digit, all) apart = ground (arith, digit)

find_symbol-digit : (b : ℕ) → is_digit b ≡ true → find_symbol symbols b ≡ none
unfolding find_symbol
find_symbol-digit b digit = ground (arith, digit)

scan_number-digits :
    (n d : ℕ) (ds rest : List ℕ)
    → AllDigits (d ∷ ds)
    → separates rest ≡ true
    → decimal_from 0 (d ∷ ds ++ rest) ≡ n
    → scan_number (d ∷ ds ++ rest) ≡ token (TokenKind.number n) (suc (length ds))
unfolding scan_number
scan_number-digits n d ds rest (digit, all) apart value =
    let hex : (d == b'0' && begins (λ b. b == b'x' || b == b'X') (ds ++ rest)) ≡ false =
      rw (not_hex ds rest all apart) (and-false (d == b'0')) in
    let count : count_while is_digit (d ∷ ds ++ rest) ≡ suc (length ds) =
      count_while-digits (d ∷ ds) rest (digit, all) apart in
    rw (hex, count, value, drop-append ds rest)
      (scan_decimal-separates n (suc (length ds)) rest apart)

scan_token-none :
    (b : ℕ) (bs : List ℕ)
    → find_symbol symbols b ≡ none
    → scan_token (b ∷ bs) ≡ scan_word b (b ∷ bs)
unfolding scan_token
scan_token-none b bs e =
    ap
      (λ (o : Option Symbol).
        let s : Scan = elim o [ some s ↦ scan_symbol s (b ∷ bs) | none ↦ scan_word b (b ∷ bs) ] in
        s)
      e

scan_word-digit : (b : ℕ) (text : List ℕ) → is_digit b ≡ true → scan_word b text ≡ scan_number text
unfolding scan_word
scan_word-digit b text digit =
    let quote : (b == b'"') ≡ false = ground (arith, digit) in rw (quote, digit) refl

nonnegative : (v : ℕ) → v < 2 ^ 63 → is_negative v ≡ false
nonnegative v lt = ground arith

show_i64-digits_of : (v : ℕ) → is_negative v ≡ false → show_i64 v ≡ digits_of 20 v
unfolding show_i64
show_i64-digits_of v h = rw h refl

scan_token-digits :
    (n : ℕ) (ds rest : List ℕ)
    → 0 < length ds
    → AllDigits ds
    → separates rest ≡ true
    → decimal_from 0 (ds ++ rest) ≡ n
    → scan_token (ds ++ rest) ≡ token (TokenKind.number n) (length ds)
scan_token-digits n [] rest pos all apart value = absurd (omega arith)
scan_token-digits n (d ∷ ds) rest pos (digit, all) apart value =
    scan_token-none d (ds ++ rest) (find_symbol-digit d digit)
    ∙ scan_word-digit d (d ∷ ds ++ rest) digit
    ∙ scan_number-digits n d ds rest (digit, all) apart value

-- A nonnegative number in decimal, as the machine prints it, is read back as the number, whatever
-- follows it: the end of the text, or a byte that is no digit and none of `.`, `n`, `u`, `m`, `s`,
-- `x` and `X`.
pub scan_token-show_i64 :
    (v : ℕ) (rest : List ℕ)
    → v < 2 ^ 63
    → separates rest ≡ true
    → scan_token (show_i64 v ++ rest) ≡ token (TokenKind.number v) (length (show_i64 v))
scan_token-show_i64 v rest lt apart =
    let plain : show_i64 v ≡ digits_of 20 v = show_i64-digits_of v (nonnegative v lt) in
    let value : decimal_from 0 (digits_of 20 v ++ rest) ≡ v =
      decimal_from-digits_of 20 v rest (omega arith) (omega arith)
      ∙ decimal_from-separates v rest apart in
    subst (λ (ds : List ℕ). scan_token (ds ++ rest) ≡ token (TokenKind.number v) (length ds))
      (sym plain)
      (scan_token-digits v (digits_of 20 v) rest (digits_of-pos 19 v) (digits_of-AllDigits 20 v)
        apart value)
