-- ===== src/Lexer/Scanner.antt =====
-- One round of the loop of `tokenize` of pulselang-core/src/lexer.rs: the kind and the length of the
-- token that a text begins with.
use latency_os.Prelude.{
  ℕ, suc, ◌+◌, ◌-◌, ◌*◌, ◌%◌, ◌^◌, Bool, true, false, not, ◌&&◌, ◌||◌, none, some, List, [], ◌∷◌,
  get_elem?, take, drop, ltb, leb, ◌==◌, if◌then◌else◌,
}
use latency_os.Prelude.Word.{word_mul, word_add, is_negative, magnitude, word_neg, sign_bit}
use latency_os.Vm.Text.{codes}
use latency_os.Lexer.Tokens.{TokenKind}
use latency_os.Lexer.Words.{
  Symbol, symbols, find_symbol, find_longer, word_kind, directives, keywords,
}

-- A token of this kind and length, or a byte that no token begins with.
pub data Scan : Type 0 where
  token : TokenKind → ℕ → Scan
  unknown : Scan

-- `while self.pos < self.src.len() && test(self.src[self.pos])`: how often
unfoldable pub count_while : (ℕ → Bool) → List ℕ → ℕ
count_while test [] = 0
count_while test (b ∷ bs) = if test b then suc (count_while test bs) else 0

abbrev pub is_digit : ℕ → Bool
is_digit b = leb b'0' b && leb b b'9'

abbrev pub is_letter : ℕ → Bool
is_letter b = leb b'a' b && leb b b'z' || leb b'A' b && leb b b'Z'

abbrev pub is_hex_digit : ℕ → Bool
is_hex_digit b = is_digit b || leb b'a' b && leb b b'f' || leb b'A' b && leb b b'F'

-- `is_ascii_alphanumeric() || b == b'_'`
abbrev pub is_name : ℕ → Bool
is_name b = is_digit b || is_letter b || b == b'_'

abbrev pub is_path : ℕ → Bool
is_path b = is_name b || b == b'.'

abbrev pub begins : (ℕ → Bool) → List ℕ → Bool
begins test [] = false
begins test (b ∷ bs) = test b

-- the test of `match_suffix`
unfoldable pub match_suffix : List ℕ → List ℕ → Bool
match_suffix [] text = true
match_suffix (s ∷ suffix) [] = false
match_suffix (s ∷ suffix) (b ∷ text) = s == b && match_suffix suffix text

abbrev hex_digit : ℕ → ℕ
hex_digit b = if leb b b'9' then b - b'0' else if leb b'a' b then b - b'a' + 10 else b - b'A' + 10

unfoldable pub hex_from : ℕ → List ℕ → ℕ
hex_from num [] = num
hex_from num (b ∷ bs) =
    if is_hex_digit b then hex_from (num * 16 % 2 ^ 64 + hex_digit b) bs else num

unfoldable pub decimal_from : ℕ → List ℕ → ℕ
decimal_from num [] = num
decimal_from num (b ∷ bs) =
    if is_digit b then decimal_from (word_add (word_mul num 10) (b - b'0')) bs else num

-- `saturating_mul(10)` and `saturating_add` of a digit, on patterns of an i64
abbrev saturating_mul_10 : ℕ → ℕ
saturating_mul_10 a =
    if is_negative a
    then (if ltb sign_bit (magnitude a * 10) then sign_bit else word_neg (magnitude a * 10))
    else if leb sign_bit (a * 10)
    then sign_bit - 1
    else a * 10

abbrev saturating_add_digit : ℕ → ℕ → ℕ
saturating_add_digit a d =
    if is_negative a then word_add a d else if leb sign_bit (a + d) then sign_bit - 1 else a + d

-- the digits behind the point
unfoldable pub fraction_from : ℕ → ℕ → List ℕ → TokenKind
fraction_from scaled digits [] = TokenKind.float_lit scaled digits
fraction_from scaled digits (b ∷ bs) =
    if is_digit b
    then fraction_from (saturating_add_digit (saturating_mul_10 scaled) (b - b'0'))
        (if leb 255 (digits + 1) then 255 else digits + 1) bs
    else TokenKind.float_lit scaled digits

-- What stands behind `n` decimal digits. The product of a time wraps, as in a release build.
unfoldable pub scan_decimal : ℕ → ℕ → List ℕ → Scan
unfolding count_while match_suffix fraction_from
scan_decimal num n after =
    if begins (λ b. b == b'.') after && begins is_digit (drop 1 after)
    then token (fraction_from num 0 (drop 1 after)) (n + 1 + count_while is_digit (drop 1 after))
    else if match_suffix (codes "ns") after
    then token (TokenKind.time_literal num) (n + 2)
    else if match_suffix (codes "us") after
    then token (TokenKind.time_literal (word_mul num 1_000)) (n + 2)
    else if match_suffix (codes "ms") after
    then token (TokenKind.time_literal (word_mul num 1_000_000)) (n + 2)
    else if match_suffix (codes "s") after
    then token (TokenKind.time_literal (word_mul num 1_000_000_000)) (n + 1)
    else token (TokenKind.number num) n

unfoldable pub scan_number : List ℕ → Scan
unfolding scan_decimal hex_from decimal_from count_while
scan_number text =
    let digits = drop 2 text in
    let n = count_while is_digit text in
    if begins (λ b. b == b'0') text && begins (λ b. b == b'x' || b == b'X') (drop 1 text)
    then token (TokenKind.number (hex_from 0 digits)) (2 + count_while is_hex_digit digits)
    else scan_decimal (decimal_from 0 text) n (drop n text)

-- behind the opening quote
unfoldable pub scan_string : List ℕ → Scan
unfolding count_while
scan_string text =
    let n = count_while (λ b. not (b == b'"')) text in
    token TokenKind.string_lit (if begins (λ b. b == b'"') (drop n text) then n + 2 else n + 1)

unfoldable pub scan_symbol : Symbol → List ℕ → Scan
unfolding find_longer
scan_symbol s text = elim (get_elem? text 1) [
  | none ↦ token s.alone 1
  | some b ↦ elim (find_longer s.longer b) [ none ↦ token s.alone 1 | some kind ↦ token kind 2 ]
]

-- the arms of `match b` that are not one or two fixed bytes
unfoldable pub scan_word : ℕ → List ℕ → Scan
unfolding scan_string scan_number count_while word_kind
scan_word b text =
    let name = count_while is_name (drop 1 text) in
    let path = count_while is_path (drop 1 text) in
    if b == b'"'
    then scan_string (drop 1 text)
    else if is_digit b
    then scan_number text
    else if b == b'$'
    then token TokenKind.var_ident (1 + name)
    else if b == b'#'
    then token TokenKind.hardware_ident (1 + name)
    else if b == b'@'
    then token (word_kind directives TokenKind.intrinsic_ident (take path (drop 1 text))) (1 + path)
    else if is_letter b || b == b'_'
    then token (word_kind keywords TokenKind.ident (take (1 + path) text)) (1 + path)
    else unknown

unfoldable pub scan_token : List ℕ → Scan
unfolding scan_symbol scan_word find_symbol
scan_token [] = unknown
scan_token (b ∷ bs) = elim (find_symbol symbols b) [
  | some s ↦ scan_symbol s (b ∷ bs)
  | none ↦ scan_word b (b ∷ bs)
]
