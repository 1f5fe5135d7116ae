-- ===== src/Lexer/Lengths.antt =====
-- How much of the text the loops of pulselang-core/src/lexer.rs take: at least one byte for a token,
-- and no more than there are.
use latency_os.Prelude.{
  ℕ, zero, suc, ◌+◌, ◌-◌, ◌≤◌, ◌≡◌, arith, Bool, true, not, ◌&&◌, ◌||◌, Bool-cases, Option, none,
  some, inl, inr, List, [], ◌∷◌, length, drop, ◌==◌,
}
use mathlib.Core.Bool.{and-eq-true_iff}
use latency_os.Vm.Text.{codes}
use latency_os.Lexer.Tokens.{TokenKind}
use latency_os.Lexer.Words.{Symbol, symbols, find_symbol, find_longer}
use latency_os.Lexer.Scanner.{
  Scan, token, unknown, count_while, match_suffix, is_digit, begins, is_hex_digit, is_name, is_path,
  decimal_from, scan_decimal, scan_number, scan_string, scan_symbol, scan_word, scan_token,
}
use latency_os.Lexer.{block_comment, blank_step, skip_from}

pub length-drop {ℓ} : {A : Type ℓ} (k : ℕ) (xs : List A) → length (drop k xs) ≡ length xs - k
length-drop zero xs = omega arith
length-drop (suc k) [] = omega arith
length-drop (suc k) (x ∷ xs) = omega (arith, length-drop k xs)

pub count_while-le : (test : ℕ → Bool) (text : List ℕ) → count_while test text ≤ length text
unfolding count_while
count_while-le test [] = omega arith
count_while-le test (b ∷ bs) = ground (arith, count_while-le test bs)

count_while-pos :
    (test : ℕ → Bool) (b : ℕ) (bs : List ℕ) → test b ≡ true → 1 ≤ count_while test (b ∷ bs)
unfolding count_while
count_while-pos test b bs h = rw h (omega arith)

-- a token of at least one byte and at most `n`
abbrev pub Within : ℕ → Scan → Type 0
Within n unknown = Unit
Within n (token kind len) = (1 ≤ len) × (len ≤ n)

match_suffix-le :
    (suffix text : List ℕ) → match_suffix suffix text ≡ true → length suffix ≤ length text
unfolding match_suffix
match_suffix-le [] text h = omega arith
match_suffix-le (s ∷ suffix) [] h = absurd (ground arith)
match_suffix-le (s ∷ suffix) (b ∷ text) h =
    omega (arith, match_suffix-le suffix text ((and-eq-true_iff _ _).0 h).1)

begins-pos : (test : ℕ → Bool) (text : List ℕ) → begins test text ≡ true → 1 ≤ length text
begins-pos test [] h = absurd (ground arith)
begins-pos test (b ∷ bs) h = omega arith

scan_decimal-Within :
    (num n : ℕ) (after : List ℕ) → 1 ≤ n → Within (n + length after) (scan_decimal num n after)
unfolding scan_decimal
scan_decimal-Within num n after pos = ground (
  arith,
  length-drop 1 after,
  begins-pos is_digit (drop 1 after),
  count_while-le is_digit (drop 1 after),
  match_suffix-le (codes "ns") after,
  match_suffix-le (codes "us") after,
  match_suffix-le (codes "ms") after,
  match_suffix-le (codes "s") after,
)

Within-mono : (m n : ℕ) (s : Scan) → m ≤ n → Within m s → Within n s
Within-mono m n unknown le w = tt
Within-mono m n (token kind len) le w = omega arith

scan_number-Within :
    (b : ℕ) (bs : List ℕ) → is_digit b ≡ true → Within (suc (length bs)) (scan_number (b ∷ bs))
unfolding scan_number
scan_number-Within b bs digit =
    let n : ℕ = count_while is_digit (b ∷ bs) in
    let le : n ≤ suc (length bs) = count_while-le is_digit (b ∷ bs) in
    let num : ℕ = decimal_from 0 (b ∷ bs) in
    let decimal : Within (suc (length bs)) (scan_decimal num n (drop n (b ∷ bs))) =
      Within-mono _ _ (scan_decimal num n (drop n (b ∷ bs)))
        (omega (arith, le, length-drop n (b ∷ bs)))
        (scan_decimal-Within num n (drop n (b ∷ bs)) (count_while-pos is_digit b bs digit)) in
    elim (Bool-cases (b == b'0' && begins (λ c. c == b'x' || c == b'X') bs)) [
      | inl h ↦
          let more : 1 ≤ length bs =
            begins-pos (λ c. c == b'x' || c == b'X') bs ((and-eq-true_iff _ _).0 h).1 in
          rw h (
            omega arith,
            omega (arith, length-drop 1 bs, more, count_while-le is_hex_digit (drop 1 bs)),
          )
      | inr h ↦ rw h decimal
    ]

scan_string-Within : (text : List ℕ) → Within (suc (length text)) (scan_string text)
unfolding scan_string
scan_string-Within text =
    let n : ℕ = count_while (λ b. not (b == b'"')) text in
    let le : n ≤ length text = count_while-le (λ b. not (b == b'"')) text in
    elim (Bool-cases (begins (λ b. b == b'"') (drop n text))) [
      | inl h ↦
          rw h (omega arith, omega (arith, le, length-drop n text, begins-pos _ (drop n text) h))
      | inr h ↦ rw h (omega arith, omega (arith, le))
    ]

longer-Within :
    (n : ℕ) (alone : TokenKind) (o : Option TokenKind)
    → 2 ≤ n
    → Within n (elim o [ none ↦ token alone 1 | some kind ↦ token kind 2 ])
longer-Within n alone none h = omega arith
longer-Within n alone (some kind) h = omega arith

scan_symbol-Within :
    (s : Symbol) (b : ℕ) (bs : List ℕ) → Within (suc (length bs)) (scan_symbol s (b ∷ bs))
unfolding scan_symbol
scan_symbol-Within s b [] = omega arith
scan_symbol-Within s b (c ∷ bs) =
    longer-Within (suc (suc (length bs))) s.alone (find_longer s.longer c) (omega arith)

scan_word-Within : (b : ℕ) (bs : List ℕ) → Within (suc (length bs)) (scan_word b (b ∷ bs))
unfolding scan_word
scan_word-Within b bs = ground (
  arith,
  scan_string-Within bs,
  scan_number-Within b bs,
  count_while-le is_name bs,
  count_while-le is_path bs,
)

found-Within :
    (b : ℕ) (bs : List ℕ) (o : Option Symbol)
    → Within
        (suc (length bs))
        (elim o [ some s ↦ scan_symbol s (b ∷ bs) | none ↦ scan_word b (b ∷ bs) ])
found-Within b bs none = scan_word-Within b bs
found-Within b bs (some s) = scan_symbol-Within s b bs

pub scan_token-Within : (text : List ℕ) → Within (length text) (scan_token text)
unfolding scan_token
scan_token-Within [] = tt
scan_token-Within (b ∷ bs) = found-Within b bs (find_symbol symbols b)

block_comment-le : (text : List ℕ) → block_comment text ≤ length text
unfolding block_comment
block_comment-le [] = omega arith
block_comment-le (a ∷ []) = omega arith
block_comment-le (a ∷ b ∷ bs) = ground (arith, block_comment-le (b ∷ bs))

blank_step-le : (text : List ℕ) → blank_step text ≤ length text
unfolding blank_step
blank_step-le [] = omega arith
blank_step-le (a ∷ []) = ground arith
blank_step-le (a ∷ b ∷ bs) =
    ground (arith, count_while-le (λ c. not (c == b'\n')) (a ∷ b ∷ bs), block_comment-le bs)

pub skip_from-le : (n : ℕ) (text : List ℕ) → skip_from n text ≤ length text
unfolding skip_from
skip_from-le zero text = omega arith
skip_from-le (suc n) text = ground (
  arith,
  blank_step-le text,
  skip_from-le n (drop (blank_step text) text),
  length-drop (blank_step text) text,
)
