-- ===== src/Lexer.antt =====
-- pulselang-core/src/lexer.rs: source text is cut into tokens. `self.pos` is an argument, and a loop
-- on it looks at the text behind that place. The field `line` is only counted, never read.
pub mod Tokens
pub mod Words
pub mod Scanner
pub mod Lengths
pub mod Spans
pub mod Room
pub mod Places
pub mod Decimal
mod Tests
use latency_os.Prelude.{
  ℕ, zero, suc, ◌+◌, Bool, not, ◌&&◌, ◌||◌, List, [], ◌∷◌, ◌++◌, length, drop, ltb, ◌==◌,
  if◌then◌else◌,
}
use latency_os.Lexer.Tokens.{TokenKind, Token, get_line_and_col}
use latency_os.Lexer.Scanner.{Scan, token, unknown, count_while, scan_token}

-- the inner loop behind `/*`: it ends behind `*/`, or in front of the last byte
unfoldable pub block_comment : List ℕ → ℕ
block_comment [] = 0
block_comment (a ∷ []) = 0
block_comment (a ∷ b ∷ bs) = if a == b'*' && b == b'/' then 2 else suc (block_comment (b ∷ bs))

-- one round of the outer loop, 0 where it breaks
unfoldable pub blank_step : List ℕ → ℕ
unfolding block_comment count_while
blank_step [] = 0
blank_step (a ∷ []) = if a == b' ' || a == b'\t' || a == b'\r' || a == b'\n' then 1 else 0
blank_step (a ∷ b ∷ bs) =
    if a == b' ' || a == b'\t' || a == b'\r' || a == b'\n'
    then 1
    else if a == b'/' && b == b'/'
    then count_while (λ c. not (c == b'\n')) (a ∷ b ∷ bs)
    else if a == b'/' && b == b'*'
    then 2 + block_comment bs
    else 0

-- `skip_whitespace_and_comments`: how many bytes; `n` rounds at most
unfoldable pub skip_from : ℕ → List ℕ → ℕ
unfolding blank_step
skip_from zero text = 0
skip_from (suc n) text =
    let k = blank_step text in
    let more = skip_from n (drop k text) in if k == 0 then 0 else k + more

-- where the next token may begin
unfoldable pub skip_whitespace_and_comments : List ℕ → ℕ → ℕ
unfolding skip_from
skip_whitespace_and_comments src pos = pos + skip_from (length src) (drop pos src)

abbrev pub token_at : List ℕ → ℕ → TokenKind → ℕ → Token
token_at src start kind len =
    let (line, col) = get_line_and_col src start in
    record { kind = kind; start = start; len = len; line = line; col = col }

-- what a round does with what it found at `start`; `next` is the rest of the loop
abbrev pub push_token : List ℕ → ℕ → ℕ → (ℕ → ℕ → List Token × ℕ) → Scan → List Token × ℕ
push_token src start count next unknown = next (start + 1) count
push_token src start count next (token kind len) =
    let (ts, stop) = next (start + len) (count + 1) in (token_at src start kind len ∷ ts, stop)

-- The loop: the tokens from `pos` on and the place where it stops. `count` tokens stand before them.
-- Each round passes a byte, so the length of the source is enough for `n`.
unfoldable pub tokenize_from : ℕ → List ℕ → ℕ → ℕ → ℕ → List Token × ℕ
unfolding skip_whitespace_and_comments scan_token get_line_and_col
tokenize_from zero src max_tokens pos count = ([], pos)
tokenize_from (suc n) src max_tokens pos count =
    let start = skip_whitespace_and_comments src pos in
    let round =
      push_token src start count (tokenize_from n src max_tokens) (scan_token (drop start src)) in
    if ltb pos (length src) && ltb (count + 1) max_tokens
    then (if ltb start (length src) then round else ([], start))
    else ([], pos)

pub data LexError : Type 0 where
  token_buffer_empty : LexError
  max_tokens_exceeded : ℕ → ℕ → ℕ → LexError

pub data Lexed : Type 0 where
  lexed : List Token → Lexed
  refused : LexError → Lexed

-- `tokenize` with a buffer of `max_tokens`: what it leaves there, up to the end token
unfoldable pub tokenize : ℕ → List ℕ → Lexed
unfolding tokenize_from skip_whitespace_and_comments get_line_and_col
tokenize max_tokens src =
    let (ts, stop) = tokenize_from (length src) src max_tokens 0 0 in
    let pos = skip_whitespace_and_comments src stop in
    let (line, col) = get_line_and_col src pos in
    if max_tokens == 0
    then refused token_buffer_empty
    else if ltb pos (length src)
    then refused (max_tokens_exceeded line col pos)
    else lexed (ts ++ token_at src pos TokenKind.eof 0 ∷ [])
