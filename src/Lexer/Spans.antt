-- ===== src/Lexer/Spans.antt =====
-- Where the tokens of `tokenize` of pulselang-core/src/lexer.rs lie in the source.
use latency_os.Prelude.{
  ℕ, zero, suc, ◌+◌, ◌≤◌, ◌<◌, ◌≡◌, refl, sym, ap, subst, ◌∙◌, arith, ltb→lt, ltb→le, ◌&&◌,
  Bool-cases, inl, inr, List, [], ◌∷◌, ◌++◌, length, drop, ltb, ◌==◌,
}
use latency_os.Lexer.Tokens.{TokenKind, Token, get_line_and_col}
use latency_os.Lexer.Scanner.{Scan, token, unknown, scan_token}
use latency_os.Lexer.Lengths.{Within, scan_token-Within, skip_from-le, length-drop}
use latency_os.Lexer.{
  skip_whitespace_and_comments, token_at, push_token, tokenize_from, tokenize, lexed,
}

-- what a token says is so: its text is one of its kind, and its line and column are right
pub record Describes (src : List ℕ) (t : Token) : Type 0 where
  pub scanned : scan_token (drop t.start src) ≡ token t.kind t.len
  pub filled : 1 ≤ t.len
  pub placed : (t.line, t.col) ≡ get_line_and_col src t.start

-- Tokens one behind the other between two places, without overlaps.
abbrev pub InOrder : List ℕ → ℕ → List Token → ℕ → Type 0
InOrder src lo [] hi = lo ≤ hi
InOrder src lo (t ∷ ts) hi = (lo ≤ t.start) × Describes src t × InOrder src (t.start + t.len) ts hi

InOrder-mono :
    (src : List ℕ) (lo lo' : ℕ) (ts : List Token) (hi : ℕ)
    → lo ≤ lo'
    → InOrder src lo' ts hi
    → InOrder src lo ts hi
InOrder-mono src lo lo' [] hi le o = omega arith
InOrder-mono src lo lo' (t ∷ ts) hi le (first, here, rest) = (omega arith, here, rest)

InOrder-end :
    (src : List ℕ) (lo : ℕ) (ts : List Token) (hi hi' : ℕ)
    → hi ≤ hi'
    → InOrder src lo ts hi
    → InOrder src lo ts hi'
InOrder-end src lo [] hi hi' le o = omega arith
InOrder-end src lo (t ∷ ts) hi hi' le (first, here, rest) =
    (first, here, InOrder-end src (t.start + t.len) ts hi hi' le rest)

pub skip-le :
    (src : List ℕ) (pos : ℕ)
    → pos ≤ length src
    → (pos ≤ skip_whitespace_and_comments src pos)
      × (skip_whitespace_and_comments src pos ≤ length src)
unfolding skip_whitespace_and_comments
skip-le src pos le = omega (arith, skip_from-le (length src) (drop pos src), length-drop pos src)

-- what the loop does from `pos` on
abbrev pub Runs : List ℕ → ℕ → List Token × ℕ → Type 0
Runs src pos r = InOrder src pos (r.0) (r.1) × (r.1 ≤ length src)

push_token-Runs :
    (src : List ℕ) (start count : ℕ) (next : ℕ → ℕ → List Token × ℕ) (s : Scan)
    → start < length src
    → scan_token (drop start src) ≡ s
    → ((pos c : ℕ) → pos ≤ length src → Runs src pos (next pos c))
    → Runs src start (push_token src start count next s)
push_token-Runs src start count next unknown lt e rest =
    let (ordered, stop) = rest (start + 1) count (omega arith) in
    (InOrder-mono src start (start + 1) _ _ (omega arith) ordered, stop)
push_token-Runs src start count next (token kind len) lt e rest =
    let within : Within (length (drop start src)) (token kind len) =
      subst (Within (length (drop start src))) e (scan_token-Within (drop start src)) in
    let (ordered, stop) =
      rest (start + len) (count + 1) (omega (arith, length-drop start src, within.0, within.1)) in
    ((omega arith, record { scanned = e; filled = within.0; placed = refl }, ordered), stop)

pub tokenize_from-Runs :
    (n : ℕ) (src : List ℕ) (max_tokens pos count : ℕ)
    → pos ≤ length src
    → Runs src pos (tokenize_from n src max_tokens pos count)
unfolding tokenize_from
tokenize_from-Runs zero src max_tokens pos count le = (omega arith, le)
tokenize_from-Runs (suc n) src max_tokens pos count le =
    let start : ℕ = skip_whitespace_and_comments src pos in
    let (first, last) = skip-le src pos le in
    elim (Bool-cases (ltb pos (length src) && ltb (count + 1) max_tokens)) [
      | inr h ↦ rw h (omega arith, le)
      | inl h ↦ rw h (elim (Bool-cases (ltb start (length src))) [
        | inr g ↦ rw g (first, last)
        | inl g ↦ rw g (
            let (ordered, stop) =
              push_token-Runs src start count (tokenize_from n src max_tokens)
                (scan_token (drop start src)) (omega (arith, ltb→lt _ _ g)) refl
                (λ p c l. tokenize_from-Runs n src max_tokens p c l) in
            (InOrder-mono src pos start _ _ first ordered, stop))
      ])
    ]

-- The tokens that are delivered stand in the order of the source, they do not overlap and none is
-- empty; each has the kind and the length of the text at its place, and the line and the column of
-- this place. The last of them is the end token, which stands behind the last byte.
pub tokenize-InOrder :
    (max_tokens : ℕ) (src : List ℕ) {ts : List Token}
    → tokenize max_tokens src ≡ lexed ts
    → (body : List Token) × (ts ≡ body ++ token_at src (length src) TokenKind.eof 0 ∷ [])
      × InOrder src 0 body (length src)
unfolding tokenize
tokenize-InOrder max_tokens src {ts} done =
    let r : List Token × ℕ = tokenize_from (length src) src max_tokens 0 0 in
    let pos : ℕ = skip_whitespace_and_comments src r.1 in
    let (ordered, stop) = tokenize_from-Runs (length src) src max_tokens 0 0 (omega arith) in
    let (first, last) = skip-le src r.1 stop in
    elim (Bool-cases (max_tokens == 0)) [
      | inl h ↦ absurd (ground (arith, h, done))
      | inr h ↦ elim (Bool-cases (ltb pos (length src))) [
        | inl g ↦ absurd (ground (arith, h, g, done))
        | inr g ↦
            let at_end : pos ≡ length src = omega (arith, ltb→le _ _ g) in
            let same : r.0 ++ token_at src pos TokenKind.eof 0 ∷ [] ≡ ts =
              ground (arith, h, g, done) in
            (
              r.0,
              sym same ∙ ap (λ (p : ℕ). r.0 ++ token_at src p TokenKind.eof 0 ∷ []) at_end,
              InOrder-end src 0 r.0 r.1 (length src) stop ordered,
            )
      ]
    ]
