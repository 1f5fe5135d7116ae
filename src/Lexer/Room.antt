-- ===== src/Lexer/Room.antt =====
-- When the buffer of `tokenize` of pulselang-core/src/lexer.rs has room for all tokens.
use latency_os.Prelude.{
  ℕ, zero, suc, ◌+◌, ◌≤◌, ◌<◌, ◌≡◌, refl, subst, arith, ltb→lt, ltb→le, lt→ltb, le→ltb, true, false,
  Bool-cases, inl, inr, List, [], ◌∷◌, ◌++◌, length, drop, ltb, ◌==◌,
}
use latency_os.Lexer.Tokens.{TokenKind, Token}
use latency_os.Lexer.Scanner.{Scan, token, unknown, scan_token}
use latency_os.Lexer.Lengths.{Within, scan_token-Within, length-drop}
use latency_os.Lexer.Spans.{skip-le, tokenize_from-Runs}
use latency_os.Lexer.{
  skip_whitespace_and_comments, token_at, push_token, tokenize_from, tokenize, lexed,
}

module _ (src : List ℕ) (max_tokens : ℕ) (room : length src < max_tokens) where
  -- what the rest of the loop gets done from any later place on, with `n` rounds
  abbrev Finishes : ℕ → (ℕ → ℕ → List Token × ℕ) → Type 0
  Finishes n next =
      (pos count : ℕ)
      → pos ≤ length src
      → length src ≤ pos + n
      → count ≤ pos
      → length src ≤ (next pos count).1

  push_token-Finishes :
      (n start count : ℕ) (next : ℕ → ℕ → List Token × ℕ) (s : Scan)
      → start < length src
      → length src ≤ start + suc n
      → count ≤ start
      → scan_token (drop start src) ≡ s
      → Finishes n next
      → length src ≤ (push_token src start count next s).1
  push_token-Finishes n start count next unknown lt fuel few e rest =
      rest (start + 1) count (omega arith) (omega arith) (omega arith)
  push_token-Finishes n start count next (token kind len) lt fuel few e rest =
      let within : Within (length (drop start src)) (token kind len) =
        subst (Within (length (drop start src))) e (scan_token-Within (drop start src)) in
      rest (start + len) (count + 1) (omega (arith, length-drop start src, within.0, within.1))
        (omega (arith, within.0)) (omega (arith, within.0))

  tokenize_from-Finishes : (n : ℕ) → Finishes n (tokenize_from n src max_tokens)
  unfolding tokenize_from
  tokenize_from-Finishes zero pos count le fuel few = omega arith
  tokenize_from-Finishes (suc n) pos count le fuel few =
      let start : ℕ = skip_whitespace_and_comments src pos in
      let (first, last) = skip-le src pos le in
      elim (Bool-cases (ltb pos (length src))) [
        | inr h ↦ rw h (ltb→le _ _ h)
        | inl h ↦
            let more : ltb (count + 1) max_tokens ≡ true =
              lt→ltb _ _ (omega (arith, ltb→lt _ _ h)) in
            rw (h, more)
              (elim (Bool-cases (ltb start (length src))) [
                | inr g ↦ rw g (ltb→le _ _ g)
                | inl g ↦ rw g (
                    push_token-Finishes n start count (tokenize_from n src max_tokens)
                      (scan_token (drop start src)) (ltb→lt _ _ g) (omega arith) (omega arith) refl
                      (tokenize_from-Finishes n))
              ])
      ]

-- A source is cut into tokens without an error whenever the buffer has more places than the source
-- has bytes.
pub tokenize-lexed :
    (max_tokens : ℕ) (src : List ℕ)
    → length src < max_tokens
    → (ts : List Token) × (tokenize max_tokens src ≡ lexed ts)
unfolding tokenize
tokenize-lexed max_tokens src room =
    let r : List Token × ℕ = tokenize_from (length src) src max_tokens 0 0 in
    let pos : ℕ = skip_whitespace_and_comments src r.1 in
    let (ordered, stop) = tokenize_from-Runs (length src) src max_tokens 0 0 (omega arith) in
    let full : length src ≤ r.1 =
      tokenize_from-Finishes src max_tokens room (length src) 0 0 (omega arith) (omega arith)
        (omega arith) in
    let some_room : (max_tokens == 0) ≡ false = ground arith in
    let at_end : ltb pos (length src) ≡ false =
      le→ltb _ _ (omega (arith, (skip-le src r.1 stop).0)) in
    (r.0 ++ token_at src pos TokenKind.eof 0 ∷ [], rw (some_room, at_end) refl)
