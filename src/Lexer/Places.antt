-- ===== src/Lexer/Places.antt =====
-- `get_line_and_col` of pulselang-core/src/token.rs.

use latency_os.Prelude.{
  ℕ, suc, ◌+◌, ◌-◌, ◌≡◌, refl, ap, ap₂, ◌∙◌, arith, ltb→le, List, [], ◌∷◌, ◌++◌, length,
  take-append, length-append, ltb, ◌==◌, Bool-cases, inl, inr, if◌then◌else◌,
}
use latency_os.Lexer.Tokens.{line_from, get_line_and_col}

abbrev pub newlines : List ℕ → ℕ
newlines [] = 0
newlines (b ∷ bs) = if b == b'\n' then suc (newlines bs) else newlines bs

line_from-cons :
    (i line line_start b : ℕ) (bs : List ℕ)
    → line_from i line line_start (b ∷ bs)
      ≡ line_from
          (i + 1)
          (if b == b'\n' then line + 1 else line)
          (if b == b'\n' then i + 1 else line_start)
          bs
unfolding line_from
line_from-cons i line line_start b bs = refl

-- a text whose last byte ends a line
line_from-newline :
    (i line line_start : ℕ) (text rest : List ℕ)
    → line_from i line line_start (text ++ b'\n' ∷ rest)
      ≡ line_from (i + length text + 1) (line + newlines text + 1) (i + length text + 1) rest
unfolding line_from
line_from-newline i line line_start [] rest =
    let place : i + 1 ≡ i + 0 + 1 = omega arith in
    let number : line + 1 ≡ line + 0 + 1 = omega arith in
    ap₂ (λ (p l : ℕ). line_from p l p rest) place number
line_from-newline i line line_start (b ∷ text) rest =
    let place : i + 1 + length text + 1 ≡ i + suc (length text) + 1 = omega arith in
    line_from-cons i line line_start b (text ++ b'\n' ∷ rest) ∙ elim (Bool-cases (b == b'\n')) [
      | inl h ↦
          let number : line + 1 + newlines text + 1 ≡ line + suc (newlines text) + 1 =
            omega arith in
          rw h (
            line_from-newline (i + 1) (line + 1) (i + 1) text rest
            ∙ ap₂ (λ (p l : ℕ). line_from p l p rest) place number)
      | inr h ↦ rw h (
          line_from-newline (i + 1) line line_start text rest
          ∙ ap (λ (p : ℕ). line_from p (line + newlines text + 1) p rest) place)
    ]

line_from-same :
    (i line line_start : ℕ) (text : List ℕ)
    → newlines text ≡ 0
    → line_from i line line_start text ≡ (line, line_start)
unfolding line_from
line_from-same i line line_start [] none_here = refl
line_from-same i line line_start (b ∷ text) none_here = elim (Bool-cases (b == b'\n')) [
  | inl h ↦ absurd (ground (arith, h))
  | inr h ↦ rw h (line_from-same (i + 1) line line_start text (ground (arith, h)))
]

-- the place of the byte behind `text`
at_length :
    (text rest : List ℕ)
    → get_line_and_col (text ++ rest) (length text)
      ≡ ((line_from 0 1 0 text).0, length text - (line_from 0 1 0 text).1 + 1)
unfolding get_line_and_col
at_length text rest = elim (Bool-cases (ltb (length text) (length (text ++ rest)))) [
  | inl h ↦ rw h (
      ap (λ (t : List ℕ). ((line_from 0 1 0 t).0, length text - (line_from 0 1 0 t).1 + 1))
        (take-append text rest))
  | inr h ↦
      let same : length (text ++ rest) ≡ length text =
        omega (arith, ltb→le _ _ h, length-append text rest) in
      rw (h, same)
        (ap (λ (t : List ℕ). ((line_from 0 1 0 t).0, length text - (line_from 0 1 0 t).1 + 1))
          (take-append text rest))
]

-- The line of a byte is one more than the number of line ends before it, and its column is one more
-- than the number of bytes since the last line end: for a byte behind `same`, which has no line end,
-- on the first line and behind `above` and a line end.
pub get_line_and_col-lines :
    (above same rest : List ℕ)
    → newlines same ≡ 0
    → (get_line_and_col (same ++ rest) (length same) ≡ (1, length same + 1))
      × (get_line_and_col ((above ++ b'\n' ∷ same) ++ rest) (length (above ++ b'\n' ∷ same))
          ≡ (newlines above + 2, length same + 1))
get_line_and_col-lines above same rest none_here =
    let text : List ℕ = above ++ b'\n' ∷ same in
    let size : length text ≡ length above + suc (length same) =
      length-append above (b'\n' ∷ same) in
    let walk : line_from 0 1 0 text ≡ (1 + newlines above + 1, 0 + length above + 1) =
      line_from-newline 0 1 0 above same
      ∙ line_from-same (0 + length above + 1) (1 + newlines above + 1) (0 + length above + 1) same
          none_here in
    (
      at_length same rest
          ∙ ap (λ (p : ℕ × ℕ). (p.0, length same - p.1 + 1)) (line_from-same 0 1 0 same none_here)
          ∙ ap (λ (c : ℕ). (1, c)) (omega arith),
      at_length text rest
          ∙ ap (λ (p : ℕ × ℕ). (p.0, length text - p.1 + 1)) walk
          ∙ ap₂ (λ (l c : ℕ). (l, c)) (omega arith) (omega (arith, size)),
    )
