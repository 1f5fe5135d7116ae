-- ===== src/Lexer/Tokens.antt =====
-- pulselang-core/src/token.rs: the kinds of tokens, tokens, and the place of a byte in its source.
use latency_os.Prelude.{ℕ, ◌+◌, ◌-◌, List, [], ◌∷◌, length, take, ltb, ◌==◌, if◌then◌else◌}

pub data TokenKind : Type 0 where
  let_kw mut match if_kw else_kw while within or drop pipeline task stage core zero_copy : TokenKind
  hardware input output on emit return budget for in_kw fn struct const enum fixed : TokenKind
  i64 u8 u16 u32 u64 : TokenKind
  at_contract at_pipeline at_budget at_wcet at_within at_while at_for at_loop : TokenKind
  at_on_vblank at_assert at_requires at_ensures at_invariant at_pool_size at_test : TokenKind
  at_import ident var_ident hardware_ident intrinsic_ident : TokenKind
  number : ℕ → TokenKind
  float_lit : ℕ → ℕ → TokenKind
  time_literal : ℕ → TokenKind
  string_lit colon_eq plus_eq minus_eq question pipe pipe_single plus minus star : TokenKind
  slash percent eq eq_eq not_eq lt lt_eq shl gt gt_eq shr and amp caret or_op : TokenKind
  semi colon colon_colon comma dot dot_dot arrow fat_arrow underscore l_paren : TokenKind
  r_paren l_brace r_brace l_bracket r_bracket exclamation eof : TokenKind

pub record Token : Type 0 where
  pub kind : TokenKind
  pub start : ℕ
  pub len : ℕ
  pub line : ℕ
  pub col : ℕ

-- the loop over the bytes: the number of the line and the place where it begins
unfoldable pub line_from : ℕ → ℕ → ℕ → List ℕ → ℕ × ℕ
line_from i line line_start [] = (line, line_start)
line_from i line line_start (b ∷ bs) =
    line_from (i + 1) (if b == b'\n' then line + 1 else line)
      (if b == b'\n' then i + 1 else line_start) bs

unfoldable pub get_line_and_col : List ℕ → ℕ → ℕ × ℕ
unfolding line_from
get_line_and_col src pos =
    let limit = if ltb pos (length src) then pos else length src in
    let (line, line_start) = line_from 0 1 0 (take limit src) in (line, limit - line_start + 1)
