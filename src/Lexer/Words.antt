-- ===== src/Lexer/Words.antt =====
-- The words and the symbols that `tokenize` of pulselang-core/src/lexer.rs knows.
use Prim.Native.String.{String}
use latency_os.Prelude.{ℕ, Option, none, some, List, [], ◌∷◌, same_bytes, ◌==◌, if◌then◌else◌}
use latency_os.Vm.Text.{codes}
use latency_os.Lexer.Tokens.{TokenKind}

-- `match tag { b"..." => ..., _ => default }`
unfoldable pub word_kind : List (String × TokenKind) → TokenKind → List ℕ → TokenKind
unfolding same_bytes
word_kind [] default text = default
word_kind ((word, kind) ∷ rest) default text =
    if same_bytes text (codes word) then kind else word_kind rest default text

abbrev pub directives : List (String × TokenKind)
directives =
    ("contract", TokenKind.at_contract)
    ∷ ("pipeline", TokenKind.at_pipeline)
    ∷ ("budget", TokenKind.at_budget)
    ∷ ("wcet", TokenKind.at_wcet)
    ∷ ("within", TokenKind.at_within)
    ∷ ("while", TokenKind.at_while)
    ∷ ("for", TokenKind.at_for)
    ∷ ("assert", TokenKind.at_assert)
    ∷ ("requires", TokenKind.at_requires)
    ∷ ("ensures", TokenKind.at_ensures)
    ∷ ("invariant", TokenKind.at_invariant)
    ∷ ("loop", TokenKind.at_loop)
    ∷ ("on_vblank", TokenKind.at_on_vblank)
    ∷ ("pool_size", TokenKind.at_pool_size)
    ∷ ("test", TokenKind.at_test)
    ∷ ("import", TokenKind.at_import)
    ∷ []

abbrev pub keywords : List (String × TokenKind)
keywords =
    ("let", TokenKind.let_kw)
    ∷ ("mut", TokenKind.mut)
    ∷ ("match", TokenKind.match)
    ∷ ("if", TokenKind.if_kw)
    ∷ ("else", TokenKind.else_kw)
    ∷ ("while", TokenKind.while)
    ∷ ("for", TokenKind.for)
    ∷ ("in", TokenKind.in_kw)
    ∷ ("within", TokenKind.within)
    ∷ ("or", TokenKind.or)
    ∷ ("drop", TokenKind.drop)
    ∷ ("pipeline", TokenKind.pipeline)
    ∷ ("task", TokenKind.task)
    ∷ ("stage", TokenKind.stage)
    ∷ ("core", TokenKind.core)
    ∷ ("zero_copy", TokenKind.zero_copy)
    ∷ ("hardware", TokenKind.hardware)
    ∷ ("input", TokenKind.input)
    ∷ ("output", TokenKind.output)
    ∷ ("on", TokenKind.on)
    ∷ ("emit", TokenKind.emit)
    ∷ ("return", TokenKind.return)
    ∷ ("budget", TokenKind.budget)
    ∷ ("fn", TokenKind.fn)
    ∷ ("struct", TokenKind.struct)
    ∷ ("const", TokenKind.const)
    ∷ ("enum", TokenKind.enum)
    ∷ ("fixed", TokenKind.fixed)
    ∷ ("i64", TokenKind.i64)
    ∷ ("u8", TokenKind.u8)
    ∷ ("u16", TokenKind.u16)
    ∷ ("u32", TokenKind.u32)
    ∷ ("u64", TokenKind.u64)
    ∷ ("_", TokenKind.underscore)
    ∷ []

-- A symbol by its first byte: the bytes that may follow, in the order of the tests, and the kind
-- where none of them does.
pub record Symbol : Type 0 where
  pub first : ℕ
  pub longer : List (ℕ × TokenKind)
  pub alone : TokenKind

abbrev single : ℕ → TokenKind → Symbol
single b kind = record { first = b; longer = []; alone = kind }

abbrev pub symbols : List Symbol
symbols =
    single b'(' TokenKind.l_paren
    ∷ single b')' TokenKind.r_paren
    ∷ single b'{' TokenKind.l_brace
    ∷ single b'}' TokenKind.r_brace
    ∷ single b';' TokenKind.semi
    ∷ single b',' TokenKind.comma
    ∷ record { first = b'.'; longer = (b'.', TokenKind.dot_dot) ∷ []; alone = TokenKind.dot }
    ∷ single b'?' TokenKind.question
    ∷ record {
      first = b':';
      longer = (b'=', TokenKind.colon_eq) ∷ (b':', TokenKind.colon_colon) ∷ [];
      alone = TokenKind.colon;
    }
    ∷ record { first = b'+'; longer = (b'=', TokenKind.plus_eq) ∷ []; alone = TokenKind.plus }
    ∷ record {
      first = b'-';
      longer = (b'=', TokenKind.minus_eq) ∷ (b'>', TokenKind.arrow) ∷ [];
      alone = TokenKind.minus;
    }
    ∷ single b'*' TokenKind.star
    ∷ single b'/' TokenKind.slash
    ∷ single b'%' TokenKind.percent
    ∷ single b'[' TokenKind.l_bracket
    ∷ single b']' TokenKind.r_bracket
    ∷ single b'^' TokenKind.caret
    ∷ record {
      first = b'|';
      longer = (b'>', TokenKind.pipe) ∷ (b'|', TokenKind.or_op) ∷ [];
      alone = TokenKind.pipe_single;
    }
    ∷ record {
      first = b'=';
      longer = (b'=', TokenKind.eq_eq) ∷ (b'>', TokenKind.fat_arrow) ∷ [];
      alone = TokenKind.eq;
    }
    ∷ record { first = b'!'; longer = (b'=', TokenKind.not_eq) ∷ []; alone = TokenKind.exclamation }
    ∷ record {
      first = b'<';
      longer = (b'<', TokenKind.shl) ∷ (b'=', TokenKind.lt_eq) ∷ [];
      alone = TokenKind.lt;
    }
    ∷ record {
      first = b'>';
      longer = (b'>', TokenKind.shr) ∷ (b'=', TokenKind.gt_eq) ∷ [];
      alone = TokenKind.gt;
    }
    ∷ record { first = b'&'; longer = (b'&', TokenKind.and) ∷ []; alone = TokenKind.amp }
    ∷ []

unfoldable pub find_symbol : List Symbol → ℕ → Option Symbol
find_symbol [] b = none
find_symbol (s ∷ rest) b = if s.first == b then some s else find_symbol rest b

unfoldable pub find_longer : List (ℕ × TokenKind) → ℕ → Option TokenKind
find_longer [] b = none
find_longer ((c, kind) ∷ rest) b = if c == b then some kind else find_longer rest b
