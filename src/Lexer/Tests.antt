-- ===== src/Lexer/Tests.antt =====
-- Runs of the lexer of pulselang-core/src/lexer.rs.
use latency_os.Prelude.{ℕ, ◌+◌, ◌≡◌, refl, arith, List, [], ◌∷◌, ◌++◌, length, map}
use latency_os.Vm.Text.{codes, show_i64}
use latency_os.Lexer.Tokens.{TokenKind, Token, get_line_and_col}
use latency_os.Lexer.Scanner.{scan_token}
use latency_os.Lexer.Scanner.{token}
use latency_os.Lexer.Spans.{InOrder, tokenize-InOrder}
use latency_os.Lexer.Room.{tokenize-lexed}
use latency_os.Lexer.Places.{newlines, get_line_and_col-lines}
use latency_os.Lexer.Decimal.{scan_token-show_i64}
use latency_os.Lexer.{token_at, Lexed, lexed, refused, max_tokens_exceeded, tokenize}

abbrev kinds : Lexed → List TokenKind
kinds (lexed ts) = map (λ (t : Token). t.kind) ts
kinds (refused e) = []

assignment :
    kinds (tokenize 100 (codes "let $x := 0x1F + 12 5ms 2.50 // end"))
    ≡ TokenKind.let_kw
      ∷ TokenKind.var_ident
      ∷ TokenKind.colon_eq
      ∷ TokenKind.number 31
      ∷ TokenKind.plus
      ∷ TokenKind.number 12
      ∷ TokenKind.time_literal 5_000_000
      ∷ TokenKind.float_lit 250 2
      ∷ TokenKind.eof
      ∷ []
unfolding tokenize
assignment = refl

directive :
    kinds (tokenize 100 (codes "@while($a >= 1) { @print(1..2) } \"x\" a.b"))
    ≡ TokenKind.at_while
      ∷ TokenKind.l_paren
      ∷ TokenKind.var_ident
      ∷ TokenKind.gt_eq
      ∷ TokenKind.number 1
      ∷ TokenKind.r_paren
      ∷ TokenKind.l_brace
      ∷ TokenKind.intrinsic_ident
      ∷ TokenKind.l_paren
      ∷ TokenKind.number 1
      ∷ TokenKind.dot_dot
      ∷ TokenKind.number 2
      ∷ TokenKind.r_paren
      ∷ TokenKind.r_brace
      ∷ TokenKind.string_lit
      ∷ TokenKind.ident
      ∷ TokenKind.eof
      ∷ []
unfolding tokenize
directive = refl

-- The last byte of a comment that is not closed is a token.
open_comment :
    kinds (tokenize 100 (codes "1 /* abc"))
    ≡ TokenKind.number 1 ∷ TokenKind.ident ∷ TokenKind.eof ∷ []
unfolding tokenize
open_comment = refl

-- three slots hold two tokens and the end
no_room : tokenize 3 (codes "1\n2 3") ≡ refused (max_tokens_exceeded 2 3 4)
unfolding tokenize
no_room = refl

-- a comment, a name and a number on the second line
abbrev two_tokens : List ℕ
two_tokens = codes "//\na 7"

abbrev name : Token
name = record { kind = TokenKind.ident; start = 3; len = 1; line = 2; col = 1 }

abbrev seven : Token
seven = record { kind = TokenKind.number 7; start = 5; len = 1; line = 2; col = 3 }

abbrev end : Token
end = record { kind = TokenKind.eof; start = 6; len = 0; line = 2; col = 4 }

two : tokenize 3 two_tokens ≡ lexed (name ∷ seven ∷ end ∷ [])
unfolding tokenize
two = refl

tokenize-InOrder_example :
    (body : List Token) × (name ∷ seven ∷ end ∷ []
      ≡ body ++ token_at two_tokens (length two_tokens) TokenKind.eof 0 ∷ [])
    × InOrder two_tokens 0 body (length two_tokens)
tokenize-InOrder_example = tokenize-InOrder 3 two_tokens {ts = name ∷ seven ∷ end ∷ []} two

tokenize-lexed_example : (ts : List Token) × (tokenize 7 two_tokens ≡ lexed ts)
tokenize-lexed_example = tokenize-lexed 7 two_tokens (omega arith)

get_line_and_col-lines_example :
    (get_line_and_col (codes "ab" ++ codes "c") (length (codes "ab"))
      ≡ (1, length (codes "ab") + 1))
    × (get_line_and_col
          ((codes "x\ny" ++ b'\n' ∷ codes "ab") ++ codes "c")
          (length (codes "x\ny" ++ b'\n' ∷ codes "ab"))
        ≡ (newlines (codes "x\ny") + 2, length (codes "ab") + 1))
get_line_and_col-lines_example = get_line_and_col-lines (codes "x\ny") (codes "ab") (codes "c") refl

scan_token-show_i64_example :
    scan_token (show_i64 120 ++ codes "+") ≡ token (TokenKind.number 120) (length (show_i64 120))
scan_token-show_i64_example = scan_token-show_i64 120 (codes "+") (omega arith) refl
