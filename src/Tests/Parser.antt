-- ===== src/Tests/Parser.antt =====
-- The tests of src/parser.rs.
use tracescript.Prelude.{◌≡◌, refl, [], ◌∷◌, codes, pos, Text, ℕ, ◌+◌}
use tracescript.Error.{SourcePos, no_pos}
use tracescript.Value.{parse, expected_found, only_identifier_calls}
use tracescript.Result.{Result, ok, err, ◌>>=◌, Settles}
use tracescript.Parser.{Tokens}
use tracescript.Parser.Total.{Leaves}
use tracescript.Parser.Total.Expressions.{parse_expression-Leaves}
use tracescript.Parser.Total.Source.{IsSyntaxErrorIn, IsParsed, parse_source-IsParsed}
use tracescript.Lexer.{Token, tokenize}
use tracescript.Syntax.{BinOp, Expr, nil, cons}
use tracescript.Parser.Expressions.{parse_expression}
use tracescript.Parser.Program.{parse_source}
use tracescript.Tests.Fixtures.{test_platform}

abbrev expression : Text → Result Expr
expression s = tokenize test_platform s >>= λ ts. parse_expression test_platform ts >>= λ r. ok r.0

abbrev at : ℕ → SourcePos
at n = record { line = 1; col = n + 1; offset = n }

precedence :
    expression (codes "a or b and 1 + 2 * 3 - 4")
    ≡ ok (
        Expr.binary
          (Expr.identifier (codes "a"))
          BinOp.or
          (Expr.binary
            (Expr.identifier (codes "b"))
            BinOp.and
            (Expr.binary
              (Expr.binary
                (Expr.integer (pos 1))
                BinOp.add
                (Expr.binary (Expr.integer (pos 2)) BinOp.mul (Expr.integer (pos 3)) (at 17))
                (at 13))
              BinOp.sub
              (Expr.integer (pos 4))
              (at 21))
            (at 7))
          (at 2))
unfolding tokenize parse_expression
precedence = refl

-- A call has no position, and the error for a callee that is no name has none either.
call_position :
    expression (codes "f(1).x")
    ≡ ok (
        Expr.field_access
          (Expr.call (codes "f") (cons (Expr.integer (pos 1)) nil) no_pos)
          (codes "x")
          (at 4))
unfolding tokenize parse_expression
call_position = refl

literal_call : expression (codes "5(3)") ≡ err (parse only_identifier_calls no_pos)
unfolding tokenize parse_expression
literal_call = refl

handler :
    parse_source test_platform (codes "on dns(e) { return print(1) }")
    ≡ err (parse (expected_found (codes "expression") (codes "KeywordPrint")) (at 19))
unfolding parse_source
handler = refl

abbrev two_tokens : Tokens
two_tokens =
    record { token = Token.minus; pos = no_pos }
    ∷ record { token = Token.integer (pos 1); pos = no_pos }
    ∷ []

parse_expression-Leaves_example : Leaves 2 (parse_expression test_platform two_tokens)
parse_expression-Leaves_example = parse_expression-Leaves test_platform two_tokens

parse_source-IsParsed_example :
    Settles
      (IsSyntaxErrorIn (codes "after finish { }"))
      (IsParsed test_platform (codes "after finish { }"))
      (parse_source test_platform (codes "after finish { }"))
parse_source-IsParsed_example = parse_source-IsParsed test_platform (codes "after finish { }")
