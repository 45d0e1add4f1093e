-- ===== src/Parser/Statements.antt =====
-- The blocks and statements of src/parser.rs. `stmt` is the call of `parse_statement` that nests; the
-- last definitions tie the knot, with a unit of fuel for each level of nesting.
use tracescript.Prelude.{
  ℕ, zero, suc, Bool, true, false, ◌||◌, [], ◌∷◌, Option, none, some, Text, codes,
}
use tracescript.Error.{SourcePos, no_pos}
use tracescript.Value.{
  Platform, expected_found, expected_found_end, unexpected_after, nothing_after,
}
use tracescript.Result.{ok, panic}
use tracescript.Lexer.{Token, Spanned}
use tracescript.Lexer.Show.{show_token, discriminant}
use tracescript.Syntax.{Expr, Exprs, Stmt, Block, done, then_, Else, no_else, else_}
use tracescript.Parser.{
  Parse, pure, ◌>>=◌, ◌>>◌, reject, peek, behind, is_kind, eat, expect_identifier, expect_str,
  take_token, skip_newlines, skip_optional,
}
use tracescript.Parser.Expressions.{rounds, parse_expression, parse_values, parse_arg_list}

-- `matches!(self.peek(), Some(RightBrace) | Some(Eof))`
abbrev pub at_close : Option Token → Bool
at_close t = is_kind Token.right_brace t || is_kind Token.eof t

unfoldable pub newlines : Parse (Unit {0})
unfolding skip_newlines
newlines ts = ok (tt, skip_newlines ts)

unfoldable pub optional : Token → Parse (Unit {0})
unfolding skip_optional
optional t ts = ok (tt, skip_optional t ts)

module _ (pf : Platform) where
  -- a call's parenthesised values, from the opening one on: of `insert` and `alert`
  unfoldable pub parenthesised : Parse Exprs
  unfolding eat parse_values
  parenthesised = do
    eat pf Token.left_paren (codes "'('")
    es ← parse_values pf (parse_expression pf)
    eat pf Token.right_paren (codes "')'")
    pure es

  unfoldable pub parse_let : Parse Stmt
  unfolding take_token expect_identifier eat parse_expression
  parse_let = do
    s ← take_token
    n ← expect_identifier pf (codes "variable name")
    eat pf Token.assign (codes "'='")
    e ← parse_expression pf
    pure (Stmt.let_ n e s.pos)

  unfoldable pub parse_insert : Parse Stmt
  unfolding take_token expect_identifier parenthesised
  parse_insert = do
    s ← take_token
    n ← expect_identifier pf (codes "table name")
    es ← parenthesised
    pure (Stmt.insert n es s.pos)

  unfoldable pub parse_alert : Parse Stmt
  unfolding take_token parenthesised
  parse_alert = do s ← take_token; es ← parenthesised; pure (Stmt.alert es s.pos)

  unfoldable pub parse_show : Parse Stmt
  unfolding take_token expect_identifier
  parse_show = do
    s ← take_token
    n ← expect_identifier pf (codes "table name")
    pure (Stmt.show n s.pos)

  unfoldable pub parse_export : Parse Stmt
  unfolding take_token expect_identifier expect_str eat
  parse_export = do
    s ← take_token
    n ← expect_identifier pf (codes "table name")
    eat pf Token.keyword_to (codes "'to'")
    path ← expect_str pf (codes "export path")
    pure (Stmt.export n path s.pos)

  unfoldable pub parse_print : Parse Stmt
  unfolding take_token parse_expression
  parse_print = do s ← take_token; e ← parse_expression pf; pure (Stmt.print e s.pos)

  -- what a `return` returns
  unfoldable pub parse_returned : Parse (Option Expr)
  unfolding parse_expression discriminant
  parse_returned ts = elim (is_kind Token.newline (peek ts) || at_close (peek ts)) [
    | true ↦ ok (none, ts)
    | false ↦ (parse_expression pf >>= λ e. pure (some e)) ts
  ]

  unfoldable pub parse_return : Parse Stmt
  unfolding take_token parse_returned
  parse_return = do s ← take_token; v ← parse_returned; pure (Stmt.return v s.pos)

  -- `name[index].field = value`, behind the bracket
  unfoldable pub index_assignment : Text → SourcePos → Parse Stmt
  unfolding parse_expression eat expect_identifier
  index_assignment n p = do
    i ← parse_expression pf
    eat pf Token.right_bracket (codes "']'")
    eat pf Token.dot (codes "'.'")
    f ← expect_identifier pf (codes "field name")
    eat pf Token.assign (codes "'='")
    e ← parse_expression pf
    pure (Stmt.index_assign n i f e p)

  unfoldable pub after_name : Text → SourcePos → Spanned → Token → Parse Stmt
  unfolding parse_expression parse_arg_list index_assignment
  after_name n p s Token.assign ts = (parse_expression pf >>= λ e. pure (Stmt.assign n e p)) ts
  after_name n p s Token.left_paren ts =
      (parse_arg_list pf (parse_expression pf) >>= λ es. pure (Stmt.call_stmt n es p)) (s ∷ ts)
  after_name n p s Token.left_bracket ts = index_assignment n p ts
  after_name n p s _ ts = reject (unexpected_after n) s.pos ts

  -- the statement that begins with an identifier, from behind it on
  unfoldable pub named_statement : Text → SourcePos → Parse Stmt
  unfolding after_name
  named_statement n p [] = reject nothing_after p []
  named_statement n p (s ∷ ts) = after_name n p s s.token ts

  module _ (stmt : Parse Stmt) where
    -- the loop of `parse_block`
    unfoldable pub block_loop : ℕ → Parse Block
    unfolding newlines discriminant
    block_loop zero ts = panic
    block_loop (suc fuel) ts = elim (at_close (peek ts)) [
      | true ↦ ok (done, ts)
      | false ↦ (do s ← stmt; newlines; b ← block_loop fuel; pure (then_ s b)) ts
    ]

    unfoldable pub block_of : Parse Block
    unfolding eat newlines block_loop optional
    block_of ts =
        (do
          eat pf Token.left_brace (codes "'{'")
          newlines
          b ← block_loop (rounds ts)
          eat pf Token.right_brace (codes "'}'")
          optional Token.newline
          pure b)
          ts

    unfoldable pub parse_else : Parse Else
    unfolding block_of discriminant
    parse_else ts = elim (is_kind Token.keyword_else (peek ts)) [
      | true ↦ (block_of >>= λ b. pure (else_ b)) (behind ts)
      | false ↦ ok (no_else, ts)
    ]

    unfoldable pub parse_if : Parse Stmt
    unfolding take_token parse_expression block_of parse_else
    parse_if = do
      s ← take_token
      c ← parse_expression pf
      b ← block_of
      e ← parse_else
      pure (Stmt.if_ c b e s.pos)

    unfoldable pub parse_for : Parse Stmt
    unfolding take_token expect_identifier eat block_of
    parse_for = do
      s ← take_token
      v ← expect_identifier pf (codes "loop variable")
      eat pf Token.keyword_in (codes "'in'")
      t ← expect_identifier pf (codes "table name")
      b ← block_of
      pure (Stmt.for_ v t b s.pos)

    -- the statement that begins with a token, which is the first of those that are left
    unfoldable pub statement : Spanned → Token → Parse Stmt
    unfolding parse_let parse_if parse_for parse_insert parse_alert parse_show parse_export
        parse_print parse_return named_statement take_token show_token
    statement s Token.keyword_let = parse_let
    statement s Token.keyword_if = parse_if
    statement s Token.keyword_for = parse_for
    statement s Token.keyword_insert = parse_insert
    statement s Token.keyword_alert = parse_alert
    statement s Token.keyword_show = parse_show
    statement s Token.keyword_export = parse_export
    statement s Token.keyword_print = parse_print
    statement s Token.keyword_return = parse_return
    statement s (Token.identifier n) = take_token >>= λ _. named_statement n s.pos
    statement s t = reject (expected_found (codes "statement") (show_token pf t)) s.pos

    unfoldable pub one_statement : Parse Stmt
    unfolding statement
    one_statement [] = reject (expected_found_end (codes "statement")) no_pos []
    one_statement (s ∷ ts) = statement s s.token (s ∷ ts)

unfoldable pub statement_at : Platform → ℕ → Parse Stmt
unfolding one_statement
statement_at pf zero ts = panic
statement_at pf (suc fuel) ts = one_statement pf (statement_at pf fuel) ts

unfoldable pub parse_statement : Platform → Parse Stmt
unfolding statement_at
parse_statement pf ts = statement_at pf (rounds ts) ts

unfoldable pub parse_block : Platform → Parse Block
unfolding block_of parse_statement
parse_block pf = block_of pf (parse_statement pf)
