-- ===== src/Parser/Total/Statements.antt =====
-- The parsers of blocks and statements in src/parser.rs end, and leave fewer tokens than they were
-- given.
use tracescript.Prelude.{ℕ, zero, suc, ◌≤◌, ◌<◌, ◌||◌, [], ◌∷◌, Text, length, codes, arith}
use tracescript.Error.{SourcePos}
use tracescript.Value.{Platform}
use tracescript.Result
use tracescript.Result.{Result, ok, err, panic, Settles, bind-Settles, weaken-Settles, Bool-Settles}
use tracescript.Lexer.{Token, Spanned}
use tracescript.Syntax.{Expr, Stmt}
use tracescript.Parser.{Tokens, Parse, peek, behind, is_kind, expect_str, skip_newlines}
use tracescript.Parser.Expressions.{rounds, parse_expression, parse_values, parse_arg_list}
use tracescript.Parser.Statements.{
  at_close, parenthesised, parse_let, parse_insert, parse_alert, parse_show, parse_export,
  parse_print, parse_returned, parse_return, index_assignment, after_name, named_statement,
  block_loop, block_of, parse_else, parse_if, parse_for, statement, one_statement, statement_at,
  parse_statement, parse_block,
}
use tracescript.Parser.Total.{
  IsParseError, Under, Leaves, within, behind_lt, expect_str-Leaves, after_eat, after_identifier,
  length-skip_newlines, length-skip_optional,
}
use tracescript.Parser.Total.Expressions.{
  Takes, parse_expression-Leaves, parse_values-Leaves, parse_arg_list-Leaves,
}

module _ (pf : Platform) where
  after_expression {ℓ} :
      {B : Type ℓ} {P : B → Type 0} (ts : Tokens) {f : Expr × Tokens → Result B}
      → ((r : Expr × Tokens) → Under (length ts) r → Settles IsParseError P (f r))
      → Settles IsParseError P (Result.◌>>=◌ (parse_expression pf ts) f)
  after_expression ts {f} h =
      bind-Settles (parse_expression pf ts) f (parse_expression-Leaves pf ts) h

  parenthesised-Leaves : (ts : Tokens) → Leaves (length ts) (parenthesised pf ts)
  unfolding parenthesised
  parenthesised-Leaves ts = after_eat pf Token.left_paren (codes "'('") ts λ r h.
      bind-Settles (parse_values pf (parse_expression pf) r.1) _
        (parse_values-Leaves pf (parse_expression pf) (suc (length r.1))
          (λ us k. parse_expression-Leaves pf us) r.1 (omega arith))
        λ q g. after_eat pf Token.right_paren (codes "')'") q.1 λ p u. record { ends = omega arith }

  module _ (s : Spanned) (ts : Tokens) where
    -- at most the tokens behind the keyword are left
    abbrev Shrinks : Parse Stmt → Type 0
    Shrinks p = Leaves (suc (length ts)) (p (s ∷ ts))

    parse_let-Shrinks : Shrinks (parse_let pf)
    unfolding parse_let
    parse_let-Shrinks = after_identifier pf (codes "variable name") ts λ q g.
        after_eat pf Token.assign (codes "'='") q.1
          λ p u. after_expression p.1 λ o v. record { ends = omega arith }

    parse_insert-Shrinks : Shrinks (parse_insert pf)
    unfolding parse_insert
    parse_insert-Shrinks = after_identifier pf (codes "table name") ts λ q g.
        bind-Settles (parenthesised pf q.1) _ (parenthesised-Leaves q.1)
          λ p u. record { ends = omega arith }

    parse_alert-Shrinks : Shrinks (parse_alert pf)
    unfolding parse_alert
    parse_alert-Shrinks =
        bind-Settles (parenthesised pf ts) _ (parenthesised-Leaves ts)
          λ p u. record { ends = omega arith }

    parse_show-Shrinks : Shrinks (parse_show pf)
    unfolding parse_show
    parse_show-Shrinks =
        after_identifier pf (codes "table name") ts λ q g. record { ends = omega arith }

    parse_export-Shrinks : Shrinks (parse_export pf)
    unfolding parse_export
    parse_export-Shrinks = after_identifier pf (codes "table name") ts λ q g.
        after_eat pf Token.keyword_to (codes "'to'") q.1 λ p u.
          bind-Settles (expect_str pf (codes "export path") p.1) _ (expect_str-Leaves pf _ p.1)
            λ o v. record { ends = omega arith }

    parse_print-Shrinks : Shrinks (parse_print pf)
    unfolding parse_print
    parse_print-Shrinks = after_expression ts λ q g. record { ends = omega arith }

  parse_returned-Leaves : (ts : Tokens) → Leaves (suc (length ts)) (parse_returned pf ts)
  unfolding parse_returned
  parse_returned-Leaves ts =
      Bool-Settles (is_kind Token.newline (peek ts) || at_close (peek ts)) _ _
        (λ e. record { ends = omega arith })
        (λ e. after_expression ts λ r h. record { ends = omega arith })

  parse_return-Shrinks : (s : Spanned) (ts : Tokens) → Shrinks s ts (parse_return pf)
  unfolding parse_return
  parse_return-Shrinks s ts =
      bind-Settles (parse_returned pf ts) _ (parse_returned-Leaves ts)
        λ q g. record { ends = omega arith }

  index_assignment-Leaves :
      (n : Text) (p : SourcePos) (ts : Tokens) → Leaves (length ts) (index_assignment pf n p ts)
  unfolding index_assignment
  index_assignment-Leaves n p ts = after_expression ts λ r h.
      after_eat pf Token.right_bracket (codes "']'") r.1 λ r2 h2.
        after_eat pf Token.dot (codes "'.'") r2.1 λ r3 h3.
          after_identifier pf (codes "field name") r3.1 λ r4 h4.
            after_eat pf Token.assign (codes "'='") r4.1
              λ r5 h5. after_expression r5.1 λ r6 h6. record { ends = omega arith }

  after_name-Leaves :
      (n : Text) (p : SourcePos) (s : Spanned) (t : Token) (ts : Tokens)
      → Leaves (suc (length ts)) (after_name pf n p s t ts)
  unfolding after_name
  after_name-Leaves n p s Token.assign ts = after_expression ts λ r h. record { ends = omega arith }
  after_name-Leaves n p s Token.left_paren ts =
      bind-Settles (parse_arg_list pf (parse_expression pf) (s ∷ ts)) _
        (parse_arg_list-Leaves pf (parse_expression pf) (suc (length ts))
          (λ us k. parse_expression-Leaves pf us) (s ∷ ts) (omega arith))
        λ r h. record { ends = omega arith }
  after_name-Leaves n p s Token.left_bracket ts =
      within _ (index_assignment-Leaves n p ts) (omega arith)
  after_name-Leaves n p s _ ts = record { ends = tt }

  named_statement-Leaves :
      (n : Text) (p : SourcePos) (ts : Tokens) → Leaves (length ts) (named_statement pf n p ts)
  unfolding named_statement
  named_statement-Leaves n p [] = record { ends = tt }
  named_statement-Leaves n p (s ∷ ts) = after_name-Leaves n p s s.token ts

  module _ (stmt : Parse Stmt) (n : ℕ) (takes : Takes n stmt) where
    block_loop-Leaves :
        (fuel : ℕ) (ts : Tokens)
        → length ts < fuel
        → length ts < n
        → Leaves (suc (length ts)) (block_loop pf stmt fuel ts)
    unfolding block_loop
    block_loop-Leaves zero ts f k = absurd (omega arith)
    block_loop-Leaves (suc fuel) ts f k =
        Bool-Settles (at_close (peek ts)) _ _ (λ e. record { ends = omega arith })
          λ e. bind-Settles (stmt ts) _ (takes ts k) λ r h.
            let g = length-skip_newlines r.1 in
            bind-Settles (block_loop pf stmt fuel (skip_newlines r.1)) _
              (block_loop-Leaves fuel (skip_newlines r.1) (omega arith) (omega arith))
              λ p u. record { ends = omega arith }

    block_of-Leaves : (ts : Tokens) → length ts ≤ n → Leaves (length ts) (block_of pf stmt ts)
    unfolding block_of
    block_of-Leaves ts k = after_eat pf Token.left_brace (codes "'{'") ts λ r h.
        let h2 = length-skip_newlines r.1 in
        bind-Settles (block_loop pf stmt (rounds ts) (skip_newlines r.1)) _
          (block_loop-Leaves (rounds ts) (skip_newlines r.1) (omega arith) (omega arith))
          λ r3 h3. after_eat pf Token.right_brace (codes "'}'") r3.1 λ r4 h4.
            let h5 = length-skip_optional Token.newline r4.1 in record { ends = omega arith }

    parse_else-Leaves :
        (ts : Tokens) → length ts ≤ n → Leaves (suc (length ts)) (parse_else pf stmt ts)
    unfolding parse_else
    parse_else-Leaves ts k =
        Bool-Settles (is_kind Token.keyword_else (peek ts)) _ _
          (λ e.
            let b = behind_lt Token.keyword_else ts e in
            bind-Settles (block_of pf stmt (behind ts)) _
              (block_of-Leaves (behind ts) (omega arith)) λ r h. record { ends = omega arith })
          (λ e. record { ends = omega arith })

    parse_if-Shrinks : (s : Spanned) (ts : Tokens) → length ts ≤ n → Shrinks s ts (parse_if pf stmt)
    unfolding parse_if
    parse_if-Shrinks s ts k = after_expression ts λ r2 h2.
        bind-Settles (block_of pf stmt r2.1) _ (block_of-Leaves r2.1 (omega arith)) λ r3 h3.
          bind-Settles (parse_else pf stmt r3.1) _ (parse_else-Leaves r3.1 (omega arith))
            λ r4 h4. record { ends = omega arith }

    parse_for-Shrinks :
        (s : Spanned) (ts : Tokens) → length ts ≤ n → Shrinks s ts (parse_for pf stmt)
    unfolding parse_for
    parse_for-Shrinks s ts k = after_identifier pf (codes "loop variable") ts λ r2 h2.
        after_eat pf Token.keyword_in (codes "'in'") r2.1 λ r3 h3.
          after_identifier pf (codes "table name") r3.1 λ r4 h4.
            bind-Settles (block_of pf stmt r4.1) _ (block_of-Leaves r4.1 (omega arith))
              λ r5 h5. record { ends = omega arith }

    statement-Shrinks :
        (s : Spanned) (t : Token) (ts : Tokens)
        → length ts ≤ n
        → Shrinks s ts (statement pf stmt s t)
    unfolding statement
    statement-Shrinks s Token.keyword_let ts k = parse_let-Shrinks s ts
    statement-Shrinks s Token.keyword_if ts k = parse_if-Shrinks s ts k
    statement-Shrinks s Token.keyword_for ts k = parse_for-Shrinks s ts k
    statement-Shrinks s Token.keyword_insert ts k = parse_insert-Shrinks s ts
    statement-Shrinks s Token.keyword_alert ts k = parse_alert-Shrinks s ts
    statement-Shrinks s Token.keyword_show ts k = parse_show-Shrinks s ts
    statement-Shrinks s Token.keyword_export ts k = parse_export-Shrinks s ts
    statement-Shrinks s Token.keyword_print ts k = parse_print-Shrinks s ts
    statement-Shrinks s Token.keyword_return ts k = parse_return-Shrinks s ts
    statement-Shrinks s (Token.identifier w) ts k =
        within _ (named_statement-Leaves w s.pos ts) (omega arith)
    statement-Shrinks s _ ts k = record { ends = tt }

    one_statement-Takes : Takes (suc n) (one_statement pf stmt)
    unfolding one_statement
    one_statement-Takes [] k = record { ends = tt }
    one_statement-Takes (s ∷ ts) k = statement-Shrinks s s.token ts (omega arith)

statement_at-Takes : (pf : Platform) (fuel : ℕ) → Takes fuel (statement_at pf fuel)
unfolding statement_at
statement_at-Takes pf zero ts k = absurd (omega arith)
statement_at-Takes pf (suc fuel) ts k =
    one_statement-Takes pf (statement_at pf fuel) fuel (statement_at-Takes pf fuel) ts k

parse_statement-Leaves : (pf : Platform) (ts : Tokens) → Leaves (length ts) (parse_statement pf ts)
unfolding parse_statement
parse_statement-Leaves pf ts = statement_at-Takes pf (rounds ts) ts (omega arith)

pub parse_block-Leaves : (pf : Platform) (ts : Tokens) → Leaves (length ts) (parse_block pf ts)
unfolding parse_block
parse_block-Leaves pf ts =
    block_of-Leaves pf (parse_statement pf) (suc (length ts)) (λ us k. parse_statement-Leaves pf us)
      ts (omega arith)
