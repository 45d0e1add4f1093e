-- ===== src/Parser/Total/Expressions.antt =====
-- The parsers of expressions in src/parser.rs end, and leave fewer tokens than they were given.
use tracescript.Prelude.{
  ℕ, zero, suc, ◌≤◌, ◌<◌, [], ◌∷◌, Option, none, some, Text, length, codes, arith,
}
use mathlib.Core.Path.{subst}
use tracescript.Error.{SourcePos}
use tracescript.Value.{Platform, no_field_name}
use tracescript.Result.{bind-Settles, Option-Settles, Bool-Settles}
use tracescript.Lexer.{Token, Spanned}
use tracescript.Syntax.{BinOp, Expr, Exprs}
use tracescript.Parser.{Tokens, Parse, peek, behind, is_kind}
use tracescript.Parser.Expressions.{
  rounds, binary_loop, level, index_head, index_name, more_expressions, parse_expression_list,
  parse_values, parse_arg_list, field_loop, parse_index, call_of, postfix_loop, primary,
  parse_primary, parse_call_or_field, unary_at, parse_unary, unary_op, parse_multiplicative,
  parse_additive, parse_comparison, parse_equality, parse_and, parse_or, expression_at,
  parse_expression, multiplicative_op, additive_op, comparison_op, equality_op, and_op, or_op,
  expr_pos,
}
use tracescript.Parser.Total.{Under, Leaves, within, behind_lt, after_eat, after_next}

-- A parser that takes a token at least from every list of fewer than `n`.
abbrev pub Takes {ℓ} : {A : Type ℓ} → ℕ → Parse A → Type 0
Takes n p = (ts : Tokens) → length ts < n → Leaves (length ts) (p ts)

module _ (op_of : Token → Option BinOp) (n : ℕ) (next : Parse Expr) (takes : Takes n next) where
  binary_loop-Leaves :
      (fuel : ℕ) (left : Expr) (ts : Tokens)
      → length ts < fuel
      → length ts < n
      → Leaves (suc (length ts)) (binary_loop op_of next fuel left ts)
  unfolding binary_loop
  binary_loop-Leaves zero left ts f k = absurd (omega arith)
  binary_loop-Leaves (suc fuel) left [] f k = record { ends = omega arith }
  binary_loop-Leaves (suc fuel) left (t ∷ ts) f k =
      Option-Settles (op_of t.token) _ _ (λ e. record { ends = omega arith })
        λ op e.
          bind-Settles (next ts) _ (takes ts (omega arith)) λ r h.
            within _ (binary_loop-Leaves fuel _ r.1 (omega arith) (omega arith)) (omega arith)

  level-Takes : Takes n (level op_of next)
  unfolding level
  level-Takes ts k = bind-Settles (next ts) _ (takes ts k) λ r h.
      within _ (binary_loop-Leaves (rounds ts) _ r.1 (omega arith) (omega arith)) (omega arith)

-- Fewer than `m` tokens are behind what was found, if anything was.
abbrev FoundUnder {ℓ} : {A : Type ℓ} → ℕ → Option (A × Tokens) → Type 0
FoundUnder m none = Unit
FoundUnder m (some r) = Under m r

index_name-FoundUnder :
    (t u : Token) (p : SourcePos) (ts : Tokens)
    → FoundUnder (suc (suc (length ts))) (index_name t u p ts)
index_name-FoundUnder (Token.identifier w) Token.left_bracket p ts = omega arith
index_name-FoundUnder _ _ p ts = tt

index_head-FoundUnder : (ts : Tokens) → FoundUnder (length ts) (index_head ts)
unfolding index_head
index_head-FoundUnder (s ∷ b ∷ ts) = index_name-FoundUnder s.token b.token s.pos ts
index_head-FoundUnder _ = tt

module _ (pf : Platform) (expr : Parse Expr) (n : ℕ) (takes : Takes n expr) where
  more_expressions-Leaves :
      (fuel : ℕ) (ts : Tokens)
      → length ts < fuel
      → length ts ≤ n
      → Leaves (suc (length ts)) (more_expressions pf expr fuel ts)
  unfolding more_expressions
  more_expressions-Leaves zero ts f k = absurd (omega arith)
  more_expressions-Leaves (suc fuel) ts f k =
      Bool-Settles (is_kind Token.comma (peek ts)) _ _
        (λ e.
          let b = behind_lt Token.comma ts e in
          bind-Settles (expr (behind ts)) _ (takes (behind ts) (omega arith)) λ r h.
            bind-Settles (more_expressions pf expr fuel r.1) _
              (more_expressions-Leaves fuel r.1 (omega arith) (omega arith))
              λ q g. record { ends = omega arith })
        (λ e. record { ends = omega arith })

  parse_expression_list-Leaves :
      (ts : Tokens) → length ts < n → Leaves (length ts) (parse_expression_list pf expr ts)
  unfolding parse_expression_list
  parse_expression_list-Leaves ts k = bind-Settles (expr ts) _ (takes ts k) λ r h.
      bind-Settles (more_expressions pf expr (rounds ts) r.1) _
        (more_expressions-Leaves (rounds ts) r.1 (omega arith) (omega arith))
        λ q g. record { ends = omega arith }

  pub parse_values-Leaves :
      (ts : Tokens) → length ts < n → Leaves (suc (length ts)) (parse_values pf expr ts)
  unfolding parse_values
  parse_values-Leaves ts k =
      Bool-Settles (is_kind Token.right_paren (peek ts)) _ _ (λ e. record { ends = omega arith })
        (λ e. within _ (parse_expression_list-Leaves ts k) (omega arith))

  pub parse_arg_list-Leaves :
      (ts : Tokens) → length ts ≤ n → Leaves (length ts) (parse_arg_list pf expr ts)
  unfolding parse_arg_list
  parse_arg_list-Leaves ts k = after_eat pf Token.left_paren (codes "'('") ts λ r h.
      bind-Settles (parse_values pf expr r.1) _ (parse_values-Leaves r.1 (omega arith))
        λ q g. after_eat pf Token.right_paren (codes "')'") q.1 λ p u. record { ends = omega arith }

  field_loop-Leaves :
      (fuel : ℕ) (e : Expr) (ts : Tokens)
      → length ts < fuel
      → Leaves (suc (length ts)) (field_loop pf expr fuel e ts)
  unfolding field_loop
  field_loop-Leaves zero e ts f = absurd (omega arith)
  field_loop-Leaves (suc fuel) e ts f =
      Bool-Settles (is_kind Token.dot (peek ts)) _ _
        (λ d.
          let b = behind_lt Token.dot ts d in
          after_next pf (codes "field name") no_field_name (behind ts)
            λ r h. within _ (field_loop-Leaves fuel _ r.1 (omega arith)) (omega arith))
        (λ d. record { ends = omega arith })

  parse_index-Leaves :
      (name : Text) (p : SourcePos) (ts : Tokens)
      → length ts < n
      → Leaves (length ts) (parse_index pf expr name p ts)
  unfolding parse_index
  parse_index-Leaves name p ts k = bind-Settles (expr ts) _ (takes ts k) λ r h.
      after_eat pf Token.right_bracket (codes "']'") r.1
        λ q g. within _ (field_loop-Leaves (rounds ts) _ q.1 (omega arith)) (omega arith)

  call_of-Leaves :
      (e : Expr) (es : Exprs) (p : SourcePos) (ts : Tokens)
      → Leaves (suc (length ts)) (call_of e es p ts)
  call_of-Leaves (Expr.identifier w) es p ts = record { ends = omega arith }
  call_of-Leaves _ es p ts = record { ends = tt }

  postfix_loop-Leaves :
      (fuel : ℕ) (e : Expr) (ts : Tokens)
      → length ts < fuel
      → length ts ≤ n
      → Leaves (suc (length ts)) (postfix_loop pf expr fuel e ts)
  unfolding postfix_loop
  postfix_loop-Leaves zero e ts f k = absurd (omega arith)
  postfix_loop-Leaves (suc fuel) e ts f k =
      Bool-Settles (is_kind Token.dot (peek ts)) _ _
        (λ d.
          let b = behind_lt Token.dot ts d in
          after_next pf (codes "field name") no_field_name (behind ts) λ r h.
            within _ (postfix_loop-Leaves fuel _ r.1 (omega arith) (omega arith)) (omega arith))
        λ d.
          Bool-Settles (is_kind Token.left_paren (peek ts)) _ _
            (λ c. bind-Settles (parse_arg_list pf expr ts) _ (parse_arg_list-Leaves ts k) λ r h.
              bind-Settles (call_of e r.0 (expr_pos e) r.1) _
                (call_of-Leaves e r.0 (expr_pos e) r.1)
                λ q g.
                  within _ (postfix_loop-Leaves fuel _ q.1 (omega arith) (omega arith))
                    (omega arith))
            (λ c. record { ends = omega arith })

  primary-Leaves :
      (s : Spanned) (t : Token) (ts : Tokens)
      → length ts < n
      → Leaves (suc (length ts)) (primary pf expr s t ts)
  unfolding primary
  primary-Leaves s (Token.integer v) ts k = record { ends = omega arith }
  primary-Leaves s (Token.float v) ts k = record { ends = omega arith }
  primary-Leaves s (Token.str v) ts k = record { ends = omega arith }
  primary-Leaves s (Token.bool v) ts k = record { ends = omega arith }
  primary-Leaves s (Token.identifier v) ts k = record { ends = omega arith }
  primary-Leaves s Token.left_paren ts k =
      bind-Settles (expr ts) _ (takes ts k)
        λ r h. after_eat pf Token.right_paren (codes "')'") r.1 λ q g. record { ends = omega arith }
  primary-Leaves s _ ts k = record { ends = tt }

  parse_primary-Leaves :
      (ts : Tokens) → length ts ≤ n → Leaves (length ts) (parse_primary pf expr ts)
  unfolding parse_primary
  parse_primary-Leaves [] k = record { ends = tt }
  parse_primary-Leaves (s ∷ ts) k = primary-Leaves s s.token ts (omega arith)

  parse_call_or_field-Leaves :
      (ts : Tokens) → length ts ≤ n → Leaves (length ts) (parse_call_or_field pf expr ts)
  unfolding parse_call_or_field
  parse_call_or_field-Leaves ts k =
      Option-Settles (index_head ts) _ _
        (λ e. bind-Settles (parse_primary pf expr ts) _ (parse_primary-Leaves ts k) λ r h.
          within _ (postfix_loop-Leaves (rounds ts) _ r.1 (omega arith) (omega arith))
            (omega arith))
        (λ r e.
          let b : length r.1 < length ts =
            subst (FoundUnder (length ts)) e (index_head-FoundUnder ts) in
          within _ (parse_index-Leaves r.0.0 r.0.1 r.1 (omega arith)) (omega arith))

  unary_at-Leaves :
      (fuel : ℕ) (ts : Tokens)
      → length ts < fuel
      → length ts ≤ n
      → Leaves (length ts) (unary_at pf expr fuel ts)
  unfolding unary_at
  unary_at-Leaves zero ts f k = absurd (omega arith)
  unary_at-Leaves (suc fuel) [] f k = parse_call_or_field-Leaves [] k
  unary_at-Leaves (suc fuel) (t ∷ ts) f k =
      Option-Settles (unary_op t.token) _ _ (λ e. parse_call_or_field-Leaves (t ∷ ts) k)
        λ op e.
          bind-Settles (unary_at pf expr fuel ts) _
            (unary_at-Leaves fuel ts (omega arith) (omega arith))
            λ r h. record { ends = omega arith }

  parse_or-Takes : Takes (suc n) (parse_or pf expr)
  unfolding parse_or parse_and parse_equality parse_comparison parse_additive parse_multiplicative
      parse_unary
  parse_or-Takes = level-Takes or_op (suc n) _ (
      level-Takes and_op (suc n) _ (
        level-Takes equality_op (suc n) _ (
          level-Takes comparison_op (suc n) _ (
            level-Takes additive_op (suc n) _ (
              level-Takes multiplicative_op (suc n) _
                λ ts k. unary_at-Leaves (rounds ts) ts (omega arith) (omega arith))))))

expression_at-Takes : (pf : Platform) (fuel : ℕ) → Takes fuel (expression_at pf fuel)
unfolding expression_at
expression_at-Takes pf zero ts k = absurd (omega arith)
expression_at-Takes pf (suc fuel) ts k =
    parse_or-Takes pf (expression_at pf fuel) fuel (expression_at-Takes pf fuel) ts k

-- Parsing an expression ends on any tokens: with a parse error, or having taken a token at least.
pub parse_expression-Leaves :
    (pf : Platform) (ts : Tokens) → Leaves (length ts) (parse_expression pf ts)
unfolding parse_expression
parse_expression-Leaves pf ts = expression_at-Takes pf (rounds ts) ts (omega arith)
