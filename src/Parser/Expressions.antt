-- ===== src/Parser/Expressions.antt =====
-- The expressions of src/parser.rs. `expr` is the call of `parse_expression` that nests; the last
-- definition ties the knot, with a unit of fuel for each level of nesting.
use tracescript.Prelude.{
  ℕ, zero, suc, true, false, [], ◌∷◌, Option, none, some, Text, codes, length,
}
use tracescript.Error.{SourcePos, no_pos}
use tracescript.Value.{
  Platform, expected_found, expected_found_end, no_field_name, only_identifier_calls,
}
use tracescript.Result.{ok, panic}
use tracescript.Lexer.{Token, Spanned}
use tracescript.Lexer.Show.{show_token, discriminant}
use tracescript.Syntax.{BinOp, UnOp, Expr, Exprs, nil, cons}
use tracescript.Parser.{
  Tokens, Parse, pure, ◌>>=◌, ◌>>◌, reject, peek, peek_pos, behind, is_kind, eat, next_identifier,
}

unfoldable pub or_op : Token → Option BinOp
or_op Token.keyword_or = some BinOp.or
or_op _ = none

unfoldable pub and_op : Token → Option BinOp
and_op Token.keyword_and = some BinOp.and
and_op _ = none

unfoldable pub equality_op : Token → Option BinOp
equality_op Token.equal = some BinOp.eq
equality_op Token.not_equal = some BinOp.not_eq
equality_op _ = none

unfoldable pub comparison_op : Token → Option BinOp
comparison_op Token.less = some BinOp.lt
comparison_op Token.greater = some BinOp.gt
comparison_op Token.less_equal = some BinOp.lt_eq
comparison_op Token.greater_equal = some BinOp.gt_eq
comparison_op Token.keyword_contains = some BinOp.contains
comparison_op _ = none

unfoldable pub additive_op : Token → Option BinOp
additive_op Token.plus = some BinOp.add
additive_op Token.minus = some BinOp.sub
additive_op _ = none

unfoldable pub multiplicative_op : Token → Option BinOp
multiplicative_op Token.star = some BinOp.mul
multiplicative_op Token.slash = some BinOp.div
multiplicative_op Token.percent = some BinOp.mod_
multiplicative_op _ = none

unfoldable pub unary_op : Token → Option UnOp
unary_op Token.not_ = some UnOp.not
unary_op Token.minus = some UnOp.neg
unary_op _ = none

unfoldable pub expr_pos : Expr → SourcePos
expr_pos (Expr.binary l op r p) = p
expr_pos (Expr.unary op e p) = p
expr_pos (Expr.call n es p) = p
expr_pos (Expr.field_access e f p) = p
expr_pos (Expr.index t e p) = p
expr_pos _ = no_pos

-- fuel for a loop over the tokens that are left
abbrev pub rounds : Tokens → ℕ
rounds ts = suc (length ts)

-- The loop that the six levels of binary operators share: the operators of one level, and the level
-- above it.
unfoldable pub binary_loop : (Token → Option BinOp) → Parse Expr → ℕ → Expr → Parse Expr
binary_loop op_of next zero left ts = panic
binary_loop op_of next (suc fuel) left [] = ok (left, [])
binary_loop op_of next (suc fuel) left (t ∷ ts) = elim (op_of t.token) [
  | none ↦ ok (left, t ∷ ts)
  | some op ↦ (next >>= λ right. binary_loop op_of next fuel (Expr.binary left op right t.pos)) ts
]

unfoldable pub level : (Token → Option BinOp) → Parse Expr → Parse Expr
unfolding binary_loop
level op_of next ts = (next >>= λ left. binary_loop op_of next (rounds ts) left) ts

-- `name[`: the name, its position, and the tokens behind the bracket
abbrev pub index_name : Token → Token → SourcePos → Tokens → Option ((Text × SourcePos) × Tokens)
index_name (Token.identifier n) Token.left_bracket p ts = some ((n, p), ts)
index_name _ _ p ts = none

unfoldable pub index_head : Tokens → Option ((Text × SourcePos) × Tokens)
index_head (s ∷ b ∷ ts) = index_name s.token b.token s.pos ts
index_head _ = none

abbrev pub call_of : Expr → Exprs → SourcePos → Parse Expr
call_of (Expr.identifier n) es p = pure (Expr.call n es p)
call_of _ es p = reject only_identifier_calls p

module _ (pf : Platform) (expr : Parse Expr) where
  -- the rounds of `parse_expression_list` behind the first expression
  unfoldable pub more_expressions : ℕ → Parse Exprs
  unfolding discriminant
  more_expressions zero ts = panic
  more_expressions (suc fuel) ts = elim (is_kind Token.comma (peek ts)) [
    | true ↦ (expr >>= λ e. more_expressions fuel >>= λ es. pure (cons e es)) (behind ts)
    | false ↦ ok (nil, ts)
  ]

  unfoldable pub parse_expression_list : Parse Exprs
  unfolding more_expressions
  parse_expression_list ts =
      (expr >>= λ e. more_expressions (rounds ts) >>= λ es. pure (cons e es)) ts

  -- the values in front of a closing parenthesis
  unfoldable pub parse_values : Parse Exprs
  unfolding parse_expression_list discriminant
  parse_values ts = elim (is_kind Token.right_paren (peek ts)) [
    | true ↦ ok (nil, ts)
    | false ↦ parse_expression_list ts
  ]

  unfoldable pub parse_arg_list : Parse Exprs
  unfolding parse_values eat
  parse_arg_list = do
    eat pf Token.left_paren (codes "'('")
    es ← parse_values
    eat pf Token.right_paren (codes "')'")
    pure es

  -- the field accesses behind an index
  unfoldable pub field_loop : ℕ → Expr → Parse Expr
  unfolding next_identifier discriminant
  field_loop zero e ts = panic
  field_loop (suc fuel) e ts = elim (is_kind Token.dot (peek ts)) [
    | true ↦
        (next_identifier pf (codes "field name") no_field_name >>= λ f.
        field_loop fuel (Expr.field_access e f (peek_pos ts)))
          (behind ts)
    | false ↦ ok (e, ts)
  ]

  unfoldable pub parse_index : Text → SourcePos → Parse Expr
  unfolding field_loop eat
  parse_index name p ts =
      (do
        i ← expr
        eat pf Token.right_bracket (codes "']'")
        field_loop (rounds ts) (Expr.index name i p))
        ts

  -- the field accesses and calls behind a primary expression
  unfoldable pub postfix_loop : ℕ → Expr → Parse Expr
  unfolding next_identifier parse_arg_list expr_pos discriminant
  postfix_loop zero e ts = panic
  postfix_loop (suc fuel) e ts = elim (is_kind Token.dot (peek ts)) [
    | true ↦
        (next_identifier pf (codes "field name") no_field_name >>= λ f.
        postfix_loop fuel (Expr.field_access e f (peek_pos ts)))
          (behind ts)
    | false ↦ elim (is_kind Token.left_paren (peek ts)) [
      | true ↦ (parse_arg_list >>= λ es. call_of e es (expr_pos e) >>= λ c. postfix_loop fuel c) ts
      | false ↦ ok (e, ts)
    ]
  ]

  unfoldable pub primary : Spanned → Token → Parse Expr
  unfolding eat show_token
  primary s (Token.integer n) = pure (Expr.integer n)
  primary s (Token.float n) = pure (Expr.float n)
  primary s (Token.str v) = pure (Expr.str v)
  primary s (Token.bool b) = pure (Expr.bool b)
  primary s (Token.identifier n) = pure (Expr.identifier n)
  primary s Token.left_paren = do e ← expr; eat pf Token.right_paren (codes "')'"); pure e
  primary s t = reject (expected_found (codes "expression") (show_token pf t)) s.pos

  unfoldable pub parse_primary : Parse Expr
  unfolding primary
  parse_primary [] = reject (expected_found_end (codes "expression")) no_pos []
  parse_primary (s ∷ ts) = primary s s.token ts

  unfoldable pub parse_call_or_field : Parse Expr
  unfolding index_head parse_index parse_primary postfix_loop
  parse_call_or_field ts = elim (index_head ts) [
    | some ((name, p), rest) ↦ parse_index name p rest
    | none ↦ (parse_primary >>= λ e. postfix_loop (rounds ts) e) ts
  ]

  unfoldable pub unary_at : ℕ → Parse Expr
  unfolding parse_call_or_field unary_op
  unary_at zero ts = panic
  unary_at (suc fuel) [] = parse_call_or_field []
  unary_at (suc fuel) (t ∷ ts) = elim (unary_op t.token) [
    | some op ↦ (unary_at fuel >>= λ e. pure (Expr.unary op e t.pos)) ts
    | none ↦ parse_call_or_field (t ∷ ts)
  ]

  unfoldable pub parse_unary : Parse Expr
  unfolding unary_at
  parse_unary ts = unary_at (rounds ts) ts

  unfoldable pub parse_multiplicative : Parse Expr
  unfolding level multiplicative_op parse_unary
  parse_multiplicative = level multiplicative_op parse_unary

  unfoldable pub parse_additive : Parse Expr
  unfolding level additive_op parse_multiplicative
  parse_additive = level additive_op parse_multiplicative

  unfoldable pub parse_comparison : Parse Expr
  unfolding level comparison_op parse_additive
  parse_comparison = level comparison_op parse_additive

  unfoldable pub parse_equality : Parse Expr
  unfolding level equality_op parse_comparison
  parse_equality = level equality_op parse_comparison

  unfoldable pub parse_and : Parse Expr
  unfolding level and_op parse_equality
  parse_and = level and_op parse_equality

  unfoldable pub parse_or : Parse Expr
  unfolding level or_op parse_and
  parse_or = level or_op parse_and

unfoldable pub expression_at : Platform → ℕ → Parse Expr
unfolding parse_or
expression_at pf zero ts = panic
expression_at pf (suc fuel) ts = parse_or pf (expression_at pf fuel) ts

-- `parse_expression`
unfoldable pub parse_expression : Platform → Parse Expr
unfolding expression_at
parse_expression pf ts = expression_at pf (rounds ts) ts
