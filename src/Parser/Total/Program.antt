-- ===== src/Parser/Total/Program.antt =====
-- The parsers of declarations and of programs in src/parser.rs end.
use tracescript.Prelude.{ℕ, zero, suc, ◌≡◌, ◌<◌, true, [], ◌∷◌, Text, length, codes, arith}
use tracescript.Value.{Platform, expected_found_end}
use tracescript.Result.{Settles, bind-Settles, Bool-Settles, Option-Settles}
use tracescript.Tables.{from_str}
use tracescript.Lexer.{Token, Spanned}
use tracescript.Parser.{Tokens, peek, behind, is_kind, expect_str, skip_newlines}
use tracescript.Parser.Expressions.{rounds}
use tracescript.Parser.Statements.{at_close, parse_block}
use tracescript.Parser.Program.{
  type_word, source_type, field_type, separator, at_end, parse_source_decl, parse_field,
  fields_loop, parse_table_decl, parse_event_handler, parse_finish_handler, params_loop,
  parse_params, parse_function_decl, declaration, parse_declaration, program_loop, parse_program,
}
use tracescript.Parser.Total.{
  IsParseError, Leaves, within, behind_lt, expect_str-Leaves, after_eat, after_identifier,
  after_next, length-skip_newlines, length-skip_optional,
}
use tracescript.Parser.Total.Statements.{parse_block-Leaves}

source_type-Leaves : (ts : Tokens) → Leaves (length ts) (source_type ts)
unfolding source_type
source_type-Leaves [] = record { ends = tt }
source_type-Leaves (t ∷ ts) =
    Option-Settles (type_word t.token) _ _ (λ e. record { ends = tt })
      (λ w e. record { ends = omega arith })

field_type-Leaves : (n : Text) (ts : Tokens) → Leaves (suc (length ts)) (field_type n ts)
unfolding field_type
field_type-Leaves n ts =
    Option-Settles (from_str n) _ _ (λ e. record { ends = tt })
      (λ w e. record { ends = omega arith })

separator-Leaves : (ts : Tokens) → Leaves (suc (length ts)) (separator ts)
unfolding separator
separator-Leaves ts =
    let g = length-skip_newlines ts in
    Bool-Settles (is_kind Token.comma (peek (skip_newlines ts))) _ _
      (λ e.
        let b = behind_lt Token.comma (skip_newlines ts) e in
        let h = length-skip_newlines (behind (skip_newlines ts)) in record { ends = omega arith })
      (λ e. record { ends = omega arith })

-- Nothing is left but, at most, the end and what is behind it.
abbrev pub IsFinished {ℓ} : {A : Type ℓ} → A × Tokens → Type 0
IsFinished r = at_end (peek r.1) ≡ true

module _ (pf : Platform) where
  parse_source_decl-Leaves :
      (s : Spanned) (ts : Tokens) → Leaves (suc (length ts)) (parse_source_decl pf (s ∷ ts))
  unfolding parse_source_decl
  parse_source_decl-Leaves s ts = bind-Settles (source_type ts) _ (source_type-Leaves ts) λ r h.
      bind-Settles (expect_str pf (codes "string path") r.1) _ (expect_str-Leaves pf _ r.1)
        λ q g. let p = length-skip_optional Token.newline q.1 in record { ends = omega arith }

  parse_field-Leaves : (ts : Tokens) → Leaves (length ts) (parse_field pf ts)
  unfolding parse_field
  parse_field-Leaves ts =
      after_next pf (codes "field name") (expected_found_end (codes "field name")) ts λ r h.
        after_eat pf Token.colon (codes "':'") r.1 λ r2 h2.
          after_next pf (codes "field type") (expected_found_end (codes "field type")) r2.1 λ r3 h3.
            bind-Settles (field_type r3.0 r3.1) _ (field_type-Leaves r3.0 r3.1) λ r4 h4.
              bind-Settles (separator r4.1) _ (separator-Leaves r4.1)
                λ r5 h5. record { ends = omega arith }

  fields_loop-Leaves :
      (fuel : ℕ) (ts : Tokens)
      → length ts < fuel
      → Leaves (suc (length ts)) (fields_loop pf fuel ts)
  unfolding fields_loop
  fields_loop-Leaves zero ts f = absurd (omega arith)
  fields_loop-Leaves (suc fuel) ts f =
      Bool-Settles (at_close (peek ts)) _ _ (λ e. record { ends = omega arith })
        λ e. bind-Settles (parse_field pf ts) _ (parse_field-Leaves ts) λ r h.
          bind-Settles (fields_loop pf fuel r.1) _ (fields_loop-Leaves fuel r.1 (omega arith))
            λ q g. record { ends = omega arith }

  parse_table_decl-Leaves :
      (s : Spanned) (ts : Tokens) → Leaves (suc (length ts)) (parse_table_decl pf (s ∷ ts))
  unfolding parse_table_decl
  parse_table_decl-Leaves s ts = after_identifier pf (codes "table name") ts λ r h.
      after_eat pf Token.left_brace (codes "'{'") r.1 λ r2 h2.
        let h3 = length-skip_newlines r2.1 in
        bind-Settles (fields_loop pf (rounds (s ∷ ts)) (skip_newlines r2.1)) _
          (fields_loop-Leaves (rounds (s ∷ ts)) (skip_newlines r2.1) (omega arith))
          λ r4 h4. after_eat pf Token.right_brace (codes "'}'") r4.1 λ r5 h5.
            let h6 = length-skip_optional Token.newline r5.1 in record { ends = omega arith }

  parse_event_handler-Leaves :
      (s : Spanned) (ts : Tokens) → Leaves (suc (length ts)) (parse_event_handler pf (s ∷ ts))
  unfolding parse_event_handler
  parse_event_handler-Leaves s ts = after_identifier pf (codes "event name") ts λ r h.
      after_eat pf Token.left_paren (codes "'('") r.1 λ r2 h2.
        after_identifier pf (codes "parameter name") r2.1 λ r3 h3.
          after_eat pf Token.right_paren (codes "')'") r3.1 λ r4 h4.
            bind-Settles (parse_block pf r4.1) _ (parse_block-Leaves pf r4.1)
              λ r5 h5. record { ends = omega arith }

  parse_finish_handler-Leaves :
      (s : Spanned) (ts : Tokens) → Leaves (suc (length ts)) (parse_finish_handler pf (s ∷ ts))
  unfolding parse_finish_handler
  parse_finish_handler-Leaves s ts = after_eat pf Token.keyword_finish (codes "'finish'") ts λ r h.
      bind-Settles (parse_block pf r.1) _ (parse_block-Leaves pf r.1)
        λ q g. record { ends = omega arith }

  params_loop-Leaves :
      (fuel : ℕ) (ts : Tokens) → length ts < fuel → Leaves (length ts) (params_loop pf fuel ts)
  unfolding params_loop
  params_loop-Leaves zero ts f = absurd (omega arith)
  params_loop-Leaves (suc fuel) ts f =
      after_next pf (codes "parameter name") (expected_found_end (codes "parameter name")) ts λ r h.
        Bool-Settles (is_kind Token.comma (peek r.1)) _ _
          (λ e.
            let b = behind_lt Token.comma r.1 e in
            bind-Settles (params_loop pf fuel (behind r.1)) _
              (params_loop-Leaves fuel (behind r.1) (omega arith))
              λ q g. record { ends = omega arith })
          (λ e. record { ends = omega arith })

  parse_params-Leaves : (ts : Tokens) → Leaves (suc (length ts)) (parse_params pf ts)
  unfolding parse_params
  parse_params-Leaves ts =
      Bool-Settles (is_kind Token.right_paren (peek ts)) _ _ (λ e. record { ends = omega arith })
        (λ e. within _ (params_loop-Leaves (rounds ts) ts (omega arith)) (omega arith))

  parse_function_decl-Leaves :
      (s : Spanned) (ts : Tokens) → Leaves (suc (length ts)) (parse_function_decl pf (s ∷ ts))
  unfolding parse_function_decl
  parse_function_decl-Leaves s ts = after_identifier pf (codes "function name") ts λ r h.
      after_eat pf Token.left_paren (codes "'('") r.1 λ r2 h2.
        bind-Settles (parse_params pf r2.1) _ (parse_params-Leaves r2.1) λ r3 h3.
          after_eat pf Token.right_paren (codes "')'") r3.1 λ r4 h4.
            bind-Settles (parse_block pf r4.1) _ (parse_block-Leaves pf r4.1)
              λ r5 h5. record { ends = omega arith }

  declaration-Leaves :
      (s : Spanned) (t : Token) (ts : Tokens)
      → Leaves (suc (length ts)) (declaration pf s t (s ∷ ts))
  unfolding declaration
  declaration-Leaves s Token.keyword_source ts =
      bind-Settles (parse_source_decl pf (s ∷ ts)) _ (parse_source_decl-Leaves s ts)
        λ r h. record { ends = h }
  declaration-Leaves s Token.keyword_table ts =
      bind-Settles (parse_table_decl pf (s ∷ ts)) _ (parse_table_decl-Leaves s ts)
        λ r h. record { ends = h }
  declaration-Leaves s Token.keyword_on ts =
      bind-Settles (parse_event_handler pf (s ∷ ts)) _ (parse_event_handler-Leaves s ts)
        λ r h. record { ends = h }
  declaration-Leaves s Token.keyword_after ts =
      bind-Settles (parse_finish_handler pf (s ∷ ts)) _ (parse_finish_handler-Leaves s ts)
        λ r h. record { ends = h }
  declaration-Leaves s Token.keyword_function ts =
      bind-Settles (parse_function_decl pf (s ∷ ts)) _ (parse_function_decl-Leaves s ts)
        λ r h. record { ends = h }
  declaration-Leaves s _ ts = record { ends = tt }

  parse_declaration-Leaves : (ts : Tokens) → Leaves (length ts) (parse_declaration pf ts)
  unfolding parse_declaration
  parse_declaration-Leaves [] = record { ends = tt }
  parse_declaration-Leaves (s ∷ ts) = declaration-Leaves s s.token ts

  program_loop-IsFinished :
      (fuel : ℕ) (ts : Tokens)
      → length ts < fuel
      → Settles IsParseError IsFinished (program_loop pf fuel ts)
  unfolding program_loop
  program_loop-IsFinished zero ts f = absurd (omega arith)
  program_loop-IsFinished (suc fuel) ts f =
      Bool-Settles (at_end (peek ts)) _ _ (λ e. record { ends = e })
        λ e. bind-Settles (parse_declaration pf ts) _ (parse_declaration-Leaves ts) λ r h.
          let g = length-skip_newlines r.1 in
          bind-Settles (program_loop pf fuel (skip_newlines r.1)) _
            (program_loop-IsFinished fuel (skip_newlines r.1) (omega arith))
            λ q k. record { ends = k }

  -- Parsing ends on any tokens, with a parse error or with a program; a program is read up to the
  -- end of the tokens or the first end token.
  pub parse_program-IsFinished :
      (ts : Tokens) → Settles IsParseError IsFinished (parse_program pf ts)
  unfolding parse_program
  parse_program-IsFinished ts =
      let g = length-skip_newlines ts in
      bind-Settles (program_loop pf (rounds ts) (skip_newlines ts)) _
        (program_loop-IsFinished (rounds ts) (skip_newlines ts) (omega arith))
        λ q k. record { ends = k }
