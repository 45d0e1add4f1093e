-- ===== src/Parser/Program.antt =====
-- The declarations of src/parser.rs, and the way from a source to its syntax tree.
use tracescript.Prelude.{
  ℕ, zero, suc, Bool, true, false, ◌||◌, List, [], ◌∷◌, Option, none, some, Text, codes, text_eq,
}
use tracescript.Error.{no_pos}
use tracescript.Value.{
  Platform, expected_found, expected_found_end, no_declaration, bad_source_type, unknown_field_type,
}
use tracescript.Result
use tracescript.Result.{Result, ok, panic}
use tracescript.Packet.{Bytes}
use tracescript.Tables.{TypeName, TableField, from_str}
use tracescript.Lexer.{Token, Spanned, tokenize}
use tracescript.Lexer.Show.{show_token, discriminant}
use tracescript.Syntax.{
  Decl, Program, SourceDecl, TableDecl, EventHandlerDecl, FinishHandlerDecl, FunctionDecl,
}
use tracescript.Parser.{
  Parse, pure, ◌>>=◌, ◌>>◌, reject, peek, peek_pos, behind, is_kind, eat, expect_identifier,
  expect_str, next_identifier, take_token,
}
use tracescript.Parser.Expressions.{rounds}
use tracescript.Parser.Statements.{at_close, newlines, optional, parse_block}

-- the word for a source's type, as the tree spells it
unfoldable pub type_word : Token → Option Text
unfolding text_eq
type_word Token.keyword_pcap = some (codes "pcap")
type_word (Token.identifier s) = elim (text_eq s (codes "jsonl") || text_eq s (codes "ndjson")) [
  | true ↦ some (codes "jsonl")
  | false ↦ elim (text_eq s (codes "csv")) [ true ↦ some (codes "csv") | false ↦ none ]
]
type_word _ = none

unfoldable pub source_type : Parse Text
unfolding type_word
source_type [] = reject bad_source_type no_pos []
source_type (t ∷ ts) = elim (type_word t.token) [
  | none ↦ reject bad_source_type t.pos (t ∷ ts)
  | some w ↦ ok (w, ts)
]

unfoldable pub field_type : Text → Parse TypeName
unfolding from_str
field_type n ts = elim (from_str n) [
  | none ↦ reject (unknown_field_type n) (peek_pos ts) ts
  | some t ↦ ok (t, ts)
]

-- behind a field: newlines, and a comma with newlines behind it
unfoldable pub separator : Parse (Unit {0})
unfolding newlines discriminant
separator = newlines >> λ ts. elim (is_kind Token.comma (peek ts)) [
  | true ↦ newlines (behind ts)
  | false ↦ ok (tt, ts)
]

abbrev pub at_end : Option Token → Bool
at_end none = true
at_end (some t) = is_kind Token.eof (some t)

module _ (pf : Platform) where
  unfoldable pub parse_source_decl : Parse SourceDecl
  unfolding take_token source_type expect_str optional
  parse_source_decl = do
    s ← take_token
    t ← source_type
    path ← expect_str pf (codes "string path")
    optional Token.newline
    pure (record { source_type = t; path = path; pos = s.pos })

  unfoldable pub parse_field : Parse TableField
  unfolding next_identifier eat field_type separator
  parse_field = do
    n ← next_identifier pf (codes "field name") (expected_found_end (codes "field name"))
    eat pf Token.colon (codes "':'")
    w ← next_identifier pf (codes "field type") (expected_found_end (codes "field type"))
    t ← field_type w
    separator
    pure (record { name = n; field_type = t })

  -- the loop of `parse_table_decl`
  unfoldable pub fields_loop : ℕ → Parse (List TableField)
  unfolding parse_field discriminant
  fields_loop zero ts = panic
  fields_loop (suc fuel) ts = elim (at_close (peek ts)) [
    | true ↦ ok ([], ts)
    | false ↦ (parse_field >>= λ f. fields_loop fuel >>= λ fs. pure (f ∷ fs)) ts
  ]

  unfoldable pub parse_table_decl : Parse TableDecl
  unfolding take_token expect_identifier eat newlines fields_loop optional
  parse_table_decl ts =
      (do
        s ← take_token
        n ← expect_identifier pf (codes "table name")
        eat pf Token.left_brace (codes "'{'")
        newlines
        fs ← fields_loop (rounds ts)
        eat pf Token.right_brace (codes "'}'")
        optional Token.newline
        pure (record { name = n; fields = fs; pos = s.pos }))
        ts

  unfoldable pub parse_event_handler : Parse EventHandlerDecl
  unfolding take_token expect_identifier eat parse_block
  parse_event_handler = do
    s ← take_token
    n ← expect_identifier pf (codes "event name")
    eat pf Token.left_paren (codes "'('")
    p ← expect_identifier pf (codes "parameter name")
    eat pf Token.right_paren (codes "')'")
    b ← parse_block pf
    pure (record { event_name = n; param_name = p; body = b; pos = s.pos })

  unfoldable pub parse_finish_handler : Parse FinishHandlerDecl
  unfolding take_token eat parse_block
  parse_finish_handler = do
    s ← take_token
    eat pf Token.keyword_finish (codes "'finish'")
    b ← parse_block pf
    pure (record { body = b; pos = s.pos })

  -- the loop over the parameters
  unfoldable pub params_loop : ℕ → Parse (List Text)
  unfolding next_identifier discriminant
  params_loop zero ts = panic
  params_loop (suc fuel) ts =
      (next_identifier pf (codes "parameter name") (expected_found_end (codes "parameter name"))
          >>= λ p us. elim (is_kind Token.comma (peek us)) [
            | true ↦ (params_loop fuel >>= λ ps. pure (p ∷ ps)) (behind us)
            | false ↦ ok (p ∷ [], us)
          ])
        ts

  unfoldable pub parse_params : Parse (List Text)
  unfolding params_loop discriminant
  parse_params ts = elim (is_kind Token.right_paren (peek ts)) [
    | true ↦ ok ([], ts)
    | false ↦ params_loop (rounds ts) ts
  ]

  unfoldable pub parse_function_decl : Parse FunctionDecl
  unfolding take_token expect_identifier eat parse_params parse_block
  parse_function_decl = do
    s ← take_token
    n ← expect_identifier pf (codes "function name")
    eat pf Token.left_paren (codes "'('")
    ps ← parse_params
    eat pf Token.right_paren (codes "')'")
    b ← parse_block pf
    pure (record { name = n; params = ps; body = b; pos = s.pos })

  -- the declaration that begins with a token, which is the first of those that are left
  unfoldable pub declaration : Spanned → Token → Parse Decl
  unfolding parse_source_decl parse_table_decl parse_event_handler parse_finish_handler
      parse_function_decl show_token
  declaration s Token.keyword_source = parse_source_decl >>= λ d. pure (Decl.source d)
  declaration s Token.keyword_table = parse_table_decl >>= λ d. pure (Decl.table d)
  declaration s Token.keyword_on = parse_event_handler >>= λ d. pure (Decl.event_handler d)
  declaration s Token.keyword_after = parse_finish_handler >>= λ d. pure (Decl.finish_handler d)
  declaration s Token.keyword_function = parse_function_decl >>= λ d. pure (Decl.function d)
  declaration s t = reject (expected_found (codes "declaration keyword") (show_token pf t)) s.pos

  unfoldable pub parse_declaration : Parse Decl
  unfolding declaration
  parse_declaration [] = reject no_declaration no_pos []
  parse_declaration (s ∷ ts) = declaration s s.token (s ∷ ts)

  -- the loop of `parse_program`
  unfoldable pub program_loop : ℕ → Parse (List Decl)
  unfolding parse_declaration newlines discriminant
  program_loop zero ts = panic
  program_loop (suc fuel) ts = elim (at_end (peek ts)) [
    | true ↦ ok ([], ts)
    | false ↦ (do d ← parse_declaration; newlines; ds ← program_loop fuel; pure (d ∷ ds)) ts
  ]

  unfoldable pub parse_program : Parse Program
  unfolding newlines program_loop
  parse_program ts =
      (newlines >> program_loop (rounds ts) >>= λ ds. pure (record { declarations = ds })) ts

  -- `Parser::from_source(source)?.parse_program()`
  unfoldable pub parse_source : Bytes → Result Program
  unfolding tokenize parse_program
  parse_source source =
      Result.◌>>=◌ (tokenize pf source) λ ts. Result.◌>>=◌ (parse_program ts) λ r. ok r.0
