-- ===== src/Lexer.antt =====
-- src/lexer.rs: tokens, and the lexer over the bytes of the source. A loop takes one unit of fuel for
-- each round; a loop without fuel is counted as a panic.
pub mod Show
pub mod Places
pub mod Loops
pub mod Starts
pub mod Total
use tracescript.Prelude.{
  ℕ, zero, suc, ◌+◌, ◌-◌, ◌*◌, ◌^◌, Bool, true, false, not, ◌&&◌, ◌||◌, List, [], ◌∷◌, ◌++◌, Option,
  none, some, Text, codes, text_eq, length, get_elem?, ◌==◌, if◌then◌else◌, ℤ, pos,
}
use tracescript.Error.{SourcePos}
use tracescript.Value.{
  Platform, Message, lex, number_not_utf8, invalid_float, invalid_integer, identifier_not_utf8,
  invalid_escape, unterminated_string, unexpected_character,
}
use tracescript.Result.{Result, ok, err, panic, or_panic, ◌>>=◌}
use tracescript.Packet.{Bytes, slice}
use tracescript.Filter.Tokens.{is_digit, is_letter, parse_uint}

pub data Token : Type 0 where
  integer : ℤ → Token
  float : ℕ → Token
  str : Text → Token
  bool : Bool → Token
  identifier : Text → Token
  keyword_source keyword_pcap keyword_table keyword_on keyword_after keyword_finish keyword_if
        keyword_else keyword_for keyword_in keyword_function keyword_return keyword_let
        keyword_insert keyword_show keyword_export keyword_alert keyword_print keyword_to
        keyword_and keyword_or keyword_contains :
      Token
  assign equal not_equal less greater less_equal greater_equal plus minus star slash percent not_ :
      Token
  left_paren right_paren left_brace right_brace comma colon dot left_bracket right_bracket
        semicolon :
      Token
  newline eof : Token

pub record Spanned : Type 0 where
  pub token : Token
  pub pos : SourcePos

pub record Lexer : Type 0 where
  pub source : Bytes
  pub offset : ℕ
  pub line : ℕ
  pub col : ℕ

-- the first entry whose key passes the test
unfoldable pub first_of {ℓ} : {K : Type ℓ} → (K → Bool) → List (K × Token) → Option Token
first_of p [] = none
first_of p ((k, t) ∷ m) = if p k then some t else first_of p m

abbrev pub keywords : List (Text × Token)
keywords =
    (codes "source", Token.keyword_source)
    ∷ (codes "pcap", Token.keyword_pcap)
    ∷ (codes "table", Token.keyword_table)
    ∷ (codes "on", Token.keyword_on)
    ∷ (codes "after", Token.keyword_after)
    ∷ (codes "finish", Token.keyword_finish)
    ∷ (codes "if", Token.keyword_if)
    ∷ (codes "else", Token.keyword_else)
    ∷ (codes "for", Token.keyword_for)
    ∷ (codes "in", Token.keyword_in)
    ∷ (codes "function", Token.keyword_function)
    ∷ (codes "return", Token.keyword_return)
    ∷ (codes "let", Token.keyword_let)
    ∷ (codes "insert", Token.keyword_insert)
    ∷ (codes "show", Token.keyword_show)
    ∷ (codes "export", Token.keyword_export)
    ∷ (codes "alert", Token.keyword_alert)
    ∷ (codes "print", Token.keyword_print)
    ∷ (codes "to", Token.keyword_to)
    ∷ (codes "and", Token.keyword_and)
    ∷ (codes "or", Token.keyword_or)
    ∷ (codes "contains", Token.keyword_contains)
    ∷ (codes "true", Token.bool true)
    ∷ (codes "false", Token.bool false)
    ∷ []

unfoldable pub lookup_keyword : Text → Token
unfolding first_of text_eq
lookup_keyword name = elim (first_of (text_eq name) keywords) [
  | none ↦ Token.identifier name
  | some t ↦ t
]

-- `Lexer::new`
unfoldable pub new : Bytes → Lexer
new source = record { source = source; offset = 0; line = 1; col = 1 }

abbrev pub peek : Lexer → Option ℕ
peek l = get_elem? l.source l.offset

abbrev pub peek_at : ℕ → Lexer → Option ℕ
peek_at n l = get_elem? l.source (l.offset + n)

-- the lexer behind the byte `c`
unfoldable pub step : ℕ → Lexer → Lexer
step c l = record l {
  offset = l.offset + 1;
  line = if c == b'\n' then l.line + 1 else l.line;
  col = if c == b'\n' then 1 else l.col + 1;
}

unfoldable pub advance : Lexer → Option ℕ × Lexer
unfolding step
advance l = elim (peek l) [ none ↦ (none, l) | some c ↦ (some c, step c l) ]

-- `self.advance();`
abbrev pub past : Lexer → Lexer
past l = (advance l).1

abbrev pub pos_of : Lexer → SourcePos
pos_of l = record { line = l.line; col = l.col; offset = l.offset }

abbrev pub is_blank : ℕ → Bool
is_blank c = c == 32 || c == b'\t' || c == b'\r' || c == b'\n'

-- `while let Some(c) = self.peek()` with a test of `c`
unfoldable pub advance_while : (ℕ → Bool) → ℕ → Lexer → Result Lexer
unfolding advance
advance_while p zero l = panic
advance_while p (suc fuel) l = elim (peek l) [
  | none ↦ ok l
  | some c ↦ elim (p c) [ true ↦ advance_while p fuel (past l) | false ↦ ok l ]
]

-- fuel for one loop over the source
abbrev pub fuel_for : Lexer → ℕ
fuel_for l = suc (length l.source)

unfoldable pub skip_comment : Lexer → Result Lexer
unfolding advance_while
skip_comment l = advance_while (λ c. not (c == b'\n')) (fuel_for l) l

unfoldable pub skip_whitespace_and_comments : ℕ → Lexer → Result Lexer
unfolding advance skip_comment
skip_whitespace_and_comments zero l = panic
skip_whitespace_and_comments (suc fuel) l = elim (peek l) [
  | none ↦ ok l
  | some c ↦ elim (is_blank c) [
    | true ↦ skip_whitespace_and_comments fuel (past l)
    | false ↦ elim (c == b'#') [
      | true ↦ (skip_comment l >>= λ l'. skip_whitespace_and_comments fuel l')
      | false ↦ ok l
    ]
  ]
]

-- `self.peek_at(n).map(|x| x.is_ascii_digit()).unwrap_or(false)`
abbrev pub digit_at : ℕ → Lexer → Bool
digit_at n l = elim (peek_at n l) [ none ↦ false | some c ↦ is_digit c ]

-- the loop of `lex_number`, with `is_float`
unfoldable pub number_loop : ℕ → Bool → Lexer → Result (Bool × Lexer)
unfolding advance
number_loop zero is_float l = panic
number_loop (suc fuel) is_float l = elim (peek l) [
  | none ↦ ok (is_float, l)
  | some c ↦ elim (is_digit c) [
    | true ↦ number_loop fuel is_float (past l)
    | false ↦ elim (c == b'.' && not is_float && digit_at 1 l) [
      | true ↦ number_loop fuel true (past l)
      | false ↦ ok (is_float, l)
    ]
  ]
]

abbrev pub span_at : Token → SourcePos → Spanned
span_at t p = record { token = t; pos = p }

-- `o.map_err(|e| TraceError::Lex { msg, pos })?`
abbrev pub ok_or_lex {ℓ} : {A : Type ℓ} → Option A → Message → SourcePos → Result A
ok_or_lex (some a) m p = ok a
ok_or_lex none m p = err (lex m p)

module _ (pf : Platform) where
  -- the number that a text stands for
  unfoldable pub number_token : Bool → Text → SourcePos → Result Token
  unfolding parse_uint
  number_token true s p = ok_or_lex (pf.f64_parse s) (invalid_float s) p >>= λ v. ok (Token.float v)
  number_token false s p =
      ok_or_lex (parse_uint (2 ^ 63) s) (invalid_integer s) p >>= λ v. ok (Token.integer (pos v))

  unfoldable pub lex_number : SourcePos → Lexer → Result (Spanned × Lexer)
  unfolding number_loop number_token
  lex_number start l = do
    (is_float, l') ← number_loop (fuel_for l) false l
    bytes ← slice l'.source start.offset l'.offset
    s ← ok_or_lex (pf.from_utf8 bytes) number_not_utf8 start
    t ← number_token is_float s start
    ok (span_at t start, l')

  unfoldable pub lex_identifier : SourcePos → Lexer → Result (Spanned × Lexer)
  unfolding advance_while lookup_keyword
  lex_identifier start l = do
    l' ← advance_while (λ c. is_letter c || is_digit c || c == b'_') (fuel_for l) l
    bytes ← slice l'.source start.offset l'.offset
    s ← ok_or_lex (pf.from_utf8 bytes) identifier_not_utf8 start
    ok (span_at (lookup_keyword s) start, l')

-- what stands for the character behind a backslash
abbrev escapes : List (ℕ × ℕ)
escapes = (b'n', b'\n') ∷ (b't', b'\t') ∷ (b'r', b'\r') ∷ (b'\\', b'\\') ∷ (b'"', b'"') ∷ []

abbrev find_escape : List (ℕ × ℕ) → ℕ → Option ℕ
find_escape [] c = none
find_escape ((k, d) ∷ m) c = if c == k then some d else find_escape m c

unfoldable pub escape : ℕ → Option ℕ
escape c = find_escape escapes c

-- The loop of `lex_string`, with `buf`. A byte that is not ASCII is pushed as the character of that
-- number.
unfoldable pub string_loop : SourcePos → ℕ → Text → Lexer → Result (Spanned × Lexer)
unfolding advance escape
string_loop start zero buf l = panic
string_loop start (suc fuel) buf l = elim (peek l) [
  | none ↦ err (lex unterminated_string start)
  | some c ↦ elim (c == b'"') [
    | true ↦ ok (span_at (Token.str buf) start, past l)
    | false ↦ elim (c == b'\\') [
      | false ↦ string_loop start fuel (buf ++ c ∷ []) (past l)
      | true ↦ elim (peek (past l)) [
        | none ↦ err (lex unterminated_string start)
        | some d ↦ elim (escape d) [
          | none ↦ err (lex (invalid_escape d) (pos_of (past (past l))))
          | some e ↦ string_loop start fuel (buf ++ e ∷ []) (past (past l))
        ]
      ]
    ]
  ]
]

unfoldable pub lex_string : SourcePos → Lexer → Result (Spanned × Lexer)
unfolding string_loop
lex_string start l = string_loop start (fuel_for l) [] l

abbrev pub singles : List (ℕ × Token)
singles =
    (b'(', Token.left_paren)
    ∷ (b')', Token.right_paren)
    ∷ (b'{', Token.left_brace)
    ∷ (b'}', Token.right_brace)
    ∷ (b',', Token.comma)
    ∷ (b':', Token.colon)
    ∷ (b'.', Token.dot)
    ∷ (b';', Token.semicolon)
    ∷ (b'[', Token.left_bracket)
    ∷ (b']', Token.right_bracket)
    ∷ (b'+', Token.plus)
    ∷ (b'-', Token.minus)
    ∷ (b'*', Token.star)
    ∷ (b'/', Token.slash)
    ∷ (b'%', Token.percent)
    ∷ []

abbrev single_char : Token → SourcePos → Lexer → Spanned × Lexer
single_char t p l = (span_at t p, past l)

-- an operator of one character, or of two where `=` follows
unfoldable pub with_equals : Token → Token → SourcePos → Lexer → Result (Spanned × Lexer)
unfolding advance
with_equals long short start l = elim (peek (past l)) [
  | none ↦ ok (span_at short start, past l)
  | some c ↦ elim (c == b'=') [
    | true ↦ ok (span_at long start, past (past l))
    | false ↦ ok (span_at short start, past l)
  ]
]

-- the operators that a `=` may extend, the extended one first
unfoldable pub extendable : ℕ → Option (Token × Token)
extendable c =
    if c == b'!'
    then some (Token.not_equal, Token.not_)
    else if c == b'='
    then some (Token.equal, Token.assign)
    else if c == b'<'
    then some (Token.less_equal, Token.less)
    else if c == b'>'
    then some (Token.greater_equal, Token.greater)
    else none

abbrev pub is_eof : Token → Bool
is_eof Token.eof = true
is_eof _ = false

module _ (pf : Platform) where
  -- the token that begins with the byte `c`
  unfoldable pub token_at : ℕ → SourcePos → Lexer → Result (Spanned × Lexer)
  unfolding advance first_of with_equals extendable lex_string lex_number lex_identifier
  token_at c start l = elim (first_of (λ k. c == k) singles) [
    | some t ↦ ok (single_char t start l)
    | none ↦ elim (extendable c) [
      | some (long, short) ↦ with_equals long short start l
      | none ↦ elim (c == b'"') [
        | true ↦ lex_string start (past l)
        | false ↦ elim (is_digit c) [
          | true ↦ lex_number pf start l
          | false ↦ elim (is_letter c || c == b'_') [
            | true ↦ lex_identifier pf start l
            | false ↦ err (lex (unexpected_character c) start)
          ]
        ]
      ]
    ]
  ]

  -- `next_token` behind the white space
  unfoldable pub token_here : Lexer → Result (Spanned × Lexer)
  unfolding advance token_at
  token_here l = elim (peek l) [
    | none ↦ ok (span_at Token.eof (pos_of l), l)
    | some c ↦ elim (c == b'\n') [
      | true ↦ ok (single_char Token.newline (pos_of l) l)
      | false ↦ token_at c (pos_of l) l
    ]
  ]

  unfoldable pub next_token : Lexer → Result (Spanned × Lexer)
  unfolding skip_whitespace_and_comments token_here
  next_token l = do l' ← skip_whitespace_and_comments (fuel_for l) l; token_here l'

  -- the loop of `tokenize`
  unfoldable pub token_loop : ℕ → Lexer → Result (List Spanned)
  unfolding next_token
  token_loop zero l = panic
  token_loop (suc fuel) l = do
    (t, l') ← next_token l
    elim (is_eof t.token) [
      | true ↦ ok (t ∷ [])
      | false ↦ (token_loop fuel l' >>= λ ts. ok (t ∷ ts))
    ]

  unfoldable pub tokenize : Bytes → Result (List Spanned)
  unfolding token_loop new
  tokenize source = token_loop (fuel_for (new source)) (new source)
