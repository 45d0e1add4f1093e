-- ===== src/Parser.antt =====
-- src/parser.rs: the recursive-descent parser. Its state is the list of the tokens that are left, from
-- `self.pos` on: nothing reads a token in front of it. A loop takes a unit of fuel for each round,
-- and a call that nests takes one; a call without fuel is counted as a panic, as is `unreachable!`.
pub mod Expressions
pub mod Statements
pub mod Program
pub mod Total
use tracescript.Prelude.{
  ℕ, zero, suc, Bool, true, false, List, [], ◌∷◌, ◌++◌, Option, none, some, Text, codes, text_eq,
  length, ◌==◌, ◌||◌, if◌then◌else◌,
}
use tracescript.Error.{SourcePos, no_pos}
use tracescript.Value.{Platform, Message, parse, expected_found, expected_found_end}
use tracescript.Result.{Result, ok, err, panic}
use tracescript.Result
use tracescript.Lexer.{Token, Spanned}
use tracescript.Lexer.Show.{show_token, discriminant}

abbrev pub Tokens : Type 0
Tokens = List Spanned

abbrev pub Parse {ℓ} : Type ℓ → Type ℓ
Parse A = Tokens → Result (A × Tokens)

abbrev pub pure {ℓ} : {A : Type ℓ} → A → Parse A
pure a ts = ok (a, ts)

module _ {ℓ κ} {A : Type ℓ} {B : Type κ} where
  infixl 1 ◌>>=◌
  abbrev pub ◌>>=◌ : Parse A → (A → Parse B) → Parse B
  p >>= f = λ ts. Result.◌>>=◌ (p ts) λ r. f r.0 r.1

module _ {ℓ} {B : Type ℓ} where
  infixl 1 ◌>>◌
  abbrev pub ◌>>◌ : Parse (Unit {0}) → Parse B → Parse B
  p >> q = p >>= λ u. q

abbrev pub reject {ℓ} : {A : Type ℓ} → Message → SourcePos → Parse A
reject m p ts = err (parse m p)

abbrev pub unreachable {ℓ} : {A : Type ℓ} → Parse A
unreachable ts = panic

-- `self.peek()` and `self.peek_pos()`
abbrev pub peek : Tokens → Option Token
peek [] = none
peek (t ∷ ts) = some t.token

abbrev pub peek_pos : Tokens → SourcePos
peek_pos [] = no_pos
peek_pos (t ∷ ts) = t.pos

-- the tokens behind the first: `self.pos += 1` where there is one
abbrev pub behind : Tokens → Tokens
behind [] = []
behind (t ∷ ts) = ts

-- `matches!(self.peek(), Some(t))`, for a token without a payload
abbrev pub is_kind : Token → Option Token → Bool
is_kind t none = false
is_kind t (some u) = discriminant u == discriminant t

-- `self.advance().unwrap()`
unfoldable pub take_token : Parse Spanned
take_token [] = panic
take_token (t ∷ ts) = ok (t, ts)

unfoldable pub skip_newlines : Tokens → Tokens
unfolding discriminant
skip_newlines [] = []
skip_newlines (t ∷ ts) = if is_kind Token.newline (some t.token) then skip_newlines ts else t ∷ ts

-- `if matches!(self.peek(), Some(t)) { self.pos += 1 }`
unfoldable pub skip_optional : Token → Tokens → Tokens
unfolding discriminant
skip_optional t ts = if is_kind t (peek ts) then behind ts else ts

-- the payload behind a successful `expect`
abbrev pub identifier_of : Token → Parse Text
identifier_of (Token.identifier n) = pure n
identifier_of _ = unreachable

abbrev pub str_of : Token → Parse Text
str_of (Token.str s) = pure s
str_of _ = unreachable

module _ (pf : Platform) where
  unfoldable pub expect : Token → Text → Parse Spanned
  unfolding discriminant show_token
  expect t label [] = reject (expected_found_end label) no_pos []
  expect t label (s ∷ ts) =
      if is_kind t (some s.token)
      then ok (s, ts)
      else reject (expected_found label (show_token pf s.token)) s.pos (s ∷ ts)

  -- `expect`, for a token whose payload is not used
  unfoldable pub eat : Token → Text → Parse (Unit {0})
  unfolding expect
  eat t label = expect t label >>= λ s. pure tt

  -- `expect(Token::Identifier(..), label)`, and its payload
  unfoldable pub expect_identifier : Text → Parse Text
  unfolding expect
  expect_identifier label = expect (Token.identifier []) label >>= λ s. identifier_of s.token

  unfoldable pub expect_str : Text → Parse Text
  unfolding expect
  expect_str label = expect (Token.str []) label >>= λ s. str_of s.token

  abbrev pub name_or_reject : Text → Spanned → Tokens → Token → Result (Text × Tokens)
  name_or_reject label s ts (Token.identifier n) = ok (n, ts)
  name_or_reject label s ts t = reject (expected_found label (show_token pf t)) s.pos ts

  -- `self.advance()` where an identifier has to stand; `at_end` is the message where nothing does
  unfoldable pub next_identifier : Text → Message → Parse Text
  unfolding show_token
  next_identifier label at_end [] = reject at_end no_pos []
  next_identifier label at_end (s ∷ ts) = name_or_reject label s ts s.token
