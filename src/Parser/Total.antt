-- ===== src/Parser/Total.antt =====
-- What the parser of src/parser.rs does with the tokens it reads: the operations on single tokens.
pub mod Expressions
pub mod Statements
pub mod Program
pub mod Source
use tracescript.Prelude.{
  ℕ, zero, suc, ◌≡◌, refl, ◌+◌, ◌≤◌, ◌<◌, Bool, true, false, List, [], ◌∷◌, Option, none, some,
  Text, length, ◌==◌, arith, if◌then◌else◌,
}
use tracescript.Value.{Platform, TraceError, Message, parse}
use tracescript.Result
use tracescript.Result.{Result, ok, err, panic, Settles, bind-Settles, weaken-Settles, if-Settles}
use tracescript.Lexer.{Token, Spanned}
use tracescript.Lexer.Show.{discriminant}
use tracescript.Parser.{
  Tokens, Parse, peek, behind, is_kind, eat, expect, expect_identifier, expect_str, next_identifier,
  take_token, skip_newlines, skip_optional, identifier_of, str_of, name_or_reject,
}

abbrev pub IsParseError : TraceError → Type 0
IsParseError (parse m p) = Unit
IsParseError _ = ⊥

-- Fewer than `n` tokens are left.
abbrev pub Under {ℓ} : {A : Type ℓ} → ℕ → A × Tokens → Type 0
Under n r = length r.1 < n

-- The call ends, with a parse error or with fewer than `n` tokens left.
abbrev pub Leaves {ℓ} : {A : Type ℓ} → ℕ → Result (A × Tokens) → Type 0
Leaves n = Settles IsParseError (Under n)

pub within {ℓ} : {A : Type ℓ} {m n : ℕ} (r : Result (A × Tokens)) → Leaves m r → m ≤ n → Leaves n r
within r h k = weaken-Settles r h (λ a u. omega arith)

pub behind_lt :
    (t : Token) (ts : Tokens) → is_kind t (peek ts) ≡ true → length (behind ts) < length ts
behind_lt t [] h = absurd (let e : false ≡ true = h in cc)
behind_lt t (s ∷ ts) h = omega arith

take_token-Leaves : (s : Spanned) (ts : Tokens) → Leaves (suc (length ts)) (take_token (s ∷ ts))
unfolding take_token
take_token-Leaves s ts = record { ends = omega arith }

pub length-skip_newlines : (ts : Tokens) → length (skip_newlines ts) ≤ length ts
unfolding skip_newlines
length-skip_newlines [] = omega arith
length-skip_newlines (t ∷ ts) = ground (arith, length-skip_newlines ts)

pub length-skip_optional : (t : Token) (ts : Tokens) → length (skip_optional t ts) ≤ length ts
unfolding skip_optional
length-skip_optional t [] = omega arith
length-skip_optional t (s ∷ ts) = ground arith

module _ (pf : Platform) where
  expect-Leaves :
      (t : Token) (label : Text) (ts : Tokens)
      → Settles IsParseError
          (λ r. (is_kind t (some r.0.token) ≡ true) × Under (length ts) r)
          (expect pf t label ts)
  unfolding expect
  expect-Leaves t label [] = record { ends = tt }
  expect-Leaves t label (s ∷ ts) =
      if-Settles (is_kind t (some s.token)) _ _ (λ e. record { ends = (e, omega arith) })
        (λ e. record { ends = tt })

  eat-Leaves : (t : Token) (label : Text) (ts : Tokens) → Leaves (length ts) (eat pf t label ts)
  unfolding eat
  eat-Leaves t label ts =
      bind-Settles (expect pf t label ts) _ (expect-Leaves t label ts) λ r h. record { ends = h.1 }

  -- a token of the kind that was expected: the `unreachable!` is not reached
  identifier_of-Leaves :
      (t : Token) (n : ℕ) (us : Tokens)
      → is_kind (Token.identifier []) (some t) ≡ true
      → length us < n
      → Leaves n (identifier_of t us)
  unfolding discriminant
  identifier_of-Leaves (Token.identifier w) n us h k = record { ends = k }
  identifier_of-Leaves _ n us h k = absurd (let e : false ≡ true = h in cc)

  str_of-Leaves :
      (t : Token) (n : ℕ) (us : Tokens)
      → is_kind (Token.str []) (some t) ≡ true
      → length us < n
      → Leaves n (str_of t us)
  unfolding discriminant
  str_of-Leaves (Token.str w) n us h k = record { ends = k }
  str_of-Leaves _ n us h k = absurd (let e : false ≡ true = h in cc)

  expect_identifier-Leaves :
      (label : Text) (ts : Tokens) → Leaves (length ts) (expect_identifier pf label ts)
  unfolding expect_identifier
  expect_identifier-Leaves label ts =
      bind-Settles (expect pf (Token.identifier []) label ts) _
        (expect-Leaves (Token.identifier []) label ts)
        λ r h. identifier_of-Leaves r.0.token (length ts) r.1 h.0 h.1

  pub expect_str-Leaves : (label : Text) (ts : Tokens) → Leaves (length ts) (expect_str pf label ts)
  unfolding expect_str
  expect_str-Leaves label ts =
      bind-Settles (expect pf (Token.str []) label ts) _ (expect-Leaves (Token.str []) label ts)
        λ r h. str_of-Leaves r.0.token (length ts) r.1 h.0 h.1

  name_or_reject-Leaves :
      (label : Text) (s : Spanned) (ts : Tokens) (t : Token)
      → Leaves (suc (length ts)) (name_or_reject pf label s ts t)
  name_or_reject-Leaves label s ts (Token.identifier n) = record { ends = omega arith }
  name_or_reject-Leaves label s ts _ = record { ends = tt }

  next_identifier-Leaves :
      (label : Text) (m : Message) (ts : Tokens)
      → Leaves (length ts) (next_identifier pf label m ts)
  unfolding next_identifier
  next_identifier-Leaves label m [] = record { ends = tt }
  next_identifier-Leaves label m (s ∷ ts) = name_or_reject-Leaves label s ts s.token

  -- a token, and what follows it
  pub after_eat {ℓ} :
      {B : Type ℓ} {P : B → Type 0} (t : Token) (label : Text) (ts : Tokens)
      {f : Unit {0} × Tokens → Result B}
      → ((r : Unit {0} × Tokens) → Under (length ts) r → Settles IsParseError P (f r))
      → Settles IsParseError P (Result.◌>>=◌ (eat pf t label ts) f)
  after_eat t label ts {f} h = bind-Settles (eat pf t label ts) f (eat-Leaves t label ts) h

  pub after_identifier {ℓ} :
      {B : Type ℓ} {P : B → Type 0} (label : Text) (ts : Tokens) {f : Text × Tokens → Result B}
      → ((r : Text × Tokens) → Under (length ts) r → Settles IsParseError P (f r))
      → Settles IsParseError P (Result.◌>>=◌ (expect_identifier pf label ts) f)
  after_identifier label ts {f} h =
      bind-Settles (expect_identifier pf label ts) f (expect_identifier-Leaves label ts) h

  pub after_next {ℓ} :
      {B : Type ℓ} {P : B → Type 0} (label : Text) (m : Message) (ts : Tokens)
      {f : Text × Tokens → Result B}
      → ((r : Text × Tokens) → Under (length ts) r → Settles IsParseError P (f r))
      → Settles IsParseError P (Result.◌>>=◌ (next_identifier pf label m ts) f)
  after_next label m ts {f} h =
      bind-Settles (next_identifier pf label m ts) f (next_identifier-Leaves label m ts) h
