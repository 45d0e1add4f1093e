-- ===== src/Lexer/Starts.antt =====
-- The tokens of src/lexer.rs that begin at a byte.
use tracescript.Prelude.{
  ℕ, suc, ◌≡◌, refl, ◌^◌, ◌≤◌, Bool, true, false, ◌||◌, List, [], ◌∷◌, Option, none, some, Text,
  text_eq, length, ◌==◌, arith, All, if◌then◌else◌,
}
use mathlib.Core.Path.{subst}
use tracescript.Error.{SourcePos}
use tracescript.Value.{Platform, Message}
use tracescript.Result.{Result, ok, err, panic, Settles, bind-Settles, Option-Settles, Bool-Settles}
use tracescript.Packet.{Bytes, slice}
use tracescript.Packet.Total.{slice-Returns, Returns}
use tracescript.Filter.Tokens.{is_digit, is_letter, parse_uint}
use tracescript.Filter.Numbers.{parse_uint-lt}
use tracescript.Lexer.{
  Lexer, Token, peek, advance, advance_while, number_loop, number_token, fuel_for, keywords,
  singles, first_of, lookup_keyword, lex_number, lex_identifier, lex_string, ok_or_lex, token_at,
  with_equals, extendable, pos_of,
}
use tracescript.Lexer.Places.{
  IsLexerOf, IsPositionIn, advance-IsLexerOf, pos_of-IsPositionIn, skip_one, fuel_for-enough,
}
use tracescript.Lexer.Loops.{
  IsLexErrorIn, IsToken, LandsToken, advance_while_past, number_loop_past, string_loop-Lands,
}

-- What was found, if anything, has the property.
abbrev Found {ℓ} : {A : Type ℓ} → (A → Type 0) → Option A → Type 0
Found P none = Unit
Found P (some t) = P t

if-Found {ℓ} :
    {A : Type ℓ} (P : A → Type 0) (b : Bool) (a : A) (o : Option A)
    → P a
    → Found P o
    → Found P (if b then some a else o)
if-Found P true a o h k = h
if-Found P false a o h k = k

first_of-Found {ℓ} :
    {K : Type ℓ} (p : K → Bool) (m : List (K × Token))
    → All (λ e. IsToken e.1) m
    → Found IsToken (first_of p m)
unfolding first_of
first_of-Found p [] h = tt
first_of-Found p ((k, u) ∷ m) h =
    if-Found IsToken (p k) u (first_of p m) h.0 (first_of-Found p m h.1)

single-IsToken : (c : ℕ) (t : Token) → first_of (λ k. c == k) singles ≡ some t → IsToken t
single-IsToken c t h = subst (Found IsToken) h (first_of-Found (λ k. c == k) singles (ground arith))

abbrev AreTokens : Token × Token → Type 0
AreTokens p = IsToken p.0 × IsToken p.1

extendable-Found : (c : ℕ) → Found AreTokens (extendable c)
unfolding extendable
extendable-Found c =
    if-Found AreTokens (c == b'!') _ _ (tt, tt)
      (if-Found AreTokens (c == b'=') _ _ (tt, tt)
        (if-Found AreTokens (c == b'<') _ _ (tt, tt)
          (if-Found AreTokens (c == b'>') _ _ (tt, tt) tt)))

lookup_keyword-IsToken : (name : Text) → IsToken (lookup_keyword name)
unfolding lookup_keyword
lookup_keyword-IsToken name = go _ (first_of-Found (text_eq name) keywords (ground arith))
  where
    go :
        (o : Option Token)
        → Found IsToken o
        → IsToken (elim o [ none ↦ Token.identifier name | some t ↦ t ])
    go none h = tt
    go (some t) h = h

module _ (source : Bytes) where
  returned {ℓ} :
      {A : Type ℓ} (m : Result A) → Returns m → Settles (IsLexErrorIn source) (λ a. Unit {0}) m
  returned (ok a) h = record { ends = tt }
  returned (err e) h = absurd h
  returned panic h = absurd h

  ok_or_lex-Settles :
      {A : Type 0} (o : Option A) (m : Message) (p : SourcePos)
      → IsPositionIn source p
      → Settles (IsLexErrorIn source) (λ a. o ≡ some a) (ok_or_lex o m p)
  ok_or_lex-Settles none m p h = record { ends = h }
  ok_or_lex-Settles (some a) m p h = record { ends = refl }

  number_token-IsToken :
      (pf : Platform) (is_float : Bool) (s : Text) (p : SourcePos)
      → IsPositionIn source p
      → Settles (IsLexErrorIn source) IsToken (number_token pf is_float s p)
  unfolding number_token
  number_token-IsToken pf true s p h =
      bind-Settles _ _ (ok_or_lex-Settles (pf.f64_parse s) _ p h) λ v e. record { ends = tt }
  number_token-IsToken pf false s p h =
      bind-Settles _ _ (ok_or_lex-Settles (parse_uint (2 ^ 63) s) _ p h)
        λ v e. record { ends = parse_uint-lt (2 ^ 63) s e }

  module _ (pf : Platform) (l : Lexer) (c : ℕ) (h : IsLexerOf source l.offset l)
      (e : peek l ≡ some c) where
    here : IsPositionIn source (pos_of l)
    here = pos_of-IsPositionIn h

    slice-Settles :
        (l' : Lexer)
        → IsLexerOf source (suc l.offset) l'
        → Settles (IsLexErrorIn source) (λ b. Unit {0}) (slice l'.source l.offset l'.offset)
    slice-Settles l' g =
        let later = g.later in
        let inside : l'.offset ≤ length l'.source = rw g.same g.inside in
        returned (slice l'.source l.offset l'.offset)
          (slice-Returns l'.source l.offset l'.offset (omega arith) inside)

    lex_number-LandsToken :
        is_digit c ≡ true → LandsToken source (pos_of l) (suc l.offset) (lex_number pf (pos_of l) l)
    unfolding lex_number
    lex_number-LandsToken t =
        bind-Settles (number_loop (fuel_for l) false l) _
          (number_loop_past source l.offset l c h e t)
          λ r g.
            bind-Settles (slice (r.1).source l.offset (r.1).offset) _ (slice-Settles r.1 g) λ b u.
              bind-Settles _ _ (ok_or_lex-Settles (pf.from_utf8 b) _ (pos_of l) here) λ s v.
                bind-Settles _ _ (number_token-IsToken pf r.0 s (pos_of l) here)
                  λ tok w. record { ends = (w, refl, g) }

    lex_identifier-LandsToken :
        (is_letter c || is_digit c || c == b'_') ≡ true
        → LandsToken source (pos_of l) (suc l.offset) (lex_identifier pf (pos_of l) l)
    unfolding lex_identifier
    lex_identifier-LandsToken t =
        bind-Settles (advance_while (λ d. is_letter d || is_digit d || d == b'_') (fuel_for l) l) _
          (advance_while_past source (λ d. is_letter d || is_digit d || d == b'_') l.offset l c h e
            t)
          λ l' g. bind-Settles (slice l'.source l.offset l'.offset) _ (slice-Settles l' g) λ b u.
            bind-Settles _ _ (ok_or_lex-Settles (pf.from_utf8 b) _ (pos_of l) here)
              λ s v. record { ends = (lookup_keyword-IsToken s, refl, g) }

    lex_string-LandsToken :
        LandsToken source (pos_of l) (suc l.offset) (lex_string (pos_of l) (advance l).1)
    unfolding lex_string
    lex_string-LandsToken =
        let g = advance-IsLexerOf h e in
        string_loop-Lands source (pos_of l) (fuel_for (advance l).1) (suc l.offset) [] (advance l).1
          here g (fuel_for-enough g)

    with_equals-LandsToken :
        (long short : Token)
        → IsToken long
        → IsToken short
        → LandsToken source (pos_of l) (suc l.offset) (with_equals long short (pos_of l) l)
    unfolding with_equals
    with_equals-LandsToken long short a b =
        let g = advance-IsLexerOf h e in
        Option-Settles (peek (advance l).1) _ _ (λ q. record { ends = (b, refl, g) })
          λ d q.
            Bool-Settles (d == b'=') _ _ (λ r. record { ends = (a, refl, skip_one g q) })
              (λ r. record { ends = (b, refl, g) })

    pub token_at-LandsToken :
        LandsToken source (pos_of l) (suc l.offset) (token_at pf c (pos_of l) l)
    unfolding token_at
    token_at-LandsToken =
        Option-Settles (first_of (λ k. c == k) singles) _ _
          (λ a.
            Option-Settles (extendable c) _ _
              (λ b.
                Bool-Settles (c == b'"') _ _ (λ q. lex_string-LandsToken)
                  λ q. Bool-Settles (is_digit c) _ _ lex_number-LandsToken λ d.
                    Bool-Settles (is_letter c || c == b'_') _ _
                      (λ w. lex_identifier-LandsToken (ground arith)) (λ w. record { ends = here }))
              (λ p b.
                let both = subst (Found AreTokens) b (extendable-Found c) in
                with_equals-LandsToken p.0 p.1 both.0 both.1))
          (λ t a. record { ends = (single-IsToken c t a, refl, advance-IsLexerOf h e) })
