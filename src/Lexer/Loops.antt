-- ===== src/Lexer/Loops.antt =====
-- The loops of src/lexer.rs over the bytes of a source.
use tracescript.Prelude.{
  ℕ, zero, suc, ◌≡◌, refl, sym, ◌∙◌, ◌+◌, ◌<◌, Bool, true, false, not, ◌&&◌, none, some, Text,
  length, ◌==◌, arith, IsI64,
}
use mathlib.Core.Path.{subst}
use tracescript.Error.{SourcePos}
use tracescript.Value.{TraceError, lex}
use tracescript.Result.{Result, Settles, bind-Settles, Option-Settles, Bool-Settles}
use tracescript.Packet.{Bytes}
use tracescript.Filter.Tokens.{is_digit}
use tracescript.Lexer.{
  Lexer, Spanned, Token, peek, advance, advance_while, skip_comment, skip_whitespace_and_comments,
  number_loop, digit_at, string_loop, escape, fuel_for, is_blank,
}
use tracescript.Lexer.Places.{
  IsLexerOf, IsPositionIn, advance-IsLexerOf, weaken, rebase, pos_of-IsPositionIn, skip_one, spend,
  spend_two, fuel_for-enough,
}

-- A lexical error at a position of the source.
abbrev pub IsLexErrorIn : Bytes → TraceError → Type 0
IsLexErrorIn source (lex m p) = IsPositionIn source p
IsLexErrorIn source _ = ⊥

-- A token of the source's text: neither the end nor a newline, and an integer is an `i64`.
abbrev pub IsToken : Token → Type 0
IsToken (Token.integer z) = IsI64 z
IsToken Token.newline = ⊥
IsToken Token.eof = ⊥
IsToken _ = Unit

-- It ends with a lexer that stands at or behind `n`.
abbrev pub Lands : Bytes → ℕ → Result Lexer → Type 0
Lands source n = Settles (IsLexErrorIn source) (IsLexerOf source n)

-- The next byte is no white space.
abbrev IsClear : Lexer → Type 0
IsClear l = (c : ℕ) → peek l ≡ some c → is_blank c ≡ false

end-IsClear : (l : Lexer) → peek l ≡ none → IsClear l
end-IsClear l e c f = absurd (let g : none ≡ some c = sym e ∙ f in cc)

here-IsClear : (l : Lexer) (c : ℕ) → peek l ≡ some c → is_blank c ≡ false → IsClear l
here-IsClear l c e t d f =
    let g : some c ≡ some d = sym e ∙ f in
    let same : c ≡ d = cc in subst (λ x. is_blank x ≡ false) same t

module _ (source : Bytes) where
  advance_while-Lands :
      (p : ℕ → Bool) (fuel n : ℕ) (l : Lexer)
      → IsLexerOf source n l
      → length source < l.offset + fuel
      → Lands source n (advance_while p fuel l)
  unfolding advance_while
  advance_while-Lands p zero n l h k = absurd (let i = h.inside in omega arith)
  advance_while-Lands p (suc fuel) n l h k =
      Option-Settles (peek l) _ _ (λ e. record { ends = h })
        λ c e.
          Bool-Settles (p c) _ _
            (λ t. advance_while-Lands p fuel n (advance l).1 (skip_one h e) (spend fuel h e k))
            (λ t. record { ends = h })

  -- A loop that begins with a byte that passes gets past it.
  pub advance_while_past :
      (p : ℕ → Bool) (n : ℕ) (l : Lexer) (c : ℕ)
      → IsLexerOf source n l
      → peek l ≡ some c
      → p c ≡ true
      → Lands source (suc n) (advance_while p (fuel_for l) l)
  unfolding advance_while
  advance_while_past p n l c h e t =
      rw (e, t, advance_while)
        (advance_while-Lands p (length l.source) (suc n) (advance l).1 (advance-IsLexerOf h e)
          (spend (length l.source) h e (fuel_for-enough h)))

  pub skip_whitespace_and_comments-Lands :
      (fuel n : ℕ) (l : Lexer)
      → IsLexerOf source n l
      → length source < l.offset + fuel
      → Settles
          (IsLexErrorIn source)
          (λ m. IsLexerOf source n m × IsClear m)
          (skip_whitespace_and_comments fuel l)
  unfolding skip_whitespace_and_comments skip_comment
  skip_whitespace_and_comments-Lands zero n l h k = absurd (let i = h.inside in omega arith)
  skip_whitespace_and_comments-Lands (suc fuel) n l h k =
      Option-Settles (peek l) _ _ (λ e. record { ends = (h, end-IsClear l e) })
        λ c e.
          Bool-Settles (is_blank c) _ _
            (λ t.
              skip_whitespace_and_comments-Lands fuel n (advance l).1 (skip_one h e)
                (spend fuel h e k))
            λ t.
              Bool-Settles (c == b'#') _ _
                (λ hash.
                  bind-Settles (skip_comment l) _
                    (advance_while_past (λ d. not (d == b'\n')) l.offset l c (rebase h) e
                      (ground arith))
                    λ l' g.
                      let later = g.later in
                      let before = h.later in
                      skip_whitespace_and_comments-Lands fuel n l' (weaken g n (omega arith))
                        (omega arith))
                (λ hash. record { ends = (h, here-IsClear l c e t) })

  -- the flag and the lexer of `number_loop`
  abbrev LandsNumber : ℕ → Result (Bool × Lexer) → Type 0
  LandsNumber n = Settles (IsLexErrorIn source) (λ r. IsLexerOf source n r.1)

  number_loop-Lands :
      (fuel n : ℕ) (is_float : Bool) (l : Lexer)
      → IsLexerOf source n l
      → length source < l.offset + fuel
      → LandsNumber n (number_loop fuel is_float l)
  unfolding number_loop
  number_loop-Lands zero n is_float l h k = absurd (let i = h.inside in omega arith)
  number_loop-Lands (suc fuel) n is_float l h k =
      Option-Settles (peek l) _ _ (λ e. record { ends = h })
        λ c e.
          Bool-Settles (is_digit c) _ _
            (λ t. number_loop-Lands fuel n is_float (advance l).1 (skip_one h e) (spend fuel h e k))
            λ t.
              Bool-Settles (c == b'.' && not is_float && digit_at 1 l) _ _
                (λ d. number_loop-Lands fuel n true (advance l).1 (skip_one h e) (spend fuel h e k))
                (λ d. record { ends = h })

  -- A number that begins with a digit is past it.
  pub number_loop_past :
      (n : ℕ) (l : Lexer) (c : ℕ)
      → IsLexerOf source n l
      → peek l ≡ some c
      → is_digit c ≡ true
      → LandsNumber (suc n) (number_loop (fuel_for l) false l)
  unfolding number_loop
  number_loop_past n l c h e t =
      rw (e, t, number_loop)
        (number_loop-Lands (length l.source) (suc n) false (advance l).1 (advance-IsLexerOf h e)
          (spend (length l.source) h e (fuel_for-enough h)))

  -- a token that began at `start`, and the lexer behind it
  abbrev pub LandsToken : SourcePos → ℕ → Result (Spanned × Lexer) → Type 0
  LandsToken start n =
      Settles (IsLexErrorIn source)
        (λ r. IsToken r.0.token × (r.0.pos ≡ start) × IsLexerOf source n r.1)

  pub string_loop-Lands :
      (start : SourcePos) (fuel n : ℕ) (buf : Text) (l : Lexer)
      → IsPositionIn source start
      → IsLexerOf source n l
      → length source < l.offset + fuel
      → LandsToken start n (string_loop start fuel buf l)
  unfolding string_loop
  string_loop-Lands start zero n buf l s h k = absurd (let i = h.inside in omega arith)
  string_loop-Lands start (suc fuel) n buf l s h k =
      Option-Settles (peek l) _ _ (λ e. record { ends = s })
        λ c e.
          Bool-Settles (c == b'"') _ _ (λ t. record { ends = (tt, refl, skip_one h e) })
            λ t.
              Bool-Settles (c == b'\\') _ _
                (λ u.
                  Option-Settles (peek (advance l).1) _ _ (λ f. record { ends = s })
                    λ d f.
                      Option-Settles (escape d) _ _
                        (λ v. record { ends = pos_of-IsPositionIn (skip_one (skip_one h e) f) })
                        (λ x v.
                          string_loop-Lands start fuel n _ (advance (advance l).1).1 s
                            (skip_one (skip_one h e) f) (spend_two fuel h e f k)))
                (λ u.
                  string_loop-Lands start fuel n _ (advance l).1 s (skip_one h e)
                    (spend fuel h e k))
