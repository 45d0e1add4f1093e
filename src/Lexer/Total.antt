-- ===== src/Lexer/Total.antt =====
-- `next_token` and `tokenize` of src/lexer.rs on any source.
use tracescript.Prelude.{
  ℕ, zero, suc, ◌≡◌, refl, ◌+◌, ◌≤◌, ◌<◌, ◌⊎◌, true, false, List, [], ◌∷◌, length, ◌==◌, arith, inl,
  inr,
}
use tracescript.Value.{Platform}
use tracescript.Result.{
  Result, ok, ◌>>=◌, Settles, bind-Settles, weaken-Settles, Option-Settles, Bool-Settles,
}
use tracescript.Packet.{Bytes}
use tracescript.Lexer.{
  Lexer, Spanned, Token, peek, pos_of, fuel_for, token_here, next_token, token_loop, tokenize, new,
  is_eof, skip_whitespace_and_comments, is_blank,
}
use tracescript.Lexer.Places.{
  IsLexerOf, IsPositionIn, new-IsLexerOf, rebase, pos_of-IsPositionIn, at_end, fuel_for-enough,
}
use tracescript.Lexer.Loops.{IsLexErrorIn, IsToken, skip_whitespace_and_comments-Lands}
use tracescript.Lexer.Starts.{token_at-LandsToken}

module _ (source : Bytes) where
  -- what `next_token` gives: the end of the source, or a token of it
  abbrev Next : ℕ → Spanned × Lexer → Type 0
  Next n r =
      IsPositionIn source r.0.pos
      × (n ≤ r.0.pos.offset)
      × (((r.0.token ≡ Token.eof) × (r.0.pos.offset ≡ length source))
          ⊎ (IsToken r.0.token × IsLexerOf source (suc r.0.pos.offset) r.1))

  newline_is_blank : (c : ℕ) → c == b'\n' ≡ true → is_blank c ≡ false → ⊥
  newline_is_blank c h k = ground arith

  token-Next :
      (n : ℕ) (l : Lexer) (r : Spanned × Lexer)
      → IsLexerOf source n l
      → IsToken r.0.token × (r.0.pos ≡ pos_of l) × IsLexerOf source (suc l.offset) r.1
      → Next n r
  token-Next n l r h (w, p, k) = rw p (pos_of-IsPositionIn h, h.later, inr (w, k))

  next_token-Next :
      (pf : Platform) (n : ℕ) (l : Lexer)
      → IsLexerOf source n l
      → Settles (IsLexErrorIn source) (Next n) (next_token pf l)
  unfolding next_token token_here
  next_token-Next pf n l h =
      bind-Settles (skip_whitespace_and_comments (fuel_for l) l) _
        (skip_whitespace_and_comments-Lands source (fuel_for l) n l h (fuel_for-enough h))
        λ l' (g, clear).
          Option-Settles (peek l') _ _
            (λ e. record { ends = (pos_of-IsPositionIn g, g.later, inl (refl, at_end g e)) })
            (λ c e.
              Bool-Settles (c == b'\n') _ _ (λ q. absurd (newline_is_blank c q (clear c e)))
                (λ q.
                  weaken-Settles _ (token_at-LandsToken source pf l' c (rebase g) e)
                    λ r k. token-Next n l' r g k))

  -- The tokens from the offset `n` on: each at its own place in the source, behind the one before
  -- it; the last, and no other, is the end; none is a newline; an integer is an `i64`.
  unfoldable pub IsStream : ℕ → List Spanned → Type 0
  IsStream n [] = ⊥
  IsStream n (t ∷ []) =
      IsPositionIn source t.pos
      × (n ≤ t.pos.offset)
      × (t.token ≡ Token.eof)
      × (t.pos.offset ≡ length source)
  IsStream n (t ∷ u ∷ ts) =
      IsPositionIn source t.pos
      × (n ≤ t.pos.offset)
      × IsToken t.token
      × IsStream (suc t.pos.offset) (u ∷ ts)

  token_not_eof : (t : Token) → IsToken t → is_eof t ≡ false
  token_not_eof Token.eof h = absurd h
  token_not_eof _ h = refl

  IsStream-cons :
      (n : ℕ) (t : Spanned) (ts : List Spanned)
      → IsPositionIn source t.pos
      → n ≤ t.pos.offset
      → IsToken t.token
      → IsStream (suc t.pos.offset) ts
      → IsStream n (t ∷ ts)
  unfolding IsStream
  IsStream-cons n t [] p m w s = absurd s
  IsStream-cons n t (u ∷ ts) p m w s = (p, m, w, s)

  -- one round of the loop, by what the later rounds give
  round-IsStream :
      (n : ℕ) (r : Spanned × Lexer) (later : Result (List Spanned))
      → Next n r
      → (IsLexerOf source (suc r.0.pos.offset) r.1
          → n ≤ r.0.pos.offset
          → Settles (IsLexErrorIn source) (IsStream (suc r.0.pos.offset)) later)
      → Settles (IsLexErrorIn source) (IsStream n) (elim (is_eof r.0.token) [
        | true ↦ ok (r.0 ∷ [])
        | false ↦ (later >>= λ ts. ok (r.0 ∷ ts))
      ])
  unfolding IsStream
  round-IsStream n (t, l') later (p, m, inl (e, o)) f = rw e (record { ends = (p, m, e, o) })
  round-IsStream n (t, l') later (p, m, inr (w, g)) f =
      rw (token_not_eof t.token w)
        (bind-Settles later _ (f g m) λ ts s. record { ends = IsStream-cons n t ts p m w s })

  token_loop-IsStream :
      (pf : Platform) (fuel n : ℕ) (l : Lexer)
      → IsLexerOf source n l
      → length source < n + fuel
      → Settles (IsLexErrorIn source) (IsStream n) (token_loop pf fuel l)
  unfolding token_loop
  token_loop-IsStream pf zero n l h k = absurd (let i = h.inside in let j = h.later in omega arith)
  token_loop-IsStream pf (suc fuel) n l h k =
      bind-Settles (next_token pf l) _ (next_token-Next pf n l h) λ r x.
        round-IsStream n r (token_loop pf fuel r.1) x
          λ g m. token_loop-IsStream pf fuel (suc r.0.pos.offset) r.1 g (omega arith)

  -- Lexing any source ends: with the tokens of the source, or with a lexical error at a position
  -- of it.
  pub tokenize-IsStream :
      (pf : Platform) → Settles (IsLexErrorIn source) (IsStream 0) (tokenize pf source)
  unfolding tokenize new
  tokenize-IsStream pf =
      token_loop-IsStream pf (suc (length source)) 0 (new source) (new-IsLexerOf source)
        (omega arith)
