-- ===== src/Cli/Repl/First.antt =====
-- The program of a line of the interactive loop of src/cli.rs: its first declaration.
use tracescript.Prelude.{
  ℕ, suc, ◌≡◌, refl, sym, ◌∙◌, Bool, true, false, List, [], ◌∷◌, some, length,
}
use tracescript.Value.{Platform, TraceError}
use tracescript.Result.{
  Result, ok, err, panic, ◌>>=◌, Ensures, Ensures-bind, Settles, weaken-Settles,
}
use tracescript.Packet.{Bytes}
use tracescript.Lexer.{Lexer, Token, Spanned, next_token, token_loop, tokenize, new, is_eof}
use tracescript.Lexer.Show.{discriminant}
use tracescript.Lexer.Places.{new-IsLexerOf}
use tracescript.Lexer.Loops.{IsLexErrorIn, IsToken}
use tracescript.Lexer.Starts.{token_at-LandsToken}
use tracescript.Parser.{Tokens, is_kind, skip_newlines}
use tracescript.Parser.Program.{program_loop, parse_program, parse_declaration}

Settles-Ensures {ℓ} :
    {A : Type ℓ} {E : TraceError → Type 0} {P : A → Type 0} (m : Result A)
    → Settles E P m
    → Ensures P m
Settles-Ensures (ok a) h = h.ends
Settles-Ensures (err e) h = tt
Settles-Ensures panic h = tt

anything {ℓ} : {A : Type ℓ} (m : Result A) → Ensures (λ a. Unit {0}) m
anything (ok a) = tt
anything (err e) = tt
anything panic = tt

-- The list begins with a token of the source's text.
abbrev pub Begins : Tokens → Type 0
Begins [] = ⊥
Begins (t ∷ ts) = IsToken t.token

-- A source that begins with the letter `f`.
module _ (pf : Platform) (rest : Bytes) where
  abbrev text : Bytes
  text = b'f' ∷ rest

  next_token-first : Settles (IsLexErrorIn text) (λ r. IsToken r.0.token) (next_token pf (new text))
  unfolding next_token new
  next_token-first =
      weaken-Settles _ (token_at-LandsToken text pf (new text) b'f' (new-IsLexerOf text) refl)
        (λ r h. h.0)

  pub tokenize-Begins : Ensures Begins (tokenize pf text)
  unfolding tokenize token_loop
  tokenize-Begins =
      Ensures-bind (λ r. IsToken r.0.token) Begins (next_token pf (new text)) _
        (Settles-Ensures _ next_token-first) λ r h. go r h (is_eof r.0.token)
    where
      go :
          (r : Spanned × Lexer) (h : IsToken r.0.token) (b : Bool)
          → Ensures Begins (elim b [
            | true ↦ ok (r.0 ∷ [])
            | false ↦ (token_loop pf (length text) r.1 >>= λ ts. ok (r.0 ∷ ts))
          ])
      go r h true = h
      go r h false =
          Ensures-bind (λ ts. Unit {0}) Begins (token_loop pf (length text) r.1)
            (λ ts. ok (r.0 ∷ ts)) (anything (token_loop pf (length text) r.1)) (λ ts u. h)

abbrev pub NonEmpty {ℓ} : {A : Type ℓ} → List A → Type 0
NonEmpty [] = ⊥
NonEmpty (x ∷ xs) = Unit

not_newline : (t : Token) → IsToken t → is_kind Token.newline (some t) ≡ false
unfolding discriminant
not_newline Token.newline h = absurd h
not_newline _ h = refl

not_eof : (t : Token) → IsToken t → is_kind Token.eof (some t) ≡ false
unfolding discriminant
not_eof Token.eof h = absurd h
not_eof _ h = refl

Bool-Ensures {ℓ} :
    {A : Type ℓ} (P : A → Type 0) (b : Bool) (m n : Result A)
    → (b ≡ true → Ensures P m)
    → (b ≡ false → Ensures P n)
    → Ensures P (elim b [ true ↦ m | false ↦ n ])
Bool-Ensures P true m n h k = h refl
Bool-Ensures P false m n h k = k refl

program_loop-NonEmpty :
    (pf : Platform) (fuel : ℕ) (t : Spanned) (ts : Tokens)
    → IsToken t.token
    → Ensures (λ r. NonEmpty r.0) (program_loop pf (suc fuel) (t ∷ ts))
unfolding program_loop
program_loop-NonEmpty pf fuel t ts h =
    Bool-Ensures (λ r. NonEmpty r.0) (is_kind Token.eof (some t.token)) _ _
      (λ e. absurd (let f : true ≡ false = sym e ∙ not_eof t.token h in cc))
      λ e.
        Ensures-bind (λ r. Unit {0}) (λ r. NonEmpty r.0) (parse_declaration pf (t ∷ ts)) _
          (anything (parse_declaration pf (t ∷ ts)))
          λ r u.
            Ensures-bind (λ q. Unit {0}) (λ q. NonEmpty q.0)
              (program_loop pf fuel (skip_newlines r.1)) _
              (anything (program_loop pf fuel (skip_newlines r.1))) λ q v. tt

pub parse_program-NonEmpty :
    (pf : Platform) (ts : Tokens)
    → Begins ts
    → Ensures (λ r. NonEmpty r.0.declarations) (parse_program pf ts)
unfolding parse_program skip_newlines
parse_program-NonEmpty pf [] h = absurd h
parse_program-NonEmpty pf (t ∷ ts) h =
    rw (not_newline t.token h, skip_newlines)
      (Ensures-bind (λ r. NonEmpty r.0) (λ r. NonEmpty r.0.declarations)
        (program_loop pf (suc (length (t ∷ ts))) (t ∷ ts)) _
        (program_loop-NonEmpty pf (length (t ∷ ts)) t ts h) (λ r k. k))
