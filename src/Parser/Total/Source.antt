-- ===== src/Parser/Total/Source.antt =====
-- From a source to its syntax tree: the lexer of src/lexer.rs and the parser of src/parser.rs in
-- sequence.
use tracescript.Prelude.{◌≡◌, refl, ◌⊎◌, inl, inr, List}
use tracescript.Value.{Platform, TraceError}
use tracescript.Result.{Result, ok, err, panic, ◌>>=◌, Settles}
use tracescript.Packet.{Bytes}
use tracescript.Syntax.{Program}
use tracescript.Lexer.{Spanned, tokenize}
use tracescript.Lexer.Loops.{IsLexErrorIn}
use tracescript.Lexer.Total.{IsStream, tokenize-IsStream}
use tracescript.Parser.Program.{parse_program, parse_source}
use tracescript.Parser.Total.{IsParseError}
use tracescript.Parser.Total.Program.{IsFinished, parse_program-IsFinished}

-- A lexical error at a position of the source, or an error of the parser.
abbrev pub IsSyntaxErrorIn : Bytes → TraceError → Type 0
IsSyntaxErrorIn source e = IsLexErrorIn source e ⊎ IsParseError e

module _ {ℓ} {A : Type ℓ} {P : A → Type 0} {E F : TraceError → Type 0} where
  pub widen : (m : Result A) → Settles E P m → ((e : TraceError) → E e → F e) → Settles F P m
  widen (ok a) h k = record { ends = h.ends }
  widen (err e) h k = record { ends = k e h.ends }
  widen panic h k = absurd h.ends

-- A syntax tree that the source has: all of its tokens parse to it.
pub record IsParsed (pf : Platform) (source : Bytes) (p : Program) : Type 0 where
  pub tokens : List Spanned
  pub rest : List Spanned
  pub lexed : tokenize pf source ≡ ok tokens
  pub is_stream : IsStream source 0 tokens
  pub parsed : parse_program pf tokens ≡ ok (p, rest)
  pub finished : IsFinished (p, rest)

-- Any source is parsed to its end, or rejected with a syntax error: the lexer and the parser end,
-- and neither panics.
pub parse_source-IsParsed :
    (pf : Platform) (source : Bytes)
    → Settles (IsSyntaxErrorIn source) (IsParsed pf source) (parse_source pf source)
unfolding parse_source
parse_source-IsParsed pf source = go (tokenize pf source) refl (tokenize-IsStream source pf)
  where
    parsed :
        (ts : List Spanned) (m : Result (Program × List Spanned))
        → tokenize pf source ≡ ok ts
        → IsStream source 0 ts
        → parse_program pf ts ≡ m
        → Settles IsParseError IsFinished m
        → Settles (IsSyntaxErrorIn source) (IsParsed pf source) (m >>= λ r. ok r.0)
    parsed ts (ok (p, rest)) l s e h = record {
      ends = record {
        tokens = ts;
        rest = rest;
        lexed = l;
        is_stream = s;
        parsed = e;
        finished = h.ends;
      };
    }
    parsed ts (err e) l s q h = record { ends = inr h.ends }
    parsed ts panic l s q h = absurd h.ends

    go :
        (m : Result (List Spanned))
        → tokenize pf source ≡ m
        → Settles (IsLexErrorIn source) (IsStream source 0) m
        → Settles
            (IsSyntaxErrorIn source)
            (IsParsed pf source)
            (m >>= λ ts. parse_program pf ts >>= λ r. ok r.0)
    go (ok ts) e h = parsed ts (parse_program pf ts) e h.ends refl (parse_program-IsFinished pf ts)
    go (err e) q h = record { ends = inl h.ends }
    go panic e h = absurd h.ends
