-- ===== src/Tests/Lexer.antt =====
-- The tests of src/lexer.rs.
use tracescript.Prelude.{◌≡◌, refl, List, [], ◌∷◌, codes, pos, Text, map}
use tracescript.Result.{Result, ok, ◌>>=◌, Settles}
use tracescript.Lexer.Loops.{IsLexErrorIn}
use tracescript.Lexer.Total.{IsStream, tokenize-IsStream}
use tracescript.Lexer.{Token, tokenize}
use tracescript.Tests.Fixtures.{test_platform}

abbrev lexed : Text → Result (List Token)
lexed s = tokenize test_platform s >>= λ ts. ok (map (λ t. t.token) ts)

operators :
    lexed (codes "x <= 42 # less\n!= \"a\\n\" on")
    ≡ ok (
        Token.identifier (codes "x")
        ∷ Token.less_equal
        ∷ Token.integer (pos 42)
        ∷ Token.not_equal
        ∷ Token.str (b'a' ∷ b'\n' ∷ [])
        ∷ Token.keyword_on
        ∷ Token.eof
        ∷ [])
unfolding tokenize
operators = refl

tokenize-IsStream_example :
    Settles
      (IsLexErrorIn (codes "x != \"a\""))
      (IsStream (codes "x != \"a\"") 0)
      (tokenize test_platform (codes "x != \"a\""))
tokenize-IsStream_example = tokenize-IsStream (codes "x != \"a\"") test_platform
