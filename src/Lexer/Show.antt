-- ===== src/Lexer/Show.antt =====
-- `Display for Token` and the discriminant of a token, of src/lexer.rs.
use tracescript.Prelude.{ℕ, ◌++◌, Text, codes, show_int}
use tracescript.Value.{Platform, show_bool}
use tracescript.Lexer.{Token}

-- `{}`; the tokens without a payload print as their derived `{:?}`.
unfoldable pub show_token : Platform → Token → Text
unfolding show_int
show_token pf (Token.integer n) = codes "Integer(" ++ (show_int n ++ codes ")")
show_token pf (Token.float n) = codes "Float(" ++ (pf.f64_show n ++ codes ")")
show_token pf (Token.str s) = codes "Str(\"" ++ (s ++ codes "\")")
show_token pf (Token.bool b) = codes "Bool(" ++ (show_bool b ++ codes ")")
show_token pf (Token.identifier s) = codes "Identifier(" ++ (s ++ codes ")")
show_token pf Token.keyword_source = codes "KeywordSource"
show_token pf Token.keyword_pcap = codes "KeywordPcap"
show_token pf Token.keyword_table = codes "KeywordTable"
show_token pf Token.keyword_on = codes "KeywordOn"
show_token pf Token.keyword_after = codes "KeywordAfter"
show_token pf Token.keyword_finish = codes "KeywordFinish"
show_token pf Token.keyword_if = codes "KeywordIf"
show_token pf Token.keyword_else = codes "KeywordElse"
show_token pf Token.keyword_for = codes "KeywordFor"
show_token pf Token.keyword_in = codes "KeywordIn"
show_token pf Token.keyword_function = codes "KeywordFunction"
show_token pf Token.keyword_return = codes "KeywordReturn"
show_token pf Token.keyword_let = codes "KeywordLet"
show_token pf Token.keyword_insert = codes "KeywordInsert"
show_token pf Token.keyword_show = codes "KeywordShow"
show_token pf Token.keyword_export = codes "KeywordExport"
show_token pf Token.keyword_alert = codes "KeywordAlert"
show_token pf Token.keyword_print = codes "KeywordPrint"
show_token pf Token.keyword_to = codes "KeywordTo"
show_token pf Token.keyword_and = codes "KeywordAnd"
show_token pf Token.keyword_or = codes "KeywordOr"
show_token pf Token.keyword_contains = codes "KeywordContains"
show_token pf Token.assign = codes "Assign"
show_token pf Token.equal = codes "Equal"
show_token pf Token.not_equal = codes "NotEqual"
show_token pf Token.less = codes "Less"
show_token pf Token.greater = codes "Greater"
show_token pf Token.less_equal = codes "LessEqual"
show_token pf Token.greater_equal = codes "GreaterEqual"
show_token pf Token.plus = codes "Plus"
show_token pf Token.minus = codes "Minus"
show_token pf Token.star = codes "Star"
show_token pf Token.slash = codes "Slash"
show_token pf Token.percent = codes "Percent"
show_token pf Token.not_ = codes "Not"
show_token pf Token.left_paren = codes "LeftParen"
show_token pf Token.right_paren = codes "RightParen"
show_token pf Token.left_brace = codes "LeftBrace"
show_token pf Token.right_brace = codes "RightBrace"
show_token pf Token.comma = codes "Comma"
show_token pf Token.colon = codes "Colon"
show_token pf Token.dot = codes "Dot"
show_token pf Token.left_bracket = codes "LeftBracket"
show_token pf Token.right_bracket = codes "RightBracket"
show_token pf Token.semicolon = codes "Semicolon"
show_token pf Token.newline = codes "Newline"
show_token pf Token.eof = codes "Eof"

-- `std::mem::discriminant`
unfoldable pub discriminant : Token → ℕ
discriminant (Token.integer _) = 0
discriminant (Token.float _) = 1
discriminant (Token.str _) = 2
discriminant (Token.bool _) = 3
discriminant (Token.identifier _) = 4
discriminant Token.keyword_source = 5
discriminant Token.keyword_pcap = 6
discriminant Token.keyword_table = 7
discriminant Token.keyword_on = 8
discriminant Token.keyword_after = 9
discriminant Token.keyword_finish = 10
discriminant Token.keyword_if = 11
discriminant Token.keyword_else = 12
discriminant Token.keyword_for = 13
discriminant Token.keyword_in = 14
discriminant Token.keyword_function = 15
discriminant Token.keyword_return = 16
discriminant Token.keyword_let = 17
discriminant Token.keyword_insert = 18
discriminant Token.keyword_show = 19
discriminant Token.keyword_export = 20
discriminant Token.keyword_alert = 21
discriminant Token.keyword_print = 22
discriminant Token.keyword_to = 23
discriminant Token.keyword_and = 24
discriminant Token.keyword_or = 25
discriminant Token.keyword_contains = 26
discriminant Token.assign = 27
discriminant Token.equal = 28
discriminant Token.not_equal = 29
discriminant Token.less = 30
discriminant Token.greater = 31
discriminant Token.less_equal = 32
discriminant Token.greater_equal = 33
discriminant Token.plus = 34
discriminant Token.minus = 35
discriminant Token.star = 36
discriminant Token.slash = 37
discriminant Token.percent = 38
discriminant Token.not_ = 39
discriminant Token.left_paren = 40
discriminant Token.right_paren = 41
discriminant Token.left_brace = 42
discriminant Token.right_brace = 43
discriminant Token.comma = 44
discriminant Token.colon = 45
discriminant Token.dot = 46
discriminant Token.left_bracket = 47
discriminant Token.right_bracket = 48
discriminant Token.semicolon = 49
discriminant Token.newline = 50
discriminant Token.eof = 51
