-- ===== src/Filter/Tokens.antt =====
-- `tokenize` and `IpAddr::parse` of src/filter.rs. The source looks at bytes; those of a character that
-- is not ASCII are passed over, as the character is here.
use tracescript.Prelude.{
  ℕ, zero, suc, ◌+◌, ◌-◌, ◌*◌, ◌^◌, Bool, false, ◌&&◌, ◌||◌, List, [], ◌∷◌, Option, none, some,
  Text, length, ltb, leb, ◌==◌, if◌then◌else◌,
}
use tracescript.Value.{invalid_ip, invalid_octet, octet_out_of_range}
use tracescript.Result.{Result, ok, fail, ok_or, ◌>>=◌}
use tracescript.Filter.{IpAddr}

pub data TokenKind : Type 0 where
  ident number lparen rparen op : TokenKind

pub record Token : Type 0 where
  pub text : Text
  pub kind : TokenKind

-- `is_ascii_whitespace`, `is_ascii_digit` and `is_ascii_alphabetic`
abbrev pub is_blank : ℕ → Bool
is_blank c = c == 32 || c == 9 || c == 10 || c == 12 || c == 13

abbrev pub is_digit : ℕ → Bool
is_digit c = leb b'0' c && leb c b'9'

abbrev pub is_letter : ℕ → Bool
is_letter c = leb b'a' c && leb c b'z' || leb b'A' c && leb c b'Z'

abbrev pub is_number_char : ℕ → Bool
is_number_char c = is_digit c || c == b'.'

abbrev pub is_ident_char : ℕ → Bool
is_ident_char c = is_letter c || is_digit c || c == b'_' || c == b'.'

abbrev is_operator : ℕ → Bool
is_operator c = c == b'=' || c == b'!' || c == b'<' || c == b'>'

-- the longest beginning of characters that pass, and the rest
unfoldable pub span : (ℕ → Bool) → Text → Text × Text
span p [] = ([], [])
span p (c ∷ s) = let (w, r) = span p s in if p c then (c ∷ w, r) else ([], c ∷ s)

-- The loop of `tokenize`. Each round takes a character at least; the fuel is the length of the text.
unfoldable pub tokens : ℕ → Text → List Token
unfolding span
tokens zero s = []
tokens (suc fuel) [] = []
tokens (suc fuel) (c ∷ s) =
    let (digits, past_digits) = span is_number_char s in
    let (letters, past_letters) = span is_ident_char s in
    let later = tokens fuel s in
    let one : TokenKind → List Token = λ k. record { text = c ∷ []; kind = k } ∷ later in
    let past_eq : List Token = elim s [ [] ↦ later | d ∷ s' ↦ tokens fuel s' ] in
    let has_eq : Bool = elim s [ [] ↦ false | d ∷ s' ↦ d == b'=' ] in
    if is_blank c
    then later
    else if c == b'('
    then one TokenKind.lparen
    else if c == b')'
    then one TokenKind.rparen
    else if is_operator c
    then (if has_eq
        then record { text = c ∷ b'=' ∷ []; kind = TokenKind.op } ∷ past_eq
        else one TokenKind.op)
    else if is_digit c
    then record { text = c ∷ digits; kind = TokenKind.number } ∷ tokens fuel past_digits
    else if is_letter c || c == b'_'
    then record { text = c ∷ letters; kind = TokenKind.ident } ∷ tokens fuel past_letters
    else later

unfoldable pub tokenize : Text → List Token
unfolding tokens
tokenize s = tokens (length s) s

-- `s.parse::<u32>()` and its like, for numbers below a bound: digits behind an optional plus sign
unfoldable pub read_digits : Text → ℕ → Option ℕ
read_digits [] n = some n
read_digits (c ∷ s) n =
    let rest = read_digits s (n * 10 + (c - b'0')) in if is_digit c then rest else none

abbrev some_digits : Text → Option ℕ
some_digits [] = none
some_digits (c ∷ s) = read_digits (c ∷ s) 0

unfoldable pub parse_uint : ℕ → Text → Option ℕ
unfolding read_digits
parse_uint bound [] = none
parse_uint bound (c ∷ s) = elim (if c == b'+' then some_digits s else some_digits (c ∷ s)) [
  | none ↦ none
  | some n ↦ if ltb n bound then some n else none
]

-- `s.split('.')`
unfoldable pub split_dots : Text → List Text
split_dots [] = [] ∷ []
split_dots (c ∷ s) =
    let later = split_dots s in
    if c == b'.' then [] ∷ later else elim later [ [] ↦ (c ∷ []) ∷ [] | p ∷ ps ↦ (c ∷ p) ∷ ps ]

-- one round of the loop of `IpAddr::parse`
unfoldable pub parse_octet : Text → Result ℕ
unfolding parse_uint
parse_octet p = do
  v ← ok_or (parse_uint (2 ^ 32) p) (invalid_octet p)
  if ltb 255 v then fail (octet_out_of_range v) else ok v

unfoldable pub parse_octets : List Text → Result (List ℕ)
unfolding parse_octet
parse_octets [] = ok []
parse_octets (p ∷ ps) = do v ← parse_octet p; vs ← parse_octets ps; ok (v ∷ vs)

-- `IpAddr::parse`
unfoldable pub parse_address : Text → Result IpAddr
unfolding split_dots parse_octets
parse_address s =
    if length (split_dots s) == 4
    then (parse_octets (split_dots s) >>= λ b. ok (IpAddr.v4 b))
    else fail (invalid_ip s)
