-- ===== src/Filter/Parser.antt =====
-- The parser of src/filter.rs. Its state is the list of the tokens that are left. A call that nests, and
-- a round of a loop, take one unit of fuel; a parser without fuel is counted as a panic.
use tracescript.Prelude.{
  ℕ, zero, suc, ◌+◌, ◌-◌, ◌*◌, ◌^◌, Bool, true, false, ◌&&◌, List, [], ◌∷◌, Option, none, some,
  Text, codes, text_eq, length, leb, if◌then◌else◌, map,
}
use tracescript.Value.{
  Platform, unexpected_token, expected_close, unexpected_end, unknown_filter_token, invalid_u16,
  invalid_u32, expected_ip, expected_operator, bad_operator, expected_number, bad_number,
}
use tracescript.Result.{Result, ok, panic, fail, ok_or, ◌>>=◌}
use tracescript.Filter.{IpAddr, CompareOp, Predicate, Expr, Filter}
use tracescript.Filter.Tokens.{Token, TokenKind, tokenize, parse_uint, parse_address}

abbrev pub Tokens : Type 0
Tokens = List Token

abbrev lower : ℕ → ℕ
lower c = if leb b'A' c && leb c b'Z' then c + 32 else c

-- `eq_ignore_ascii_case`
abbrev pub same_word : Text → Text → Bool
same_word a b = text_eq (map lower a) (map lower b)

abbrev is_ident : TokenKind → Bool
is_ident TokenKind.ident = true
is_ident _ = false

abbrev pub is_number : TokenKind → Bool
is_number TokenKind.number = true
is_number _ = false

unfoldable pub compare_op : Text → Option CompareOp
unfolding text_eq
compare_op s =
    if text_eq s (codes "==")
    then some CompareOp.eq
    else if text_eq s (codes "!=")
    then some CompareOp.ne
    else if text_eq s (codes "<")
    then some CompareOp.lt
    else if text_eq s (codes ">")
    then some CompareOp.gt
    else if text_eq s (codes "<=")
    then some CompareOp.lt_eq
    else if text_eq s (codes ">=")
    then some CompareOp.gt_eq
    else none

module _ (ws : ℕ → Bool) where
  all_blank : Text → Bool
  all_blank [] = true
  all_blank (c ∷ s) = ws c && all_blank s

  unfoldable pub skip_ws : Tokens → Tokens
  unfolding all_blank
  skip_ws [] = []
  skip_ws (t ∷ ts) = if all_blank t.text then skip_ws ts else t ∷ ts

  -- whether the keyword is there, and the tokens behind it
  unfoldable pub eat_keyword : Text → Tokens → Bool × Tokens
  unfolding skip_ws text_eq
  eat_keyword kw ts = elim (skip_ws ts) [
    | [] ↦ (false, [])
    | t ∷ rest ↦ if same_word t.text kw && is_ident t.kind then (true, rest) else (false, t ∷ rest)
  ]

  unfoldable pub parse_number_token : Tokens → Result (Text × Tokens)
  unfolding skip_ws
  parse_number_token ts = elim (skip_ws ts) [
    | [] ↦ fail expected_number
    | t ∷ rest ↦ if is_number t.kind then ok (t.text, rest) else fail (bad_number t.text)
  ]

  unfoldable pub parse_u16 : Tokens → Result (ℕ × Tokens)
  unfolding parse_number_token parse_uint
  parse_u16 ts = do
    (s, rest) ← parse_number_token ts
    n ← ok_or (parse_uint (2 ^ 16) s) (invalid_u16 s)
    ok (n, rest)

  unfoldable pub parse_u32 : Tokens → Result (ℕ × Tokens)
  unfolding parse_number_token parse_uint
  parse_u32 ts = do
    (s, rest) ← parse_number_token ts
    n ← ok_or (parse_uint (2 ^ 32) s) (invalid_u32 s)
    ok (n, rest)

  unfoldable pub parse_ip : Tokens → Result (IpAddr × Tokens)
  unfolding skip_ws parse_address
  parse_ip ts = elim (skip_ws ts) [
    | [] ↦ fail expected_ip
    | t ∷ rest ↦ (parse_address t.text >>= λ a. ok (a, rest))
  ]

  unfoldable pub parse_cmp_op : Tokens → Result (CompareOp × Tokens)
  unfolding skip_ws compare_op
  parse_cmp_op ts = elim (skip_ws ts) [
    | [] ↦ fail expected_operator
    | t ∷ rest ↦ (ok_or (compare_op t.text) (bad_operator t.text) >>= λ op. ok (op, rest))
  ]

  -- `tcp` or `udp`, with a port or without
  unfoldable pub parse_protocol : Predicate → Tokens → Result (Expr × Tokens)
  unfolding eat_keyword parse_u16
  parse_protocol p ts =
      let (eaten, rest) = eat_keyword (codes "port") ts in
      if eaten
      then (parse_u16 rest >>= λ (n, rest').
          ok (Expr.and_ (Expr.atom p) (Expr.atom (Predicate.port n)), rest'))
      else ok (Expr.atom p, rest)

  abbrev with_ip : (IpAddr → Predicate) → Tokens → Result (Expr × Tokens)
  with_ip p ts = parse_ip ts >>= λ (a, rest). ok (Expr.atom (p a), rest)

  -- the keywords of `parse_atom`, with the tokens behind the keyword
  unfoldable pub parse_predicate : Text → Tokens → Result (Expr × Tokens)
  unfolding parse_protocol parse_u16 parse_u32 parse_ip parse_cmp_op text_eq
  parse_predicate kw ts =
      if same_word kw (codes "tcp")
      then parse_protocol Predicate.tcp ts
      else if same_word kw (codes "udp")
      then parse_protocol Predicate.udp ts
      else if same_word kw (codes "icmp")
      then ok (Expr.atom Predicate.icmp, ts)
      else if same_word kw (codes "port")
      then (parse_u16 ts >>= λ (n, rest). ok (Expr.atom (Predicate.port n), rest))
      else if same_word kw (codes "src")
      then with_ip Predicate.src ts
      else if same_word kw (codes "dst")
      then with_ip Predicate.dst ts
      else if same_word kw (codes "host")
      then with_ip Predicate.host ts
      else if same_word kw (codes "ip")
      then with_ip Predicate.ip ts
      else if same_word kw (codes "len")
      then (parse_cmp_op ts >>= λ (op, rest).
          parse_u32 rest >>= λ (n, rest'). ok (Expr.atom (Predicate.len op n), rest'))
      else fail (unknown_filter_token kw)

  -- `)` behind an expression in parentheses
  unfoldable pub close : Expr → Tokens → Result (Expr × Tokens)
  unfolding skip_ws text_eq
  close e ts = elim (skip_ws ts) [
    | [] ↦ fail expected_close
    | t ∷ rest ↦ if text_eq t.text (codes ")") then ok (e, rest) else fail expected_close
  ]

  unfoldable mutual
    unfolding eat_keyword parse_predicate close skip_ws text_eq

    pub parse_or : ℕ → Tokens → Result (Expr × Tokens)
    parse_or zero ts = panic
    parse_or (suc fuel) ts = parse_and fuel ts >>= λ (left, rest). or_loop fuel left rest

    pub or_loop : ℕ → Expr → Tokens → Result (Expr × Tokens)
    or_loop zero left ts = panic
    or_loop (suc fuel) left ts =
        let (eaten, rest) = eat_keyword (codes "or") ts in
        if eaten
        then (parse_and fuel rest >>= λ (right, rest'). or_loop fuel (Expr.or_ left right) rest')
        else ok (left, rest)

    pub parse_and : ℕ → Tokens → Result (Expr × Tokens)
    parse_and zero ts = panic
    parse_and (suc fuel) ts = parse_not fuel ts >>= λ (left, rest). and_loop fuel left rest

    pub and_loop : ℕ → Expr → Tokens → Result (Expr × Tokens)
    and_loop zero left ts = panic
    and_loop (suc fuel) left ts =
        let (eaten, rest) = eat_keyword (codes "and") ts in
        if eaten
        then (parse_not fuel rest >>= λ (right, rest'). and_loop fuel (Expr.and_ left right) rest')
        else ok (left, rest)

    pub parse_not : ℕ → Tokens → Result (Expr × Tokens)
    parse_not zero ts = panic
    parse_not (suc fuel) ts =
        let (eaten, rest) = eat_keyword (codes "not") ts in
        if eaten
        then (parse_not fuel rest >>= λ (inner, rest'). ok (Expr.not_ inner, rest'))
        else parse_atom fuel rest

    pub parse_atom : ℕ → Tokens → Result (Expr × Tokens)
    parse_atom zero ts = panic
    parse_atom (suc fuel) ts = elim (skip_ws ts) [
      | [] ↦ fail unexpected_end
      | t ∷ rest ↦
          if text_eq t.text (codes "(")
          then (parse_or fuel rest >>= λ (e, rest'). close e rest')
          else parse_predicate t.text rest
    ]

-- fuel for a list of tokens: six calls for each of them, and for the end
abbrev pub fuel_for : Tokens → ℕ
fuel_for ts = 6 * length ts + 6

-- `Filter::parse`
unfoldable pub parse : Platform → Text → Result Filter
unfolding tokenize parse_or skip_ws
parse pf src =
    let ts : Tokens = tokenize src in
    parse_or pf.is_whitespace (fuel_for ts) ts >>= λ (root, rest).
    elim (skip_ws pf.is_whitespace rest) [
      | [] ↦ ok (record { root = root })
      | t ∷ rest' ↦ fail (unexpected_token (length ts - suc (length rest')))
    ]
