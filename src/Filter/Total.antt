-- ===== src/Filter/Total.antt =====
-- The parser of src/filter.rs on any text: what the functions on single tokens and on predicates leave
-- of the tokens.
pub mod Levels
use tracescript.Prelude.{
  ℕ, zero, suc, ◌≡◌, refl, ◌<◌, ◌≤◌, ◌+◌, ◌*◌, ◌-◌, ◌^◌, Bool, true, false, List, [], ◌∷◌, Option,
  none, some, Text, codes, text_eq, length, ltb, ◌==◌, if◌then◌else◌, arith,
}
use tracescript.Value.{
  Platform, TraceError, Message, runtime, octet_out_of_range, invalid_ip, unknown_filter_token,
  expected_close, unexpected_end, unexpected_token, bad_number,
}
use tracescript.Result.{
  Result, ok, err, panic, fail, ok_or, ◌>>=◌, Settles, bind-Settles, weaken-Settles, if-Settles,
}
use tracescript.Filter.{IpAddr, Predicate, Expr, Filter}
use tracescript.Filter.Tokens.{
  Token, parse_uint, split_dots, parse_octet, parse_octets, parse_address, tokenize,
}
use tracescript.Filter.Parser.{
  Tokens, same_word, compare_op, skip_ws, is_number, eat_keyword, parse_number_token, parse_u16,
  parse_u32, parse_ip, parse_cmp_op, parse_protocol, parse_predicate, close, parse_or, or_loop,
  parse_and, and_loop, parse_not, parse_atom, fuel_for, parse,
}

-- an error of the filter: a runtime error without a position
abbrev pub IsFailure : TraceError → Type 0
IsFailure (runtime m none) = Unit
IsFailure _ = ⊥

-- The call ends, with an error or with a value.
abbrev pub Returns : {A : Type 0} → Result A → Type 0
Returns = Settles IsFailure (λ a. Unit {0})

-- Fewer than `n` tokens are left.
abbrev pub Under : {A : Type 0} → ℕ → A × Tokens → Type 0
Under n r = length r.1 < n

-- The call ends, with an error or with fewer than `n` tokens left.
abbrev pub Leaves : {A : Type 0} → ℕ → Result (A × Tokens) → Type 0
Leaves n = Settles IsFailure (Under n)

pub within : {A : Type 0} {m n : ℕ} (r : Result (A × Tokens)) → Leaves m r → m ≤ n → Leaves n r
within r h k = weaken-Settles r h (λ a u. omega arith)

ok_or-Returns : {A : Type 0} (o : Option A) (m : Message) → Returns (ok_or o m)
ok_or-Returns none m = record { ends = tt }
ok_or-Returns (some a) m = record { ends = tt }

-- a value, with the tokens behind it
with_rest :
    {A B : Type 0} (n : ℕ) (m : Result A) (f : A → B) (rest : Tokens)
    → Returns m
    → length rest < n
    → Leaves n (m >>= λ a. ok (f a, rest))
with_rest n m f rest h k = bind-Settles m _ h (λ a u. record { ends = k })

-- the first of some tokens
first-Leaves :
    {A : Type 0} (n : ℕ) (us : Tokens) (m : Message) (f : Token → Tokens → Result (A × Tokens))
    → length us < n
    → ((t : Token) (rest : Tokens) → suc (length rest) < n → Leaves n (f t rest))
    → Leaves {A = A} n (elim us [ [] ↦ fail m | t ∷ rest ↦ f t rest ])
first-Leaves n [] m f k h = record { ends = tt }
first-Leaves n (t ∷ rest) m f k h = h t rest k

parse_octet-Returns : (p : Text) → Returns (parse_octet p)
unfolding parse_octet
parse_octet-Returns p = bind-Settles (ok_or (parse_uint (2 ^ 32) p) _) _ (ok_or-Returns _ _) (λ v u.
    if-Settles (ltb 255 v) (fail (octet_out_of_range v)) (ok v) (λ e. record { ends = tt })
      (λ e. record { ends = tt }))

parse_octets-Returns : (ps : List Text) → Returns (parse_octets ps)
unfolding parse_octets
parse_octets-Returns [] = record { ends = tt }
parse_octets-Returns (p ∷ ps) = bind-Settles (parse_octet p) _ (parse_octet-Returns p) (λ v u.
    bind-Settles (parse_octets ps) _ (parse_octets-Returns ps) (λ vs w. record { ends = tt }))

parse_address-Returns : (s : Text) → Returns (parse_address s)
unfolding parse_address
parse_address-Returns s =
    if-Settles (length (split_dots s) == 4) _ (fail (invalid_ip s))
      (λ e.
        bind-Settles (parse_octets (split_dots s)) _ (parse_octets-Returns (split_dots s))
          (λ b u. record { ends = tt }))
      (λ e. record { ends = tt })

module _ (ws : ℕ → Bool) where
  pub length-skip_ws : (ts : Tokens) → length (skip_ws ws ts) ≤ length ts
  unfolding skip_ws
  length-skip_ws [] = omega arith
  length-skip_ws (t ∷ ts) = ground (arith, length-skip_ws ts)

  -- what `eat_keyword` leaves: never more than there was, and less where it eats
  pub length-eat_keyword :
      (kw : Text) (ts : Tokens)
      → (length (eat_keyword ws kw ts).1 ≤ length ts)
        × ((eat_keyword ws kw ts).0 ≡ true → length (eat_keyword ws kw ts).1 < length ts)
  unfolding eat_keyword
  length-eat_keyword kw ts = ground (arith, length-skip_ws ts)

  parse_number_token-Leaves : (ts : Tokens) → Leaves (suc (length ts)) (parse_number_token ws ts)
  unfolding parse_number_token
  parse_number_token-Leaves ts =
      let k = length-skip_ws ts in
      first-Leaves (suc (length ts)) (skip_ws ws ts) _ _ (omega arith) (λ t rest j.
        if-Settles (is_number t.kind) (ok (t.text, rest)) (fail (bad_number t.text))
          (λ e. record { ends = omega arith }) (λ e. record { ends = tt }))

  parse_uint-Leaves :
      (bound : ℕ) (m : Text → Message) (ts : Tokens)
      → Leaves (suc (length ts)) (
          parse_number_token ws ts >>= λ (s, rest).
          ok_or (parse_uint bound s) (m s) >>= λ n. ok (n, rest))
  parse_uint-Leaves bound m ts =
      bind-Settles (parse_number_token ws ts) _ (parse_number_token-Leaves ts) (λ (s, rest) u.
        with_rest (suc (length ts)) (ok_or (parse_uint bound s) (m s)) (λ n. n) rest
          (ok_or-Returns _ _) u)

  parse_ip-Leaves : (ts : Tokens) → Leaves (suc (length ts)) (parse_ip ws ts)
  unfolding parse_ip
  parse_ip-Leaves ts =
      let k = length-skip_ws ts in
      first-Leaves (suc (length ts)) (skip_ws ws ts) _ _ (omega arith) (λ t rest j.
        with_rest _ (parse_address t.text) (λ a. a) rest (parse_address-Returns t.text)
          (omega arith))

  parse_cmp_op-Leaves : (ts : Tokens) → Leaves (suc (length ts)) (parse_cmp_op ws ts)
  unfolding parse_cmp_op
  parse_cmp_op-Leaves ts =
      let k = length-skip_ws ts in
      first-Leaves (suc (length ts)) (skip_ws ws ts) _ _ (omega arith) (λ t rest j.
        with_rest _ (ok_or (compare_op t.text) _) (λ o. o) rest (ok_or-Returns _ _) (omega arith))

  parse_u16-Leaves : (ts : Tokens) → Leaves (suc (length ts)) (parse_u16 ws ts)
  unfolding parse_u16
  parse_u16-Leaves ts = parse_uint-Leaves (2 ^ 16) _ ts

  parse_u32-Leaves : (ts : Tokens) → Leaves (suc (length ts)) (parse_u32 ws ts)
  unfolding parse_u32
  parse_u32-Leaves ts = parse_uint-Leaves (2 ^ 32) _ ts

  parse_protocol-Leaves :
      (p : Predicate) (ts : Tokens) → Leaves (suc (length ts)) (parse_protocol ws p ts)
  unfolding parse_protocol
  parse_protocol-Leaves p ts =
      let rest : Tokens = (eat_keyword ws (codes "port") ts).1 in
      let k = (length-eat_keyword (codes "port") ts).0 in
      if-Settles ((eat_keyword ws (codes "port") ts).0) _ (ok (Expr.atom p, rest))
        (λ e.
          bind-Settles (parse_u16 ws rest) _ (parse_u16-Leaves rest)
            (λ (n, rest') u. record { ends = omega arith }))
        (λ e. record { ends = omega arith })

  with_ip-Leaves :
      (p : IpAddr → Predicate) (ts : Tokens)
      → Leaves (suc (length ts)) (parse_ip ws ts >>= λ (a, rest). ok (Expr.atom (p a), rest))
  with_ip-Leaves p ts =
      bind-Settles (parse_ip ws ts) _ (parse_ip-Leaves ts) (λ (a, rest) u. record { ends = u })

  len-Leaves :
      (ts : Tokens)
      → Leaves (suc (length ts)) (
          parse_cmp_op ws ts >>= λ (op, rest).
          parse_u32 ws rest >>= λ (n, rest'). ok (Expr.atom (Predicate.len op n), rest'))
  len-Leaves ts = bind-Settles (parse_cmp_op ws ts) _ (parse_cmp_op-Leaves ts) (λ (op, rest) u.
      bind-Settles (parse_u32 ws rest) _ (parse_u32-Leaves rest)
        (λ (n, rest') v. record { ends = omega arith }))

  pub parse_predicate-Leaves :
      (kw : Text) (ts : Tokens) → Leaves (suc (length ts)) (parse_predicate ws kw ts)
  unfolding parse_predicate
  parse_predicate-Leaves kw ts =
      if-Settles (same_word kw (codes "tcp")) _ _ (λ e. parse_protocol-Leaves Predicate.tcp ts)
        (λ e.
          if-Settles (same_word kw (codes "udp")) _ _ (λ e. parse_protocol-Leaves Predicate.udp ts)
            (λ e.
              if-Settles (same_word kw (codes "icmp")) (ok (Expr.atom Predicate.icmp, ts)) _
                (λ e. record { ends = omega arith })
                (λ e.
                  if-Settles (same_word kw (codes "port")) _ _
                    (λ e.
                      bind-Settles (parse_u16 ws ts) _ (parse_u16-Leaves ts)
                        (λ (n, rest) u. record { ends = u }))
                    (λ e.
                      if-Settles (same_word kw (codes "src")) _ _
                        (λ e. with_ip-Leaves Predicate.src ts)
                        (λ e.
                          if-Settles (same_word kw (codes "dst")) _ _
                            (λ e. with_ip-Leaves Predicate.dst ts)
                            (λ e.
                              if-Settles (same_word kw (codes "host")) _ _
                                (λ e. with_ip-Leaves Predicate.host ts)
                                (λ e.
                                  if-Settles (same_word kw (codes "ip")) _ _
                                    (λ e. with_ip-Leaves Predicate.ip ts)
                                    (λ e.
                                      if-Settles (same_word kw (codes "len")) _
                                        (fail (unknown_filter_token kw)) (λ e. len-Leaves ts)
                                        (λ e. record { ends = tt })))))))))

  pub close-Leaves : (e : Expr) (ts : Tokens) → Leaves (suc (length ts)) (close ws e ts)
  unfolding close
  close-Leaves e ts =
      let k = length-skip_ws ts in
      first-Leaves (suc (length ts)) (skip_ws ws ts) _ _ (omega arith) (λ t rest j.
        if-Settles (text_eq t.text (codes ")")) (ok (e, rest)) (fail expected_close)
          (λ h. record { ends = omega arith }) (λ h. record { ends = tt }))
