-- ===== src/Filter/Total/Levels.antt =====
-- The levels of the parser of src/filter.rs, with the fuel that each needs, and the whole parser.
use tracescript.Prelude.{
  ℕ, zero, suc, ◌≤◌, ◌+◌, ◌*◌, ◌-◌, Bool, [], ◌∷◌, Text, codes, text_eq, length, if◌then◌else◌,
  arith,
}
use tracescript.Value.{Platform, unexpected_end, unexpected_token}
use tracescript.Result.{ok, fail, ◌>>=◌, Settles, bind-Settles, if-Settles}
use tracescript.Filter.{Expr, Filter}
use tracescript.Filter.Tokens.{tokenize}
use tracescript.Filter.Parser.{
  Tokens, skip_ws, eat_keyword, parse_predicate, close, parse_or, or_loop, parse_and, and_loop,
  parse_not, parse_atom, fuel_for, parse,
}
use tracescript.Filter.Total.{
  IsFailure, Returns, Leaves, within, length-skip_ws, length-eat_keyword, parse_predicate-Leaves,
  close-Leaves,
}

module _ (ws : ℕ → Bool) where
  atom_at-Leaves :
      (fuel : ℕ)
      → ((ts : Tokens) → 6 * length ts + 4 ≤ fuel → Leaves (length ts) (parse_or ws fuel ts))
      → (us : Tokens) → 6 * length us ≤ fuel
      → Leaves {A = Expr} (length us) (elim us [
        | [] ↦ fail unexpected_end
        | t ∷ rest ↦
            if text_eq t.text (codes "(")
            then (parse_or ws fuel rest >>= λ (e, rest'). close ws e rest')
            else parse_predicate ws t.text rest
      ])
  atom_at-Leaves fuel g [] k = record { ends = tt }
  atom_at-Leaves fuel g (t ∷ rest) k =
      if-Settles (text_eq t.text (codes "(")) _ _
        (λ h.
          bind-Settles (parse_or ws fuel rest) _ (g rest (omega arith))
            (λ (e, rest') u. within _ (close-Leaves ws e rest') (omega arith)))
        (λ h. within _ (parse_predicate-Leaves ws t.text rest) (omega arith))

  mutual
    unfolding parse_or

    or-Leaves :
        (fuel : ℕ) (ts : Tokens)
        → 6 * length ts + 4 ≤ fuel
        → Leaves (length ts) (parse_or ws fuel ts)
    or-Leaves zero ts k = absurd (omega arith)
    or-Leaves (suc fuel) ts k =
        bind-Settles (parse_and ws fuel ts) _ (and-Leaves fuel ts (omega arith))
          (λ (l, rest) u. within _ (or_loop-Leaves fuel l rest (omega arith)) (omega arith))

    or_loop-Leaves :
        (fuel : ℕ) (left : Expr) (ts : Tokens)
        → 6 * length ts + 1 ≤ fuel
        → Leaves (suc (length ts)) (or_loop ws fuel left ts)
    or_loop-Leaves zero left ts k = absurd (omega arith)
    or_loop-Leaves (suc fuel) left ts k =
        let rest : Tokens = (eat_keyword ws (codes "or") ts).1 in
        let (le, lt) = length-eat_keyword ws (codes "or") ts in
        if-Settles ((eat_keyword ws (codes "or") ts).0) _ (ok (left, rest))
          (λ e.
            let less = lt e in
            bind-Settles (parse_and ws fuel rest) _ (and-Leaves fuel rest (omega arith))
              (λ (r, rest') u.
                within _ (or_loop-Leaves fuel (Expr.or_ left r) rest' (omega arith)) (omega arith)))
          (λ e. record { ends = omega arith })

    and-Leaves :
        (fuel : ℕ) (ts : Tokens)
        → 6 * length ts + 3 ≤ fuel
        → Leaves (length ts) (parse_and ws fuel ts)
    and-Leaves zero ts k = absurd (omega arith)
    and-Leaves (suc fuel) ts k =
        bind-Settles (parse_not ws fuel ts) _ (not-Leaves fuel ts (omega arith))
          (λ (l, rest) u. within _ (and_loop-Leaves fuel l rest (omega arith)) (omega arith))

    and_loop-Leaves :
        (fuel : ℕ) (left : Expr) (ts : Tokens)
        → 6 * length ts + 1 ≤ fuel
        → Leaves (suc (length ts)) (and_loop ws fuel left ts)
    and_loop-Leaves zero left ts k = absurd (omega arith)
    and_loop-Leaves (suc fuel) left ts k =
        let rest : Tokens = (eat_keyword ws (codes "and") ts).1 in
        let (le, lt) = length-eat_keyword ws (codes "and") ts in
        if-Settles ((eat_keyword ws (codes "and") ts).0) _ (ok (left, rest))
          (λ e.
            let less = lt e in
            bind-Settles (parse_not ws fuel rest) _ (not-Leaves fuel rest (omega arith))
              (λ (r, rest') u.
                within _ (and_loop-Leaves fuel (Expr.and_ left r) rest' (omega arith))
                  (omega arith)))
          (λ e. record { ends = omega arith })

    not-Leaves :
        (fuel : ℕ) (ts : Tokens)
        → 6 * length ts + 2 ≤ fuel
        → Leaves (length ts) (parse_not ws fuel ts)
    not-Leaves zero ts k = absurd (omega arith)
    not-Leaves (suc fuel) ts k =
        let rest : Tokens = (eat_keyword ws (codes "not") ts).1 in
        let (le, lt) = length-eat_keyword ws (codes "not") ts in
        if-Settles ((eat_keyword ws (codes "not") ts).0) _ _
          (λ e.
            let less = lt e in
            bind-Settles (parse_not ws fuel rest) _ (not-Leaves fuel rest (omega arith))
              (λ (i, rest') u. record { ends = omega arith }))
          (λ e. within _ (atom-Leaves fuel rest (omega arith)) le)

    atom-Leaves :
        (fuel : ℕ) (ts : Tokens)
        → 6 * length ts + 1 ≤ fuel
        → Leaves (length ts) (parse_atom ws fuel ts)
    atom-Leaves zero ts k = absurd (omega arith)
    atom-Leaves (suc fuel) ts k =
        within _
          (atom_at-Leaves fuel (λ us. or-Leaves fuel us) (skip_ws ws ts)
            (let j = length-skip_ws ws ts in omega arith))
          (length-skip_ws ws ts)

-- Parsing a filter ends on any text: with a filter, or with a runtime error that has no position. The
-- loops and the nested calls of the parser have fuel enough, six units for each token and for the
-- end, since each round and each call in parentheses leaves fewer tokens.
pub parse-Settles : (pf : Platform) (src : Text) → Settles IsFailure (λ f. Unit {0}) (parse pf src)
unfolding parse
parse-Settles pf src =
    let ts : Tokens = tokenize src in
    bind-Settles (parse_or pf.is_whitespace (fuel_for ts) ts) _
      (or-Leaves pf.is_whitespace (fuel_for ts) ts (omega arith))
      (λ (e, rest) u. rejected (skip_ws pf.is_whitespace rest) (record { root = e }))
  where
    rejected :
        (us : Tokens) (f : Filter)
        → Returns {A = Filter} (elim us [
          | [] ↦ ok f
          | t ∷ rest' ↦ fail (unexpected_token (length (tokenize src) - suc (length rest')))
        ])
    rejected [] f = record { ends = tt }
    rejected (t ∷ rest') f = record { ends = tt }
