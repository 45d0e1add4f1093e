-- ===== src/Filter/Numbers.antt =====
-- The range of a number that `str::parse` reads.
use tracescript.Prelude.{ℕ, ◌≡◌, ◌<◌, [], ◌∷◌, Option, none, some, Text, ltb, if◌then◌else◌, arith}
use tracescript.Filter.Tokens.{parse_uint}

below :
    (bound : ℕ) (o : Option ℕ) {n : ℕ}
    → (elim o [ none ↦ none | some m ↦ if ltb m bound then some m else none ]) ≡ some n
    → n < bound
below bound none h = absurd (let c : none ≡ some _ = h in cc)
below bound (some m) h = ground arith

pub parse_uint-lt : (bound : ℕ) (s : Text) {n : ℕ} → parse_uint bound s ≡ some n → n < bound
unfolding parse_uint
parse_uint-lt bound [] {n} h = absurd (let c : none ≡ some n = h in cc)
parse_uint-lt bound (c ∷ s) h = below bound _ h
