-- ===== src/Lexer/Places.antt =====
-- Where a lexer of src/lexer.rs stands in its source, and what the loops over bytes do to that.
use tracescript.Prelude.{
  ℕ, zero, suc, ◌≡◌, refl, sym, ap, ◌+◌, ◌≤◌, ◌<◌, [], ◌∷◌, ◌++◌, none, some, length, get_elem?,
  take, ◌==◌, if◌then◌else◌, arith,
}
use mathlib.Core.List.{reverse, reverse-append}
use tracescript.Error.{SourcePos}
use tracescript.Packet.{Bytes}
use tracescript.Lexer.{Lexer, peek, step, advance, pos_of, fuel_for, new}

-- The number of newlines in a text, and of the bytes in front of its first newline.
unfoldable pub newlines : Bytes → ℕ
newlines [] = 0
newlines (c ∷ s) = if c == b'\n' then suc (newlines s) else newlines s

unfoldable pub first_line : Bytes → ℕ
first_line [] = 0
first_line (c ∷ s) = if c == b'\n' then 0 else suc (first_line s)

-- The line and the column, from 1, of the byte behind a beginning of the source.
abbrev line_after : Bytes → ℕ
line_after s = suc (newlines s)

abbrev column_after : Bytes → ℕ
column_after s = suc (first_line (reverse s))

-- A position is that of a byte of the source, or that of its end.
pub record IsPositionIn (source : Bytes) (p : SourcePos) : Type 0 where
  pub inside : p.offset ≤ length source
  pub line_ok : p.line ≡ line_after (take p.offset source)
  pub col_ok : p.col ≡ column_after (take p.offset source)

-- `l` reads `source` and stands at or behind the offset `n`.
pub record IsLexerOf (source : Bytes) (n : ℕ) (l : Lexer) : Type 0 where
  pub same : l.source ≡ source
  pub later : n ≤ l.offset
  pub inside : l.offset ≤ length source
  pub line_ok : l.line ≡ line_after (take l.offset source)
  pub col_ok : l.col ≡ column_after (take l.offset source)

newlines-append :
    (s : Bytes) (c : ℕ)
    → newlines (s ++ c ∷ []) ≡ (if c == b'\n' then suc (newlines s) else newlines s)
unfolding newlines
newlines-append [] c = refl
newlines-append (d ∷ s) c = ground (arith, newlines-append s c)

take-suc :
    (s : Bytes) (n : ℕ) (c : ℕ) → get_elem? s n ≡ some c → take (suc n) s ≡ take n s ++ c ∷ []
take-suc [] n c h = cc
take-suc (d ∷ s) zero c h = cc
take-suc (d ∷ s) (suc n) c h = ap (◌∷◌ d) (take-suc s n c h)

line_after-suc :
    (s : Bytes) (n c : ℕ)
    → get_elem? s n ≡ some c
    → line_after (take (suc n) s)
      ≡ (if c == b'\n' then line_after (take n s) + 1 else line_after (take n s))
line_after-suc s n c h = rw (take-suc s n c h) (rw (newlines-append (take n s) c) (ground arith))

column_after-suc :
    (s : Bytes) (n c : ℕ)
    → get_elem? s n ≡ some c
    → column_after (take (suc n) s) ≡ (if c == b'\n' then 1 else column_after (take n s) + 1)
unfolding first_line
column_after-suc s n c h =
    rw (take-suc s n c h) (rw (reverse-append (take n s) (c ∷ [])) (ground arith))

get_elem?-length : (s : Bytes) (n c : ℕ) → get_elem? s n ≡ some c → n < length s
get_elem?-length [] n c h = cc
get_elem?-length (d ∷ s) zero c h = omega arith
get_elem?-length (d ∷ s) (suc n) c h = omega (arith, get_elem?-length s n c h)

-- The step over a byte of the source.
step-IsLexerOf :
    (source : Bytes) (n : ℕ) (l : Lexer) (c : ℕ)
    → IsLexerOf source n l
    → peek l ≡ some c
    → IsLexerOf source (suc n) (step c l)
unfolding step
step-IsLexerOf source n l c h p =
    let q : get_elem? source l.offset ≡ some c = rw (sym h.same) p in
    let k = get_elem?-length source l.offset c q in
    let one : l.offset + 1 ≡ suc l.offset = omega arith in
    let here = h.later in
    let line = h.line_ok in
    let col = h.col_ok in
    record {
      same = h.same;
      later = omega arith;
      inside = omega arith;
      line_ok = rw one (rw (line_after-suc source l.offset c q) (ground (arith, line)));
      col_ok = rw one (rw (column_after-suc source l.offset c q) (ground (arith, col)));
    }

get_elem?-none : (s : Bytes) (n : ℕ) → get_elem? s n ≡ none → length s ≤ n
get_elem?-none [] n h = omega arith
get_elem?-none (d ∷ s) zero h = absurd (let e : some d ≡ none = h in cc)
get_elem?-none (d ∷ s) (suc n) h = omega (arith, get_elem?-none s n h)

pub new-IsLexerOf : (source : Bytes) → IsLexerOf source 0 (new source)
unfolding new newlines first_line
new-IsLexerOf source = record {
  same = refl;
  later = omega arith;
  inside = omega arith;
  line_ok = refl;
  col_ok = refl;
}

module _ {source : Bytes} {n : ℕ} {l : Lexer} (h : IsLexerOf source n l) where
  pub weaken : (m : ℕ) → m ≤ n → IsLexerOf source m l
  weaken m k =
      let later = h.later in
      record {
        same = h.same;
        later = omega arith;
        inside = h.inside;
        line_ok = h.line_ok;
        col_ok = h.col_ok;
      }

  pub rebase : IsLexerOf source l.offset l
  rebase = record {
    same = h.same;
    later = omega arith;
    inside = h.inside;
    line_ok = h.line_ok;
    col_ok = h.col_ok;
  }

  pub pos_of-IsPositionIn : IsPositionIn source (pos_of l)
  pos_of-IsPositionIn = record { inside = h.inside; line_ok = h.line_ok; col_ok = h.col_ok }

  pub at_end : peek l ≡ none → l.offset ≡ length source
  at_end p =
      let inside = h.inside in
      let past : length source ≤ l.offset = get_elem?-none source l.offset (rw (sym h.same) p) in
      omega arith

  -- over a byte that `peek` sees
  pub advance-IsLexerOf : {c : ℕ} → peek l ≡ some c → IsLexerOf source (suc n) (advance l).1
  unfolding advance
  advance-IsLexerOf {c} p = rw (p, advance) (step-IsLexerOf source n l c h p)

module _ {source : Bytes} {n : ℕ} {l : Lexer} {c : ℕ} where
  pub skip_one : IsLexerOf source n l → peek l ≡ some c → IsLexerOf source n (advance l).1
  skip_one h p = weaken (advance-IsLexerOf h p) n (omega arith)

  -- one unit of fuel less is enough behind it
  pub spend :
      (fuel : ℕ)
      → IsLexerOf source n l
      → peek l ≡ some c
      → length source < l.offset + suc fuel
      → length source < (advance l).1.offset + fuel
  spend fuel h p k = let later = (advance-IsLexerOf (rebase h) p).later in omega arith

  pub spend_two :
      {d : ℕ} (fuel : ℕ)
      → IsLexerOf source n l
      → peek l ≡ some c
      → peek (advance l).1 ≡ some d
      → length source < l.offset + suc fuel
      → length source < (advance (advance l).1).1.offset + fuel
  spend_two fuel h p q k =
      let later = (advance-IsLexerOf (advance-IsLexerOf (rebase h) p) q).later in omega arith

-- there is fuel enough for a loop that begins anywhere
pub fuel_for-enough :
    {source : Bytes} {n : ℕ} {l : Lexer}
    → IsLexerOf source n l
    → length source < l.offset + fuel_for l
fuel_for-enough h = rw h.same (omega arith)
