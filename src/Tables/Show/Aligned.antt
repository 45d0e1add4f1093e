-- ===== src/Tables/Show/Aligned.antt =====
-- The lines of a shown table have one width.
use tracescript.Prelude.{
  ℕ, zero, suc, ◌≡◌, refl, ◌+◌, ◌-◌, ◌≤◌, List, [], ◌∷◌, ◌++◌, Text, length, map, drop, replicate,
  leb, arith, All, Bool-cases, inl, inr, leb→le, sym, ◌∙◌,
}
use tracescript.Value.{Platform, Row, to_string}
use tracescript.Tables.{Table, TableField}
use tracescript.Tables.Laws.{IsWellFormed}
use tracescript.Builtins.{utf8}
use tracescript.Tables.Show.{
  byte_len, pad, widen, widen_all, pad_cells, join, grid_lines, cells_of, body_lines, show_lines,
}

-- As many cells as widths, and room for each.
abbrev Fits : List ℕ → List Text → Type 0
Fits [] [] = Unit
Fits (w ∷ ws) (s ∷ ss) = (byte_len s ≤ w) × Fits ws ss
Fits _ _ = ⊥

-- As many widths, and none smaller.
abbrev Grows : List ℕ → List ℕ → Type 0
Grows [] [] = Unit
Grows (v ∷ vs) (w ∷ ws) = (v ≤ w) × Grows vs ws
Grows _ _ = ⊥

byte_len-append : (s t : Text) → byte_len (s ++ t) ≡ byte_len s + byte_len t
unfolding byte_len utf8
byte_len-append [] t = omega arith
byte_len-append (c ∷ s) t = ground (arith, byte_len-append s t)

byte_len-spaces : (n : ℕ) → byte_len (replicate n 32) ≡ n
unfolding byte_len utf8
byte_len-spaces zero = refl
byte_len-spaces (suc n) = omega (arith, byte_len-spaces n)

byte_len-space : (s : Text) → byte_len (32 ∷ s) ≡ suc (byte_len s)
unfolding byte_len utf8
byte_len-space s = refl

abbrev replicate_dash : ℕ → Text
replicate_dash n = replicate n b'-'

byte_len-dashes : (n : ℕ) → byte_len (replicate n b'-') ≡ n
unfolding byte_len utf8
byte_len-dashes zero = refl
byte_len-dashes (suc n) = omega (arith, byte_len-dashes n)

byte_len-pad : (s : Text) (w : ℕ) → byte_len s ≤ w → byte_len (pad s w) ≡ w
unfolding pad
byte_len-pad s w h = elim (Bool-cases (leb w (byte_len s))) [
  | inl e ↦ rw (e, pad) (ground (arith, leb→le w (byte_len s) e))
  | inr e ↦
      rw (e, pad)
        (rw (byte_len-append s (replicate (w - byte_len s) 32))
          (rw (byte_len-spaces (w - byte_len s)) (omega arith)))
]

Fits-widen : (ws : List ℕ) (ss : List Text) → length ws ≡ length ss → Fits (widen ws ss) ss
unfolding widen
Fits-widen [] [] h = tt
Fits-widen [] (s ∷ ss) h = absurd (omega arith)
Fits-widen (w ∷ ws) [] h = absurd (omega arith)
Fits-widen (w ∷ ws) (s ∷ ss) h = (ground arith, Fits-widen ws ss (omega arith))

Grows-refl : (ws : List ℕ) → Grows ws ws
Grows-refl [] = tt
Grows-refl (w ∷ ws) = (omega arith, Grows-refl ws)

Grows-widen : (ws : List ℕ) (ss : List Text) → Grows ws (widen ws ss)
unfolding widen
Grows-widen [] ss = tt
Grows-widen (w ∷ ws) [] = (omega arith, Grows-refl ws)
Grows-widen (w ∷ ws) (s ∷ ss) = (ground arith, Grows-widen ws ss)

Grows-trans : (us vs ws : List ℕ) → Grows us vs → Grows vs ws → Grows us ws
Grows-trans [] [] [] g h = tt
Grows-trans [] [] (w ∷ ws) g h = absurd h
Grows-trans [] (v ∷ vs) ws g h = absurd g
Grows-trans (u ∷ us) [] ws g h = absurd g
Grows-trans (u ∷ us) (v ∷ vs) [] g h = absurd h
Grows-trans (u ∷ us) (v ∷ vs) (w ∷ ws) (a, g) (b, h) = (omega arith, Grows-trans us vs ws g h)

Fits-Grows : (vs ws : List ℕ) (ss : List Text) → Grows vs ws → Fits vs ss → Fits ws ss
Fits-Grows [] [] ss g h = h
Fits-Grows [] (w ∷ ws) ss g h = absurd g
Fits-Grows (v ∷ vs) [] ss g h = absurd g
Fits-Grows (v ∷ vs) (w ∷ ws) [] g h = absurd h
Fits-Grows (v ∷ vs) (w ∷ ws) (s ∷ ss) (a, g) (b, h) = (omega arith, Fits-Grows vs ws ss g h)

length-Grows : (vs ws : List ℕ) → Grows vs ws → length vs ≡ length ws
length-Grows [] [] g = refl
length-Grows [] (w ∷ ws) g = absurd g
length-Grows (v ∷ vs) [] g = absurd g
length-Grows (v ∷ vs) (w ∷ ws) (a, g) = omega (arith, length-Grows vs ws g)

Grows-widen_all : (ws : List ℕ) (rows : List (List Text)) → Grows ws (widen_all ws rows)
unfolding widen_all
Grows-widen_all ws [] = Grows-refl ws
Grows-widen_all ws (r ∷ rows) =
    Grows-trans ws (widen ws r) (widen_all (widen ws r) rows) (Grows-widen ws r)
      (Grows-widen_all (widen ws r) rows)

Fits-widen_all :
    (ws : List ℕ) (rows : List (List Text))
    → All (λ r. length ws ≡ length r) rows
    → All (Fits (widen_all ws rows)) rows
unfolding widen_all
Fits-widen_all ws [] h = tt
Fits-widen_all ws (r ∷ rows) (h, k) =
    let same = length-Grows ws (widen ws r) (Grows-widen ws r) in
    (
      Fits-Grows (widen ws r) (widen_all (widen ws r) rows) r (Grows-widen_all (widen ws r) rows)
          (Fits-widen ws r h),
      Fits-widen_all (widen ws r) rows (rw (sym same) k),
    )

-- The width of a line: the widths, with a space between each two.
line_width : List ℕ → ℕ
line_width [] = 0
line_width (w ∷ []) = w
line_width (w ∷ v ∷ ws) = w + suc (line_width (v ∷ ws))

byte_len-join-pad_cells :
    (ws : List ℕ) (ss : List Text) → Fits ws ss → byte_len (join (pad_cells ws ss)) ≡ line_width ws
unfolding join pad_cells line_width
byte_len-join-pad_cells [] [] h = refl
byte_len-join-pad_cells [] (s ∷ ss) h = absurd h
byte_len-join-pad_cells (w ∷ ws) [] h = absurd h
byte_len-join-pad_cells (w ∷ []) (s ∷ []) (h, k) = byte_len-pad s w h
byte_len-join-pad_cells (w ∷ []) (s ∷ t ∷ ss) (h, k) = absurd k
byte_len-join-pad_cells (w ∷ v ∷ ws) (s ∷ []) (h, k) = absurd k
byte_len-join-pad_cells (w ∷ v ∷ ws) (s ∷ t ∷ ss) (h, k) =
    rw (byte_len-append (pad s w) (32 ∷ join (pad_cells (v ∷ ws) (t ∷ ss)))) (
      rw (byte_len-pad s w h) (
        omega (
          arith,
          byte_len-space (join (pad_cells (v ∷ ws) (t ∷ ss))),
          byte_len-join-pad_cells (v ∷ ws) (t ∷ ss) k,
        )))

byte_len-join-dashes : (ws : List ℕ) → byte_len (join (map (replicate_dash) ws)) ≡ line_width ws
unfolding join line_width byte_len
byte_len-join-dashes [] = refl
byte_len-join-dashes (w ∷ []) = byte_len-dashes w
byte_len-join-dashes (w ∷ v ∷ ws) =
    rw (byte_len-append (replicate_dash w) (32 ∷ join (map replicate_dash (v ∷ ws)))) (
      omega (
        arith,
        byte_len-dashes w,
        byte_len-space (join (map replicate_dash (v ∷ ws))),
        byte_len-join-dashes (v ∷ ws),
      ))

Fits-names : (names : List Text) → Fits (map byte_len names) names
Fits-names [] = tt
Fits-names (n ∷ names) = (omega arith, Fits-names names)

length-map {ℓ κ} :
    {A : Type ℓ} {B : Type κ} (f : A → B) (xs : List A) → length (map f xs) ≡ length xs
length-map f [] = refl
length-map f (x ∷ xs) = omega (arith, length-map f xs)

-- the lines of rows that fit
rows_aligned :
    (ws : List ℕ) (rows : List (List Text))
    → All (Fits ws) rows
    → All (λ l. byte_len l ≡ line_width ws) (map (λ cells. join (pad_cells ws cells)) rows)
rows_aligned ws [] h = tt
rows_aligned ws (r ∷ rows) (h, k) = (byte_len-join-pad_cells ws r h, rows_aligned ws rows k)

grid_lines-aligned :
    (names : List Text) (rows : List (List Text))
    → All (λ r. length names ≡ length r) rows
    → (w : ℕ) × All (λ l. byte_len l ≡ w) (grid_lines names rows)
unfolding grid_lines
grid_lines-aligned names rows h =
    let ws : List ℕ = map byte_len names in
    let final : List ℕ = widen_all ws rows in
    (
      line_width final,
      (
        byte_len-join-pad_cells final names
            (Fits-Grows ws final names (Grows-widen_all ws rows) (Fits-names names)),
        (
          byte_len-join-dashes final,
          rows_aligned final rows (Fits-widen_all ws rows (rw (length-map byte_len names) h)),
        ),
      ),
    )

cells_widths :
    (pf : Platform) (names : List Text) (n : ℕ) (rows : List Row)
    → length names ≡ n
    → All (λ r. length r ≡ n) rows
    → All (λ r. length names ≡ length r) (map (cells_of pf) rows)
cells_widths pf names n [] e h = tt
cells_widths pf names n (r ∷ rows) e (h, k) =
    (rw (length-map (to_string pf) r) (e ∙ sym h), cells_widths pf names n rows e k)

body_lines-aligned :
    (pf : Platform) (fields : List TableField) (rows : List Row)
    → All (λ r. length r ≡ length fields) rows
    → (w : ℕ) × All (λ l. byte_len l ≡ w) (body_lines pf fields rows)
unfolding body_lines
body_lines-aligned pf fields [] h = (_, (refl, tt))
body_lines-aligned pf fields (r ∷ rows) h =
    grid_lines-aligned (map (λ f. f.name) fields) (map (cells_of pf) (r ∷ rows)) (
      cells_widths pf (map (λ f. f.name) fields) (length fields) (r ∷ rows)
        (length-map (λ f. f.name) fields) h)

-- Behind its title, a valid table is shown as lines of one width in bytes.
pub show_lines-aligned :
    (pf : Platform) (t : Table)
    → IsWellFormed t
    → (w : ℕ) × All (λ l. byte_len l ≡ w) (drop 1 (show_lines pf t))
unfolding show_lines
show_lines-aligned pf t h = body_lines-aligned pf t.fields t.rows h.widths
