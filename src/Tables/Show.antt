-- ===== src/Tables/Show.antt =====
-- `Table::show` and `pad` of src/tables.rs: the lines that a table prints as. A width counts bytes.
pub mod Aligned
use tracescript.Prelude.{
  ℕ, ◌-◌, List, [], ◌∷◌, ◌++◌, Text, codes, length, map, replicate, ltb, leb, if◌then◌else◌,
}
use tracescript.Value.{Platform, Row, to_string}
use tracescript.Builtins.{utf8}
use tracescript.Tables.{Table, TableField}

-- `s.len()`
unfoldable pub byte_len : Text → ℕ
unfolding utf8
byte_len s = length (utf8 s)

unfoldable pub pad : Text → ℕ → Text
unfolding byte_len
pad s w = if leb w (byte_len s) then s else s ++ replicate (w - byte_len s) 32

-- the widths with room for one row more; a cell behind the last width is left out
unfoldable pub widen : List ℕ → List Text → List ℕ
unfolding byte_len
widen [] cells = []
widen (w ∷ ws) [] = w ∷ ws
widen (w ∷ ws) (s ∷ ss) = (if ltb w (byte_len s) then byte_len s else w) ∷ widen ws ss

unfoldable pub widen_all : List ℕ → List (List Text) → List ℕ
unfolding widen
widen_all ws [] = ws
widen_all ws (cells ∷ rows) = widen_all (widen ws cells) rows

unfoldable pub pad_cells : List ℕ → List Text → List Text
unfolding pad
pad_cells ws [] = []
pad_cells [] (s ∷ ss) = s ∷ ss
pad_cells (w ∷ ws) (s ∷ ss) = pad s w ∷ pad_cells ws ss

-- `cells.join(" ")`
unfoldable pub join : List Text → Text
join [] = []
join (s ∷ []) = s
join (s ∷ t ∷ ss) = s ++ (32 ∷ join (t ∷ ss))

abbrev dashes : ℕ → Text
dashes w = replicate w b'-'

-- the header, the line below it, and a line for each row
unfoldable pub grid_lines : List Text → List (List Text) → List Text
unfolding byte_len widen_all pad_cells join
grid_lines names rows =
    let ws = widen_all (map byte_len names) rows in
    join (pad_cells ws names) ∷ join (map dashes ws) ∷ map (λ cells. join (pad_cells ws cells)) rows

abbrev pub cells_of : Platform → Row → List Text
cells_of pf row = map (to_string pf) row

-- the lines behind the title
unfoldable pub body_lines : Platform → List TableField → List Row → List Text
unfolding grid_lines to_string
body_lines pf fields [] = codes "(no rows)" ∷ []
body_lines pf fields (r ∷ rows) =
    grid_lines (map (λ f. f.name) fields) (map (cells_of pf) (r ∷ rows))

unfoldable pub show_lines : Platform → Table → List Text
unfolding body_lines
show_lines pf t = (codes "TABLE " ++ t.name) ∷ body_lines pf t.fields t.rows
