-- ===== src/Display/Cursor.antt =====
-- `runes_display_draw_cursor` of src/display.c, on the grid of the vt100 library's screen.
use runes.Shared.{
  ℕ, zero, suc, ◌+◌, ◌*◌, ◌≤◌, ◌<◌, ◌≡◌, refl, ◌⊎◌, inl, inr, Bool, true, false, Option, none, some,
  List, [], ◌∷◌, length, get_elem?, leb, if◌then◌else◌, arith, Bool-cases, leb→le,
}
use runes.Shared.Int.{ℤ, pos, ◌-ℤ◌}
use runes.Display.Runs.{Cell, cell_width}
use runes.Display.Glyphs.{Style, Pango, Font, Drawn, draw_glyphs}

-- What the cursor's drawing reads of struct vt100_grid and of the screen. The library has no negative
-- number here.
pub record CursorGrid : Type 0 where
  pub rows : List (List Cell)
  pub row_top : ℕ
  pub max_row : ℕ
  pub max_col : ℕ
  pub cur_row : ℕ
  pub cur_col : ℕ
  pub hide_cursor : Bool

-- The column before the right end, if there is one, for a cursor that stands at the end.
abbrev pub last_col : ℕ → Option ℕ
last_col zero = none
last_col (suc n) = some n

abbrev pub cursor_col : ℕ → ℕ → Option ℕ
cursor_col max_col col = if leb max_col col then last_col max_col else some col

abbrev pub cell_in : Option (List Cell) → ℕ → Option Cell
cell_in none col = none
cell_in (some cells) col = get_elem? cells col

abbrev pub cell_under : CursorGrid → Option ℕ → Option Cell
cell_under g none = none
cell_under g (some col) = cell_in (get_elem? g.rows (g.row_top + g.cur_row)) col

-- Nothing; a read outside the grid; the outline of a rectangle, to whose x and y the source adds half
-- a pixel; or a full rectangle with a cell's glyphs on it.
pub data CursorDrawn : Type 0 where
  hidden outside_grid : CursorDrawn
  outline : ℕ → ℕ → ℤ → ℤ → CursorDrawn
  filled : ℕ → ℕ → ℕ → ℕ → Option Drawn → CursorDrawn

module _ (font : Font) (pango : Pango) (bold_is_bold : Bool) (unfocused : Bool)
    (row_visible_offset : ℕ) where
  abbrev pub cursor_at : Style → CursorGrid → ℕ → Cell → CursorDrawn
  cursor_at style g col cell =
      let width = font.fontx * cell_width cell in
      let row = g.cur_row + row_visible_offset in
      if unfocused
      then outline (col * font.fontx) (row * font.fonty) (pos width -ℤ pos 1)
          (pos font.fonty -ℤ pos 1)
      else filled (col * font.fontx) (row * font.fonty) width font.fonty
          (draw_glyphs font pango bold_is_bold row 2 style col cell [])

  abbrev pub on_cell : Style → CursorGrid → Option ℕ → Option Cell → CursorDrawn
  on_cell style g none cell = outside_grid
  on_cell style g (some col) none = outside_grid
  on_cell style g (some col) (some cell) = cursor_at style g col cell

  unfoldable pub draw_cursor : Style → CursorGrid → CursorDrawn
  unfolding draw_glyphs
  draw_cursor style g =
      let col = cursor_col g.max_col g.cur_col in
      if g.hide_cursor then hidden else on_cell style g col (cell_under g col)

-- The window at the bottom shows the last rows of the grid, each with all its columns, and the cursor is on one of them or
-- behind the last.
abbrev pub WideRows : ℕ → List (List Cell) → Type 0
WideRows cols [] = true ≡ true
WideRows cols (cells ∷ rows) = (length cells ≡ cols) × WideRows cols rows

abbrev pub CursorIn : CursorGrid → Type 0
CursorIn g =
    (g.cur_row < g.max_row)
    × (0 < g.max_col)
    × (g.row_top + g.max_row ≡ length g.rows)
    × WideRows g.max_col g.rows

get_elem?_cell : (xs : List Cell) (i : ℕ) → i < length xs → (x : Cell) × (get_elem? xs i ≡ some x)
get_elem?_cell [] i h = absurd (omega arith)
get_elem?_cell (x ∷ xs) zero h = (x, refl)
get_elem?_cell (x ∷ xs) (suc i) h = get_elem?_cell xs i (omega arith)

cell_there :
    (cols : ℕ) (rows : List (List Cell)) (i j : ℕ)
    → i < length rows
    → j < cols
    → WideRows cols rows
    → (c : Cell) × (cell_in (get_elem? rows i) j ≡ some c)
cell_there cols [] i j h k wide = absurd (omega arith)
cell_there cols (cells ∷ rows) zero j h k (w, more) = get_elem?_cell cells j (omega arith)
cell_there cols (cells ∷ rows) (suc i) j h k (w, more) =
    cell_there cols rows i j (omega arith) k more

cursor_col-in :
    (max_col col : ℕ)
    → 0 < max_col
    → (c : ℕ) × (cursor_col max_col col ≡ some c)
      × (c < max_col)
      × ((c ≡ col) ⊎ (suc c ≡ max_col) × (max_col ≤ col))
cursor_col-in zero col h = absurd (omega arith)
cursor_col-in (suc n) col h = elim (Bool-cases (leb (suc n) col)) [
  | inl e ↦ (n, rw e, omega arith, inr (refl, leb→le (suc n) col e))
  | inr e ↦ (col, rw e, ground arith, inl refl)
]

module _ (font : Font) (pango : Pango) (bold_is_bold : Bool) (unfocused : Bool)
    (row_visible_offset : ℕ) where
  -- A cursor that is shown is drawn on a cell of the grid.
  pub draw_cursor-cell :
      (style : Style) (g : CursorGrid)
      → CursorIn g
      → g.hide_cursor ≡ false
      → (col : ℕ) × (cell : Cell) × (cell_in (get_elem? g.rows (g.row_top + g.cur_row)) col
          ≡ some cell)
        × (col < g.max_col)
        × ((col ≡ g.cur_col) ⊎ (suc col ≡ g.max_col) × (g.max_col ≤ g.cur_col))
        × (draw_cursor font pango bold_is_bold unfocused row_visible_offset style g
            ≡ cursor_at font pango bold_is_bold unfocused row_visible_offset style g col cell)
  unfolding draw_cursor
  draw_cursor-cell style g (rows_in, some_col, top, wide) shown =
      let (col, at, inside, which) = cursor_col-in g.max_col g.cur_col some_col in
      let (cell, there) =
        cell_there g.max_col g.rows (g.row_top + g.cur_row) col (omega arith) inside wide in
      (col, cell, there, inside, which, rw (shown, at, there) refl)
