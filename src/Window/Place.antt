-- ===== src/Window/Place.antt =====
-- The places where src/display.c draws rows and cursor, and `runes_window_get_mouse_position` of
-- src/window-xlib.c.
use native.Mathlib.Nat.{mul-add-div, div-eq_of_lt}
use runes.Shared.{
  ℕ, suc, ◌+◌, ◌*◌, ◌/◌, ◌<◌, ◌≤◌, ◌≡◌, refl, ap, ◌∙◌, ◌⊎◌, inl, inr, Bool, false, Option, none,
  some, length, get_elem?, arith, Bool-cases,
}
use runes.Shared.Int.{pos, ◌+ℤ◌, ◌-ℤ◌, int_laws, -ℤ_parts}
use runes.Display.Location.{loc}
use runes.Config.Types.{Config}
use runes.Display.Runs.{Cell}
use runes.Display.Selection.{Selection}
use runes.Display.Glyphs.{Style, Pango, Font}
use runes.Display.Cursor.{
  CursorGrid, CursorIn, CursorDrawn, hidden, outside_grid, outline, filled, cell_in, cursor_at,
  draw_cursor, draw_cursor-cell,
}
use runes.Window.View.{Grid, View, within_window, get_mouse_position}

-- A view that is scrolled up by so many rows.
abbrev pub view_at : ℕ → View
view_at offset = record { row_visible_offset = pos offset; dirty = false }

cell_of : (n size d : ℕ) → d < size → (n * size + d) / size ≡ n
cell_of n size d h =
    let some_size : 0 < size = omega arith in
    let turned : n * size + d ≡ size * n + d = omega arith in
    ap (λ m. m / size) turned
    ∙ mul-add-div some_size n d
    ∙ ap (◌+◌ n) (div-eq_of_lt h)
    ∙ omega arith

within_window_same : (size n : ℕ) → n < size → within_window (pos size) (pos n) ≡ pos n
within_window_same size n h = ground (arith, -ℤ_parts (pos size) (pos 1))

-- The mouse anywhere on a cell of the window is at this row and column.
pub get_mouse_position-cell :
    (fontx fonty : ℕ) (g : Grid) (t : View) (max_row max_col row col dx dy : ℕ)
    → g.max_row ≡ pos max_row
    → g.max_col ≡ pos max_col
    → row < max_row
    → col < max_col
    → dx < fontx
    → dy < fonty
    → get_mouse_position fontx fonty g t (pos (col * fontx + dx)) (pos (row * fonty + dy))
      ≡ loc (pos row -ℤ t.row_visible_offset +ℤ g.row_count -ℤ g.max_row) (pos col)
unfolding get_mouse_position
get_mouse_position-cell fontx fonty g t max_row max_col row col dx dy rows cols r c x y =
    let at_row : within_window g.max_row (pos ((row * fonty + dy) / fonty)) ≡ pos row =
      ap (λ n. within_window g.max_row (pos n)) (cell_of row fonty dy y)
      ∙ ap (λ m. within_window m (pos row)) rows
      ∙ within_window_same max_row row r in
    let at_col : within_window g.max_col (pos ((col * fontx + dx) / fontx)) ≡ pos col =
      ap (λ n. within_window g.max_col (pos n)) (cell_of col fontx dx x)
      ∙ ap (λ m. within_window m (pos col)) cols
      ∙ within_window_same max_col col c in
    λ i. loc (at_row i -ℤ t.row_visible_offset +ℤ g.row_count -ℤ g.max_row) (at_col i)

-- The corner of what is drawn.
abbrev pub corner : CursorDrawn → Option (ℕ × ℕ)
corner hidden = none
corner outside_grid = none
corner (outline x y width height) = some (x, y)
corner (filled x y width height glyphs) = some (x, y)

-- The grid of a cursor, for the mouse.
abbrev pub mouse_grid : CursorGrid → Grid
mouse_grid g = record {
  row_count = pos (length g.rows);
  max_row = pos g.max_row;
  max_col = pos g.max_col;
}

module _ (font : Font) (pango : Pango) (bold_is_bold : Bool) (unfocused : Bool)
    (row_visible_offset : ℕ) where
  corner-cursor_at :
      (style : Style) (g : CursorGrid) (col : ℕ) (cell : Cell)
      → corner (cursor_at font pango bold_is_bold unfocused row_visible_offset style g col cell)
        ≡ some (col * font.fontx, (g.cur_row + row_visible_offset) * font.fonty)
  corner-cursor_at style g col cell = elim (Bool-cases unfocused) [
    | inl e ↦ rw e refl
    | inr e ↦ rw e refl
  ]

  -- A cursor that is shown is drawn on a cell of the grid: that of its row and column, or of the last
  -- column if it is behind it. However far the window is scrolled, either the cursor is below the
  -- window, or the mouse anywhere on that cell's first column, from the corner of what is drawn on, is
  -- at the cursor's row of the grid and at that column. The window shows the last rows of the grid when
  -- it is not scrolled, all rows have all columns, and the cursor's row is one of the last.
  pub draw_cursor-mouse :
      (style : Style) (g : CursorGrid) (dx dy : ℕ)
      → CursorIn g
      → g.hide_cursor ≡ false
      → dx < font.fontx
      → dy < font.fonty
      → (col : ℕ) × (cell : Cell) × (x : ℕ) × (y : ℕ) × (cell_in
            (get_elem? g.rows (g.row_top + g.cur_row))
            col
          ≡ some cell)
        × ((col ≡ g.cur_col) ⊎ (suc col ≡ g.max_col) × (g.max_col ≤ g.cur_col))
        × (draw_cursor font pango bold_is_bold unfocused row_visible_offset style g
            ≡ cursor_at font pango bold_is_bold unfocused row_visible_offset style g col cell)
        × (corner (draw_cursor font pango bold_is_bold unfocused row_visible_offset style g)
            ≡ some (x, y))
        × ((g.max_row ≤ g.cur_row + row_visible_offset)
            ⊎ (get_mouse_position font.fontx font.fonty
                  (mouse_grid g)
                  (view_at row_visible_offset)
                  (pos (x + dx))
                  (pos (y + dy))
                ≡ loc (pos (g.row_top + g.cur_row)) (pos col)))
  draw_cursor-mouse style g dx dy (rows_in, some_col, top, wide) shown in_x in_y =
      let (col, cell, there, inside, which, drawn) =
        draw_cursor-cell font pango bold_is_bold unfocused row_visible_offset style g
          (rows_in, some_col, top, wide) shown in
      let row = g.cur_row + row_visible_offset in
      let same_row : pos row -ℤ pos row_visible_offset +ℤ pos (length g.rows) -ℤ pos g.max_row
          ≡ pos (g.row_top + g.cur_row) =
        omega int_laws in
      let below : (g.max_row ≤ row) ⊎ (row < g.max_row) = omega arith in
      (
        col,
        cell,
        col * font.fontx,
        row * font.fonty,
        there,
        which,
        drawn,
        ap corner drawn ∙ corner-cursor_at style g col cell,
        elim below [
          | inl out ↦ inl out
          | inr shown_row ↦ inr (
              get_mouse_position-cell font.fontx font.fonty (mouse_grid g)
                (view_at row_visible_offset) g.max_row g.max_col row col dx dy refl refl shown_row
                inside in_x in_y
              ∙ ap (λ r. loc r (pos col)) same_row)
        ],
      )
