-- ===== src/Display/Paint.antt =====
-- `runes_display_draw_string` of src/display.c: the rectangles that it paints, and their colors. What the
-- glyphs look like is cairo's and pango's.
use runes.Shared.{
  ℕ, ◌+◌, Bool, not, ◌&&◌, ◌||◌, Option, some, List, [], ◌∷◌, get_elem?, length, ltb, ◌==◌,
  if◌then◌else◌,
}
use runes.Shared.Int.{ℤ, pos}
use runes.Config.Types.{Cairo, Config}
use runes.Config.Parse.{over_255}
use runes.Display.Location.{Loc, loc, eq_ℤ, loc_is_between}
use runes.Display.Selection.{Vt100, Selection, loc_is_selected}
use runes.Display.Runs.{
  ColorKind, default_color, idx_color, rgb_color, Attrs, Cell, cell_width, Draw,
}

abbrev pub xor : Bool → Bool → Bool
xor a b = if a then not b else b

-- An end of a selection that is not empty lies in a stretch.
unfoldable pub selection_crosses : Selection → Loc → Loc → Bool
selection_crosses d l e =
    d.has_selection
    && (not (eq_ℤ d.selection_start.row d.selection_end.row)
        || not (eq_ℤ d.selection_start.col d.selection_end.col))
    && (loc_is_between d.selection_start l e || loc_is_between d.selection_end l e)

module _ (cairo : Cairo) (vt : Vt100) where
  open cairo use {Pattern, create_rgb}
  open vt use {Screen}

  -- The switch over a color's type, with what happens to an index before the array is read; nothing
  -- if the array has no such entry.
  abbrev pub pattern_of : Config Pattern → Pattern → (ℕ → ℕ) → ColorKind → Option Pattern
  pattern_of c default at default_color = some default
  pattern_of c default at (idx_color i) = get_elem? c.colors (at i)
  pattern_of c default at (rgb_color r g b) =
      some (create_rgb (over_255 r) (over_255 g) (over_255 b))

  abbrev pub bright_index : Config Pattern → Attrs → ℕ → ℕ
  bright_index c attrs i = if c.bold_is_bright && (attrs.bold && ltb i 8) then i + 8 else i

  abbrev pub bg_pattern : Config Pattern → Attrs → Option Pattern
  bg_pattern c attrs = pattern_of c c.bgdefault (λ i. i) attrs.bgcolor

  abbrev pub fg_pattern : Config Pattern → Attrs → Option Pattern
  fg_pattern c attrs = pattern_of c c.fgdefault (bright_index c attrs) attrs.fgcolor

  -- Background and foreground of cells that are drawn in one piece.
  unfoldable pub paint_colors : Config Pattern → Bool → List Cell → Option Pattern × Option Pattern
  paint_colors c selected [] =
      if selected
      then (some c.fgdefault, some c.bgdefault)
      else (some c.bgdefault, some c.fgdefault)
  paint_colors c selected (cell ∷ cells) =
      if xor cell.attrs.inverse selected
      then (if cell.attrs.fg_id == cell.attrs.bg_id
          then (some c.fgdefault, some c.bgdefault)
          else (fg_pattern c cell.attrs, bg_pattern c cell.attrs))
      else (bg_pattern c cell.attrs, fg_pattern c cell.attrs)

  pub record Paint : Type 0 where
    pub col : ℕ
    pub width : ℕ
    pub colors : Option Pattern × Option Pattern
    pub cells : List Cell

  abbrev pub paint_one : Config Pattern → Screen → Selection → ℤ → ℕ → ℕ → List Cell → Paint
  paint_one c scr d row col width cells = record {
    col = col;
    width = width;
    colors = paint_colors c (loc_is_selected vt scr d (loc row (pos col))) cells;
    cells = cells;
  }

  -- The calls for one cell each; such a call is not split again.
  abbrev pub paint_cells : Config Pattern → Screen → Selection → ℤ → ℕ → List Cell → List Paint
  paint_cells c scr d row col [] = []
  paint_cells c scr d row col (cell ∷ cells) =
      paint_one c scr d row col (cell_width cell) (cell ∷ [])
      ∷ paint_cells c scr d row (col + cell_width cell) cells

  -- `row` is the row of the grid, `row + row_top - row_visible_offset` in the source.
  unfoldable pub draw_string : Config Pattern → Screen → Selection → ℤ → Draw → List Paint
  unfolding selection_crosses paint_colors
  draw_string c scr d row run =
      if run.width == 0
      then []
      else if ltb 1 (length run.cells)
          && selection_crosses d (loc row (pos run.start)) (loc row (pos (run.start + run.width)))
      then paint_cells c scr d row run.start run.cells
      else paint_one c scr d row run.start run.width run.cells ∷ []
