-- ===== src/Tests/Glyphs.antt =====
-- The glyphs of src/display.c at concrete inputs.
use runes.Shared.{
  ◌+◌, ℕ, suc, ◌-◌, ◌≤◌, ◌⊎◌, get_or, get_elem?, ◌≡◌, refl, true, false, some, List, [], ◌∷◌, arith,
  replicate,
}
use runes.Display.Runs.{default_color, Attrs, Cell}
use runes.Display.Glyphs.{Style, Pango, Font, entry, cache_entry}
use runes.Display.Font.{Metrics, set_context, new_font}
use runes.Display.FontLaws.{cache_entry-glyph}
use runes.Display.Cursor.{CursorGrid, CursorIn, cell_in, cursor_at, draw_cursor}
use runes.Display.Location.{loc}
use runes.Window.View.{get_mouse_position}
use runes.Window.Place.{view_at, corner, mouse_grid, draw_cursor-mouse}
use runes.Shared.Text.{Bytes}
use runes.Shared.Int.{pos}

abbrev attrs : Attrs
attrs = record {
  fg_id = 0;
  bg_id = 0;
  attr_bits = 0;
  fgcolor = default_color;
  bgcolor = default_color;
  bold = false;
  italic = false;
  underline = false;
  inverse = false;
}

abbrev narrow_wide : List Cell
narrow_wide =
    record { contents = 97 ∷ []; len = 1; is_wide = false; attrs = attrs }
    ∷ record { contents = 228 ∷ 184 ∷ 128 ∷ []; len = 3; is_wide = true; attrs = attrs }
    ∷ []

abbrev first_cell : Cell
first_cell = record { contents = 98 ∷ []; len = 1; is_wide = false; attrs = attrs }

abbrev font : Font
font = record { fontx = 8; fonty = 16; font_descent = 4; ascii_glyph_index_cache = replicate 128 5 }

-- No text is as wide as its cells.
abbrev loose : Pango
loose = record { unknown_glyphs_count = λ style text. 0; pixel_size = λ style text. (1, 16) }

abbrev normal : Style
normal = record { bold = false; italic = false; underline = false }

-- pango's glyph of a character is its code less 29.
abbrev glyph_of : Bytes → ℕ
glyph_of text = get_or text 0 0 - 29

abbrev metrics : Metrics
metrics = record { approximate_digit_width = 8000; ascent = 12000; descent = 4000 }

font_size : ((new_font metrics glyph_of).fontx ≡ 8) × ((new_font metrics glyph_of).fonty ≡ 16)
unfolding set_context
font_size = (refl, refl)

cache_entry-glyph_example :
    cache_entry (new_font metrics glyph_of).ascii_glyph_index_cache first_cell ≡ entry 69
cache_entry-glyph_example =
    cache_entry-glyph metrics glyph_of first_cell ((λ e. omega arith), (λ e. ground arith))
      (omega arith) (omega arith)

-- A cursor behind the last of two columns.
abbrev grid : CursorGrid
grid = record {
  rows = (first_cell ∷ first_cell ∷ []) ∷ (first_cell ∷ first_cell ∷ []) ∷ [];
  row_top = 1;
  max_row = 1;
  max_col = 2;
  cur_row = 0;
  cur_col = 2;
  hide_cursor = false;
}

in_grid : CursorIn grid
in_grid = (omega arith, omega arith, refl, (refl, (refl, refl)))

draw_cursor-mouse_example :
    (col : ℕ) × (cell : Cell) × (x : ℕ) × (y : ℕ) × (cell_in (get_elem? grid.rows 1) col
      ≡ some cell)
    × ((col ≡ 2) ⊎ (suc col ≡ 2) × (2 ≤ 2))
    × (draw_cursor font loose true false 0 normal grid
        ≡ cursor_at font loose true false 0 normal grid col cell)
    × (corner (draw_cursor font loose true false 0 normal grid) ≡ some (x, y))
    × ((1 ≤ 0)
        ⊎ (get_mouse_position font.fontx font.fonty
              (mouse_grid grid)
              (view_at 0)
              (pos (x + 3))
              (pos (y + 5))
            ≡ loc (pos 1) (pos col)))
draw_cursor-mouse_example =
    draw_cursor-mouse font loose true false 0 normal grid 3 5 in_grid refl (omega arith)
      (omega arith)
