-- ===== src/Tests/Display.antt =====
-- src/display.c at concrete inputs.
use runes.Shared.{ℕ, ◌≡◌, ◌≢◌, refl, true, false, none, some, [], ◌∷◌, arith, length, get_or}
use runes.Shared.Int.{pos}
use runes.Shared.Text.{Bytes, codes}
use runes.Config.Options.{defaults}
use runes.Config.Args.{apply_all}
use runes.Display.Location.{loc, loc_is_between}
use runes.Display.Selection.{
  Vt100, Selection, set_selection, loc_is_selected, set_selection_reversed,
}
use runes.Display.Runs.{default_color, idx_color, Attrs, Cell, draw, draw_row}
use runes.Display.RunLaws.{Tiles, AllDraws, Shows}
use runes.Display.RowLoop.{draw_row_complete}
use runes.Display.Paint.{selection_crosses, paint_colors}
use runes.Display.PaintLaws.{applied_colors-there, loc_is_selected-whole}
use runes.Window.View.{Grid}
use runes.Tests.Data.{parts}

-- A screen that is its text, of 80 columns that are all in use.
abbrev text_screen : Vt100
text_screen = record {
  Screen = Bytes;
  get_string_plaintext = λ text a b. (some text, length text);
  row_max_col = λ text row. pos 80;
  max_col = λ text. pos 80;
}

abbrev plain : Attrs
plain = record {
  fg_id = 0;
  bg_id = 1;
  attr_bits = 1;
  fgcolor = idx_color 3;
  bgcolor = default_color;
  bold = true;
  italic = false;
  underline = false;
  inverse = false;
}

abbrev letter : ℕ → Cell
letter c = record { contents = c ∷ []; len = 1; is_wide = false; attrs = plain }

abbrev wide_letter : Cell
wide_letter = record { contents = 228 ∷ 184 ∷ 128 ∷ []; len = 3; is_wide = true; attrs = plain }

abbrev blank : Cell
blank = record { contents = []; len = 0; is_wide = false; attrs = plain }

-- A letter, a wide one on two columns, two empty columns and a letter.
abbrev some_row : ℕ → Cell
some_row i = get_or (letter 97 ∷ wide_letter ∷ blank ∷ blank ∷ blank ∷ letter 98 ∷ []) i blank

abbrev nothing_selected : Selection
nothing_selected = record {
  has_selection = false;
  selection_start = loc (pos 0) (pos 0);
  selection_end = loc (pos 0) (pos 0);
  selection_contents = none;
  selection_len = 0;
  dirty = false;
}

-- From the fifth column of one row to the second of the next.
abbrev chosen : Selection
chosen =
    set_selection text_screen (codes "ab") nothing_selected (loc (pos 1) (pos 4))
      (loc (pos 2) (pos 1))

set_selection_reversed_example :
    ((set_selection text_screen
        (codes "ab")
        nothing_selected
        (loc (pos 1) (pos 4))
        (loc (pos 2) (pos 1))).selection_contents
      ≡ (set_selection text_screen
          (codes "ab")
          nothing_selected
          (loc (pos 2) (pos 1))
          (loc (pos 1) (pos 4))).selection_contents)
    × ((set_selection text_screen
          (codes "ab")
          nothing_selected
          (loc (pos 1) (pos 4))
          (loc (pos 2) (pos 1))).selection_len
        ≡ (set_selection text_screen
            (codes "ab")
            nothing_selected
            (loc (pos 2) (pos 1))
            (loc (pos 1) (pos 4))).selection_len)
    × (loc_is_selected text_screen
          (codes "ab")
          (set_selection text_screen
            (codes "ab")
            nothing_selected
            (loc (pos 1) (pos 4))
            (loc (pos 2) (pos 1)))
          (loc (pos 1) (pos 7))
        ≡ loc_is_selected text_screen
            (codes "ab")
            (set_selection text_screen
              (codes "ab")
              nothing_selected
              (loc (pos 2) (pos 1))
              (loc (pos 1) (pos 4)))
            (loc (pos 1) (pos 7)))
set_selection_reversed_example =
    set_selection_reversed text_screen (codes "ab") nothing_selected (loc (pos 1) (pos 4))
      (loc (pos 2) (pos 1)) (loc (pos 1) (pos 7))

crosses_not : selection_crosses chosen (loc (pos 1) (pos 5)) (loc (pos 1) (pos 9)) ≡ false
unfolding selection_crosses set_selection loc_is_between
crosses_not = refl

some_row_drawn :
    draw_row some_row 6
    ≡ draw 0 3 (letter 97 ∷ wide_letter ∷ []) ∷ draw 3 2 [] ∷ draw 5 1 (letter 98 ∷ []) ∷ []
unfolding draw_row
some_row_drawn = refl

draw_row_complete_example :
    Tiles 0 6 (draw_row some_row 6) × AllDraws (Shows some_row 6) (draw_row some_row 6)
draw_row_complete_example = draw_row_complete some_row 6

loc_is_selected-whole_example :
    loc_is_selected text_screen (codes "ab") chosen (loc (pos 1) (pos 7))
    ≡ loc_is_selected text_screen (codes "ab") chosen (loc (pos 1) (pos 5))
loc_is_selected-whole_example =
    loc_is_selected-whole text_screen (codes "ab") chosen (pos 1) (pos 5) (pos 7) (pos 9)
      (omega arith) refl (omega arith) crosses_not

applied_colors-there_example :
    ((paint_colors parts text_screen (apply_all parts (defaults parts) []) true (letter 97 ∷ [])).0
      ≢ none)
    × ((paint_colors parts text_screen
          (apply_all parts (defaults parts) [])
          true
          (letter 97 ∷ [])).1
        ≢ none)
applied_colors-there_example =
    applied_colors-there parts text_screen [] true (letter 97 ∷ []) (omega arith, refl)

-- Two rows of a window that is scrolled up by one, of a screen of four rows that are alike; the last
-- column has half of a wide cell.
abbrev four_rows : Grid
four_rows = record { row_count = pos 4; max_row = pos 2; max_col = pos 2 }
