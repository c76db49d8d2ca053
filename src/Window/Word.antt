-- ===== src/Window/Word.antt =====
-- The word under the mouse in src/window-xlib.c: `runes_window_is_word_char`,
-- `runes_window_beginning_of_word` and `runes_window_end_of_word`. The loops take fuel.
use runes.Shared.{
  ℕ, zero, suc, ◌+◌, ◌*◌, Bool, true, false, ◌&&◌, Option, none, some, ltb, ◌==◌, if◌then◌else◌,
}
use runes.Shared.Int.{ℤ, pos, ltb_ℤ, ◌+ℤ◌, ◌-ℤ◌, pos_part}
use runes.Display.Location.{Loc, loc, leb_ℤ}
use runes.Display.Runs.{Cell}
use runes.Window.State.{ScreenLib, Characters}

module _ (chars : Characters) (lib : ScreenLib) (scr : lib.vt.Screen) where
  -- The cell before, which a wide character may start in: on the row, or at the end of a wrapped row
  -- above it. `row` counts from the top of the window.
  abbrev pub cell_before : ℤ → ℤ → Cell
  cell_before row col =
      if ltb_ℤ (pos 0) col
      then lib.cell_at scr row (col -ℤ pos 1)
      else if ltb_ℤ (pos 0) row && lib.is_wrapped scr (row -ℤ pos 1 +ℤ lib.row_top scr)
      then lib.cell_at scr (row -ℤ pos 1) (lib.vt.max_col scr -ℤ pos 1)
      else lib.cell_at scr row col

  abbrev pub is_word_cell : Cell → Bool
  is_word_cell c =
      if c.len == 0
      then false
      else if ltb (chars.first_length c.contents) c.len
      then true
      else if chars.char_width (chars.get_char c.contents) == 0
      then false
      else if chars.is_space (chars.get_char c.contents)
      then false
      else true

  unfoldable pub is_word_char : ℤ → ℤ → Bool
  is_word_char row col =
      if (cell_before row col).is_wide
      then is_word_cell (cell_before row col)
      else is_word_cell (lib.cell_at scr row col)

  -- The body of the loop backwards; nothing if it breaks.
  unfoldable pub step_back : ℤ → ℤ → Option (ℤ × ℤ)
  step_back row col =
      if ltb_ℤ (col -ℤ pos 1) (pos 0)
      then (if ltb_ℤ (row -ℤ pos 1 +ℤ lib.row_top scr) (pos 0)
          then none
          else if lib.is_wrapped scr (row -ℤ pos 1 +ℤ lib.row_top scr)
          then some (row -ℤ pos 1, lib.vt.max_col scr -ℤ pos 1)
          else none)
      else some (row, col -ℤ pos 1)

  unfoldable pub back_loop : ℕ → ℤ → ℤ → ℤ → ℤ → Option (ℤ × ℤ)
  unfolding is_word_char step_back
  back_loop zero row col prev_row prev_col = none
  back_loop (suc fuel) row col prev_row prev_col =
      let breaks : Option (ℤ × ℤ) = some (row, col) in
      let goes : ℤ × ℤ → Option (ℤ × ℤ) = λ p. back_loop fuel p.0 p.1 row col in
      if is_word_char row col
      then elim (step_back row col) [ none ↦ breaks | some p ↦ goes p ]
      else some (prev_row, prev_col)

  -- The rows of the grid above the location, of so many columns, and its own columns.
  abbrev pub back_fuel : Loc → ℕ
  back_fuel l = pos_part l.row * pos_part (lib.vt.max_col scr) + pos_part l.col + 1

  abbrev pub to_loc : Option (ℤ × ℤ) → Option Loc
  to_loc none = none
  to_loc (some (row, col)) = some (loc (row +ℤ lib.row_top scr) col)

  unfoldable pub beginning_of_word : Loc → Option Loc
  unfolding back_loop
  beginning_of_word l =
      to_loc
        (back_loop (back_fuel l) (l.row -ℤ lib.row_top scr) l.col (l.row -ℤ lib.row_top scr) l.col)

  -- The body of the loop forwards: where it goes on, or where it breaks.
  pub data Forward : Type 0 where
    goes_on breaks_at : ℤ → ℤ → Forward

  unfoldable pub step_forward : ℤ → ℤ → Forward
  step_forward row col =
      if leb_ℤ (lib.vt.max_col scr) (col +ℤ pos 1)
      then (if lib.is_wrapped scr (row +ℤ lib.row_top scr)
          then (if leb_ℤ (lib.max_row scr) (row +ℤ pos 1)
              then breaks_at (row +ℤ pos 1) (col +ℤ pos 1)
              else goes_on (row +ℤ pos 1) (pos 0))
          else breaks_at row (col +ℤ pos 1))
      else goes_on row (col +ℤ pos 1)

  unfoldable pub forward_loop : ℕ → ℤ → ℤ → Option (ℤ × ℤ)
  unfolding is_word_char step_forward
  forward_loop zero row col = none
  forward_loop (suc fuel) row col =
      let goes : ℤ → ℤ → Option (ℤ × ℤ) = λ r c. forward_loop fuel r c in
      if is_word_char row col
      then elim (step_forward row col) [ goes_on r c ↦ goes r c | breaks_at r c ↦ some (r, c) ]
      else some (row, col)

  -- The rows of the window from the location's on, of so many columns.
  abbrev pub forward_fuel : Loc → ℕ
  forward_fuel l =
      pos_part (lib.max_row scr -ℤ (l.row -ℤ lib.row_top scr)) * pos_part (lib.vt.max_col scr)
      + pos_part (lib.vt.max_col scr -ℤ l.col)
      + 2

  unfoldable pub end_of_word : Loc → Option Loc
  unfolding forward_loop
  end_of_word l = to_loc (forward_loop (forward_fuel l) (l.row -ℤ lib.row_top scr) l.col)
