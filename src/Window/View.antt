-- ===== src/Window/View.antt =====
-- What part of the screen a window of src/window-xlib.c shows, and where the mouse is in it:
-- `runes_window_visible_scroll` and `runes_window_get_mouse_position`.
use runes.Shared.{ℕ, suc, ◌/◌, ◌<◌, Bool, true, false, arith, if◌then◌else◌, Bool-cases, inl, inr}
use runes.Shared.Int.{ℤ, pos, negsuc, ltb_ℤ, ◌≤ℤ◌, ◌+ℤ◌, ◌-ℤ◌, int_laws, +ℤ_parts, -ℤ_parts}
use runes.Display.Location.{Loc, loc, eq_ℤ}

-- The grid of the vt100 library: all its rows, and the size of the window.
pub record Grid : Type 0 where
  pub row_count : ℤ
  pub max_row : ℤ
  pub max_col : ℤ

-- The display's offset, and whether the window is drawn again.
pub record View : Type 0 where
  pub row_visible_offset : ℤ
  pub dirty : Bool

abbrev pub clamp_low : ℤ → ℤ → ℤ
clamp_low low n = if ltb_ℤ n low then low else n

abbrev pub clamp_high : ℤ → ℤ → ℤ
clamp_high high n = if ltb_ℤ high n then high else n

abbrev pub scrolled : Grid → ℤ → ℤ → ℤ
scrolled g offset count =
    clamp_high (g.row_count -ℤ g.max_row) (clamp_low (pos 0) (offset +ℤ count))

-- The view after it, and whether the window is flushed.
unfoldable pub visible_scroll : Grid → View → ℤ → View × Bool
visible_scroll g t count =
    let offset = scrolled g t.row_visible_offset count in
    if eq_ℤ offset t.row_visible_offset
    then (record t { row_visible_offset = offset }, false)
    else (record { row_visible_offset = offset; dirty = true }, true)

-- The part of runes_window_write_to_pty behind the write: the view goes back to the bottom.
unfoldable pub write_to_pty_view : View → View × Bool
write_to_pty_view t =
    if eq_ℤ t.row_visible_offset (pos 0)
    then (t, false)
    else (record { row_visible_offset = pos 0; dirty = true }, true)

-- C's division of an int by a positive one rounds to zero.
abbrev pub div_int : ℤ → ℕ → ℤ
div_int (pos n) d = pos (n / d)
div_int (negsuc n) d = pos 0 -ℤ pos (suc n / d)

abbrev pub within_window : ℤ → ℤ → ℤ
within_window size n = if ltb_ℤ n (pos 0) then pos 0 else clamp_high (size -ℤ pos 1) n

-- `fontx` and `fonty` are the size of a cell.
unfoldable pub get_mouse_position : ℕ → ℕ → Grid → View → ℤ → ℤ → Loc
get_mouse_position fontx fonty g t xpixel ypixel =
    loc
      (within_window g.max_row (div_int ypixel fonty)
        -ℤ t.row_visible_offset
        +ℤ g.row_count
        -ℤ g.max_row)
      (within_window g.max_col (div_int xpixel fontx))

-- The rows that a window shows are rows of the grid.
abbrev pub InGrid : Grid → View → Type 0
InGrid g t = (pos 0 ≤ℤ t.row_visible_offset) × (t.row_visible_offset ≤ℤ g.row_count -ℤ g.max_row)

clamp-in :
    (high n : ℤ)
    → pos 0 ≤ℤ high
    → (pos 0 ≤ℤ clamp_high high (clamp_low (pos 0) n))
      × (clamp_high high (clamp_low (pos 0) n) ≤ℤ high)
clamp-in high n h = ground arith

-- However far a window is scrolled, by any count, what it shows stays in the grid, if the grid has
-- as many rows as the window.
pub visible_scroll-InGrid :
    (g : Grid) (t : View) (count : ℤ)
    → g.max_row ≤ℤ g.row_count
    → InGrid g (visible_scroll g t count).0
unfolding visible_scroll
visible_scroll-InGrid g t count h =
    let room : pos 0 ≤ℤ g.row_count -ℤ g.max_row = omega int_laws in
    let inside = clamp-in (g.row_count -ℤ g.max_row) (t.row_visible_offset +ℤ count) room in
    elim (Bool-cases (eq_ℤ (scrolled g t.row_visible_offset count) t.row_visible_offset)) [
      | inl e ↦ rw e inside
      | inr e ↦ rw e inside
    ]

within_window-in :
    (size n : ℤ)
    → pos 1 ≤ℤ size
    → (pos 0 ≤ℤ within_window size n) × (within_window size n +ℤ pos 1 ≤ℤ size)
within_window-in size n h = ground (
  arith,
  -ℤ_parts size (pos 1),
  +ℤ_parts n (pos 1),
  +ℤ_parts (pos 0) (pos 1),
  +ℤ_parts (size -ℤ pos 1) (pos 1),
)

-- Wherever the mouse is, outside the window too, and for cells of any size but 0, its position is a cell of
-- the grid, if the window shows rows of the grid and has a row and a column.
pub get_mouse_position-in :
    (fontx fonty : ℕ) (g : Grid) (t : View) (x y : ℤ)
    → 0 < fontx
    → 0 < fonty
    → InGrid g t
    → pos 1 ≤ℤ g.max_row
    → pos 1 ≤ℤ g.max_col
    → (pos 0 ≤ℤ (get_mouse_position fontx fonty g t x y).row)
      × ((get_mouse_position fontx fonty g t x y).row +ℤ pos 1 ≤ℤ g.row_count)
      × (pos 0 ≤ℤ (get_mouse_position fontx fonty g t x y).col)
      × ((get_mouse_position fontx fonty g t x y).col +ℤ pos 1 ≤ℤ g.max_col)
unfolding get_mouse_position
get_mouse_position-in fontx fonty g t x y fx fy (low, high) h k =
    let (r0, r1) = within_window-in g.max_row (div_int y fonty) h in
    let (c0, c1) = within_window-in g.max_col (div_int x fontx) k in
    (omega int_laws, omega int_laws, c0, c1)
