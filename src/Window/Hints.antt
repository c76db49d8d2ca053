-- ===== src/Window/Hints.antt =====
-- The size hints of `runes_window_create_window` in src/window-xlib.c, and what a window manager that
-- keeps to them makes of a terminal.
use native.Mathlib.Nat.{mul-div_cancel_left}
use runes.Shared.{ℕ, suc, ◌+◌, ◌*◌, ◌<◌, ◌≡◌, refl, sym, ◌∙◌, [], ◌∷◌, ◌++◌, arith, false}
use runes.Shared.Int.{ℤ, pos, ◌+ℤ◌, ◌-ℤ◌, ◌*ℤ◌}
use runes.Config.Types.{Config}
use runes.Display.Location.{eq_ℤ}
use runes.Window.State.{ScreenLib, Characters, World, Window, resize_window, set_pty_size}
use runes.Window.Events.{set_window_size, at_least_one, handle_resize}

-- XSizeHints, as far as it is set.
pub record SizeHints : Type 0 where
  pub min_width : ℤ
  pub min_height : ℤ
  pub width_inc : ℤ
  pub height_inc : ℤ
  pub base_width : ℤ
  pub base_height : ℤ

module _ {Pattern : Type 0} (cfg : Config Pattern) (fontx fonty : ℕ) where
  abbrev pub normal_hints : SizeHints
  normal_hints = record {
    min_width = pos fontx +ℤ pos 4;
    min_height = pos fonty +ℤ pos 4;
    width_inc = pos fontx;
    height_inc = pos fonty;
    base_width = pos fontx *ℤ cfg.default_cols +ℤ pos 4;
    base_height = pos fonty *ℤ cfg.default_rows +ℤ pos 4;
  }

  -- A size that is so many steps above the least.
  abbrev pub hinted_width : ℕ → ℤ
  hinted_width i = normal_hints.min_width +ℤ pos i *ℤ normal_hints.width_inc

  abbrev pub hinted_height : ℕ → ℤ
  hinted_height j = normal_hints.min_height +ℤ pos j *ℤ normal_hints.height_inc

hinted : (font i : ℕ) → pos font +ℤ pos 4 +ℤ pos i *ℤ pos font ≡ pos (font * suc i + 4)
unfolding ◌+ℤ◌ ◌*ℤ◌
hinted font i = ground arith

less_border : (n : ℕ) → pos (n + 4) -ℤ pos 4 ≡ pos n
unfolding ◌-ℤ◌
less_border n = ground arith

base : (font n : ℕ) → pos font *ℤ pos (suc n) +ℤ pos 4 ≡ pos (font * suc n + 4)
unfolding ◌+ℤ◌ ◌*ℤ◌
base font n = ground arith

module _ {Pattern : Type 0} (cfg : Config Pattern) (world : World) (lib : ScreenLib)
    (chars : Characters) (fontx fonty : ℕ) where
  within :
      (n : ℕ)
      → n + 4 < 65535
      → at_least_one cfg world lib chars fontx fonty (pos (n + 4)) ≡ pos (n + 4)
  within n h = ground arith

  not_zero : (n : ℕ) → eq_ℤ (pos (n + 4)) (pos 0) ≡ false
  not_zero n = ground arith

  -- What the screen and the shell are told of a size of so many rows and columns.
  abbrev pub Told : Window lib → ℕ → ℕ → Window lib → Type 0
  Told w cols rows w' =
      (w'.scr ≡ lib.set_window_size w.scr (pos rows) (pos cols))
      × (w'.log
          ≡ (w.log ++ resize_window (pos (fontx * cols)) (pos (fonty * rows)) ∷ [])
            ++ set_pty_size (pos rows) (pos cols) (pos (fontx * cols)) (pos (fonty * rows)) ∷ [])

  whole_cells :
      (cols rows : ℕ) (w : Window lib)
      → 0 < fontx
      → 0 < fonty
      → fontx * cols + 4 < 65535
      → fonty * rows + 4 < 65535
      → Told w cols rows (
          handle_resize cfg world lib chars fontx fonty
            (pos (fontx * cols + 4))
            (pos (fonty * rows + 4))
            w)
  unfolding handle_resize set_window_size
  whole_cells cols rows w hx hy wide high =
      let width = fontx * cols in
      let height = fonty * rows in
      rw
        (
          within width wide,
          within height high,
          not_zero width,
          less_border width,
          less_border height,
          mul-div_cancel_left cols hx,
          mul-div_cancel_left rows hy,
        )
        (refl, refl)

  -- A window whose size is i and j steps of the hints above the least, and below the size that Xlib
  -- makes of 0, has i + 1 columns and j + 1 rows after it is resized, and no pixel is left over; the
  -- screen is told so, and the shell behind the window itself. The size of a new window with
  -- cols + 1 columns and rows + 1 rows is cols and rows steps above the least.
  pub handle_resize-hints :
      (i j cols rows : ℕ) (w : Window lib)
      → 0 < fontx
      → 0 < fonty
      → fontx * suc i + 4 < 65535
      → fonty * suc j + 4 < 65535
      → cfg.default_cols ≡ pos (suc cols)
      → cfg.default_rows ≡ pos (suc rows)
      → Told w (suc i) (suc j) (
          handle_resize cfg world lib chars fontx fonty
            (hinted_width cfg fontx fonty i)
            (hinted_height cfg fontx fonty j)
            w)
        × ((normal_hints cfg fontx fonty).base_width ≡ hinted_width cfg fontx fonty cols)
        × ((normal_hints cfg fontx fonty).base_height ≡ hinted_height cfg fontx fonty rows)
  handle_resize-hints i j cols rows w hx hy wide high c r =
      let told = whole_cells (suc i) (suc j) w hx hy wide high in
      (
        rw (hinted fontx i, hinted fonty j) told,
        rw c (base fontx cols ∙ sym (hinted fontx cols)),
        rw r (base fonty rows ∙ sym (hinted fonty rows)),
      )
