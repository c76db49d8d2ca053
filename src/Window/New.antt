-- ===== src/Window/New.antt =====
-- A new terminal: `runes_term_new` of src/term.c, with `runes_window_new`, the sizes of
-- `runes_window_create_window` and `runes_window_get_size` of src/window-xlib.c.
use native.Mathlib.Nat.{mul-add-div, div-eq_of_lt}
use runes.Shared.{ℕ, ◌+◌, ◌*◌, ◌/◌, ◌<◌, ◌≡◌, refl, ◌∙◌, ap, false, none, [], ◌∷◌, arith}
use runes.Shared.Int.{ℤ, pos, negsuc, ◌+ℤ◌, ◌*ℤ◌}
use runes.Config.Types.{Config}
use runes.Display.Location.{loc}
use runes.Window.State.{
  ScreenLib, Characters, World, Window, set_title, set_icon_name, set_pty_size, emit,
}
use runes.Window.Loop.{Shown, show}
use runes.Window.Events.{set_window_size}
use runes.Term.{register_with_loop, new_term}

-- vt100_screen_new and vt100_screen_set_scrollback_length.
pub record NewScreen (lib : ScreenLib) : Type 0 where
  pub screen_new : ℤ → ℤ → Shown lib
  pub set_scrollback_length : lib.vt.Screen → ℤ → lib.vt.Screen

module _ {Pattern : Type 0} (cfg : Config Pattern) (world : World) (lib : ScreenLib)
    (chars : Characters) (fontx fonty : ℕ) (new : NewScreen lib) where
  -- The window and the display are calloc'ed.
  abbrev pub window_new : Shown lib → Window lib
  window_new s = show lib s (record {
    life = new_term;
    scr = s.scr;
    scr_dirty = false;
    update_title = false;
    update_icon_name = false;
    selection = record {
      has_selection = false;
      selection_start = loc (pos 0) (pos 0);
      selection_end = loc (pos 0) (pos 0);
      selection_contents = none;
      selection_len = 0;
      dirty = false;
    };
    row_visible_offset = pos 0;
    unfocused = false;
    mouse_down = false;
    owns_selection = false;
    multi_clicks = 0;
    last_reported = loc (negsuc 0) (negsuc 0);
    last_redraw = record { tv_sec = pos 0; tv_nsec = pos 0 };
    asked = 0;
    log = [];
  })

  -- The size hints, which are the size of the surface too.
  abbrev pub base_width : ℤ
  base_width = pos fontx *ℤ cfg.default_cols +ℤ pos 4

  abbrev pub base_height : ℤ
  base_height = pos fonty *ℤ cfg.default_rows +ℤ pos 4

  abbrev pub create_window : Window lib → Window lib
  create_window w = emit lib set_title (emit lib set_icon_name w)

  abbrev pub with_scrollback : Window lib → Window lib
  with_scrollback w = record w { scr = new.set_scrollback_length w.scr cfg.scrollback_length }

  unfoldable pub term_new : Window lib
  unfolding set_window_size
  term_new = set_window_size cfg world lib chars fontx fonty base_width base_height (
      create_window
        (with_scrollback (window_new (new.screen_new cfg.default_rows cfg.default_cols))))

  abbrev pub registered : Window lib → Window lib
  registered w = record w { life = register_with_loop w.life }

  base_size : (font n : ℕ) → pos font *ℤ pos n +ℤ pos 4 ≡ pos (font * n + 4)
  unfolding ◌*ℤ◌ ◌+ℤ◌
  base_size font n = ground arith

  cells_of_base : (font n : ℕ) → 4 < font → (font * n + 4) / font ≡ n
  cells_of_base font n h = mul-add-div (omega arith) n 4 ∙ ap (◌+◌ n) (div-eq_of_lt h) ∙ omega arith

  -- A new terminal of default_rows rows and default_cols columns, whose cells are larger than the
  -- four pixels of the border, has this size, and tells it to the screen and, behind the two titles,
  -- to the shell, with pixels that are those of the cells and of the border.
  pub term_new_size :
      (rows cols : ℕ)
      → cfg.default_rows ≡ pos rows
      → cfg.default_cols ≡ pos cols
      → 4 < fontx
      → 4 < fonty
      → (term_new.log
          ≡ set_icon_name
            ∷ set_title
            ∷ set_pty_size (pos rows) (pos cols) (pos (fontx * cols + 4)) (pos (fonty * rows + 4))
            ∷ [])
        × (term_new.scr
            ≡ lib.set_window_size
                (new.set_scrollback_length
                  (new.screen_new (pos rows) (pos cols)).scr
                  cfg.scrollback_length)
                (pos rows)
                (pos cols))
  unfolding term_new set_window_size
  term_new_size rows cols h k wide high =
      rw
        (
          h,
          k,
          base_size fontx cols,
          base_size fonty rows,
          cells_of_base fontx cols wide,
          cells_of_base fonty rows high,
        )
        (refl, refl)
