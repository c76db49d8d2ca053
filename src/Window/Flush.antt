-- ===== src/Window/Flush.antt =====
-- `runes_window_flush` of src/window-xlib.c, with the state that `runes_display_draw_screen` of
-- src/display.c changes, and what flushes a window: writes to the shell, scrolling, and the timers.
use runes.Shared.{◌+◌, Bool, false, if◌then◌else◌}
use runes.Shared.Int.{ℤ, pos}
use runes.Shared.Text.{Bytes}
use runes.Config.Types.{Config}
use runes.Display.Location.{eq_ℤ}
use runes.Display.Selection.{maybe_clear_selection}
use runes.Window.View.{View, visible_scroll, write_to_pty_view}
use runes.Window.Clock.{rate_before, earlier}
use runes.Window.State.{
  ScreenLib, World, Window, redraw, set_title, set_icon_name, pty_write, emit, grid_of,
}
use runes.Term.{Pace, no_rate, early, late, is_recent, after_check, ring_audible, ring_visual}

module _ {Pattern : Type 0} (cfg : Config Pattern) (world : World) (lib : ScreenLib) where
  -- The answer that the clock gives next; it is not used where the source does not ask.
  abbrev pub pace_of : Window lib → Pace
  pace_of w =
      if eq_ℤ cfg.redraw_rate (pos 0)
      then no_rate
      else if earlier (rate_before cfg.redraw_rate (world.clock w.asked)) w.last_redraw
      then early
      else late

  abbrev pub draw_screen : Window lib → Window lib
  draw_screen w =
      let cleared =
        if w.scr_dirty then maybe_clear_selection lib.vt w.scr w.selection else w.selection in
      emit lib redraw (record w { scr_dirty = false; selection = record cleared { dirty = false } })

  abbrev pub flush_titles : Window lib → Window lib
  flush_titles w =
      let titled = if w.update_title then emit lib set_title w else w in
      let named = if w.update_icon_name then emit lib set_icon_name titled else titled in
      record named { update_title = false; update_icon_name = false }

  -- The drawing, and the time of it, which is the next answer of the clock.
  abbrev pub flush_drawing : Window lib → Window lib
  flush_drawing w =
      if w.life.visual_bell_is_ringing
      then w
      else record (draw_screen w) { last_redraw = world.clock (w.asked + 1); asked = w.asked + 2 }

  unfoldable pub flush : Window lib → Window lib
  flush w =
      if is_recent (pace_of w) w.life
      then record w { life = after_check (pace_of w) w.life; asked = w.asked + 1 }
      else flush_drawing
          (flush_titles (record w { life = ring_visual (ring_audible cfg.audible_bell w.life) }))

  -- A window whose view has changed is flushed if the change says so.
  abbrev pub after_view : Window lib → View × Bool → Window lib
  after_view w (view, flushes) =
      let w' = record w {
        row_visible_offset = view.row_visible_offset;
        selection = record w.selection { dirty = view.dirty };
      } in
      if flushes then flush w' else w'

  abbrev pub view_of : Window lib → View
  view_of w = record { row_visible_offset = w.row_visible_offset; dirty = w.selection.dirty }

  unfoldable pub write_to_pty : Bytes → Window lib → Window lib
  unfolding flush write_to_pty_view
  write_to_pty buf w = after_view (emit lib (pty_write buf) w) (write_to_pty_view (view_of w))

  unfoldable pub scroll : ℤ → Window lib → Window lib
  unfolding flush visible_scroll
  scroll count w = after_view w (visible_scroll (grid_of lib w.scr) (view_of w) count)
