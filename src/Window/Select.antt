-- ===== src/Window/Select.antt =====
-- The selection in src/window-xlib.c: making it, changing its end, and owning it under X.
use runes.Shared.{ℕ, ◌+◌, true, false, not, ◌||◌, Option, none, some, ◌∷◌, if◌then◌else◌}
use runes.Shared.Int.{ℤ}
use runes.Shared.Text.{Bytes, codes}
use runes.Config.Types.{Config}
use runes.Display.Location.{Loc, eq_ℤ}
use runes.Display.Selection.{set_selection}
use runes.Window.View.{get_mouse_position}
use runes.Window.State.{
  ScreenLib, World, Window, Effect, own_selection, clear_old_owner, send_targets, send_text,
  refuse_selection, answer_only, convert_to_string, emit, grid_of,
}
use runes.Window.Flush.{flush, write_to_pty, view_of}

-- What a request for the selection asks for.
pub data Target : Type 0 where
  targets string utf8_string other_target : Target

-- What X says of a selection that was asked for: refused, as UTF-8 or as another type, or there.
pub data Notified : Type 0 where
  no_property : Target → Notified
  property : Bytes → Notified

module _ {Pattern : Type 0} (cfg : Config Pattern) (world : World) (lib : ScreenLib) where
  unfoldable pub start_selection_loc : Loc → Window lib → Window lib
  unfolding flush
  start_selection_loc start w =
      flush cfg world lib
        (record w { selection = set_selection lib.vt w.scr w.selection start start })

  -- The two questions are whether X gives the selection away, and whether the window had it.
  unfoldable pub acquire_selection : Window lib → Window lib
  acquire_selection w =
      let asked = record w { asked = w.asked + 1 } in
      if w.owns_selection
      then w
      else if world.grants w.asked
      then (let owner = record (emit lib own_selection asked) { owns_selection = true } in
          if world.was_owner w.asked then owner else emit lib clear_old_owner owner)
      else emit lib own_selection asked

  unfoldable pub update_selection_loc : Loc → Window lib → Window lib
  unfolding flush acquire_selection
  update_selection_loc end w =
      if not w.selection.has_selection
      then w
      else if not (eq_ℤ w.selection.selection_end.row end.row)
          || not (eq_ℤ w.selection.selection_end.col end.col)
      then (let own = acquire_selection w in
          flush cfg world lib (record own {
            selection =
                set_selection lib.vt own.scr own.selection own.selection.selection_start end;
          }))
      else w

  -- `fontx` and `fonty` are the display's.
  module _ (fontx fonty : ℕ) where
    abbrev pub mouse : Window lib → ℤ → ℤ → Loc
    mouse w xpixel ypixel =
        get_mouse_position fontx fonty (grid_of lib w.scr) (view_of cfg world lib w) xpixel ypixel

    unfoldable pub start_selection : ℤ → ℤ → Window lib → Window lib
    unfolding start_selection_loc
    start_selection xpixel ypixel w = start_selection_loc (mouse w xpixel ypixel) w

    unfoldable pub update_selection : ℤ → ℤ → Window lib → Window lib
    unfolding update_selection_loc
    update_selection xpixel ypixel w = update_selection_loc (mouse w xpixel ypixel) w

  abbrev pub bracketed : Bytes → Window lib → Window lib
  bracketed code w = if lib.bracketed_paste w.scr then write_to_pty cfg world lib code w else w

  -- The codes are "\\033[200~" and "\\033[201~".
  unfoldable pub handle_selection_notify_event : Notified → Window lib → Window lib
  unfolding write_to_pty
  handle_selection_notify_event (no_property utf8_string) w = emit lib convert_to_string w
  handle_selection_notify_event (no_property targets) w = w
  handle_selection_notify_event (no_property string) w = w
  handle_selection_notify_event (no_property other_target) w = w
  handle_selection_notify_event (property buf) w =
      bracketed (27 ∷ codes "[201~")
        (write_to_pty cfg world lib buf (bracketed (27 ∷ codes "[200~") w))

  unfoldable pub handle_selection_clear_event : Window lib → Window lib
  unfolding flush
  handle_selection_clear_event w = flush cfg world lib (record w {
    selection = record w.selection { has_selection = false; dirty = true };
    owns_selection = false;
  })

  -- Without contents nothing is sent but the answer itself, as for a text.
  abbrev pub text_answer : Option Bytes → ℕ → Effect
  text_answer none len = answer_only
  text_answer (some text) len = send_text text len

  unfoldable pub handle_selection_request_event : Target → Window lib → Window lib
  handle_selection_request_event targets w = emit lib send_targets w
  handle_selection_request_event string w =
      emit lib (text_answer w.selection.selection_contents w.selection.selection_len) w
  handle_selection_request_event utf8_string w =
      emit lib (text_answer w.selection.selection_contents w.selection.selection_len) w
  handle_selection_request_event other_target w = emit lib refuse_selection w
