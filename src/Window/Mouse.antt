-- ===== src/Window/Mouse.antt =====
-- The mouse in src/window-xlib.c: clicks, buttons and motion.
use runes.Shared.{
  ℕ, ◌+◌, ◌%◌, ◌^◌, Bool, true, false, not, ◌&&◌, ◌||◌, Option, none, some, ltb, ◌==◌,
  if◌then◌else◌, length,
}
use runes.Shared.Int.{ℤ, pos, ◌-ℤ◌}
use runes.Shared.Text.{Bytes}
use runes.Config.Types.{Config}
use runes.Display.Location.{Loc, loc, eq_ℤ}
use runes.Window.Keys.{Modifiers}
use runes.Window.State.{
  ScreenLib, Characters, World, Window, Button, left_button, middle_button, right_button, scroll_up,
  scroll_down, no_button, ButtonEvent, press, release, motion, convert_selection, emit,
}
use runes.Window.Flush.{write_to_pty, scroll}
use runes.Window.Select.{
  start_selection_loc, update_selection_loc, start_selection, update_selection, mouse,
}
use runes.Window.Word.{beginning_of_word, end_of_word}
use runes.Term.{restart_click}

-- XButtonEvent: pressed or released, which of the five buttons or another, and where.
pub record XButton : Type 0 where
  pub released : Bool
  pub button : Button
  pub x : ℤ
  pub y : ℤ
  pub state : Modifiers

-- XMotionEvent: the first button that its state holds.
pub record XMotion : Type 0 where
  pub held : Button
  pub x : ℤ
  pub y : ℤ
  pub state : Modifiers

module _ {Pattern : Type 0} (cfg : Config Pattern) (world : World) (lib : ScreenLib)
    (chars : Characters) (fontx fonty : ℕ) where
  -- From the word's beginning to its end; the loops find both.
  abbrev pub select_word : Option Loc → Option Loc → Window lib → Window lib
  select_word none end w = w
  select_word (some start) none w = start_selection_loc cfg world lib start w
  select_word (some start) (some end) w =
      update_selection_loc cfg world lib end (start_selection_loc cfg world lib start w)

  abbrev pub select_line : Loc → Window lib → Window lib
  select_line l w =
      update_selection_loc cfg world lib (loc l.row (lib.vt.max_col w.scr))
        (start_selection_loc cfg world lib (loc l.row (pos 0)) w)

  unfoldable pub select_clicked : Loc → Window lib → Window lib
  select_clicked l w =
      if ltb 1 w.multi_clicks
      then (if w.multi_clicks % 2 == 0
          then select_word (beginning_of_word chars lib w.scr l) (end_of_word chars lib w.scr l) w
          else select_line l w)
      else w

  unfoldable pub handle_multi_click : ℤ → ℤ → Window lib → Window lib
  handle_multi_click x y w =
      let clicked = record w {
        life = restart_click w.life;
        multi_clicks = (w.multi_clicks + 1) % 2 ^ 32;
      } in
      select_clicked (mouse cfg world lib fontx fonty clicked x y) clicked

  -- The switch on a button that is pressed, with the value that it returns.
  abbrev pub builtin_press : Button → ℤ → ℤ → Window lib → Window lib × Bool
  builtin_press left_button x y w =
      (record (start_selection cfg world lib fontx fonty x y w) { mouse_down = true }, true)
  builtin_press middle_button x y w = (emit lib convert_selection w, true)
  builtin_press right_button x y w = (update_selection cfg world lib fontx fonty x y w, true)
  builtin_press scroll_up x y w = (scroll cfg world lib cfg.scroll_lines w, true)
  builtin_press scroll_down x y w = (scroll cfg world lib (pos 0 -ℤ cfg.scroll_lines) w, true)
  builtin_press no_button x y w = (w, false)

  abbrev pub builtin_release : Button → ℤ → ℤ → Window lib → Window lib × Bool
  builtin_release left_button x y w =
      (record (handle_multi_click x y w) { mouse_down = false }, false)
  builtin_release other x y w = (w, false)

  unfoldable pub handle_builtin_button_press : XButton → Window lib → Window lib × Bool
  unfolding handle_multi_click start_selection update_selection scroll
  handle_builtin_button_press e w =
      if e.released then builtin_release e.button e.x e.y w else builtin_press e.button e.x e.y w

  -- The location that the shell is told, from the top of the window.
  abbrev pub reported : Window lib → ℤ → ℤ → Loc
  reported w x y =
      let l = mouse cfg world lib fontx fonty w x y in loc (l.row -ℤ lib.row_top w.scr) l.col

  unfoldable pub write_response : Bytes → Window lib → Window lib
  write_response response w =
      if ltb 0 (length response) && ltb (length response) 32
      then write_to_pty cfg world lib response w
      else w

  -- A button that is none of the five is not reported.
  abbrev pub report_button : Button → ButtonEvent → XButton → Window lib → Window lib
  report_button no_button kind e w = w
  report_button pressed kind e w =
      write_response
        (lib.format_mouse_reporting_response w.scr (reported w e.x e.y) kind pressed e.state) w

  abbrev pub wants_button : XButton → Window lib → Bool
  wants_button e w =
      if e.released then lib.wants_button_release w.scr else lib.wants_button_press w.scr

  abbrev pub report_or_builtin : XButton → Window lib → Window lib
  report_or_builtin e w =
      if wants_button e w
      then report_button e.button (if e.released then release else press) e w
      else (handle_builtin_button_press e w).0

  -- With shift, the program's own handler goes first.
  unfoldable pub handle_button_event : XButton → Window lib → Window lib
  unfolding handle_builtin_button_press write_to_pty
  handle_button_event e w =
      if e.state.shift
      then (let (w', handled) = handle_builtin_button_press e w in
          if handled then w' else report_or_builtin e w')
      else report_or_builtin e w

  -- Motion is reported when the mouse comes to another cell; a response that does not fit is not
  -- told apart here.
  abbrev pub report_motion : Loc → XMotion → Window lib → Window lib
  report_motion l e w =
      if not (eq_ℤ l.col w.last_reported.col) || not (eq_ℤ l.row w.last_reported.row)
      then record (write_to_pty cfg world lib
          (lib.format_mouse_reporting_response w.scr l motion e.held e.state) w) {
            last_reported = l;
          }
      else w

  unfoldable pub handle_motion_event : XMotion → Window lib → Window lib
  unfolding write_to_pty update_selection
  handle_motion_event e w =
      if lib.wants_any_motion w.scr || lib.wants_button_motion w.scr && w.mouse_down
      then report_motion (reported w e.x e.y) e w
      else if w.mouse_down
      then update_selection cfg world lib fontx fonty e.x e.y w
      else w
