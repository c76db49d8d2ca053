-- ===== src/Window/EventLife.antt =====
-- The mouse's events in src/window-xlib.c as steps of a terminal's life.
use runes.Shared.{
  ltb, ◌==◌, ◌%◌, ◌||◌, ℕ, refl, ◌∙◌, Bool, true, false, not, Option, none, some, if◌then◌else◌,
  ◌&&◌,
}
use runes.Shared.Int.{ℤ, pos}
use runes.Shared.Text.{Bytes}
use runes.Config.Types.{Config}
use runes.Display.Location.{Loc, loc, eq_ℤ}
use runes.Window.Select.{start_selection, update_selection}
use runes.Window.Word.{beginning_of_word, end_of_word}
use runes.Window.State.{
  ScreenLib, Characters, World, Window, Button, left_button, middle_button, right_button, scroll_up,
  scroll_down, no_button, ButtonEvent,
}
use runes.Window.Mouse.{
  XButton, XMotion, select_word, select_clicked, handle_multi_click, builtin_press, builtin_release,
  handle_builtin_button_press, reported, write_response, report_button, wants_button,
  report_or_builtin, handle_button_event, handle_motion_event,
}
use runes.Window.Life.{
  Goes, Goes-same, Goes-trans, Goes-if, write_to_pty-Goes, scroll-Goes, start_selection_loc-Goes,
  update_selection_loc-Goes,
}
use runes.Term.Work.{one_step, restart_click_window_work}
use runes.Term.{window_click, restart_click}

module _ {Pattern : Type 0} (cfg : Config Pattern) (world : World) (lib : ScreenLib)
    (chars : Characters) (fontx fonty : ℕ) where
  abbrev G : Window lib → Window lib → Type 0
  G = Goes cfg world lib

  select_word-Goes :
      (start end : Option Loc) (w : Window lib)
      → G w (select_word cfg world lib chars fontx fonty start end w)
  select_word-Goes none end w = Goes-same cfg world lib w w refl
  select_word-Goes (some start) none w = start_selection_loc-Goes cfg world lib start w
  select_word-Goes (some start) (some end) w =
      Goes-trans cfg world lib w _ _ (start_selection_loc-Goes cfg world lib start w)
        (update_selection_loc-Goes cfg world lib end _)

  select_clicked-Goes :
      (l : Loc) (w : Window lib) → G w (select_clicked cfg world lib chars fontx fonty l w)
  unfolding select_clicked
  select_clicked-Goes l w =
      Goes-if cfg world lib (ltb 1 w.multi_clicks) w _ w
        (Goes-if cfg world lib (w.multi_clicks % 2 == 0) w _ _
          (select_word-Goes (beginning_of_word chars lib w.scr l) (end_of_word chars lib w.scr l) w)
          (Goes-trans cfg world lib w _ _
            (start_selection_loc-Goes cfg world lib (loc l.row (pos 0)) w)
            (update_selection_loc-Goes cfg world lib (loc l.row (lib.vt.max_col w.scr)) _)))
        (Goes-same cfg world lib w w refl)

  click-Goes :
      (w : Window lib) (n : ℕ) → G w (record w { life = restart_click w.life; multi_clicks = n })
  click-Goes w n = record {
    steps = λ h. (
      one_step w.life (restart_click w.life) (window_click w.life h),
      restart_click_window_work w.life ∙ h,
    );
  }

  handle_multi_click-Goes :
      (x y : ℤ) (w : Window lib) → G w (handle_multi_click cfg world lib chars fontx fonty x y w)
  unfolding handle_multi_click
  handle_multi_click-Goes x y w =
      Goes-trans cfg world lib w _ _ (click-Goes w _) (select_clicked-Goes _ _)

  builtin_press-Goes :
      (b : Button) (x y : ℤ) (w : Window lib)
      → G w (builtin_press cfg world lib chars fontx fonty b x y w).0
  unfolding start_selection update_selection
  builtin_press-Goes left_button x y w =
      Goes-trans cfg world lib w _ _ (start_selection_loc-Goes cfg world lib _ w)
        (Goes-same cfg world lib _ _ refl)
  builtin_press-Goes middle_button x y w = Goes-same cfg world lib w _ refl
  builtin_press-Goes right_button x y w = update_selection_loc-Goes cfg world lib _ w
  builtin_press-Goes scroll_up x y w = scroll-Goes cfg world lib _ w
  builtin_press-Goes scroll_down x y w = scroll-Goes cfg world lib _ w
  builtin_press-Goes no_button x y w = Goes-same cfg world lib w w refl

  builtin_release-Goes :
      (b : Button) (x y : ℤ) (w : Window lib)
      → G w (builtin_release cfg world lib chars fontx fonty b x y w).0
  builtin_release-Goes left_button x y w =
      Goes-trans cfg world lib w _ _ (handle_multi_click-Goes x y w)
        (Goes-same cfg world lib _ _ refl)
  builtin_release-Goes middle_button x y w = Goes-same cfg world lib w w refl
  builtin_release-Goes right_button x y w = Goes-same cfg world lib w w refl
  builtin_release-Goes scroll_up x y w = Goes-same cfg world lib w w refl
  builtin_release-Goes scroll_down x y w = Goes-same cfg world lib w w refl
  builtin_release-Goes no_button x y w = Goes-same cfg world lib w w refl

  pub Goes-if_pair :
      (b : Bool) (w : Window lib) (p q : Window lib × Bool)
      → G w p.0
      → G w q.0
      → G w (if b then p else q).0
  Goes-if_pair true w p q f g = f
  Goes-if_pair false w p q f g = g

  handle_builtin-Goes :
      (e : XButton) (w : Window lib)
      → G w (handle_builtin_button_press cfg world lib chars fontx fonty e w).0
  unfolding handle_builtin_button_press
  handle_builtin-Goes e w =
      Goes-if_pair e.released w _ _ (builtin_release-Goes e.button e.x e.y w)
        (builtin_press-Goes e.button e.x e.y w)

  write_response-Goes :
      (response : Bytes) (w : Window lib)
      → G w (write_response cfg world lib chars fontx fonty response w)
  unfolding write_response
  write_response-Goes response w =
      Goes-if cfg world lib _ w _ w (write_to_pty-Goes cfg world lib response w)
        (Goes-same cfg world lib w w refl)

  report_button-Goes :
      (b : Button) (kind : ButtonEvent) (e : XButton) (w : Window lib)
      → G w (report_button cfg world lib chars fontx fonty b kind e w)
  report_button-Goes no_button kind e w = Goes-same cfg world lib w w refl
  report_button-Goes _ kind e w = write_response-Goes _ w

  report_or_builtin-Goes :
      (e : XButton) (w : Window lib) → G w (report_or_builtin cfg world lib chars fontx fonty e w)
  report_or_builtin-Goes e w =
      Goes-if cfg world lib (wants_button cfg world lib chars fontx fonty e w) w _ _
        (report_button-Goes e.button _ e w) (handle_builtin-Goes e w)

  pub handle_button_event-Goes :
      (e : XButton) (w : Window lib) → G w (handle_button_event cfg world lib chars fontx fonty e w)
  unfolding handle_button_event
  handle_button_event-Goes e w =
      let done = handle_builtin_button_press cfg world lib chars fontx fonty e w in
      Goes-if cfg world lib e.state.shift w _ _
        (Goes-if cfg world lib done.1 w _ _ (handle_builtin-Goes e w)
          (Goes-trans cfg world lib w _ _ (handle_builtin-Goes e w) (report_or_builtin-Goes e _)))
        (report_or_builtin-Goes e w)

  pub handle_motion_event-Goes :
      (e : XMotion) (w : Window lib) → G w (handle_motion_event cfg world lib chars fontx fonty e w)
  unfolding handle_motion_event update_selection
  handle_motion_event-Goes e w =
      let l = reported cfg world lib chars fontx fonty w e.x e.y in
      Goes-if cfg world lib
        (lib.wants_any_motion w.scr || lib.wants_button_motion w.scr && w.mouse_down) w _ _
        (Goes-if cfg world lib
          (not (eq_ℤ l.col w.last_reported.col) || not (eq_ℤ l.row w.last_reported.row)) w _ w
          (Goes-trans cfg world lib w _ _ (write_to_pty-Goes cfg world lib _ w)
            (Goes-same cfg world lib _ _ refl))
          (Goes-same cfg world lib w w refl))
        (Goes-if cfg world lib w.mouse_down w _ w (update_selection_loc-Goes cfg world lib _ w)
          (Goes-same cfg world lib w w refl))
