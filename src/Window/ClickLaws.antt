-- ===== src/Window/ClickLaws.antt =====
-- How many clicks a release of the mouse counts for in src/window-xlib.c.
use runes.Shared.{
  ℕ, ◌+◌, ◌%◌, ◌^◌, ◌≡◌, refl, ◌∙◌, ap, Bool, true, false, Option, none, some, arith, if◌then◌else◌,
  ltb, ◌==◌,
}
use native.Mathlib.Nat.{mod-add-mod, add_assoc}
use runes.Shared.Int.{ℤ, pos}
use runes.Config.Types.{Config}
use runes.Display.Location.{Loc, loc}
use runes.Window.Keys.{Modifiers}
use runes.Window.State.{ScreenLib, Characters, World, Window, left_button}
use runes.Window.Flush.{pace_of, flush_titles, flush_drawing, flush}
use runes.Term.{restart_click, is_recent, ring_audible, ring_visual}
use runes.Window.Select.{mouse, start_selection_loc, acquire_selection, update_selection_loc}
use runes.Window.Word.{beginning_of_word, end_of_word}
use runes.Window.Mouse.{
  XButton, select_word, select_clicked, handle_multi_click, handle_builtin_button_press,
  report_or_builtin, handle_button_event,
}

module _ {Pattern : Type 0} (cfg : Config Pattern) (world : World) (lib : ScreenLib)
    (chars : Characters) (fontx fonty : ℕ) where
  -- The screen and the count of clicks stay.
  record Keeps (w w' : Window lib) : Type 0 where
    same_scr : w'.scr ≡ w.scr
    same_clicks : w'.multi_clicks ≡ w.multi_clicks

  Keeps-same : (w : Window lib) → Keeps w w
  Keeps-same w = record { same_scr = refl; same_clicks = refl }

  Keeps-trans : (u v w : Window lib) → Keeps u v → Keeps v w → Keeps u w
  Keeps-trans u v w f g = record {
    same_scr = g.same_scr ∙ f.same_scr;
    same_clicks = g.same_clicks ∙ f.same_clicks;
  }

  Keeps-from :
      (u v w : Window lib) → v.scr ≡ u.scr → v.multi_clicks ≡ u.multi_clicks → Keeps v w → Keeps u w
  Keeps-from u v w a b f = Keeps-trans u v w (record { same_scr = a; same_clicks = b }) f

  Keeps-if : (b : Bool) (u v w : Window lib) → Keeps u v → Keeps u w → Keeps u (if b then v else w)
  Keeps-if true u v w f g = f
  Keeps-if false u v w f g = g

  flush_titles-Keeps : (w : Window lib) → Keeps w (flush_titles cfg world lib w)
  flush_titles-Keeps w = record { same_scr = ground arith; same_clicks = ground arith }

  flush_drawing-Keeps : (w : Window lib) → Keeps w (flush_drawing cfg world lib w)
  flush_drawing-Keeps w =
      Keeps-if w.life.visual_bell_is_ringing w w _ (Keeps-same w)
        (record { same_scr = refl; same_clicks = refl })

  flush-Keeps : (w : Window lib) → Keeps w (flush cfg world lib w)
  unfolding flush
  flush-Keeps w =
      let rung = record w { life = ring_visual (ring_audible cfg.audible_bell w.life) } in
      let titled = flush_titles cfg world lib rung in
      Keeps-if (is_recent (pace_of cfg world lib w) w.life) w _ _
        (record { same_scr = refl; same_clicks = refl })
        (Keeps-trans w titled (flush_drawing cfg world lib titled)
          (Keeps-trans w rung titled (record { same_scr = refl; same_clicks = refl })
            (flush_titles-Keeps rung))
          (flush_drawing-Keeps titled))

  start_selection_loc-Keeps :
      (l : Loc) (w : Window lib) → Keeps w (start_selection_loc cfg world lib l w)
  unfolding start_selection_loc
  start_selection_loc-Keeps l w = Keeps-from w _ _ refl refl (flush-Keeps _)

  acquire_selection-Keeps : (w : Window lib) → Keeps w (acquire_selection cfg world lib w)
  unfolding acquire_selection
  acquire_selection-Keeps w = record { same_scr = ground arith; same_clicks = ground arith }

  update_selection_loc-Keeps :
      (l : Loc) (w : Window lib) → Keeps w (update_selection_loc cfg world lib l w)
  unfolding update_selection_loc
  update_selection_loc-Keeps l w = Keeps-if _ w w _ (Keeps-same w) (
      Keeps-if _ w _ w
        (Keeps-trans w (acquire_selection cfg world lib w) _ (acquire_selection-Keeps w)
          (Keeps-from _ _ _ refl refl (flush-Keeps _)))
        (Keeps-same w))

  select_word-Keeps :
      (start end : Option Loc) (w : Window lib)
      → Keeps w (select_word cfg world lib chars fontx fonty start end w)
  select_word-Keeps none end w = Keeps-same w
  select_word-Keeps (some start) none w = start_selection_loc-Keeps start w
  select_word-Keeps (some start) (some end) w =
      Keeps-trans w _ _ (start_selection_loc-Keeps start w) (update_selection_loc-Keeps end _)

  select_clicked-Keeps :
      (l : Loc) (w : Window lib) → Keeps w (select_clicked cfg world lib chars fontx fonty l w)
  unfolding select_clicked
  select_clicked-Keeps l w =
      Keeps-if (ltb 1 w.multi_clicks) w _ w
        (Keeps-if (w.multi_clicks % 2 == 0) w _ _
          (select_word-Keeps (beginning_of_word chars lib w.scr l) (end_of_word chars lib w.scr l)
            w)
          (Keeps-trans w _ _ (start_selection_loc-Keeps (loc l.row (pos 0)) w)
            (update_selection_loc-Keeps (loc l.row (lib.vt.max_col w.scr)) _)))
        (Keeps-same w)

  handle_multi_click_lem :
      (x y : ℤ) (w : Window lib)
      → ((handle_multi_click cfg world lib chars fontx fonty x y w).scr ≡ w.scr)
        × ((handle_multi_click cfg world lib chars fontx fonty x y w).multi_clicks
            ≡ (w.multi_clicks + 1) % 2 ^ 32)
  unfolding handle_multi_click
  handle_multi_click_lem x y w =
      let clicked = record w {
        life = restart_click w.life;
        multi_clicks = (w.multi_clicks + 1) % 2 ^ 32;
      } in
      let kept = select_clicked-Keeps (mouse cfg world lib fontx fonty clicked x y) clicked in
      (kept.same_scr, kept.same_clicks)

  abbrev pub release_left : ℤ → ℤ → Modifiers → XButton
  release_left x y state = record {
    released = true;
    button = left_button;
    x = x;
    y = y;
    state = state;
  }

  abbrev clicked : ℤ → ℤ → Window lib → Window lib
  clicked x y w = record (handle_multi_click cfg world lib chars fontx fonty x y w) {
    mouse_down = false;
  }

  unreported :
      (x y : ℤ) (state : Modifiers) (w : Window lib)
      → lib.wants_button_release w.scr ≡ false
      → report_or_builtin cfg world lib chars fontx fonty (release_left x y state) w ≡ clicked x y w
  unfolding handle_builtin_button_press
  unreported x y state w unwanted = rw unwanted refl

  -- A release of the first button, of which the shell does not want to be told, counts one click; with
  -- shift it counts two. The count wraps as an unsigned int.
  pub handle_button_event-clicks :
      (x y : ℤ) (shift control mod1 : Bool) (w : Window lib)
      → lib.wants_button_release w.scr ≡ false
      → (handle_button_event cfg world lib chars fontx fonty
          (release_left x y (record { shift = shift; control = control; mod1 = mod1 }))
          w).multi_clicks
        ≡ (w.multi_clicks + (if shift then 2 else 1)) % 2 ^ 32
  unfolding handle_button_event handle_builtin_button_press
  handle_button_event-clicks x y false control mod1 w unwanted =
      ap (λ u. u.multi_clicks) (unreported x y _ w unwanted) ∙ (handle_multi_click_lem x y w).1
  handle_button_event-clicks x y true control mod1 w unwanted =
      let (same, once) = handle_multi_click_lem x y w in
      let twice = (handle_multi_click_lem x y (clicked x y w)).1 in
      ap (λ u. u.multi_clicks)
        (unreported x y _ (clicked x y w) (ap lib.wants_button_release same ∙ unwanted))
      ∙ twice
      ∙ ap (λ n. (n + 1) % 2 ^ 32) once
      ∙ mod-add-mod (w.multi_clicks + 1) (2 ^ 32) 1
      ∙ ap (λ n. n % 2 ^ 32) (add_assoc w.multi_clicks 1 1)
