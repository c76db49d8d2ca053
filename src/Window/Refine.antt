-- ===== src/Window/Refine.antt =====
-- The windows of src/window-xlib.c, with all that their handlers change, refine the life of a terminal:
-- each callback of the event loop is a run of steps of it.
use runes.Shared.{
  ◌≡◌, refl, sym, Bool, true, false, not, ◌&&◌, ◌||◌, List, [], ◌∷◌, if◌then◌else◌, ℕ,
}
use runes.Shared.Int.{ℤ, pos}
use runes.Config.Types.{Config}
use runes.Display.Location.{eq_ℤ}
use runes.Window.Keys.{KeyCall, paste, visible_scroll, write_to_pty, handle_key_event}
use runes.Window.State.{ScreenLib, Characters, World, Window}
use runes.Window.Events.{
  Event, key, button, motion_notify, expose, configure, focus, selection_notify, selection_request,
  selection_clear, delete_window, ping, other_message, other_event, key_call, key_calls,
  at_least_one, handle_resize, handle_focus_event, handle_event, event_cb,
}
use runes.Window.Life.{
  Goes, Goes-same, Goes-trans, Goes-from, Goes-if, flush-Goes, write_to_pty-Goes, scroll-Goes,
  handle_selection_notify_event-Goes, handle_selection_clear_event-Goes,
  handle_selection_request_event-Goes,
}
use runes.Window.EventLife.{handle_button_event-Goes, handle_motion_event-Goes}
use runes.Term.Work.{Steps-trans, one_step, close_window_window_work}
use runes.Term.{Steps, stop, window_close, close_window}

module _ {Pattern : Type 0} (cfg : Config Pattern) (world : World) (lib : ScreenLib)
    (chars : Characters) (fontx fonty : ℕ) where
  handle_resize-Goes :
      (width height : ℤ) (w : Window lib)
      → Goes cfg world lib w (handle_resize cfg world lib chars fontx fonty width height w)
  unfolding handle_resize
  handle_resize-Goes width height w =
      Goes-if cfg world lib
        (not (eq_ℤ (at_least_one cfg world lib chars fontx fonty width) (pos 0))
          || not (eq_ℤ (at_least_one cfg world lib chars fontx fonty height) (pos 0)))
        w _ w (Goes-same cfg world lib w _ refl) (Goes-same cfg world lib w w refl)

  handle_focus_event-Goes :
      (focus_in by_pointer : Bool) (w : Window lib)
      → Goes cfg world lib w
          (handle_focus_event cfg world lib chars fontx fonty focus_in by_pointer w)
  unfolding handle_focus_event
  handle_focus_event-Goes focus_in by_pointer w =
      let same = Goes-same cfg world lib w w refl in
      Goes-if cfg world lib by_pointer w w _ same (
        Goes-if cfg world lib (focus_in && not w.unfocused) w w _ same (
          Goes-if cfg world lib (not focus_in && w.unfocused) w w _ same
            (Goes-from cfg world lib w _ _ refl (flush-Goes cfg world lib _))))

  key_call-Goes :
      (call : KeyCall) (w : Window lib)
      → Goes cfg world lib w (key_call cfg world lib chars fontx fonty call w)
  key_call-Goes paste w = Goes-same cfg world lib w _ refl
  key_call-Goes (visible_scroll count) w = scroll-Goes cfg world lib count w
  key_call-Goes (write_to_pty buf) w = write_to_pty-Goes cfg world lib buf w

  key_calls-Goes :
      (calls : List KeyCall) (w : Window lib)
      → Goes cfg world lib w (key_calls cfg world lib chars fontx fonty calls w)
  key_calls-Goes [] w = Goes-same cfg world lib w w refl
  key_calls-Goes (call ∷ calls) w =
      Goes-trans cfg world lib w _ _ (key_call-Goes call w) (key_calls-Goes calls _)

  handle_event-Goes :
      (e : Event) (w : Window lib)
      → Goes cfg world lib w (handle_event cfg world lib chars fontx fonty e w).0
  unfolding handle_event
  handle_event-Goes (key released e looked_up) w =
      key_calls-Goes (handle_key_event (lib.modes w.scr) (lib.max_row w.scr) e released looked_up) w
  handle_event-Goes (button e) w = handle_button_event-Goes cfg world lib chars fontx fonty e w
  handle_event-Goes (motion_notify e) w =
      handle_motion_event-Goes cfg world lib chars fontx fonty e w
  handle_event-Goes expose w = flush-Goes cfg world lib w
  handle_event-Goes (configure of_border width height) w =
      Goes-if cfg world lib of_border w _ w (handle_resize-Goes width height w)
        (Goes-same cfg world lib w w refl)
  handle_event-Goes (focus focus_in by_pointer) w = handle_focus_event-Goes focus_in by_pointer w
  handle_event-Goes (selection_notify e) w = handle_selection_notify_event-Goes cfg world lib e w
  handle_event-Goes (selection_request target) w =
      handle_selection_request_event-Goes cfg world lib target w
  handle_event-Goes selection_clear w = handle_selection_clear_event-Goes cfg world lib w
  handle_event-Goes delete_window w = Goes-same cfg world lib w w refl
  handle_event-Goes ping w = Goes-same cfg world lib w _ refl
  handle_event-Goes other_message w = Goes-same cfg world lib w w refl
  handle_event-Goes other_event w = Goes-same cfg world lib w w refl

  abbrev pub Serves : Window lib → Window lib × Bool → Type 0
  Serves w done = Steps w.life done.0.life × (done.1 ≡ done.0.life.window_work)

  Serves-if :
      (b : Bool) (w : Window lib) (p q : Window lib × Bool)
      → Serves w p
      → Serves w q
      → Serves w (if b then p else q)
  Serves-if true w p q f g = f
  Serves-if false w p q f g = g

  -- Any events that the X connection brings to a window whose callback is in the loop are a run of
  -- steps of its terminal's life; the callback asks to be armed again exactly if it still holds its
  -- reference.
  pub event_cb-Serves :
      (events : List Event) (w : Window lib)
      → w.life.window_work ≡ true
      → Serves w (event_cb cfg world lib chars fontx fonty events w)
  unfolding event_cb
  event_cb-Serves [] w h = (stop w.life, sym h)
  event_cb-Serves (e ∷ events) w h =
      let done = handle_event cfg world lib chars fontx fonty e w in
      let (first, still) = (handle_event-Goes e w).steps h in
      let (rest, armed) = event_cb-Serves events done.0 still in
      Serves-if done.1 w _ _
        (
          Steps-trans w.life done.0.life (close_window done.0.life) first
              (one_step done.0.life (close_window done.0.life) (window_close done.0.life still)),
          sym (close_window_window_work done.0.life),
        )
        (Steps-trans w.life done.0.life _ first rest, armed)
