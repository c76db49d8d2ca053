-- ===== src/Window/Events.antt =====
-- The events of src/window-xlib.c: `runes_window_handle_event` and its loop, the handlers that are not in
-- other modules, and the timers' callbacks.
use runes.Shared.{ℕ, ◌-◌, Bool, true, false, not, ◌&&◌, ◌||◌, List, [], ◌∷◌, if◌then◌else◌}
use runes.Shared.Int.{ℤ, pos, ltb_ℤ, ◌-ℤ◌}
use runes.Config.Types.{Config}
use runes.Display.Location.{eq_ℤ, leb_ℤ}
use runes.Display.Selection.{maybe_clear_selection}
use runes.Window.Keys.{
  Modifiers, KeyCall, paste, visible_scroll, write_to_pty, Lookup, handle_key_event,
}
use runes.Window.State.{
  ScreenLib, Characters, World, Window, convert_selection, hang_up, resize_window, set_pty_size,
  pong, emit,
}
use runes.Window.View.{div_int}
use runes.Window.Flush
use runes.Window.Flush.{flush}
use runes.Window.Select.{
  Target, Notified, handle_selection_notify_event, handle_selection_clear_event,
  handle_selection_request_event,
}
use runes.Window.Mouse.{XButton, XMotion, handle_button_event, handle_motion_event}
use runes.Term.{refcnt_dec, close_window, multi_click_cb as end_clicks}

-- What the handler looks at in an event that XFilterEvent lets through. A key event carries what Xlib
-- makes of it, and a configure event the last size of those that are queued.
pub data Event : Type 0 where
  key : Bool → Modifiers → Lookup → Event
  button : XButton → Event
  motion_notify : XMotion → Event
  expose : Event
  configure : Bool → ℤ → ℤ → Event
  focus : Bool → Bool → Event
  selection_notify : Notified → Event
  selection_request : Target → Event
  selection_clear : Event
  delete_window ping other_message other_event : Event

module _ {Pattern : Type 0} (cfg : Config Pattern) (world : World) (lib : ScreenLib)
    (chars : Characters) (fontx fonty : ℕ) where
  abbrev pub key_call : KeyCall → Window lib → Window lib
  key_call paste w = emit lib convert_selection w
  key_call (visible_scroll count) w = Flush.scroll cfg world lib count w
  key_call (write_to_pty buf) w = Flush.write_to_pty cfg world lib buf w

  abbrev pub key_calls : List KeyCall → Window lib → Window lib
  key_calls [] w = w
  key_calls (call ∷ calls) w = key_calls calls (key_call call w)

  abbrev pub at_least_one : ℤ → ℤ
  at_least_one n = if ltb_ℤ n (pos 1) || leb_ℤ (pos 65535) n then pos 1 else n

  -- `runes_term_set_window_size` of src/term.c; what the display keeps of it is the size of its
  -- buffer of glyphs.
  unfoldable pub set_window_size : ℤ → ℤ → Window lib → Window lib
  set_window_size xpixel ypixel w =
      let row = div_int ypixel fonty in
      let col = div_int xpixel fontx in
      record (emit lib (set_pty_size row col xpixel ypixel) w) {
        scr = lib.set_window_size w.scr row col;
      }

  -- The size that it is compared with is never set, and stays 0.
  unfoldable pub handle_resize : ℤ → ℤ → Window lib → Window lib
  unfolding set_window_size
  handle_resize width height w =
      let dwidth = at_least_one width -ℤ pos 4 in
      let dheight = at_least_one height -ℤ pos 4 in
      if not (eq_ℤ (at_least_one width) (pos 0)) || not (eq_ℤ (at_least_one height) (pos 0))
      then (let resized =
            set_window_size dwidth dheight (emit lib (resize_window dwidth dheight) w) in
          record resized { selection = maybe_clear_selection lib.vt resized.scr resized.selection })
      else w

  abbrev pub set_focus : Bool → Window lib → Window lib
  set_focus focus_in w = flush cfg world lib (record w { unfocused = not focus_in })

  -- A focus event comes in or out; one that is due to the pointer alone is of no interest.
  unfoldable pub handle_focus_event : Bool → Bool → Window lib → Window lib
  unfolding flush
  handle_focus_event focus_in by_pointer w =
      if by_pointer
      then w
      else if focus_in && not w.unfocused
      then w
      else if not focus_in && w.unfocused
      then w
      else set_focus focus_in w

  -- The window after it, and whether it should close.
  unfoldable pub handle_event : Event → Window lib → Window lib × Bool
  unfolding handle_key_event handle_button_event handle_motion_event handle_resize
      handle_focus_event handle_selection_notify_event handle_selection_request_event
      handle_selection_clear_event flush
  handle_event (key released e looked_up) w = (
    key_calls (handle_key_event (lib.modes w.scr) (lib.max_row w.scr) e released looked_up) w,
    false,
  )
  handle_event (button e) w = (handle_button_event cfg world lib chars fontx fonty e w, false)
  handle_event (motion_notify e) w =
      (handle_motion_event cfg world lib chars fontx fonty e w, false)
  handle_event expose w = (flush cfg world lib w, false)
  handle_event (configure of_border width height) w =
      (if of_border then handle_resize width height w else w, false)
  handle_event (focus focus_in by_pointer) w = (handle_focus_event focus_in by_pointer w, false)
  handle_event (selection_notify e) w = (handle_selection_notify_event cfg world lib e w, false)
  handle_event (selection_request target) w =
      (handle_selection_request_event cfg world lib target w, false)
  handle_event selection_clear w = (handle_selection_clear_event cfg world lib w, false)
  handle_event delete_window w = (w, true)
  handle_event ping w = (emit lib pong w, false)
  handle_event other_message w = (w, false)
  handle_event other_event w = (w, false)

  -- `runes_window_event_cb` over the events that are queued for the window. What is behind an event
  -- that closes the window stays in the queue.
  unfoldable pub event_cb : List Event → Window lib → Window lib × Bool
  event_cb [] w = (w, true)
  event_cb (e ∷ events) w =
      let (w', should_close) = handle_event e w in
      let more = event_cb events w' in
      if should_close
      then (emit lib hang_up (record w' { life = close_window w'.life }), false)
      else more

  -- The callbacks of the three timers.
  unfoldable pub delay_cb : Window lib → Window lib
  unfolding flush refcnt_dec
  delay_cb w =
      let flushed = flush cfg world lib (record w {
        life = record w.life { delaying = false; delay_timers = w.life.delay_timers - 1 };
      }) in
      record flushed { life = refcnt_dec flushed.life }

  unfoldable pub reset_visual_bell : Window lib → Window lib
  unfolding flush refcnt_dec
  reset_visual_bell w =
      let flushed = flush cfg world lib (record w {
        life = record w.life {
          visual_bell_is_ringing = false;
          bell_timers = w.life.bell_timers - 1;
        };
      }) in
      record flushed { life = refcnt_dec flushed.life }

  unfoldable pub multi_click_cb : Window lib → Window lib
  multi_click_cb w = record w { life = end_clicks w.life; multi_clicks = 0 }
