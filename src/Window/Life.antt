-- ===== src/Window/Life.antt =====
-- The handlers of src/window-xlib.c seen as steps of a terminal's life: what an X event does to the
-- references and the timers.
use mathlib.Core.Path.{subst}
use runes.Shared.{◌≡◌, refl, sym, ◌∙◌, ap, Bool, true, false, ◌∷◌, if◌then◌else◌, arith}
use runes.Shared.Int.{ℤ}
use runes.Shared.Text.{Bytes, codes}
use runes.Config.Types.{Config}
use runes.Display.Location.{Loc}
use runes.Window.View.{View}
use runes.Window.State.{ScreenLib, World, Window, emit, pty_write}
use runes.Window.Flush.{pace_of, flush, after_view, write_to_pty, scroll}
use runes.Window.Select.{
  start_selection_loc, acquire_selection, update_selection_loc, Notified, property, no_property,
  Target, targets, string, utf8_string, other_target, bracketed, handle_selection_notify_event,
  handle_selection_clear_event, handle_selection_request_event,
}
use runes.Term.Work.{Steps-trans, one_step, flush_window_work}
use runes.Term.{flush as flush_life, Steps, stop, window_flush}

module _ {Pattern : Type 0} (cfg : Config Pattern) (world : World) (lib : ScreenLib) where
  -- A handler that leaves the window's callback in the loop, and its life as steps.
  pub record Goes (w w' : Window lib) : Type 0 where
    pub steps : w.life.window_work ≡ true → Steps w.life w'.life × (w'.life.window_work ≡ true)

  pub Goes-same : (w w' : Window lib) → w'.life ≡ w.life → Goes w w'
  Goes-same w w' e = record {
    steps = λ h. (subst (λ t. Steps w.life t) (sym e) (stop w.life), ap (λ t. t.window_work) e ∙ h);
  }

  pub Goes-trans : (u v w : Window lib) → Goes u v → Goes v w → Goes u w
  Goes-trans u v w f g = record {
    steps = λ h.
        let (first, still) = f.steps h in
        let (second, last) = g.steps still in (Steps-trans u.life v.life w.life first second, last);
  }

  -- A handler that first changes other fields.
  pub Goes-from : (u v w : Window lib) → v.life ≡ u.life → Goes v w → Goes u w
  Goes-from u v w e g = Goes-trans u v w (Goes-same u v e) g

  pub Goes-if : (b : Bool) (u v w : Window lib) → Goes u v → Goes u w → Goes u (if b then v else w)
  Goes-if true u v w f g = f
  Goes-if false u v w f g = g

  pub flush-life :
      (w : Window lib)
      → (flush cfg world lib w).life ≡ flush_life cfg.audible_bell (pace_of cfg world lib w) w.life
  unfolding flush flush_life
  flush-life w = ground arith

  pub flush-Goes : (w : Window lib) → Goes w (flush cfg world lib w)
  flush-Goes w =
      let pace = pace_of cfg world lib w in
      let done = flush-life w in
      record {
        steps = λ h. (
          subst (λ t. Steps w.life t) (sym done)
              (one_step w.life (flush_life cfg.audible_bell pace w.life)
                (window_flush cfg.audible_bell pace w.life h)),
          ap (λ t. t.window_work) done ∙ flush_window_work cfg.audible_bell pace w.life ∙ h,
        );
      }

  pub after_view-Goes :
      (w : Window lib) (v : View) (flushes : Bool)
      → Goes w (after_view cfg world lib w (v, flushes))
  after_view-Goes w v true = Goes-from w _ _ refl (
      flush-Goes (record w {
        row_visible_offset = v.row_visible_offset;
        selection = record w.selection { dirty = v.dirty };
      }))
  after_view-Goes w v false = Goes-same w (after_view cfg world lib w (v, false)) refl

  pub write_to_pty-Goes : (buf : Bytes) (w : Window lib) → Goes w (write_to_pty cfg world lib buf w)
  unfolding write_to_pty
  write_to_pty-Goes buf w = Goes-from w _ _ refl (after_view-Goes (emit lib (pty_write buf) w) _ _)

  pub scroll-Goes : (count : ℤ) (w : Window lib) → Goes w (scroll cfg world lib count w)
  unfolding scroll
  scroll-Goes count w = after_view-Goes w _ _

  pub start_selection_loc-Goes :
      (start : Loc) (w : Window lib) → Goes w (start_selection_loc cfg world lib start w)
  unfolding start_selection_loc
  start_selection_loc-Goes start w = Goes-from w _ _ refl (flush-Goes _)

  acquire_selection-life : (w : Window lib) → (acquire_selection cfg world lib w).life ≡ w.life
  unfolding acquire_selection
  acquire_selection-life w = ground arith

  pub update_selection_loc-Goes :
      (end : Loc) (w : Window lib) → Goes w (update_selection_loc cfg world lib end w)
  unfolding update_selection_loc
  update_selection_loc-Goes end w = Goes-if _ w w _ (Goes-same w w refl) (
      Goes-if _ w _ w (Goes-from w _ _ (acquire_selection-life w) (flush-Goes _))
        (Goes-same w w refl))

  bracketed-Goes : (code : Bytes) (w : Window lib) → Goes w (bracketed cfg world lib code w)
  bracketed-Goes code w = Goes-if _ w _ w (write_to_pty-Goes code w) (Goes-same w w refl)

  pub handle_selection_notify_event-Goes :
      (e : Notified) (w : Window lib) → Goes w (handle_selection_notify_event cfg world lib e w)
  unfolding handle_selection_notify_event
  handle_selection_notify_event-Goes (no_property utf8_string) w = Goes-same w _ refl
  handle_selection_notify_event-Goes (no_property targets) w = Goes-same w w refl
  handle_selection_notify_event-Goes (no_property string) w = Goes-same w w refl
  handle_selection_notify_event-Goes (no_property other_target) w = Goes-same w w refl
  handle_selection_notify_event-Goes (property buf) w =
      Goes-trans w _ _ (bracketed-Goes (27 ∷ codes "[200~") w)
        (Goes-trans _ _ _ (write_to_pty-Goes buf _) (bracketed-Goes (27 ∷ codes "[201~") _))

  pub handle_selection_clear_event-Goes :
      (w : Window lib) → Goes w (handle_selection_clear_event cfg world lib w)
  unfolding handle_selection_clear_event
  handle_selection_clear_event-Goes w = Goes-from w _ _ refl (flush-Goes _)

  pub handle_selection_request_event-Goes :
      (target : Target) (w : Window lib)
      → Goes w (handle_selection_request_event cfg world lib target w)
  unfolding handle_selection_request_event
  handle_selection_request_event-Goes targets w = Goes-same w _ refl
  handle_selection_request_event-Goes string w = Goes-same w _ refl
  handle_selection_request_event-Goes utf8_string w = Goes-same w _ refl
  handle_selection_request_event-Goes other_target w = Goes-same w _ refl
