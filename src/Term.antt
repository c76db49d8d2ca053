-- ===== src/Term.antt =====
-- The life of a terminal: the count of src/term.c and the callbacks of src/window-xlib.c and
-- src/pty-unix.c that hold a reference each. What they draw and write is in other modules or is not
-- modelled.
pub mod Life
pub mod Reachable
pub mod Work
pub mod Drain
use runes.Shared.{ℕ, ◌+◌, ◌-◌, ◌<◌, ◌≡◌, Bool, true, false, ltb, leb, if◌then◌else◌}

-- The count, and what the event loop has yet to call: the two descriptors' callbacks until they have
-- closed, and the timers. Of the window: its bits, and whether `multi_click_timer_event` is set; of
-- the screen: the two bells that it asks for.
pub record Term : Type 0 where
  pub refcnt : ℕ
  pub deleted : Bool
  pub window_work : Bool
  pub pty_work : Bool
  pub delay_timers : ℕ
  pub bell_timers : ℕ
  pub click_timers : ℕ
  pub delaying : Bool
  pub visual_bell_is_ringing : Bool
  pub multi_click_timer : Bool
  pub audible_bell : Bool
  pub visual_bell : Bool

unfoldable pub refcnt_inc : Term → Term
refcnt_inc t = record t { refcnt = t.refcnt + 1 }

-- A count of 0 stays one where the source's goes below it; both delete.
unfoldable pub refcnt_dec : Term → Term
refcnt_dec t =
    if leb (t.refcnt - 1) 0
    then record t { refcnt = t.refcnt - 1; deleted = true }
    else record t { refcnt = t.refcnt - 1 }

-- `runes_window_init_loop` and `runes_pty_init_loop`, as `runes_term_register_with_loop` calls them.
unfoldable pub register_with_loop : Term → Term
unfolding refcnt_inc
register_with_loop t = record (refcnt_inc (record (refcnt_inc t) { window_work = true })) {
  pty_work = true;
}

-- What the clock and the redraw rate say in `runes_window_check_recent`.
pub data Pace : Type 0 where
  no_rate early late : Pace

abbrev pub set_delay : Term → Term
set_delay t = record (refcnt_inc t) { delay_timers = t.delay_timers + 1; delaying = true }

abbrev pub is_recent : Pace → Term → Bool
is_recent no_rate t = false
is_recent early t = true
is_recent late t = t.delaying

abbrev pub after_check : Pace → Term → Term
after_check no_rate t = t
after_check early t = if t.delaying then t else set_delay t
after_check late t = t

unfoldable pub visual_bell : Term → Term
unfolding refcnt_inc
visual_bell t =
    if t.visual_bell_is_ringing
    then t
    else record (refcnt_inc t) { visual_bell_is_ringing = true; bell_timers = t.bell_timers + 1 }

-- `audible` is the configuration's option.
unfoldable pub audible_bell : Bool → Term → Term
audible_bell audible t = if audible then t else visual_bell t

abbrev pub ring_audible : Bool → Term → Term
ring_audible audible t =
    if t.audible_bell then record (audible_bell audible t) { audible_bell = false } else t

abbrev pub ring_visual : Term → Term
ring_visual t = if t.visual_bell then record (visual_bell t) { visual_bell = false } else t

-- The titles and the drawing behind the bells change nothing here.
unfoldable pub flush : Bool → Pace → Term → Term
unfolding refcnt_inc visual_bell audible_bell
flush audible pace t =
    if is_recent pace t then after_check pace t else ring_visual (ring_audible audible t)

-- The timers' callbacks; a timer that fires is no longer pending.
unfoldable pub delay_cb : Bool → Pace → Term → Term
unfolding refcnt_dec flush
delay_cb audible pace t =
    refcnt_dec
      (flush audible pace (record t { delaying = false; delay_timers = t.delay_timers - 1 }))

unfoldable pub reset_visual_bell : Bool → Pace → Term → Term
unfolding refcnt_dec flush
reset_visual_bell audible pace t = refcnt_dec (
    flush audible pace
      (record t { visual_bell_is_ringing = false; bell_timers = t.bell_timers - 1 }))

unfoldable pub multi_click_cb : Term → Term
unfolding refcnt_dec
multi_click_cb t =
    refcnt_dec (record t { multi_click_timer = false; click_timers = t.click_timers - 1 })

-- The timer of `runes_window_handle_multi_click`: an old one is cleared, and a new one set.
abbrev pub clear_click : Term → Term
clear_click t =
    if t.multi_click_timer then refcnt_dec (record t { click_timers = t.click_timers - 1 }) else t

unfoldable pub restart_click : Term → Term
unfolding refcnt_dec refcnt_inc
restart_click t =
    let cleared = clear_click t in
    record (refcnt_inc cleared) {
      multi_click_timer = true;
      click_timers = cleared.click_timers + 1;
    }

-- The ends of the two descriptors' callbacks, which the loop does not arm again.
unfoldable pub close_window : Term → Term
unfolding refcnt_dec
close_window t = refcnt_dec (record t { window_work = false })

unfoldable pub close_pty : Term → Term
unfolding refcnt_dec
close_pty t = refcnt_dec (record t { pty_work = false })

-- A new terminal, before it is registered.
abbrev pub new_term : Term
new_term = record {
  refcnt = 0;
  deleted = false;
  window_work = false;
  pty_work = false;
  delay_timers = 0;
  bell_timers = 0;
  click_timers = 0;
  delaying = false;
  visual_bell_is_ringing = false;
  multi_click_timer = false;
  audible_bell = false;
  visual_bell = false;
}

-- What the loop can call: a callback that is armed, or a timer that is pending. An X event flushes,
-- restarts the timer of clicks or closes the window, any number of them in one callback; the screen
-- asks for bells when the shell writes.
pub data Step : Term → Term → Type 0 where
  window_flush :
      (audible : Bool) (pace : Pace) (t : Term)
      → t.window_work ≡ true
      → Step t (flush audible pace t)
  window_click : (t : Term) → t.window_work ≡ true → Step t (restart_click t)
  window_close : (t : Term) → t.window_work ≡ true → Step t (close_window t)
  pty_input :
      (audible : Bool) (pace : Pace) (a v : Bool) (t : Term)
      → t.pty_work ≡ true
      → Step t (flush audible pace (record t { audible_bell = a; visual_bell = v }))
  pty_close : (t : Term) → t.pty_work ≡ true → Step t (close_pty t)
  delay_fires :
      (audible : Bool) (pace : Pace) (t : Term)
      → 0 < t.delay_timers
      → Step t (delay_cb audible pace t)
  bell_fires :
      (audible : Bool) (pace : Pace) (t : Term)
      → 0 < t.bell_timers
      → Step t (reset_visual_bell audible pace t)
  click_fires : (t : Term) → 0 < t.click_timers → Step t (multi_click_cb t)

pub data Steps : Term → Term → Type 0 where
  stop : (t : Term) → Steps t t
  next : (t u v : Term) → Step t u → Steps u v → Steps t v
