-- ===== src/Term/Reachable.antt =====
-- The terminals that an event loop can come to, from one that src/term.c has just registered.
use runes.Shared.{inl, refl, arith}
use runes.Term.{
  Term, register_with_loop, new_term, Step, window_flush, window_click, window_close, pty_input,
  pty_close, delay_fires, bell_fires, click_fires, Steps, stop, next,
}
use runes.Term.Life.{
  Managed, Managed-Counted, window_pending, pty_pending, flush-Managed, restart_click-Managed,
  close_window-Managed, close_pty-Managed, delay_cb-Managed, reset_visual_bell-Managed,
  multi_click_cb-Managed,
}

Step-Managed : (t u : Term) → Step t u → Managed t → Managed u
Step-Managed t _ (window_flush audible pace _ w) h =
    let some_left = window_pending t w in
    flush-Managed audible pace t (Managed-Counted t h some_left) some_left
Step-Managed t _ (window_click _ w) h =
    restart_click-Managed t (Managed-Counted t h (window_pending t w)) w
Step-Managed t _ (window_close _ w) h =
    close_window-Managed t (Managed-Counted t h (window_pending t w)) w
Step-Managed t _ (pty_input audible pace a v _ w) h =
    let some_left = pty_pending t w in
    flush-Managed audible pace (record t { audible_bell = a; visual_bell = v })
      (Managed-Counted t h some_left) some_left
Step-Managed t _ (pty_close _ w) h = close_pty-Managed t (Managed-Counted t h (pty_pending t w)) w
Step-Managed t _ (delay_fires audible pace _ some_left) h =
    delay_cb-Managed audible pace t (Managed-Counted t h (omega arith)) some_left
Step-Managed t _ (bell_fires audible pace _ some_left) h =
    reset_visual_bell-Managed audible pace t (Managed-Counted t h (omega arith)) some_left
Step-Managed t _ (click_fires _ some_left) h =
    multi_click_cb-Managed t (Managed-Counted t h (omega arith)) some_left

Steps-Managed : (t u : Term) → Steps t u → Managed t → Managed u
Steps-Managed t _ (stop _) h = h
Steps-Managed t u (next _ v _ step steps) h = Steps-Managed v u steps (Step-Managed t v step h)

-- Whatever the event loop calls, in whatever order, a terminal is there with a reference for each
-- callback to come and at most one timer of each kind, or it was deleted and none is to come: no
-- callback finds its terminal freed, and the last one frees it.
pub register-Managed : (t : Term) → Steps (register_with_loop new_term) t → Managed t
unfolding register_with_loop
register-Managed t steps =
    Steps-Managed (register_with_loop new_term) t steps
      (inl (refl, refl, omega arith, (refl, refl, refl)))
