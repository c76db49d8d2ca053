-- ===== src/Tests/Term.antt =====
-- The life of a terminal at a concrete run.
use runes.Shared.{◌≤◌, ◌⊎◌, ◌≡◌, refl, true, false, arith}
use runes.Term.{
  Term, refcnt_inc, refcnt_dec, register_with_loop, new_term, early, late, flush, close_window,
  close_pty, delay_cb, Steps, stop, next, window_flush, window_close, pty_close, delay_fires,
}
use runes.Term.Reachable.{register-Managed}
use runes.Term.Drain.{Fire, delay, Fires, Fires-ends}
use runes.Term.Drain

-- A redraw is put off, the shell ends, the window is closed, and the timer fires last.
abbrev drawn : Term
drawn = flush false early (register_with_loop new_term)

abbrev shell_ended : Term
shell_ended = close_pty drawn

abbrev closed : Term
closed = close_window shell_ended

abbrev last : Term
last = delay_cb false late closed

run : Steps (register_with_loop new_term) last
unfolding register_with_loop flush close_pty close_window delay_cb refcnt_inc refcnt_dec
run =
    next (register_with_loop new_term) drawn last
      (window_flush false early (register_with_loop new_term) refl)
      (next drawn shell_ended last (pty_close drawn refl) (
        next shell_ended closed last (window_close shell_ended refl)
          (next closed last last (delay_fires false late closed (omega arith)) (stop last))))

deleted_last : last.deleted ≡ true
unfolding register_with_loop flush close_pty close_window delay_cb refcnt_inc refcnt_dec
deleted_last = refl

-- The window and the shell have closed, and a redraw is still put off.
run_closed : Steps (register_with_loop new_term) closed
unfolding register_with_loop flush close_pty close_window refcnt_inc refcnt_dec
run_closed =
    next (register_with_loop new_term) drawn closed
      (window_flush false early (register_with_loop new_term) refl)
      (next drawn shell_ended closed (pty_close drawn refl)
        (next shell_ended closed closed (window_close shell_ended refl) (stop closed)))

closed_Closed : (closed.window_work ≡ false) × (closed.pty_work ≡ false)
unfolding register_with_loop flush close_pty close_window refcnt_inc refcnt_dec
closed_Closed = (refl, refl)

timer_out : Fires 1 closed last
unfolding register_with_loop flush close_pty close_window refcnt_inc refcnt_dec
timer_out = Drain.next 0 closed last last (delay false true closed (omega arith)) (Drain.stop last)

Fires-ends_example : (1 ≤ 5) × ((last.deleted ≡ true) ⊎ ((v : Term) × Fire last v))
Fires-ends_example =
    Fires-ends 1 closed last (register-Managed closed run_closed) closed_Closed timer_out
