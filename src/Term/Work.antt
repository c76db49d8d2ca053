-- ===== src/Term/Work.antt =====
-- What the operations on a terminal leave alone, and runs of steps one after the other.
use runes.Shared.{◌≡◌, Bool, false, arith}
use runes.Term.{
  Term, Pace, refcnt_inc, refcnt_dec, visual_bell, audible_bell, flush, restart_click, close_window,
  Step, Steps, stop, next,
}

pub Steps-trans : (t u v : Term) → Steps t u → Steps u v → Steps t v
Steps-trans t _ v (stop _) k = k
Steps-trans t u v (next _ s _ step h) k = next t s v step (Steps-trans s u v h k)

pub one_step : (t u : Term) → Step t u → Steps t u
one_step t u step = next t u u step (stop u)

pub flush_window_work :
    (audible : Bool) (pace : Pace) (t : Term) → (flush audible pace t).window_work ≡ t.window_work
unfolding flush refcnt_inc visual_bell audible_bell
flush_window_work audible pace t = ground arith

pub restart_click_window_work : (t : Term) → (restart_click t).window_work ≡ t.window_work
unfolding restart_click
restart_click_window_work t = ground arith

pub close_window_window_work : (t : Term) → (close_window t).window_work ≡ false
unfolding close_window refcnt_dec
close_window_window_work t = ground arith
