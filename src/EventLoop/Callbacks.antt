-- ===== src/EventLoop/Callbacks.antt =====
-- What runs in the event loop of src/loop.c: `runes_loop_work_cb` and `runes_loop_timer_cb` around the
-- callbacks of terminals, and what these ask of the loop.
use runes.Shared.{ℕ, Bool, Option, none, some, List, [], ◌∷◌, if◌then◌else◌}
use runes.Shared.Int.{ℤ, pos}
use runes.Shared.Tables.{put}
use runes.EventLoop.{
  Kind, work, timer, WorkCb, delay_cb, reset_visual_bell, multi_click_cb, LoopData, loop_work_cb,
  loop_timer_cb, Status, freed, idle, armed, Libevent, is_known, Loop, start_work, timer_set,
  free_data, free_timer_data, timer_clear,
}

module _ (ev : Libevent) where
  -- The loop with `multi_click_timer_event` of each terminal's window.
  pub record Run : Type 0 where
    pub loop : Loop ev
    pub clicks : ℕ → Option ℕ

  -- What a callback asks of the loop: runes_window_check_recent and runes_window_visual_bell set a
  -- timer, runes_window_handle_multi_click clears one and sets another, and a new terminal starts
  -- its work.
  pub data Call : Type 0 where
    puts_off : ℤ → ℕ → Call
    rings : ℕ → Call
    click : ℤ → ℕ → Call
    starts : ℕ → WorkCb → Call

  abbrev pub set_click : ℤ → ℕ → Run → Run
  set_click rate t r =
      let (d, l) = timer_set ev rate t multi_click_cb r.loop in
      record { loop = l; clicks = put t (some d) r.clicks }

  abbrev pub with_loop : Option (Loop ev) → Run → Option Run
  with_loop none r = none
  with_loop (some l) r = some (record r { loop = l })

  abbrev pub then_click : ℤ → ℕ → Option Run → Option Run
  then_click rate t none = none
  then_click rate t (some r) = some (set_click rate t r)

  abbrev pub after_click : ℤ → ℕ → Option ℕ → Run → Option Run
  after_click rate t none r = some (set_click rate t r)
  after_click rate t (some d) r = then_click rate t (with_loop (timer_clear ev d r.loop) r)

  unfoldable pub do_call : Call → Run → Option Run
  unfolding start_work timer_set timer_clear
  do_call (puts_off rate t) r = some (record r { loop = (timer_set ev rate t delay_cb r.loop).1 })
  do_call (rings t) r =
      some (record r { loop = (timer_set ev (pos 20) t reset_visual_bell r.loop).1 })
  do_call (click rate t) r = after_click rate t (r.clicks t) r
  do_call (starts t cb) r = some (record r { loop = start_work ev t cb r.loop })

  abbrev pub then_do : Option Run → (Run → Option Run) → Option Run
  then_do none f = none
  then_do (some r) f = f r

  unfoldable pub do_calls : List Call → Run → Option Run
  do_calls [] r = some r
  do_calls (c ∷ cs) r = then_do (do_call c r) (do_calls cs)

  -- runes_loop_work_cb, around a callback that makes these calls and returns this.
  abbrev pub end_work : ℕ → Bool → Option LoopData → Run → Option Run
  end_work d again none r = none
  end_work d again (some node) r =
      let added = record r {
        loop = record r.loop { base = ev.event_add r.loop.base node.event none };
      } in
      let gone = with_loop (free_data ev d node.event r.loop) r in
      if again
      then (if is_known (ev.status r.loop.base node.event) then some added else none)
      else gone

  abbrev pub work_cb : ℕ → Option LoopData → List Call → Bool → Run → Option Run
  work_cb d none calls again r = none
  work_cb d (some node) calls again r =
      then_do (do_calls calls r) (λ r'. end_work d again (r'.loop.heap d) r')

  -- runes_loop_timer_cb. The callback of the clicks forgets its timer, and makes no call.
  abbrev pub call_timer : Kind → ℕ → List Call → Run → Option Run
  call_timer (work cb) t calls r = none
  call_timer (timer delay_cb) t calls r = do_calls calls r
  call_timer (timer reset_visual_bell) t calls r = do_calls calls r
  call_timer (timer multi_click_cb) t calls r = some (record r { clicks = put t none r.clicks })

  abbrev pub timer_cb : ℕ → Option LoopData → List Call → Run → Option Run
  timer_cb d none calls r = none
  timer_cb d (some node) calls r =
      then_do (call_timer node.kind node.t calls r)
        (λ r'. with_loop (free_timer_data ev d r'.loop) r')

  -- One event that is due, with what its callback does; one that is not armed is not called.
  abbrev pub call_event : ℕ → List Call → Bool → Status → Run → Option Run
  call_event e calls again freed r = some r
  call_event e calls again (idle a) r = some r
  call_event e calls again (armed (loop_work_cb d)) r =
      work_cb d (r.loop.heap d) calls again
        (record r { loop = record r.loop { base = ev.activate r.loop.base e } })
  call_event e calls again (armed (loop_timer_cb d)) r =
      timer_cb d (r.loop.heap d) calls
        (record r { loop = record r.loop { base = ev.activate r.loop.base e } })

  -- What happens next: the program makes calls before it runs the loop, or an event comes.
  pub data Act : Type 0 where
    sets_up : List Call → Act
    fires : ℕ → List Call → Bool → Act

  unfoldable pub act : Act → Run → Option Run
  unfolding do_calls free_timer_data
  act (sets_up calls) r = do_calls calls r
  act (fires e calls again) r = call_event e calls again (ev.status r.loop.base e) r

  unfoldable pub acts : List Act → Run → Option Run
  acts [] r = some r
  acts (a ∷ more) r = then_do (act a r) (acts more)
