-- ===== src/EventLoop/Worked.antt =====
-- `runes_loop_work_cb` of src/loop.c, around whatever its callback asks, and the two by the kind of a
-- structure.
use mathlib.Core.Path.{subst}
use runes.Shared.{
  ℕ, ◌≡◌, inl, inr, refl, sym, ap, ◌∙◌, Bool, true, false, none, some, List, if◌then◌else◌,
}
use runes.Shared.Tables.{put, put_same, put_other}
use runes.EventLoop.{
  Kind, work, timer, delay_cb, reset_visual_bell, multi_click_cb, LoopData, arg_of, armed, arm,
  Libevent, Loop,
}
use runes.EventLoop.Callbacks.{
  Run, Call, with_loop, then_do, do_calls, end_work, work_cb, timer_cb, call_event,
}
use runes.EventLoop.Owned.{is_timer, event_state, Whole, nobody}
use runes.EventLoop.Kept.{node_event, node_timeout, node_known, freed-Owned, status-Owned}
use runes.EventLoop.Calls.{Calm, do_calls-Keeps}
use runes.EventLoop.Fired.{
  just, just_same, just_other, no_time, is_click, Ends, run_taken, taken-Calm, ClickOk-gone,
  timer-Ends, click-Ends,
}

module _ (ev : Libevent) where
  -- What a callback returns arms its event again, or frees it with its structure.
  end_work-Ends :
      (again : Bool) (r : Run ev) (d : ℕ) (node : LoopData)
      → Calm ev (just d) r.loop
      → Whole ev (just d) r
      → r.loop.heap d ≡ some node
      → is_timer node.kind ≡ false
      → is_click node.kind ≡ false
      → Ends ev (end_work ev d again (some node) r)
  end_work-Ends true r d node c w at untimed calm =
      let base = ev.event_add r.loop.base node.event none in
      (
        record r { loop = record r.loop { base = base } },
        ap (λ b. if b then some (record r { loop = record r.loop { base = base } }) else none)
            (node_known ev (just d) r.loop c.owned d node at),
        record {
          owned =
              status-Owned ev (just d) r.loop c.owned nobody d node base at
                (λ h ne.
                  ev.status-event_add r.loop.base node.event none h
                  ∙ put_other node.event h _ (ev.status r.loop.base) ne)
                (ev.status-event_add r.loop.base node.event none node.event
                  ∙ put_same node.event (arm (ev.status r.loop.base node.event))
                      (ev.status r.loop.base)
                  ∙ ap arm (node_event ev (just d) r.loop c.owned d node at)
                  ∙ ap (λ b. arm (event_state b (arg_of node.kind d))) (just_same d))
                (λ x ne. sym (just_other d x ne));
          clicks_there = w.clicks_there;
        },
      )
  end_work-Ends false r d node c w at untimed calm =
      let l' : Loop ev = record r.loop {
        heap = put d none r.loop.heap;
        base = ev.event_free r.loop.base node.event;
      } in
      (
        record r { loop = l' },
        ap (λ b. with_loop ev (if b then some l' else none) r)
            (node_known ev (just d) r.loop c.owned d node at),
        record {
          owned =
              freed-Owned ev (just d) r.loop c.owned nobody d node r.loop.base r.loop.timeouts at
                (λ h ne. refl)
                (no_time (r.loop.timeouts d)
                  (node_timeout ev (just d) r.loop c.owned d node at ∙ untimed))
                (λ x ne. refl) (λ x ne. sym (just_other d x ne));
          clicks_there = λ t.
              ClickOk-gone ev r.loop.heap d node t (r.clicks t) at (inl calm) (w.clicks_there t);
        },
      )

  work-Ends :
      (r : Run ev) (d : ℕ) (node : LoopData) (calls : List (Call ev)) (again : Bool)
      → Whole ev nobody r
      → r.loop.heap d ≡ some node
      → is_timer node.kind ≡ false
      → is_click node.kind ≡ false
      → Ends ev (
          then_do ev
            (do_calls ev calls (run_taken ev node.event r))
            (λ r'. end_work ev d again (r'.loop.heap d) r'))
  work-Ends r d node calls again w at untimed calm =
      let c = taken-Calm ev r.loop d node w.owned at calm in
      let (r1, did, c1, w1, stays) =
        do_calls-Keeps ev (just d) calls (run_taken ev node.event r) c
          (record { owned = c.owned; clicks_there = w.clicks_there }) in
      let there = stays d node (just_same d) at in
      subst (Ends ev)
        (sym (
          ap (λ o. then_do ev o (λ r'. end_work ev d again (r'.loop.heap d) r')) did
          ∙ ap (λ o. end_work ev d again o r1) there))
        (end_work-Ends again r1 d node c1 w1 there untimed calm)

  -- By the kind of the structure.
  called-Ends :
      (r : Run ev) (d e t : ℕ) (kind : Kind) (calls : List (Call ev)) (again : Bool)
      → Whole ev nobody r
      → r.loop.heap d ≡ some (record { event = e; t = t; kind = kind })
      → Ends ev (call_event ev e calls again (armed (arg_of kind d)) r)
  called-Ends r d e t (work cb) calls again w at =
      subst (Ends ev) (sym (ap (λ o. work_cb ev d o calls again (run_taken ev e r)) at))
        (work-Ends r d _ calls again w at refl refl)
  called-Ends r d e t (timer delay_cb) calls again w at =
      subst (Ends ev) (sym (ap (λ o. timer_cb ev d o calls (run_taken ev e r)) at))
        (timer-Ends ev r d _ calls w at refl refl)
  called-Ends r d e t (timer reset_visual_bell) calls again w at =
      subst (Ends ev) (sym (ap (λ o. timer_cb ev d o calls (run_taken ev e r)) at))
        (timer-Ends ev r d _ calls w at refl refl)
  called-Ends r d e t (timer multi_click_cb) calls again w at =
      subst (Ends ev) (sym (ap (λ o. timer_cb ev d o calls (run_taken ev e r)) at))
        (click-Ends ev r d _ w at refl)

  pub call_event-Ends :
      (e : ℕ) (calls : List (Call ev)) (again : Bool) (r : Run ev)
      → Whole ev nobody r
      → Ends ev (call_event ev e calls again (ev.status r.loop.base e) r)
  call_event-Ends e calls again r w = elim (w.owned.events e) [
    | inl none_there ↦
        subst (λ s. Ends ev (call_event ev e calls again s r)) (sym none_there) (r, refl, w)
    | inr (d, node, at, its, s) ↦
        subst (λ s. Ends ev (call_event ev e calls again s r)) (sym s)
          (subst (λ x. Ends ev (call_event ev x calls again (armed (arg_of node.kind d)) r)) its
            (called-Ends r d node.event node.t node.kind calls again w at))
  ]
