-- ===== src/EventLoop/Fired.antt =====
-- `runes_loop_timer_cb` of src/loop.c, around whatever its callback asks.
use mathlib.Core.Path.{subst}
use runes.Shared.{
  ℕ, ◌+◌, ◌≡◌, ◌≢◌, ◌⊎◌, inl, inr, refl, sym, ap, ◌∙◌, Bool, true, false, Option, none, some, List,
  arith, if◌then◌else◌, ◌==◌, Bool-cases,
}
use runes.Shared.Tables.{put, put_same, put_other}
use runes.Window.Clock.{Timeval}
use runes.EventLoop.{
  Kind, work, timer, delay_cb, reset_visual_bell, multi_click_cb, LoopData, arg_of, disarm,
  free_data, Libevent, is_some, Loop, free_timer_data, free_timer_at,
}
use runes.EventLoop.Callbacks.{Run, Call, with_loop, then_do, do_calls}
use runes.EventLoop.Owned.{is_timer, event_state, Owned, ClickOk, Whole, nobody}
use runes.EventLoop.Kept.{node_event, node_timeout, node_known, freed-Owned, status-Owned}
use runes.EventLoop.Calls.{Calm, do_calls-Keeps}

-- The callback of one structure runs.
abbrev pub just : ℕ → ℕ → Bool
just d x = x == d

pub just_same : (d : ℕ) → just d d ≡ true
just_same d = ground arith

pub just_other : (d x : ℕ) → x ≢ d → just d x ≡ false
just_other d x ne = ground arith

abbrev pub is_click : Kind → Bool
is_click (work cb) = false
is_click (timer delay_cb) = false
is_click (timer reset_visual_bell) = false
is_click (timer multi_click_cb) = true

pub no_time : (o : Option Timeval) → is_some o ≡ false → o ≡ none
no_time none h = refl
no_time (some t) h = ground arith

module _ (ev : Libevent) where
  abbrev pub Ends : Option (Run ev) → Type 0
  Ends o = (r' : Run ev) × (o ≡ some r') × Whole ev nobody r'

  -- The loop with a structure's event taken off.
  abbrev pub taken : ℕ → Loop ev → Loop ev
  taken e l = record l { base = ev.activate l.base e }

  taken-Owned :
      (l : Loop ev) (d : ℕ) (node : LoopData)
      → Owned ev nobody l
      → l.heap d ≡ some node
      → Owned ev (just d) (taken node.event l)
  taken-Owned l d node o at =
      status-Owned ev nobody l o (just d) d node (ev.activate l.base node.event) at
        (λ h ne.
          ev.status-activate l.base node.event h ∙ put_other node.event h _ (ev.status l.base) ne)
        (ev.status-activate l.base node.event node.event
          ∙ put_same node.event (disarm (ev.status l.base node.event)) (ev.status l.base)
          ∙ ap disarm (node_event ev nobody l o d node at)
          ∙ ap (λ b. event_state b (arg_of node.kind d)) (sym (just_same d)))
        (λ x ne. just_other d x ne)

  pub taken-Calm :
      (l : Loop ev) (d : ℕ) (node : LoopData)
      → Owned ev nobody l
      → l.heap d ≡ some node
      → is_click node.kind ≡ false
      → Calm ev (just d) (taken node.event l)
  taken-Calm l d node o at calm = record {
    owned = taken-Owned l d node o at;
    below = λ n.
        just_other d (l.next + n) (λ same. ground (arith, sym (o.unused n) ∙ ap l.heap same ∙ at));
    quiet = λ x e t there.
        just_other d x (λ same. ground (arith, calm, sym there ∙ ap l.heap same ∙ at));
  }

  pub ClickOk-gone :
      (heap : ℕ → Option LoopData) (d : ℕ) (node : LoopData) (t : ℕ) (o : Option ℕ)
      → heap d ≡ some node
      → (is_click node.kind ≡ false) ⊎ (node.t ≢ t)
      → ClickOk ev heap t o
      → ClickOk ev (put d none heap) t o
  ClickOk-gone heap d node t none at other h = h
  ClickOk-gone heap d node t (some d') at other (e, there) =
      (e, put_other d d' none heap (λ same. ground (arith, sym there ∙ ap heap same ∙ at)) ∙ there)

  -- The end of a timer: its event, its timeout and the structure go.
  abbrev gone : ℕ → LoopData → Loop ev → Loop ev
  gone d node l = record l {
    heap = put d none l.heap;
    timeouts = put d none l.timeouts;
    base = ev.event_free l.base node.event;
  }

  free_timer_there :
      (busy : ℕ → Bool) (l : Loop ev) (d : ℕ) (node : LoopData)
      → Owned ev busy l
      → l.heap d ≡ some node
      → is_timer node.kind ≡ true
      → free_timer_data ev d l ≡ some (gone d node l)
  unfolding free_timer_data
  free_timer_there busy l d node o at timed =
      ap (λ o. free_timer_at ev d o l) at
      ∙ ap
          (λ b.
            if b
            then free_data ev d node.event (record l { timeouts = put d none l.timeouts })
            else none)
          (node_timeout ev busy l o d node at ∙ timed)
      ∙ ap (λ b. if b then some (gone d node l) else none) (node_known ev busy l o d node at)

  gone-Whole :
      (r : Run ev) (d : ℕ) (node : LoopData)
      → Owned ev (just d) r.loop
      → r.loop.heap d ≡ some node
      → is_timer node.kind ≡ true
      → ((t : ℕ) → ClickOk ev (put d none r.loop.heap) t (r.clicks t))
      → Ends (with_loop ev (free_timer_data ev d r.loop) r)
  gone-Whole r d node o at timed clicks = (
    record r { loop = gone d node r.loop },
    ap (λ l. with_loop ev l r) (free_timer_there (just d) r.loop d node o at timed),
    record {
      owned =
          freed-Owned ev (just d) r.loop o nobody d node r.loop.base (put d none r.loop.timeouts) at
            (λ h ne. refl) (put_same d none r.loop.timeouts)
            (λ x ne. put_other d x none r.loop.timeouts ne) (λ x ne. sym (just_other d x ne));
      clicks_there = clicks;
    },
  )

  abbrev pub run_taken : ℕ → Run ev → Run ev
  run_taken e r = record r { loop = taken e r.loop }

  -- A timer of another kind than clicks.
  pub timer-Ends :
      (r : Run ev) (d : ℕ) (node : LoopData) (calls : List (Call ev))
      → Whole ev nobody r
      → r.loop.heap d ≡ some node
      → is_timer node.kind ≡ true
      → is_click node.kind ≡ false
      → Ends (
          then_do ev
            (do_calls ev calls (run_taken node.event r))
            (λ r'. with_loop ev (free_timer_data ev d r'.loop) r'))
  timer-Ends r d node calls w at timed calm =
      let c = taken-Calm r.loop d node w.owned at calm in
      let (r1, did, c1, w1, stays) =
        do_calls-Keeps ev (just d) calls (run_taken node.event r) c
          (record { owned = c.owned; clicks_there = w.clicks_there }) in
      let there = stays d node (just_same d) at in
      subst Ends
        (sym (ap (λ o. then_do ev o (λ r'. with_loop ev (free_timer_data ev d r'.loop) r')) did))
        (gone-Whole r1 d node c1.owned there timed (λ t.
          ClickOk-gone r1.loop.heap d node t (r1.clicks t) there (inl calm) (w1.clicks_there t)))

  pub click-Ends :
      (r : Run ev) (d : ℕ) (node : LoopData)
      → Whole ev nobody r
      → r.loop.heap d ≡ some node
      → is_timer node.kind ≡ true
      → Ends (
          with_loop ev
            (free_timer_data ev d (taken node.event r.loop))
            (record { loop = taken node.event r.loop; clicks = put node.t none r.clicks }))
  click-Ends r d node w at timed =
      gone-Whole (record { loop = taken node.event r.loop; clicks = put node.t none r.clicks }) d
        node (taken-Owned r.loop d node w.owned at) at timed
        (λ t. elim (Bool-cases (t == node.t)) [
          | inl same ↦
              subst (ClickOk ev (put d none r.loop.heap) t)
                (sym (ap (λ b. if b then none else r.clicks t) same)) tt
          | inr other ↦
              subst (ClickOk ev (put d none r.loop.heap) t)
                (sym (ap (λ b. if b then none else r.clicks t) other))
                (ClickOk-gone r.loop.heap d node t (r.clicks t) at (inr (λ s. ground arith))
                  (w.clicks_there t))
        ])
