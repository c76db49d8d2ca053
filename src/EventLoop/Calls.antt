-- ===== src/EventLoop/Calls.antt =====
-- What a callback asks of src/loop.c uses no memory that is not there, and leaves every structure and
-- event as it should be.
use mathlib.Core.Path.{subst}
use runes.Shared.{
  ℕ, suc, ◌+◌, ◌≡◌, ◌≢◌, inl, inr, refl, sym, ap, ◌∙◌, Bool, true, false, Option, none, some, List,
  [], ◌∷◌, arith, if◌then◌else◌, ◌==◌, ==_iff, Bool-cases,
}
use runes.Shared.Int.{ℤ}
use runes.Shared.Tables.{put, put_same, put_other}
use runes.Window.Clock.{Timeval}
use runes.Window.Clock as Clock
use runes.EventLoop.{
  Kind, work, timer, delay_cb, reset_visual_bell, multi_click_cb, LoopData, Status, freed, idle,
  armed, disarm, is_known, free_data, Libevent, is_some, Loop, add_data, start_work, timer_set,
  timer_clear, clear_at, free_timer_at,
}
use runes.EventLoop.Callbacks.{
  Run, Call, puts_off, rings, click, starts, set_click, with_loop, then_click, after_click, do_call,
  then_do, do_calls,
}
use runes.EventLoop.Owned.{is_timer, Owned, ClickOk, Whole}
use runes.EventLoop.Kept.{next_free, node_timeout, node_known, add_data-Owned, freed-Owned}

module _ (ev : Libevent) (busy : ℕ → Bool) where
  -- No callback runs of what is not there, or of a timer of clicks.
  pub record Calm (l : Loop ev) : Type 0 where
    pub owned : Owned ev busy l
    pub below : (n : ℕ) → busy (l.next + n) ≡ false
    pub quiet :
        (d e t : ℕ)
        → l.heap d ≡ some (record { event = e; t = t; kind = timer multi_click_cb })
        → busy d ≡ false

  -- What runs stays where it is.
  abbrev pub Stays : Loop ev → Loop ev → Type 0
  Stays l l' =
      (x : ℕ) (node : LoopData) → busy x ≡ true → l.heap x ≡ some node → l'.heap x ≡ some node

  not_next : (l : Loop ev) → Calm l → (x : ℕ) (node : LoopData) → l.heap x ≡ some node → x ≢ l.next
  not_next l c x node at same =
      ground (arith, sym at ∙ ap l.heap same ∙ next_free ev busy l c.owned)

  ClickOk-added :
      (l : Loop ev) (t' : ℕ) (o : Option ℕ) (t : ℕ) (kind : Kind) (timeout : Option Timeval)
      → Calm l
      → ClickOk ev l.heap t' o
      → ClickOk ev (add_data ev t kind timeout l).heap t' o
  ClickOk-added l t' none t kind timeout c h = h
  ClickOk-added l t' (some d) t kind timeout c (e, at) =
      (e, put_other l.next d _ l.heap (not_next l c d _ at) ∙ at)

  busy_next : (l : Loop ev) → Calm l → busy l.next ≡ false
  busy_next l c = let e : l.next + 0 ≡ l.next = omega arith in ap busy (sym e) ∙ c.below 0

  add_data-Calm :
      (l : Loop ev) (t : ℕ) (kind : Kind) (timeout : Option Timeval)
      → is_some timeout ≡ is_timer kind
      → Calm l
      → Calm (add_data ev t kind timeout l) × Stays l (add_data ev t kind timeout l)
  add_data-Calm l t kind timeout timed c = (
    record {
      owned = add_data-Owned ev busy l c.owned t kind timeout (busy_next l c) timed;
      below = λ n.
          (let e : suc l.next + n ≡ l.next + suc n = omega arith in ap busy e ∙ c.below (suc n));
      quiet = λ d e t' at. elim (Bool-cases (d == l.next)) [
        | inl same ↦ ap busy ((==_iff d l.next).0 same) ∙ busy_next l c
        | inr other ↦ c.quiet d e t' (sym (put_other l.next d _ l.heap (λ s. ground arith)) ∙ at)
      ];
    },
    λ x node b at. put_other l.next x _ l.heap (not_next l c x node at) ∙ at,
  )

  -- A timer of clicks is cleared.
  abbrev cleared : ℕ → ℕ → Loop ev → Loop ev
  cleared d e l = record l {
    heap = put d none l.heap;
    timeouts = put d none l.timeouts;
    base = ev.event_free (ev.event_del l.base e) e;
  }

  timer_clear_there :
      (l : Loop ev) (d : ℕ) (node : LoopData)
      → Owned ev busy l
      → l.heap d ≡ some node
      → is_timer node.kind ≡ true
      → timer_clear ev d l ≡ some (cleared d node.event l)
  unfolding timer_clear
  timer_clear_there l d node o at timed =
      let known = node_known ev busy l o d node at in
      let time : is_some (l.timeouts d) ≡ true = node_timeout ev busy l o d node at ∙ timed in
      let still : is_known (ev.status (ev.event_del l.base node.event) node.event) ≡ true =
        ap is_known (
          ev.status-event_del l.base node.event node.event
          ∙ put_same node.event (disarm (ev.status l.base node.event)) (ev.status l.base))
        ∙ still_known (ev.status l.base node.event) known in
      let deleted : Loop ev = record l { base = ev.event_del l.base node.event } in
      let untimed : Loop ev = record deleted { timeouts = put d none l.timeouts } in
      ap (λ o. clear_at ev d o l) at
      ∙ ap (λ b. if b then free_timer_at ev d (l.heap d) deleted else none) known
      ∙ ap (λ o. free_timer_at ev d o deleted) at
      ∙ ap (λ b. if b then free_data ev d node.event untimed else none) time
      ∙ ap (λ b. if b then some (cleared d node.event l) else none) still
    where
      still_known : (s : Status) → is_known s ≡ true → is_known (disarm s) ≡ true
      still_known freed h = h
      still_known (idle a) h = refl
      still_known (armed a) h = refl

  cleared-Calm :
      (l : Loop ev) (d e t : ℕ)
      → l.heap d ≡ some (record { event = e; t = t; kind = timer multi_click_cb })
      → Calm l
      → Calm (cleared d e l) × Stays l (cleared d e l)
  cleared-Calm l d e t at c = (
    record {
      owned =
          freed-Owned ev busy l c.owned busy d _ (ev.event_del l.base e) (put d none l.timeouts) at
            (λ h ne. ev.status-event_del l.base e h ∙ put_other e h _ (ev.status l.base) ne)
            (put_same d none l.timeouts) (λ x ne. put_other d x none l.timeouts ne) (λ x ne. refl);
      below = c.below;
      quiet = λ x e' t' there. elim (Bool-cases (x == d)) [
        | inl same ↦ ap busy ((==_iff x d).0 same) ∙ c.quiet d e t at
        | inr other ↦ c.quiet x e' t' (sym (put_other d x none l.heap (λ s. ground arith)) ∙ there)
      ];
    },
    λ x node b there.
        put_other d x none l.heap (λ same. ground (arith, sym b ∙ ap busy same ∙ c.quiet d e t at))
        ∙ there,
  )

  abbrev pub Keeps : Run ev → Option (Run ev) → Type 0
  Keeps r o = (r' : Run ev) × (o ≡ some r') × Calm r'.loop × Whole ev busy r' × Stays r.loop r'.loop

  -- The new timer of clicks is the one that the window keeps; the others' are as they were.
  set_click-Keeps :
      (rate : ℤ) (t : ℕ) (r : Run ev) (l : Loop ev)
      → Calm l
      → ((t' : ℕ) → t' ≢ t → ClickOk ev l.heap t' (r.clicks t'))
      → Stays r.loop l
      → Keeps r (some (set_click ev rate t (record r { loop = l })))
  unfolding timer_set
  set_click-Keeps rate t r l c others stays =
      let kind = timer multi_click_cb in
      let time = some (Clock.timer_set rate) in
      let (calm, added) = add_data-Calm l t kind time refl c in
      let l' = add_data ev t kind time l in
      (
        set_click ev rate t (record r { loop = l }),
        refl,
        calm,
        record {
          owned = calm.owned;
          clicks_there = λ t'. elim (Bool-cases (t' == t)) [
            | inl same ↦
                subst (λ x. ClickOk ev l'.heap x (put t (some l.next) r.clicks x))
                  (sym ((==_iff t' t).0 same))
                  (subst (ClickOk ev l'.heap t) (sym (put_same t (some l.next) r.clicks))
                    (_, put_same l.next _ l.heap))
            | inr other ↦
                let ne : t' ≢ t = λ s. ground arith in
                subst (ClickOk ev l'.heap t') (sym (put_other t t' (some l.next) r.clicks ne))
                  (ClickOk-added l t' (r.clicks t') t kind time c (others t' ne))
          ];
        },
        λ x node b at. added x node b (stays x node b at),
      )

  -- A timer or a callback of another kind is added.
  added-Keeps :
      (t : ℕ) (kind : Kind) (timeout : Option Timeval) (r : Run ev)
      → is_some timeout ≡ is_timer kind
      → Calm r.loop
      → Whole ev busy r
      → Keeps r (some (record r { loop = add_data ev t kind timeout r.loop }))
  added-Keeps t kind timeout r timed c w =
      let (calm, stays) = add_data-Calm r.loop t kind timeout timed c in
      (
        record r { loop = add_data ev t kind timeout r.loop },
        refl,
        calm,
        record {
          owned = calm.owned;
          clicks_there =
              λ t'. ClickOk-added r.loop t' (r.clicks t') t kind timeout c (w.clicks_there t');
        },
        stays,
      )

  -- Another window's timer of clicks is another timer.
  ClickOk-cleared :
      (l : Loop ev) (d e t t' : ℕ) (o : Option ℕ)
      → l.heap d ≡ some (record { event = e; t = t; kind = timer multi_click_cb })
      → t' ≢ t
      → ClickOk ev l.heap t' o
      → ClickOk ev (cleared d e l).heap t' o
  ClickOk-cleared l d e t t' none at ne h = h
  ClickOk-cleared l d e t t' (some d') at ne (e', at') = (
    e',
    put_other d d' none l.heap (λ same. ne (ground (arith, sym at' ∙ ap l.heap same ∙ at))) ∙ at',
  )

  after_click-Keeps :
      (rate : ℤ) (t : ℕ) (o : Option ℕ) (r : Run ev)
      → Calm r.loop
      → Whole ev busy r
      → ClickOk ev r.loop.heap t o
      → Keeps r (after_click ev rate t o r)
  after_click-Keeps rate t none r c w h =
      set_click-Keeps rate t r r.loop c (λ t' ne. w.clicks_there t') (λ x node b at. at)
  after_click-Keeps rate t (some d) r c w (e, at) =
      let (calm, stays) = cleared-Calm r.loop d e t at c in
      subst (Keeps r)
        (sym (
          ap (λ l. then_click ev rate t (with_loop ev l r))
            (timer_clear_there r.loop d _ c.owned at refl)))
        (set_click-Keeps rate t r (cleared d e r.loop) calm
          (λ t' ne. ClickOk-cleared r.loop d e t t' (r.clicks t') at ne (w.clicks_there t')) stays)

  do_call-Keeps :
      (call : Call ev) (r : Run ev) → Calm r.loop → Whole ev busy r → Keeps r (do_call ev call r)
  unfolding do_call start_work timer_set
  do_call-Keeps (puts_off rate t) r c w = added-Keeps t (timer delay_cb) _ r refl c w
  do_call-Keeps (rings t) r c w = added-Keeps t (timer reset_visual_bell) _ r refl c w
  do_call-Keeps (click rate t) r c w =
      after_click-Keeps rate t (r.clicks t) r c w (w.clicks_there t)
  do_call-Keeps (starts t cb) r c w = added-Keeps t (work cb) none r refl c w

  pub do_calls-Keeps :
      (calls : List (Call ev)) (r : Run ev)
      → Calm r.loop
      → Whole ev busy r
      → Keeps r (do_calls ev calls r)
  unfolding do_calls
  do_calls-Keeps [] r c w = (r, refl, c, w, λ x node b at. at)
  do_calls-Keeps (call ∷ calls) r c w =
      let (r1, one, c1, w1, s1) = do_call-Keeps call r c w in
      let (r2, more, c2, w2, s2) = do_calls-Keeps calls r1 c1 w1 in
      (
        r2,
        ap (λ o. then_do ev o (do_calls ev calls)) one ∙ more,
        c2,
        w2,
        λ x node b at. s2 x node b (s1 x node b at),
      )
