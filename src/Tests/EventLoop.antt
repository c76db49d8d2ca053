-- ===== src/Tests/EventLoop.antt =====
-- src/loop.c with a concrete libevent, whose base is the list of its events.
use runes.Shared.{
  ℕ, zero, suc, ◌≡◌, refl, ap, ◌∙◌, true, false, Option, none, some, List, [], ◌∷◌, ◌++◌, length,
  set, get_or, arith, ◌==◌, if◌then◌else◌,
}
use runes.Shared.Int.{pos}
use runes.Shared.Tables.{put}
use runes.EventLoop.{
  Status, freed, idle, armed, arm, disarm, loop_work_cb, loop_timer_cb, Libevent, window_event_cb,
  pty_input_cb, start_work, timer_set, timer_clear, free_timer_data,
}
use runes.EventLoop.Callbacks.{
  Run, Act, sets_up, fires, puts_off, click, starts, acts, act, do_calls, do_call,
}
use runes.EventLoop.Owned.{Whole, nobody}
use runes.EventLoop.Safety.{new_run, acts-Whole}

abbrev status_of : List Status → ℕ → Status
status_of b h = get_or b h freed

set_status :
    (f : Status → Status) (b : List Status) (e h : ℕ)
    → f freed ≡ freed
    → status_of (set b e (f (status_of b e))) h ≡ put e (f (status_of b e)) (status_of b) h
set_status f [] e h none_there = ground (arith, none_there)
set_status f (s ∷ b) zero zero none_there = refl
set_status f (s ∷ b) zero (suc h) none_there = ground arith
set_status f (s ∷ b) (suc e) zero none_there = ground arith
set_status f (s ∷ b) (suc e) (suc h) none_there =
    set_status f b e h none_there
    ∙ (let same : (h == e) ≡ (suc h == suc e) = ground arith in
        ap (λ t. if t then f (status_of b e) else status_of b h) same)

append_status :
    (b : List Status) (s : Status) (h : ℕ)
    → status_of (b ++ s ∷ []) h ≡ put (length b) s (status_of b) h
append_status [] s zero = refl
append_status [] s (suc h) = ground arith
append_status (x ∷ b) s zero = ground arith
append_status (x ∷ b) s (suc h) =
    append_status b s h
    ∙ (let same : (h == length b) ≡ (suc h == suc (length b)) = ground arith in
        ap (λ t. if t then s else status_of b h) same)

behind_last : (b : List Status) → status_of b (length b) ≡ freed
behind_last [] = refl
behind_last (x ∷ b) = behind_last b

abbrev listed : Libevent
listed = record {
  Base = List Status;
  status = status_of;
  event_new = λ b a. (length b, b ++ idle a ∷ []);
  event_add = λ b e timeout. set b e (arm (status_of b e));
  event_del = λ b e. set b e (disarm (status_of b e));
  event_free = λ b e. set b e freed;
  activate = λ b e. set b e (disarm (status_of b e));
  event_new_fresh = λ b a. behind_last b;
  status-event_new = λ b a h. append_status b (idle a) h;
  status-event_add = λ b e timeout h. set_status arm b e h refl;
  status-event_del = λ b e h. set_status disarm b e h refl;
  status-event_free = λ b e h. set_status (λ s. freed) b e h refl;
  status-activate = λ b e h. set_status disarm b e h refl;
}

-- A terminal is registered; its window is clicked twice, and the second timer fires.
abbrev two_clicks : List (Act listed)
two_clicks =
    sets_up (starts 7 window_event_cb ∷ starts 7 pty_input_cb ∷ [])
    ∷ fires 0 (click (pos 300) 7 ∷ puts_off (pos 20) 7 ∷ []) true
    ∷ fires 0 (click (pos 300) 7 ∷ []) true
    ∷ fires 4 [] true
    ∷ fires 1 [] false
    ∷ []

abbrev base_of : Option (Run listed) → List Status
base_of none = []
base_of (some r) = r.loop.base

two_clicks_events :
    base_of (acts listed two_clicks (new_run listed []))
    ≡ armed (loop_work_cb 0) ∷ freed ∷ freed ∷ armed (loop_timer_cb 3) ∷ freed ∷ []
unfolding acts act do_calls do_call start_work timer_set timer_clear free_timer_data
two_clicks_events = refl

acts-Whole_example :
    (r : Run listed) × (acts listed two_clicks (new_run listed []) ≡ some r) × Whole listed nobody r
acts-Whole_example = acts-Whole listed [] two_clicks (λ e. refl)
