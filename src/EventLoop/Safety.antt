-- ===== src/EventLoop/Safety.antt =====
-- Whatever happens in the event loop of src/loop.c, no freed memory is used and none is lost.
use runes.Shared.{ℕ, ◌≡◌, refl, ap, ◌∙◌, inl, none, some, List, [], ◌∷◌}
use runes.EventLoop.{freed, Libevent}
use runes.EventLoop.Callbacks.{Run, Act, sets_up, fires, then_do, act, acts}
use runes.EventLoop.Owned.{Whole, nobody}
use runes.EventLoop.Calls.{do_calls-Keeps}
use runes.EventLoop.Fired.{Ends}
use runes.EventLoop.Worked.{call_event-Ends}

module _ (ev : Libevent) where
  act-Ends : (a : Act ev) (r : Run ev) → Whole ev nobody r → Ends ev (act ev a r)
  unfolding act
  act-Ends (sets_up calls) r w =
      let (r', did, calm, whole, stays) =
        do_calls-Keeps ev nobody calls r
          (record { owned = w.owned; below = λ n. refl; quiet = λ d e t at. refl }) w in
      (r', did, whole)
  act-Ends (fires e calls again) r w = call_event-Ends ev e calls again r w

  acts-Ends : (all : List (Act ev)) (r : Run ev) → Whole ev nobody r → Ends ev (acts ev all r)
  unfolding acts
  acts-Ends [] r w = (r, refl, w)
  acts-Ends (a ∷ all) r w =
      let (r1, one, w1) = act-Ends a r w in
      let (r2, more, w2) = acts-Ends all r1 w1 in
      (r2, ap (λ o. then_do ev o (acts ev all)) one ∙ more, w2)

  -- `runes_loop_new`, of a base without events, and no window has a timer.
  abbrev pub new_run : ev.Base → Run ev
  new_run base = record {
    loop = record { heap = λ d. none; timeouts = λ d. none; next = 0; base = base };
    clicks = λ t. none;
  }

  new_run-Whole :
      (base : ev.Base) → ((e : ℕ) → ev.status base e ≡ freed) → Whole ev nobody (new_run base)
  new_run-Whole base empty = record {
    owned = record { cells = λ d. refl; events = λ e. inl (empty e); unused = λ n. refl };
    clicks_there = λ t. tt;
  }

  -- From an empty loop, whatever the program sets up and whichever events come, in any order, with
  -- whatever their callbacks ask of the loop and return: no structure, event or timer that is not
  -- there is used or freed. After it each structure has one event, which is armed with its address,
  -- and a timer's has its timeout; there is no other event and no other timeout; and the timer that a
  -- window keeps for its clicks is there, and its own.
  pub acts-Whole :
      (base : ev.Base) (all : List (Act ev))
      → ((e : ℕ) → ev.status base e ≡ freed)
      → (r : Run ev) × (acts ev all (new_run base) ≡ some r) × Whole ev nobody r
  acts-Whole base all empty = acts-Ends all (new_run base) (new_run-Whole base empty)
