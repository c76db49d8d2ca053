-- ===== src/EventLoop.antt =====
-- src/loop.c: the structures that it keeps for libevent's events, and what happens to them when
-- callbacks run. libevent is a parameter. A use of memory that is not there gives no result.
pub mod Callbacks
pub mod Owned
pub mod Changes
pub mod Kept
pub mod Calls
pub mod Fired
pub mod Worked
pub mod Safety
use runes.Shared.{
  ℕ, suc, ◌≡◌, Bool, true, false, Option, none, some, List, [], ◌∷◌, ◌==◌, if◌then◌else◌,
}
use runes.Shared.Int.{ℤ, pos}
use runes.Shared.Tables.{put}
use runes.Window.Clock.{Timeval}
use runes.Window.Clock as Clock

pub data WorkCb : Type 0 where
  window_event_cb pty_input_cb daemon_handle_request : WorkCb

pub data TimerCb : Type 0 where
  delay_cb reset_visual_bell multi_click_cb : TimerCb

pub data Kind : Type 0 where
  work : WorkCb → Kind
  timer : TimerCb → Kind

-- struct runes_loop_data, or struct runes_loop_timer_data. The block for a timer's timeout has the
-- same number as the structure that points to it.
pub record LoopData : Type 0 where
  pub event : ℕ
  pub t : ℕ
  pub kind : Kind

-- What libevent calls for an event, with the address that it was given: runes_loop_work_cb or
-- runes_loop_timer_cb.
pub data Arg : Type 0 where
  loop_work_cb loop_timer_cb : ℕ → Arg

abbrev pub arg_of : Kind → ℕ → Arg
arg_of (work cb) d = loop_work_cb d
arg_of (timer cb) d = loop_timer_cb d

pub data Status : Type 0 where
  freed : Status
  idle armed : Arg → Status

abbrev pub arm : Status → Status
arm freed = freed
arm (idle a) = armed a
arm (armed a) = armed a

abbrev pub disarm : Status → Status
disarm freed = freed
disarm (idle a) = idle a
disarm (armed a) = idle a

-- libevent: each call changes one event. A new event is none that there is, and the loop takes an
-- event that does not persist off before it calls its callback.
pub record Libevent : Type 1 where
  pub Base : Type 0
  pub status : Base → ℕ → Status
  pub event_new : Base → Arg → ℕ × Base
  pub event_add : Base → ℕ → Option Timeval → Base
  pub event_del : Base → ℕ → Base
  pub event_free : Base → ℕ → Base
  pub activate : Base → ℕ → Base
  pub event_new_fresh : (b : Base) (a : Arg) → status b (event_new b a).0 ≡ freed
  pub status-event_new :
      (b : Base) (a : Arg) (h : ℕ)
      → status (event_new b a).1 h ≡ put (event_new b a).0 (idle a) (status b) h
  pub status-event_add :
      (b : Base) (e : ℕ) (timeout : Option Timeval) (h : ℕ)
      → status (event_add b e timeout) h ≡ put e (arm (status b e)) (status b) h
  pub status-event_del :
      (b : Base) (e h : ℕ) → status (event_del b e) h ≡ put e (disarm (status b e)) (status b) h
  pub status-event_free :
      (b : Base) (e h : ℕ) → status (event_free b e) h ≡ put e freed (status b) h
  pub status-activate :
      (b : Base) (e h : ℕ) → status (activate b e) h ≡ put e (disarm (status b e)) (status b) h

abbrev pub is_known : Status → Bool
is_known freed = false
is_known (idle a) = true
is_known (armed a) = true

abbrev pub is_some {ℓ} : {A : Type ℓ} → Option A → Bool
is_some none = false
is_some (some x) = true

module _ (ev : Libevent) where
  -- The heap, in which malloc gives the next number, and libevent's base.
  pub record Loop : Type 0 where
    pub heap : ℕ → Option LoopData
    pub timeouts : ℕ → Option Timeval
    pub next : ℕ
    pub base : ev.Base

  abbrev pub add_data : ℕ → Kind → Option Timeval → Loop → Loop
  add_data t kind timeout l =
      let made = ev.event_new l.base (arg_of kind l.next) in
      record {
        heap = put l.next (some (record { event = made.0; t = t; kind = kind })) l.heap;
        timeouts = put l.next timeout l.timeouts;
        next = suc l.next;
        base = ev.event_add made.1 made.0 timeout;
      }

  unfoldable pub start_work : ℕ → WorkCb → Loop → Loop
  start_work t cb l = add_data t (work cb) none l

  -- With the address of the structure, which the caller may keep.
  unfoldable pub timer_set : ℤ → ℕ → TimerCb → Loop → ℕ × Loop
  timer_set timeout t cb l = (l.next, add_data t (timer cb) (some (Clock.timer_set timeout)) l)

  -- event_free and free, for an event and a structure that are there.
  abbrev pub free_data : ℕ → ℕ → Loop → Option Loop
  free_data d event l =
      if is_known (ev.status l.base event)
      then some (record l { heap = put d none l.heap; base = ev.event_free l.base event })
      else none

  abbrev pub free_timer : ℕ → LoopData → Loop → Option Loop
  free_timer d node l =
      let freed_too = free_data d node.event (record l { timeouts = put d none l.timeouts }) in
      if is_some (l.timeouts d) then freed_too else none

  abbrev pub free_timer_at : ℕ → Option LoopData → Loop → Option Loop
  free_timer_at d none l = none
  free_timer_at d (some node) l = free_timer d node l

  unfoldable pub free_timer_data : ℕ → Loop → Option Loop
  free_timer_data d l = free_timer_at d (l.heap d) l

  abbrev pub clear_at : ℕ → Option LoopData → Loop → Option Loop
  clear_at d none l = none
  clear_at d (some node) l =
      let cleared =
        free_timer_at d (l.heap d) (record l { base = ev.event_del l.base node.event }) in
      if is_known (ev.status l.base node.event) then cleared else none

  unfoldable pub timer_clear : ℕ → Loop → Option Loop
  timer_clear d l = clear_at d (l.heap d) l
