-- ===== src/EventLoop/Owned.antt =====
-- What src/loop.c keeps true of its structures: each has its own event, which is armed unless its callback
-- runs, and there is no other event and no other memory.
use runes.Shared.{
  ℕ, ◌+◌, ◌≡◌, ◌≢◌, ◌⊎◌, refl, Bool, true, false, Option, none, some, arith, if◌then◌else◌,
}
use runes.EventLoop.{
  Kind, work, timer, multi_click_cb, LoopData, Arg, loop_work_cb, loop_timer_cb, arg_of, Status,
  freed, idle, armed, Libevent, is_some, Loop,
}
use runes.EventLoop.Callbacks.{Run}

abbrev pub address : Arg → ℕ
address (loop_work_cb d) = d
address (loop_timer_cb d) = d

abbrev pub is_timer : Kind → Bool
is_timer (work cb) = false
is_timer (timer cb) = true

-- `busy` says of which structures the callback runs.
abbrev pub event_state : Bool → Arg → Status
event_state running a = if running then idle a else armed a

pub event_state_known : (running : Bool) (a : Arg) → event_state running a ≢ freed
event_state_known true a = λ e. ground arith
event_state_known false a = λ e. ground arith

-- One event is one structure's.
pub event_state-address :
    (p q : Bool) (a b : Arg) → event_state p a ≡ event_state q b → address a ≡ address b
event_state-address true true a b e = ground arith
event_state-address true false a b e = absurd (ground arith)
event_state-address false true a b e = absurd (ground arith)
event_state-address false false a b e = ground arith

pub address-arg_of : (k : Kind) (d : ℕ) → address (arg_of k d) ≡ d
address-arg_of (work cb) d = refl
address-arg_of (timer cb) d = refl

module _ (ev : Libevent) where
  -- A structure has its event, with its own address, and a timer's has a timeout; where there is no
  -- structure there is no timeout.
  abbrev pub CellOk : (ℕ → Bool) → Loop ev → ℕ → Option LoopData → Type 0
  CellOk busy l d none = l.timeouts d ≡ none
  CellOk busy l d (some node) =
      (ev.status l.base node.event ≡ event_state (busy d) (arg_of node.kind d))
      × (is_some (l.timeouts d) ≡ is_timer node.kind)

  -- An event that is not freed is that of a structure.
  abbrev pub EventOk : (ℕ → Bool) → Loop ev → ℕ → Type 0
  EventOk busy l e =
      (ev.status l.base e ≡ freed)
      ⊎ (d : ℕ) × (node : LoopData) × (l.heap d ≡ some node)
        × (node.event ≡ e)
        × (ev.status l.base e ≡ event_state (busy d) (arg_of node.kind d))

  pub record Owned (busy : ℕ → Bool) (l : Loop ev) : Type 0 where
    pub cells : (d : ℕ) → CellOk busy l d (l.heap d)
    pub events : (e : ℕ) → EventOk busy l e
    pub unused : (n : ℕ) → l.heap (l.next + n) ≡ none

  -- The timer that a window keeps is a timer of clicks, and there.
  abbrev pub ClickOk : (ℕ → Option LoopData) → ℕ → Option ℕ → Type 0
  ClickOk heap t none = Unit {0}
  ClickOk heap t (some d) =
      (e : ℕ) × (heap d ≡ some (record { event = e; t = t; kind = timer multi_click_cb }))

  pub record Whole (busy : ℕ → Bool) (r : Run ev) : Type 0 where
    pub owned : Owned busy r.loop
    pub clicks_there : (t : ℕ) → ClickOk r.loop.heap t (r.clicks t)

abbrev pub nobody : ℕ → Bool
nobody d = false
