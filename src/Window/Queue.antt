-- ===== src/Window/Queue.antt =====
-- The loop of `runes_window_event_cb` over the events of an X connection that terminals may share,
-- `runes_window_wants_event`, and the loop of `runes_window_handle_configure_event`, of
-- src/window-xlib.c. Xlib's two calls are parameters, with what its manual says.
use runes.Shared.{
  ℕ, zero, suc, ◌≡◌, Bool, true, false, ◌||◌, ◌&&◌, Option, none, some, List, [], ◌∷◌, ◌++◌, length,
  ◌==◌, if◌then◌else◌,
}
use runes.Config.Types.{Config}
use runes.Window.State.{ScreenLib, Characters, World, Window, emit, hang_up}
use runes.Window.Events.{Event, configure, handle_event}
use runes.Term.{close_window}

-- An XEvent with the window that it was sent to.
pub record Addressed : Type 0 where
  pub window_id : ℕ
  pub event : Event

-- Xlib's queue, and what has come on the descriptor and was not read.
pub record Connection : Type 0 where
  pub queue : List Addressed
  pub unread : List Addressed

abbrev pub events_of : Connection → List Addressed
events_of c = c.queue ++ c.unread

-- `w` and `border_w` of struct runes_window.
pub record Windows : Type 0 where
  pub inner : ℕ
  pub border : ℕ

abbrev pub wants_event : Windows → Addressed → Bool
wants_event ids e = e.window_id == ids.inner || e.window_id == ids.border

-- The events of a list that pass a test, and the others.
abbrev pub passing : (Addressed → Bool) → List Addressed → List Addressed
passing p [] = []
passing p (e ∷ es) = if p e then e ∷ passing p es else passing p es

abbrev pub failing : (Addressed → Bool) → List Addressed → List Addressed
failing p [] = []
failing p (e ∷ es) = if p e then failing p es else e ∷ failing p es

-- What XCheckIfEvent gives: the first event that passes, which it removes, or nothing. It looks
-- through the queue and then through what it can read without waiting.
pub data Check : Type 0 where
  found : Addressed → Connection → Check
  not_found : Connection → Check

abbrev pub Checked : (Addressed → Bool) → Connection → Check → Type 0
Checked p c (found e c') =
    (before : List Addressed) × (after : List Addressed) × (events_of c ≡ before ++ e ∷ after)
    × (events_of c' ≡ before ++ after)
    × (passing p before ≡ [])
    × (p e ≡ true)
Checked p c (not_found c') =
    (c'.queue ≡ events_of c) × (c'.unread ≡ []) × (passing p (events_of c) ≡ [])

-- A configure event of the outer window, which alone is looked at.
abbrev pub is_configure : Event → Bool
is_configure (configure of_border width height) = true
is_configure _ = false

abbrev pub is_resize : Windows → Addressed → Bool
is_resize ids e = e.window_id == ids.border && is_configure e.event

-- An event as its handler sees it, which asks a configure event for its window.
abbrev pub of_window : Bool → Event → Event
of_window of_border (configure _ width height) = configure of_border width height
of_window of_border e = e

abbrev pub event_for : Windows → Addressed → Event
event_for ids e = of_window (e.window_id == ids.border) e.event

-- XCheckTypedWindowEvent is asked for configure events of one window only. An event that XFilterEvent
-- takes stands among the events that nothing is done for.
pub record Xlib : Type 0 where
  pub check_if_event : (Addressed → Bool) → Connection → Check
  pub check_typed_window_event : Windows → Connection → Check
  pub check-Checked : (p : Addressed → Bool) (c : Connection) → Checked p c (check_if_event p c)
  pub typed-Checked :
      (ids : Windows) (c : Connection) → Checked (is_resize ids) c (check_typed_window_event ids c)

-- The loop of `runes_window_handle_configure_event`: the last of the events that have come, which are
-- all removed.
module _ (xlib : Xlib) (ids : Windows) where
  abbrev pub after_typed :
      (Addressed → Connection → Addressed × Connection) → Addressed → Check → Addressed × Connection
  after_typed more e (found e' c) = more e' c
  after_typed more e (not_found c) = (e, c)

  unfoldable pub last_configure : ℕ → Addressed → Connection → Addressed × Connection
  last_configure zero e c = (e, c)
  last_configure (suc fuel) e c =
      after_typed (last_configure fuel) e (xlib.check_typed_window_event ids c)

  -- Each round but the last takes an event.
  abbrev pub seen_event : Addressed → Connection → Addressed × Connection
  seen_event e c =
      let last = last_configure (suc (length (events_of c))) e c in
      if is_resize ids e then last else (e, c)

module _ {Pattern : Type 0} (cfg : Config Pattern) (world : World) (lib : ScreenLib)
    (chars : Characters) (fontx fonty : ℕ) (xlib : Xlib) (ids : Windows) where
  -- The connection and the window that a callback leaves, and whether it is to be armed again.
  pub record Left : Type 0 where
    pub connection : Connection
    pub window : Window lib
    pub again : Bool

  abbrev pub hung_up : Window lib → Window lib
  hung_up w = emit lib hang_up (record w { life = close_window w.life })

  -- A round, with the rounds after it.
  abbrev pub after_event :
      (Connection → Window lib → Option Left) → Window lib → Check → Option Left
  after_event more w (found e c) =
      let (seen, left) = seen_event xlib ids e c in
      let (w', should_close) =
        handle_event cfg world lib chars fontx fonty (event_for ids seen) w in
      let rest = more left w' in
      if should_close
      then some (record { connection = left; window = hung_up w'; again = false })
      else rest
  after_event more w (not_found c) = some (record { connection = c; window = w; again = true })

  unfoldable pub check_loop : ℕ → Connection → Window lib → Option Left
  unfolding last_configure
  check_loop zero c w = none
  check_loop (suc fuel) c w =
      after_event (check_loop fuel) w (xlib.check_if_event (wants_event ids) c)

  -- Each round but the last takes an event.
  unfoldable pub queue_cb : Connection → Window lib → Option Left
  queue_cb c w = check_loop (suc (length (events_of c))) c w
