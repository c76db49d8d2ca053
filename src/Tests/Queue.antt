-- ===== src/Tests/Queue.antt =====
-- The callbacks of src/window-xlib.c on a shared connection, with a concrete XCheckIfEvent.
use runes.Shared.{
  ◌≡◌, refl, ap, ◌∙◌, ◌⊎◌, Bool, true, false, some, List, [], ◌∷◌, ◌++◌, arith, if◌then◌else◌,
  Bool-cases, inl, inr, append-nil, sym,
}
use runes.Shared.Int.{pos}
use runes.Window.Events.{delete_window, expose, ping, configure}
use runes.Window.Queue.{
  is_resize, Addressed, Connection, events_of, Windows, passing, Check, found, not_found, Checked,
  Xlib, Left, queue_cb,
}
use runes.Window.Pass.{own}
use runes.Window.QueueLaws.{Apart, queue_cb-others}
use runes.Tests.Screens.{four_columns, ascii, options, still, window}

-- It reads all that has come, and takes the first event that passes.
abbrev all_read : List Addressed → Connection
all_read es = record { queue = es; unread = [] }

abbrev behind : Addressed → Check → Check
behind e (found e' c) = found e' (record c { queue = e ∷ c.queue })
behind e (not_found c) = not_found (record c { queue = e ∷ c.queue })

abbrev scan : (Addressed → Bool) → List Addressed → Check
scan p [] = not_found (all_read [])
scan p (e ∷ es) = if p e then found e (all_read es) else behind e (scan p es)

behind-Checked :
    (p : Addressed → Bool) (e : Addressed) (es : List Addressed) (r : Check)
    → p e ≡ false
    → Checked p (all_read es) r
    → Checked p (all_read (e ∷ es)) (behind e r)
behind-Checked p e es (found e' c) off (before, after, all, left, others, mine) =
    (e ∷ before, after, ap (λ l. e ∷ l) all, ap (λ l. e ∷ l) left, rw off others, mine)
behind-Checked p e es (not_found c) off (q, u, none_mine) = (ap (λ l. e ∷ l) q, u, rw off none_mine)

scan-Checked : (p : Addressed → Bool) (es : List Addressed) → Checked p (all_read es) (scan p es)
scan-Checked p [] = (refl, refl, refl)
scan-Checked p (e ∷ es) = elim (Bool-cases (p e)) [
  | inl on ↦ rw on ([], es ++ [], refl, refl, refl, on)
  | inr off ↦ rw off (behind-Checked p e es (scan p es) off (scan-Checked p es))
]

from_queue :
    (p : Addressed → Bool) (c : Connection) (r : Check)
    → Checked p (all_read (events_of c)) r
    → Checked p c r
from_queue p c (found e c') (before, after, all, left, others, mine) =
    (before, after, sym (append-nil (events_of c)) ∙ all, left, others, mine)
from_queue p c (not_found c') (q, u, none_mine) =
    (q ∙ append-nil (events_of c), u, ap (passing p) (sym (append-nil (events_of c))) ∙ none_mine)

abbrev scanning : Xlib
scanning = record {
  check_if_event = λ p c. scan p (events_of c);
  check_typed_window_event = λ ids c. scan (is_resize ids) (events_of c);
  check-Checked = λ p c. from_queue p c _ (scan-Checked p (events_of c));
  typed-Checked =
      λ ids c. from_queue (is_resize ids) c _ (scan-Checked (is_resize ids) (events_of c));
}

abbrev first_terminal : Windows
first_terminal = record { inner = 10; border = 11 }

abbrev second_terminal : Windows
second_terminal = record { inner = 20; border = 21 }

apart : Apart first_terminal second_terminal
apart = ground arith

-- An event of each terminal and a resize of the first are in the queue; another resize and an event of
-- each have come.
abbrev six_events : Connection
six_events = record {
  queue =
      record { window_id = 20; event = expose }
      ∷ record { window_id = 11; event = ping }
      ∷ record { window_id = 11; event = configure true (pos 30) (pos 40) }
      ∷ [];
  unread =
      record { window_id = 11; event = configure true (pos 50) (pos 60) }
      ∷ record { window_id = 10; event = delete_window }
      ∷ record { window_id = 21; event = ping }
      ∷ [];
}

queue_cb-others_example :
    (left : Left options still four_columns ascii 8 16 scanning first_terminal) × (queue_cb options
        still four_columns ascii 8 16 scanning first_terminal six_events window
      ≡ some left)
    × (own second_terminal (events_of left.connection) ≡ own second_terminal (events_of six_events))
    × ((left.again ≡ true)
          × (left.connection.unread ≡ [])
          × (own second_terminal left.connection.queue ≡ own second_terminal (events_of six_events))
        ⊎ (left.again ≡ false))
queue_cb-others_example =
    queue_cb-others options still four_columns ascii 8 16 scanning first_terminal six_events window
      second_terminal apart
