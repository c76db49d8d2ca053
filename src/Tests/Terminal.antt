-- ===== src/Tests/Terminal.antt =====
-- A whole terminal of src/window-xlib.c and src/pty-unix.c at concrete inputs.
use runes.Shared.{
  ℕ, ◌+◌, ◌%◌, ◌^◌, ◌*◌, ◌≤◌, ◌≡◌, refl, ◌⊎◌, true, false, some, List, [], ◌∷◌, ◌++◌, arith, length,
}
use runes.Shared.Int.{ℤ, pos, ◌+ℤ◌, ◌-ℤ◌, int_laws}
use runes.Shared.Text.{Bytes, codes}
use runes.Config.Options.{defaults}
use runes.Display.Location.{loc}
use runes.Pty.{read_buffer_length}
use runes.Window.State.{set_icon_name, set_title, set_pty_size, Window}
use runes.Window.Word.{
  back_loop, forward_loop, step_back, step_forward, is_word_char, beginning_of_word, end_of_word,
}
use runes.Window.WordLaws.{WordBack, Starts, Inside, beginning_of_word_lem}
use runes.Window.WordEnd.{WordForward, Near, end_of_word_lem}
use runes.Window.Mouse.{handle_button_event}
use runes.Window.ClickLaws.{release_left, handle_button_event-clicks}
use runes.Window.Events.{Event, button, delete_window}
use runes.Window.Loop.{Shown, Terminal, shell_input, Runs, stop, next, pty_input_cb}
use runes.Window.New.{NewScreen, term_new, term_new_size}
use runes.Window.Select.{property, handle_selection_notify_event}
use runes.Window.PtyLaws.{pty_bytes, framed, handle_selection_notify_event_writes}
use runes.Window.Reachable.{Runs-Managed, Runs-Fits}
use runes.Term.Life.{Managed}
use runes.Term.{register_with_loop}
use runes.Tests.Screens.{four_columns, ascii, text, options, still, window}

-- The word "bcde" goes over the end of the first row.
from_d :
    beginning_of_word ascii four_columns text (loc (pos 1) (pos 0)) ≡ some (loc (pos 0) (pos 2))
unfolding beginning_of_word back_loop is_word_char step_back ◌-ℤ◌ ◌+ℤ◌
from_d = refl

to_e : end_of_word ascii four_columns text (loc (pos 0) (pos 3)) ≡ some (loc (pos 1) (pos 2))
unfolding end_of_word forward_loop is_word_char step_forward ◌-ℤ◌ ◌+ℤ◌
to_e = refl

beginning_of_word_lem_example :
    ((is_word_char ascii four_columns text (pos 1 -ℤ pos 0) (pos 0) ≡ false)
      × (beginning_of_word ascii four_columns text (loc (pos 1) (pos 0))
          ≡ some (loc (pos 1) (pos 0))))
    ⊎ ((r c : ℤ) × (beginning_of_word ascii four_columns text (loc (pos 1) (pos 0))
          ≡ some (loc (r +ℤ pos 0) c))
        × WordBack ascii four_columns text (pos 1 -ℤ pos 0) (pos 0) r c
        × Starts ascii four_columns text r c
        × Inside ascii four_columns text r c)
beginning_of_word_lem_example =
    beginning_of_word_lem ascii four_columns text (loc (pos 1) (pos 0)) (omega arith) (omega arith)
      (omega int_laws)

end_of_word_lem_example :
    (r c : ℤ) × (end_of_word ascii four_columns text (loc (pos 0) (pos 3))
      ≡ some (loc (r +ℤ pos 0) c))
    × WordForward ascii four_columns text (pos 0 -ℤ pos 0) (pos 3) r c
    × Near ascii four_columns text r c
end_of_word_lem_example =
    end_of_word_lem ascii four_columns text (loc (pos 0) (pos 3)) (omega int_laws) (omega arith)
      (omega int_laws)

handle_button_event-clicks_example :
    (handle_button_event options still four_columns ascii 8 16
      (release_left options still four_columns ascii 8 16
        (pos 20)
        (pos 9)
        (record { shift = true; control = false; mod1 = false }))
      window).multi_clicks
    ≡ (window.multi_clicks + 2) % 2 ^ 32
handle_button_event-clicks_example =
    handle_button_event-clicks options still four_columns ascii 8 16 (pos 20) (pos 9) true false
      false window refl

-- A click, and the window is closed.
abbrev click_and_close : List Event
click_and_close =
    button (
      release_left options still four_columns ascii 8 16 (pos 20) (pos 9)
        (record { shift = false; control = false; mod1 = false }))
    ∷ delete_window
    ∷ []

window_open : window.life.window_work ≡ true
unfolding register_with_loop
window_open = refl

pty_open : window.life.pty_work ≡ true
unfolding register_with_loop
pty_open = refl

-- The screen takes all that is written.
abbrev take_all : Shown four_columns → Bytes → Shown four_columns × ℕ
take_all s bytes = (record s { dirty = true }, length bytes)

take_all_within : (s : Shown four_columns) (bytes : Bytes) → (take_all s bytes).1 ≤ length bytes
take_all_within s bytes = omega arith

abbrev Whole : Type 0
Whole = Terminal options still four_columns ascii 8 16 take_all take_all_within

abbrev whole : Whole
whole = record { window = window; remaining = []; unread = codes "hi" }

abbrev shown_hi : Whole
shown_hi = (pty_input_cb options still four_columns ascii 8 16 take_all take_all_within 10 whole).0

shows_hi : Runs options still four_columns ascii 8 16 take_all take_all_within whole shown_hi
shows_hi = next whole shown_hi shown_hi (shell_input 10 whole pty_open) (stop shown_hi)

Runs-Managed_example : Managed shown_hi.window.life
Runs-Managed_example =
    Runs-Managed options still four_columns ascii 8 16 take_all take_all_within whole shown_hi refl
      shows_hi

buffer_kept : length shown_hi.remaining ≤ read_buffer_length
buffer_kept =
    Runs-Fits options still four_columns ascii 8 16 take_all take_all_within whole shown_hi shows_hi
      (omega arith)

-- Screens are made empty, and keep their size nowhere.
abbrev empty_screens : NewScreen four_columns
empty_screens = record {
  screen_new = λ rows cols. record {
    scr = [];
    dirty = true;
    update_title = false;
    update_icon_name = false;
    audible_bell = false;
    visual_bell = false;
  };
  set_scrollback_length = λ text n. text;
}

abbrev new_window : Window four_columns
new_window = term_new options still four_columns ascii 8 16 empty_screens

term_new_size_example :
    (new_window.log
      ≡ set_icon_name
        ∷ set_title
        ∷ set_pty_size (pos 24) (pos 80) (pos (8 * 80 + 4)) (pos (16 * 24 + 4))
        ∷ [])
    × (new_window.scr
        ≡ four_columns.set_window_size
            (empty_screens.set_scrollback_length
              (empty_screens.screen_new (pos 24) (pos 80)).scr
              options.scrollback_length)
            (pos 24)
            (pos 80))
unfolding defaults
term_new_size_example =
    term_new_size options still four_columns ascii 8 16 empty_screens 24 80 refl refl (omega arith)
      (omega arith)

handle_selection_notify_event_writes_example :
    pty_bytes
      (handle_selection_notify_event options still four_columns (property (codes "ls")) window).log
    ≡ pty_bytes window.log ++ framed options still four_columns false (codes "ls")
handle_selection_notify_event_writes_example =
    handle_selection_notify_event_writes options still four_columns (codes "ls") window
