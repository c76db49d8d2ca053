-- ===== src/Tests/Window.antt =====
-- src/window-xlib.c and the timers of src/loop.c at concrete inputs.
use runes.Shared.{ℕ, ◌*◌, ◌≡◌, refl, true, false, some, ◌∷◌, arith}
use runes.Shared.Int.{pos, ◌≤ℤ◌, ◌+ℤ◌, ◌-ℤ◌}
use runes.Shared.Text.{codes}
use runes.Window.Keys.{up, application_cursor_keys, Modifiers, Modes, find_key_sequence}
use runes.Window.KeyLaws.{find_key_sequence_injective}
use runes.Window.View.{
  Grid, View, InGrid, get_mouse_position, visible_scroll-InGrid, get_mouse_position-in,
}
use runes.Window.View
use runes.Window.Clock.{Timespec, Redraws, check_recent}
use runes.Window.Pacing.{Apart, check_recent-Apart}

abbrev no_modifiers : Modifiers
no_modifiers = record { shift = false; control = false; mod1 = false }

abbrev application : Modes
application = record { application_keypad = true; application_cursor = true }

up_sequence :
    find_key_sequence application up no_modifiers
    ≡ some (record { sym = up; str = 27 ∷ codes "OA" })
unfolding find_key_sequence application_cursor_keys
up_sequence = refl

find_key_sequence_injective_example : up ≡ up
find_key_sequence_injective_example =
    find_key_sequence_injective application no_modifiers up up
      (record { sym = up; str = 27 ∷ codes "OA" }) (record { sym = up; str = 27 ∷ codes "OA" })
      up_sequence up_sequence refl

abbrev grid : Grid
grid = record { row_count = pos 100; max_row = pos 24; max_col = pos 80 }

abbrev view : View
view = record { row_visible_offset = pos 70; dirty = false }

view_fits : pos 70 ≤ℤ pos 100 -ℤ pos 24
unfolding ◌-ℤ◌
view_fits = omega arith

visible_scroll-InGrid_example : InGrid grid (View.visible_scroll grid view (pos 23)).0
visible_scroll-InGrid_example = visible_scroll-InGrid grid view (pos 23) (omega arith)

get_mouse_position-in_example :
    (pos 0 ≤ℤ (get_mouse_position 8 16 grid view (pos 5000) (pos 0 -ℤ pos 3)).row)
    × ((get_mouse_position 8 16 grid view (pos 5000) (pos 0 -ℤ pos 3)).row +ℤ pos 1 ≤ℤ pos 100)
    × (pos 0 ≤ℤ (get_mouse_position 8 16 grid view (pos 5000) (pos 0 -ℤ pos 3)).col)
    × ((get_mouse_position 8 16 grid view (pos 5000) (pos 0 -ℤ pos 3)).col +ℤ pos 1 ≤ℤ pos 80)
get_mouse_position-in_example =
    get_mouse_position-in 8 16 grid view (pos 5000) (pos 0 -ℤ pos 3) (omega arith) (omega arith)
      (omega arith, view_fits) (omega arith) (omega arith)

abbrev second : ℕ → Timespec
second n = record { tv_sec = pos n; tv_nsec = pos 500 }

normal_nanos : pos 500 +ℤ pos 1 ≤ℤ pos 1000000000
unfolding ◌+ℤ◌
normal_nanos = omega arith

abbrev idle : Redraws
idle = record { delaying = false; last_redraw = second 7 }

idle_not_recent : (check_recent (pos 20) (second 9) idle).recent ≡ false
unfolding check_recent ◌-ℤ◌
idle_not_recent = refl

check_recent-Apart_example : Apart (20 * 1000000) (second 7) (second 9)
check_recent-Apart_example =
    check_recent-Apart 20 (second 9) idle (omega arith, normal_nanos) (omega arith, normal_nanos)
      (omega arith) idle_not_recent
