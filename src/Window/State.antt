-- ===== src/Window/State.antt =====
-- The state of a terminal's window: struct runes_window of src/window-xlib.h with what its handlers use
-- of struct runes_display and of the screen, and the calls that go to X and to the shell, in order.
use runes.Shared.{ℕ, Bool, true, List, [], ◌∷◌, ◌++◌}
use runes.Shared.Int.{ℤ}
use runes.Shared.Text.{Bytes}
use runes.Display.Location.{Loc}
use runes.Display.Runs.{Cell}
use runes.Display.Selection.{Vt100, Selection}
use runes.Window.Keys.{Modes, Modifiers}
use runes.Window.View.{Grid}
use runes.Window.Clock.{Timespec}
use runes.Term.{Term}

pub data Button : Type 0 where
  left_button middle_button right_button scroll_up scroll_down no_button : Button

pub data ButtonEvent : Type 0 where
  press release motion : ButtonEvent

-- What the program asks of the vt100 library beyond the texts of a selection. A response is a text
-- that fits its buffer of 32 bytes, or is as long as it would have to be.
pub record ScreenLib : Type 1 where
  pub vt : Vt100
  pub row_count : vt.Screen → ℤ
  pub max_row : vt.Screen → ℤ
  pub row_top : vt.Screen → ℤ
  pub set_window_size : vt.Screen → ℤ → ℤ → vt.Screen
  pub modes : vt.Screen → Modes
  pub bracketed_paste : vt.Screen → Bool
  pub wants_button_press : vt.Screen → Bool
  pub wants_button_release : vt.Screen → Bool
  pub wants_any_motion : vt.Screen → Bool
  pub wants_button_motion : vt.Screen → Bool
  pub format_mouse_reporting_response : vt.Screen → Loc → ButtonEvent → Button → Modifiers → Bytes
  pub is_wrapped : vt.Screen → ℤ → Bool
  pub cell_at : vt.Screen → ℤ → ℤ → Cell

-- What GLib and the vt100 library say of the characters of a cell.
pub record Characters : Type 0 where
  pub first_length : Bytes → ℕ
  pub get_char : Bytes → ℕ
  pub char_width : ℕ → ℕ
  pub is_space : ℕ → Bool

-- The calls. Those that only draw, and the urgency hint, are not listed, but for the redraw itself.
pub data Effect : Type 0 where
  redraw set_title set_icon_name : Effect
  pty_write : Bytes → Effect
  hang_up asked_to_close : Effect
  convert_selection convert_to_string : Effect
  own_selection clear_old_owner : Effect
  send_targets refuse_selection answer_only : Effect
  send_text : Bytes → ℕ → Effect
  resize_window : ℤ → ℤ → Effect
  set_pty_size : ℤ → ℤ → ℤ → ℤ → Effect
  pong : Effect

-- Answers of the world, by the number of the question: the clock, and whether X gives the selection
-- away and who had it.
pub record World : Type 0 where
  pub clock : ℕ → Timespec
  pub grants : ℕ → Bool
  pub was_owner : ℕ → Bool

module _ (lib : ScreenLib) where
  -- `asked` counts the questions to the world.
  pub record Window : Type 0 where
    pub life : Term
    pub scr : lib.vt.Screen
    pub scr_dirty : Bool
    pub update_title : Bool
    pub update_icon_name : Bool
    pub selection : Selection
    pub row_visible_offset : ℤ
    pub unfocused : Bool
    pub mouse_down : Bool
    pub owns_selection : Bool
    pub multi_clicks : ℕ
    pub last_reported : Loc
    pub last_redraw : Timespec
    pub asked : ℕ
    pub log : List Effect

  abbrev pub emit : Effect → Window → Window
  emit e w = record w { log = w.log ++ (e ∷ []) }

  abbrev pub grid_of : lib.vt.Screen → Grid
  grid_of scr = record {
    row_count = lib.row_count scr;
    max_row = lib.max_row scr;
    max_col = lib.vt.max_col scr;
  }

  abbrev pub set_dirty : Window → Window
  set_dirty w = record w { selection = record w.selection { dirty = true } }
