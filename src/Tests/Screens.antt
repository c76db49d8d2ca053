-- ===== src/Tests/Screens.antt =====
-- A small screen, its characters and a window on it, for the runs of whole terminals.
use runes.Shared.{◌+◌, ◌*◌, true, false, none, some, [], ◌∷◌, length, get_or, ◌==◌}
use runes.Shared.Int.{pos, pos_part}
use runes.Shared.Text.{Bytes, codes}
use runes.Config.Types.{Ratio, Config}
use runes.Config.Options.{defaults}
use runes.Display.Location.{loc, eq_ℤ}
use runes.Display.Runs.{default_color, Attrs}
use runes.Window.State.{ScreenLib, Characters, World, Window}
use runes.Term.{register_with_loop, new_term}
use runes.Tests.Data.{parts}

abbrev pub attrs : Attrs
attrs = record {
  fg_id = 0;
  bg_id = 0;
  attr_bits = 0;
  fgcolor = default_color;
  bgcolor = default_color;
  bold = false;
  italic = false;
  underline = false;
  inverse = false;
}

-- A screen of two rows of four columns is its text; the first row runs on in the second.
abbrev pub four_columns : ScreenLib
four_columns = record {
  vt = record {
    Screen = Bytes;
    get_string_plaintext = λ text a b. (some text, length text);
    row_max_col = λ text row. pos 4;
    max_col = λ text. pos 4;
  };
  row_count = λ text. pos 2;
  max_row = λ text. pos 2;
  row_top = λ text. pos 0;
  set_window_size = λ text row col. text;
  modes = λ text. record { application_keypad = false; application_cursor = false };
  bracketed_paste = λ text. false;
  wants_button_press = λ text. false;
  wants_button_release = λ text. false;
  wants_any_motion = λ text. false;
  wants_button_motion = λ text. false;
  format_mouse_reporting_response = λ text l kind pressed state. [];
  is_wrapped = λ text row. eq_ℤ row (pos 0);
  cell_at = λ text row col. record {
    contents = get_or text (pos_part row * 4 + pos_part col) 32 ∷ [];
    len = 1;
    is_wide = false;
    attrs = attrs;
  };
}

abbrev pub ascii : Characters
ascii = record {
  first_length = λ bytes. 1;
  get_char = λ bytes. get_or bytes 0 0;
  char_width = λ c. 1;
  is_space = λ c. c == 32;
}

abbrev pub text : Bytes
text = codes "a bcde f"

abbrev pub options : Config (Ratio × Ratio × Ratio)
options = defaults parts

-- The clock stands, and X gives the selection away.
abbrev pub still : World
still = record {
  clock = λ n. record { tv_sec = pos 7; tv_nsec = pos 0 };
  grants = λ n. true;
  was_owner = λ n. false;
}

abbrev pub window : Window four_columns
window = record {
  life = register_with_loop new_term;
  scr = text;
  scr_dirty = false;
  update_title = false;
  update_icon_name = false;
  selection = record {
    has_selection = false;
    selection_start = loc (pos 0) (pos 0);
    selection_end = loc (pos 0) (pos 0);
    selection_contents = none;
    selection_len = 0;
    dirty = false;
  };
  row_visible_offset = pos 0;
  unfocused = false;
  mouse_down = false;
  owns_selection = false;
  multi_clicks = 0;
  last_reported = loc (pos 0) (pos 0);
  last_redraw = record { tv_sec = pos 0; tv_nsec = pos 0 };
  asked = 0;
  log = [];
}
