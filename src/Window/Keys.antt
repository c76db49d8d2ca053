-- ===== src/Window/Keys.antt =====
-- The key tables of src/window-xlib.c, `runes_window_find_key_sequence`,
-- `runes_window_handle_builtin_keypress` and `runes_window_handle_key_event`.
use Prim.Native.String.{String}
use runes.Shared.{
  ℕ, ◌+◌, ◌*◌, Bool, true, false, Option, none, some, List, [], ◌∷◌, ◌==◌, if◌then◌else◌,
}
use runes.Shared.Int.{ℤ, pos, ◌-ℤ◌}
use runes.Shared.Text.{Bytes, codes}

-- The symbols that the program names, and the others.
pub data KeySym : Type 0 where
  up down right left page_up page_down home end_key backspace delete iso_left_tab insert : KeySym
  f_key other_key : ℕ → KeySym

-- A number for each symbol, to compare them by.
abbrev pub sym_number : KeySym → ℕ
sym_number up = 0
sym_number down = 1
sym_number right = 2
sym_number left = 3
sym_number page_up = 4
sym_number page_down = 5
sym_number home = 6
sym_number end_key = 7
sym_number backspace = 8
sym_number delete = 9
sym_number iso_left_tab = 10
sym_number insert = 11
sym_number (f_key n) = 12 + 2 * n
sym_number (other_key n) = 13 + 2 * n

abbrev pub same_sym : KeySym → KeySym → Bool
same_sym a b = sym_number a == sym_number b

pub record FunctionKey : Type 0 where
  pub sym : KeySym
  pub str : Bytes

-- `RUNES_KEY`, with the escape character in front or without it.
abbrev raw_key : KeySym → Bytes → FunctionKey
raw_key sym str = record { sym = sym; str = str }

abbrev esc_key : KeySym → String → FunctionKey
esc_key sym str = raw_key sym (27 ∷ codes str)

-- The tables end where the source has an entry for XK_VoidSymbol.
unfoldable pub keys : List FunctionKey
keys =
    esc_key up "[A"
    ∷ esc_key down "[B"
    ∷ esc_key right "[C"
    ∷ esc_key left "[D"
    ∷ esc_key page_up "[5~"
    ∷ esc_key page_down "[6~"
    ∷ esc_key home "[H"
    ∷ esc_key end_key "[F"
    ∷ esc_key (f_key 1) "OP"
    ∷ esc_key (f_key 2) "OQ"
    ∷ esc_key (f_key 3) "OR"
    ∷ esc_key (f_key 4) "OS"
    ∷ esc_key (f_key 5) "[15~"
    ∷ esc_key (f_key 6) "[17~"
    ∷ esc_key (f_key 7) "[18~"
    ∷ esc_key (f_key 8) "[19~"
    ∷ esc_key (f_key 9) "[20~"
    ∷ esc_key (f_key 10) "[21~"
    ∷ esc_key (f_key 11) "[23~"
    ∷ esc_key (f_key 12) "[24~"
    ∷ esc_key (f_key 13) "[25~"
    ∷ esc_key (f_key 14) "[26~"
    ∷ esc_key (f_key 15) "[28~"
    ∷ esc_key (f_key 16) "[29~"
    ∷ esc_key (f_key 17) "[31~"
    ∷ esc_key (f_key 18) "[32~"
    ∷ esc_key (f_key 19) "[33~"
    ∷ esc_key (f_key 20) "[34~"
    ∷ raw_key backspace (127 ∷ [])
    ∷ esc_key delete "[3~"
    ∷ []

unfoldable pub shift_keys : List FunctionKey
shift_keys =
    esc_key up "[a"
    ∷ esc_key down "[b"
    ∷ esc_key right "[c"
    ∷ esc_key left "[d"
    ∷ esc_key iso_left_tab "[Z"
    ∷ esc_key delete "[3$"
    ∷ []

unfoldable pub ctrl_keys : List FunctionKey
ctrl_keys =
    esc_key up "[Oa"
    ∷ esc_key down "[Ob"
    ∷ esc_key right "[Oc"
    ∷ esc_key left "[Od"
    ∷ esc_key delete "[3^"
    ∷ []

unfoldable pub application_keypad_keys : List FunctionKey
application_keypad_keys = []

unfoldable pub application_cursor_keys : List FunctionKey
application_cursor_keys =
    esc_key up "OA" ∷ esc_key down "OB" ∷ esc_key right "OC" ∷ esc_key left "OD" ∷ []

-- The state of a key event, and the modes of the screen that change the keys.
pub record Modifiers : Type 0 where
  pub shift : Bool
  pub control : Bool
  pub mod1 : Bool

pub record Modes : Type 0 where
  pub application_keypad : Bool
  pub application_cursor : Bool

-- The loop over one table.
abbrev pub scan_keys : List FunctionKey → KeySym → Option FunctionKey
scan_keys [] sym = none
scan_keys (key ∷ rest) sym = if same_sym key.sym sym then some key else scan_keys rest sym

abbrev pub or_scan : Option FunctionKey → Option FunctionKey → Option FunctionKey
or_scan (some key) other = some key
or_scan none other = other

abbrev pub base_keys : Modifiers → List FunctionKey
base_keys e = if e.shift then shift_keys else if e.control then ctrl_keys else keys

-- Nothing where the source returns a closing entry.
unfoldable pub find_key_sequence : Modes → KeySym → Modifiers → Option FunctionKey
find_key_sequence t sym e =
    or_scan
      (if t.application_keypad
        then or_scan (if t.application_cursor then scan_keys application_cursor_keys sym else none)
            (scan_keys application_keypad_keys sym)
        else none)
      (scan_keys (base_keys e) sym)

-- The calls that an event makes: runes_window_paste, runes_window_visible_scroll and
-- runes_window_write_to_pty.
pub data KeyCall : Type 0 where
  paste : KeyCall
  visible_scroll : ℤ → KeyCall
  write_to_pty : Bytes → KeyCall

-- Nothing if the key is not built in. `max_row` is the number of rows of the window.
abbrev pub handle_builtin_keypress : ℤ → KeySym → Modifiers → Option KeyCall
handle_builtin_keypress max_row insert e = if e.shift then some paste else none
handle_builtin_keypress max_row page_up e =
    if e.shift then some (visible_scroll (max_row -ℤ pos 1)) else none
handle_builtin_keypress max_row page_down e =
    if e.shift then some (visible_scroll (pos 0 -ℤ (max_row -ℤ pos 1))) else none
handle_builtin_keypress max_row sym e = none

-- What Xutf8LookupString says at last, when the buffer is big enough.
pub data Lookup : Type 0 where
  lookup_both : KeySym → Bytes → Lookup
  lookup_key_sym : KeySym → Lookup
  lookup_chars : Bytes → Lookup
  lookup_none : Lookup

abbrev pub write_chars : Modifiers → Bytes → List KeyCall
write_chars e chars =
    if e.mod1 then write_to_pty (27 ∷ []) ∷ write_to_pty chars ∷ [] else write_to_pty chars ∷ []

-- The first case of the switch; `rest` is what falls through it.
abbrev pub key_sym_calls : Option KeyCall → Option FunctionKey → List KeyCall → List KeyCall
key_sym_calls (some call) key rest = call ∷ rest
key_sym_calls none (some key) rest = write_to_pty key.str ∷ []
key_sym_calls none none rest = rest

unfoldable pub handle_key_event : Modes → ℤ → Modifiers → Bool → Lookup → List KeyCall
unfolding find_key_sequence
handle_key_event t max_row e true looked_up = []
handle_key_event t max_row e false (lookup_both sym chars) =
    key_sym_calls (handle_builtin_keypress max_row sym e) (find_key_sequence t sym e)
      (write_chars e chars)
handle_key_event t max_row e false (lookup_key_sym sym) =
    key_sym_calls (handle_builtin_keypress max_row sym e) (find_key_sequence t sym e) []
handle_key_event t max_row e false (lookup_chars chars) = write_chars e chars
handle_key_event t max_row e false lookup_none = []
