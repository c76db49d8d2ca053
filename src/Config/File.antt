-- ===== src/Config/File.antt =====
-- `runes_config_process_config_file` of src/config.c. The file is the list of its bytes; the line
-- buffer keeps between lines what fgets and the parser leave in it.
use runes.Shared.{
  ℕ, zero, suc, ◌+◌, ◌-◌, Bool, not, ◌||◌, Option, none, some, [], ◌∷◌, ◌++◌, drop, set, get_or,
  length, ◌==◌, if◌then◌else◌,
}
use runes.Shared.Libc.{strspn}
use runes.Shared.Text.{Bytes}
use runes.Config.Types.{Cairo, Config}
use runes.Config.Options.{set_option}

abbrev pub line_size : ℕ
line_size = 1024

-- What fgets takes from a file: up to n bytes, and none behind a newline.
abbrev pub fgets_chunk : ℕ → Bytes → Bytes
fgets_chunk zero file = []
fgets_chunk (suc n) [] = []
fgets_chunk (suc n) (c ∷ file) = c ∷ (if c == b'\n' then [] else fgets_chunk n file)

-- The buffer with a string and its NUL stored at its start.
abbrev pub store_line : Bytes → Bytes → Bytes
store_line chunk buf = chunk ++ (0 ∷ drop (length chunk + 1) buf)

-- The tests of strlen, strspn(_, " \t") and strcspn(_, " \t=").
abbrev pub is_text : ℕ → Bool
is_text c = not (c == 0)

abbrev pub is_blank : ℕ → Bool
is_blank c = c == b' ' || c == b'\t'

abbrev pub is_key : ℕ → Bool
is_key c = not (c == 0 || (is_blank c || c == b'='))

-- The string at a place in the buffer, if it ends before the buffer does.
abbrev pub c_str : Bytes → Option Bytes
c_str [] = none
c_str (c ∷ s) =
    let more : Option Bytes = elim (c_str s) [ none ↦ none | some rest ↦ some (c ∷ rest) ] in
    if c == 0 then some [] else more

-- `before_line` looks at the byte in front of the buffer, `past_line` reads on behind it.
pub data LineRun (Pattern : Type 0) : Type 0 where
  done : Config Pattern → Bytes → LineRun Pattern
  before_line past_line : LineRun Pattern

-- The newline at the end of a string of this length, taken off.
abbrev pub chomp : Bytes → ℕ → Bytes
chomp line len = if get_or line (len - 1) 0 == b'\n' then set line (len - 1) 0 else line

abbrev pub chomped_length : Bytes → ℕ → ℕ
chomped_length line len = if get_or line (len - 1) 0 == b'\n' then len - 1 else len

module _ (cairo : Cairo) where
  open cairo use {Pattern}

  abbrev pub apply_line : Config Pattern → Bytes → Option Bytes → Option Bytes → LineRun Pattern
  apply_line c line none value = past_line
  apply_line c line (some key) none = past_line
  apply_line c line (some key) (some value) = done (set_option cairo c key value) line

  -- A line that is no comment and not empty: the key, the value, and what the parser overwrites.
  unfoldable pub split_line : Config Pattern → Bytes → ℕ → LineRun Pattern
  split_line c line len =
      let kbegin = strspn is_blank line in
      let kend = kbegin + strspn is_key (drop kbegin line) in
      let mark = kend + strspn is_blank (drop kend line) in
      let vbegin = mark + 1 + strspn is_blank (drop (mark + 1) line) in
      let cut = set (set line kend 0) len 0 in
      apply_line c cut (c_str (drop kbegin cut)) (c_str (drop vbegin cut))

  unfoldable pub process_text : Config Pattern → Bytes → ℕ → LineRun Pattern
  unfolding split_line
  process_text c line len =
      if len == 0 || get_or line (strspn is_blank line) 0 == b'#'
      then done c line
      else split_line c line len

  unfoldable pub process_line : Config Pattern → Bytes → LineRun Pattern
  unfolding process_text
  process_line c line =
      let len = strspn is_text line in
      if len == 0 then before_line else process_text c (chomp line len) (chomped_length line len)

  -- The loop over the file; the fuel bounds the lines, and fgets takes a byte at least.
  unfoldable pub file_loop : ℕ → Config Pattern → Bytes → Bytes → LineRun Pattern
  file_loop zero c buf file = done c buf
  file_loop (suc fuel) c buf [] = done c buf
  file_loop (suc fuel) c buf (b ∷ file) =
      let chunk = fgets_chunk (line_size - 1) (b ∷ file) in
      elim (process_line c (store_line chunk buf)) [
        | done c' buf' ↦ file_loop fuel c' buf' (drop (length chunk) (b ∷ file))
        | before_line ↦ before_line
        | past_line ↦ past_line
      ]

  -- `buf` is what the line buffer holds at first.
  unfoldable pub process_config_file : Bytes → Config Pattern → Option Bytes → LineRun Pattern
  unfolding file_loop process_line
  process_config_file buf c none = done c buf
  process_config_file buf c (some file) = file_loop (length file) c buf file
