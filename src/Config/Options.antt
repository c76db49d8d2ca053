-- ===== src/Config/Options.antt =====
-- `runes_config_set_defaults` and `runes_config_set` of src/config.c. Warnings are not modelled, and
-- patterns need no release.
use runes.Shared.{
  ℕ, ◌≡◌, refl, ◌⊎◌, inl, inr, Bool, true, false, ◌||◌, Option, none, some, [], ◌∷◌, map, set, leb,
  if◌then◌else◌, arith,
}
use runes.Shared.Int.{ℤ, pos, negsuc}
use runes.Shared.Libc.{atoi, is_digit}
use runes.Shared.Text.{Bytes, codes, str_eq}
use runes.Config.Types.{Cairo, Config, Rgb, milli}
use runes.Config.Palette.{palette}
use runes.Config.Parse.{parse_bool, parse_uint, parse_string, parse_color}

-- What stands behind the first five bytes of a key that begins with "color".
abbrev pub after_color : Bytes → Option Bytes
after_color (a ∷ b ∷ c ∷ d ∷ e ∷ rest) =
    if str_eq (a ∷ b ∷ c ∷ d ∷ e ∷ []) (codes "color") then some rest else none
after_color s = none

-- The number of the color, if `key[5]` is a digit and the number at most 255.
abbrev pub below_256 : ℤ → Option ℕ
below_256 (pos n) = if leb n 255 then some n else none
below_256 (negsuc n) = none

abbrev pub color_index : Bytes → Option ℕ
color_index [] = none
color_index (c ∷ s) = if is_digit c then below_256 (atoi (c ∷ s)) else none

module _ (cairo : Cairo) where
  open cairo use {Pattern, create_rgb}

  abbrev pub of_rgb : Rgb → Pattern
  of_rgb c = create_rgb (milli c.red) (milli c.green) (milli c.blue)

  unfoldable pub defaults : Config Pattern
  defaults = record {
    mousecursorcolor = create_rgb (milli 1000) (milli 1000) (milli 1000);
    cursorcolor = create_rgb (milli 0) (milli 1000) (milli 0);
    fgdefault = create_rgb (milli 827) (milli 827) (milli 827);
    bgdefault = create_rgb (milli 0) (milli 0) (milli 0);
    colors = map of_rgb palette;
    default_rows = pos 24;
    default_cols = pos 80;
    scroll_lines = pos 3;
    scrollback_length = pos 4096;
    redraw_rate = pos 20;
    double_click_rate = pos 500;
    cmd = none;
    font_name = codes "monospace 10";
    bell_is_urgent = true;
    bold_is_bright = true;
    bold_is_bold = true;
    audible_bell = true;
  }

  -- A pattern that could not be made leaves the old one.
  abbrev pub recolor : Option Pattern → Pattern → Pattern
  recolor none old = old
  recolor (some new) old = new

  abbrev pub set_color : Config Pattern → Option ℕ → Option Pattern → Config Pattern
  set_color c none new = c
  set_color c (some i) none = c
  set_color c (some i) (some new) = record c { colors = set c.colors i new }

  -- The options behind "color" in the chain of tests.
  unfoldable pub set_number : Config Pattern → Bytes → Bytes → Config Pattern
  set_number c key val =
      if str_eq key (codes "rows")
      then record c { default_rows = parse_uint val }
      else if str_eq key (codes "cols")
      then record c { default_cols = parse_uint val }
      else if str_eq key (codes "scroll_lines")
      then record c { scroll_lines = parse_uint val }
      else if str_eq key (codes "scrollback_length")
      then record c { scrollback_length = parse_uint val }
      else if str_eq key (codes "redraw_rate")
      then record c { redraw_rate = parse_uint val }
      else if str_eq key (codes "double_click_rate")
      then record c { double_click_rate = parse_uint val }
      else if str_eq key (codes "command")
      then record c { cmd = some (parse_string val) }
      else c

  abbrev pub set_color_or_number : Config Pattern → Option Bytes → Bytes → Bytes → Config Pattern
  set_color_or_number c (some rest) key val = set_color c (color_index rest) (parse_color cairo val)
  set_color_or_number c none key val = set_number c key val

  -- The options from "bgcolor" on.
  unfoldable pub set_pattern : Config Pattern → Bytes → Bytes → Config Pattern
  set_pattern c key val =
      if str_eq key (codes "bgcolor")
      then record c { bgdefault = recolor (parse_color cairo val) c.bgdefault }
      else if str_eq key (codes "fgcolor")
      then record c { fgdefault = recolor (parse_color cairo val) c.fgdefault }
      else if str_eq key (codes "cursorcolor")
      then record c { cursorcolor = recolor (parse_color cairo val) c.cursorcolor }
      else if str_eq key (codes "mousecursorcolor")
      then record c { mousecursorcolor = recolor (parse_color cairo val) c.mousecursorcolor }
      else set_color_or_number c (after_color key) key val

  unfoldable pub set_option : Config Pattern → Bytes → Bytes → Config Pattern
  set_option c key val =
      if str_eq key (codes "font")
      then record c { font_name = parse_string val }
      else if str_eq key (codes "bold_is_bright")
      then record c { bold_is_bright = parse_bool val }
      else if str_eq key (codes "bold_is_bold")
      then record c { bold_is_bold = parse_bool val }
      else if str_eq key (codes "audible_bell")
      then record c { audible_bell = parse_bool val }
      else if str_eq key (codes "bell_is_urgent")
      then record c { bell_is_urgent = parse_bool val }
      else set_pattern c key val

-- The options that use their value: all that are known, less colors of a number that is none.
abbrev pub is_index : Option ℕ → Bool
is_index none = false
is_index (some i) = true

abbrev pub is_number_option : Bytes → Bool
is_number_option key =
    str_eq key (codes "rows")
    || str_eq key (codes "cols")
    || str_eq key (codes "scroll_lines")
    || str_eq key (codes "scrollback_length")
    || str_eq key (codes "redraw_rate")
    || str_eq key (codes "double_click_rate")
    || str_eq key (codes "command")

abbrev pub is_color_or_number : Option Bytes → Bytes → Bool
is_color_or_number (some rest) key = is_index (color_index rest)
is_color_or_number none key = is_number_option key

unfoldable pub is_pattern_option : Bytes → Bool
is_pattern_option key =
    str_eq key (codes "bgcolor")
    || str_eq key (codes "fgcolor")
    || str_eq key (codes "cursorcolor")
    || str_eq key (codes "mousecursorcolor")
    || is_color_or_number (after_color key) key

unfoldable pub uses_value : Bytes → Bool
uses_value key =
    str_eq key (codes "font")
    || str_eq key (codes "bold_is_bright")
    || str_eq key (codes "bold_is_bold")
    || str_eq key (codes "audible_bell")
    || str_eq key (codes "bell_is_urgent")
    || is_pattern_option key

-- A chain of tests that all fail.
no_test :
    (p q r t u : Bool)
    → (p || q || r || t || u) ≡ false
    → (p ≡ false) × (q ≡ false) × (r ≡ false) × (t ≡ false) × (u ≡ false)
no_test p q r t u h = ground arith

module _ (cairo : Cairo) where
  open cairo use {Pattern}

  set_number-unused :
      (c : Config Pattern) (key val : Bytes)
      → is_number_option key ≡ false
      → set_number cairo c key val ≡ c
  unfolding set_number
  set_number-unused c key val h = ground arith

  set_color_or_number-unused :
      (c : Config Pattern) (rest : Option Bytes) (key val : Bytes)
      → is_color_or_number rest key ≡ false
      → set_color_or_number cairo c rest key val ≡ c
  set_color_or_number-unused c none key val h = set_number-unused c key val h
  set_color_or_number-unused c (some rest) key val h = elim (index_cases (color_index rest)) [
    | inl e ↦ rw e refl
    | inr (i, e) ↦ absurd (cc (e, h))
  ]
    where
      index_cases : (o : Option ℕ) → (o ≡ none) ⊎ ((i : ℕ) × (o ≡ some i))
      index_cases none = inl refl
      index_cases (some i) = inr (i, refl)

  set_pattern-unused :
      (c : Config Pattern) (key val : Bytes)
      → is_pattern_option key ≡ false
      → set_pattern cairo c key val ≡ c
  unfolding set_pattern is_pattern_option
  set_pattern-unused c key val h =
      let (p, q, r, t, u) =
        no_test (str_eq key (codes "bgcolor")) (str_eq key (codes "fgcolor"))
          (str_eq key (codes "cursorcolor")) (str_eq key (codes "mousecursorcolor"))
          (is_color_or_number (after_color key) key) h in
      rw (p, q, r, t) (set_color_or_number-unused c (after_color key) key val u)

  -- An option that does not use its value sets nothing.
  set_option-unused :
      (c : Config Pattern) (key val : Bytes)
      → uses_value key ≡ false
      → set_option cairo c key val ≡ c
  unfolding set_option uses_value
  set_option-unused c key val h = ground (arith, set_pattern-unused c key val)
