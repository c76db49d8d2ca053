-- ===== src/Config/Types.antt =====
-- struct runes_config of src/config.h. The patterns are cairo's: they are made from three doubles,
-- which stand here as the fractions that the source writes.
use runes.Shared.{ℕ, Bool, Option, List}
use runes.Shared.Int.{ℤ}
use runes.Shared.Text.{Bytes}

pub record Ratio : Type 0 where
  pub num : ℕ
  pub den : ℕ

pub record Cairo : Type 1 where
  pub Pattern : Type 0
  pub create_rgb : Ratio → Ratio → Ratio → Pattern

-- A literal of three decimals, such as 0.373.
abbrev pub milli : ℕ → Ratio
milli n = record { num = n; den = 1000 }

pub record Config (Pattern : Type 0) : Type 0 where
  pub mousecursorcolor : Pattern
  pub cursorcolor : Pattern
  pub fgdefault : Pattern
  pub bgdefault : Pattern
  pub colors : List Pattern
  pub default_rows : ℤ
  pub default_cols : ℤ
  pub scroll_lines : ℤ
  pub scrollback_length : ℤ
  pub redraw_rate : ℤ
  pub double_click_rate : ℤ
  pub cmd : Option Bytes
  pub font_name : Bytes
  pub bell_is_urgent : Bool
  pub bold_is_bright : Bool
  pub bold_is_bold : Bool
  pub audible_bell : Bool

-- Three such literals.
pub record Rgb : Type 0 where
  pub red : ℕ
  pub green : ℕ
  pub blue : ℕ

abbrev pub rgb : ℕ → ℕ → ℕ → Rgb
rgb r g b = record { red = r; green = g; blue = b }
