-- ===== src/Config/Parse.antt =====
-- The value parsers of src/config.c. Their warnings are not modelled.
use runes.Shared.{ℕ, Bool, true, false, Option, none, some, [], ◌∷◌, length, ◌==◌, if◌then◌else◌}
use runes.Shared.Int.{ℤ}
use runes.Shared.Libc.{atoi, scan_hex2}
use runes.Shared.Text.{Bytes, codes, str_eq}
use runes.Config.Types.{Ratio, Cairo}

unfoldable pub parse_bool : Bytes → Bool
parse_bool val =
    if str_eq val (codes "true") then true else if str_eq val (codes "false") then false else false

-- The check of the digits only warns.
unfoldable pub parse_uint : Bytes → ℤ
parse_uint val = atoi val

unfoldable pub parse_string : Bytes → Bytes
parse_string val = val

infixl 5 ◌>>=◌
abbrev ◌>>=◌ {ℓ κ} : {A : Type ℓ} {B : Type κ} → Option A → (A → Option B) → Option B
none >>= f = none
some a >>= f = f a

abbrev scan_triple : Bytes → Option (ℕ × ℕ × ℕ)
scan_triple s = do
  (r, s1) ← scan_hex2 s
  (g, s2) ← scan_hex2 s1
  (b, s3) ← scan_hex2 s2
  some (r, g, b)

-- sscanf(val, "#%2x%2x%2x", &r, &g, &b) == 3
unfoldable pub scan_color : Bytes → Option (ℕ × ℕ × ℕ)
scan_color [] = none
scan_color (c ∷ s) = if c == b'#' then scan_triple s else none

-- `(double)n / 255.0`
abbrev pub over_255 : ℕ → Ratio
over_255 n = record { num = n; den = 255 }

module _ (cairo : Cairo) where
  open cairo use {Pattern, create_rgb}

  unfoldable pub parse_color : Bytes → Option Pattern
  unfolding scan_color
  parse_color val =
      if length val == 7
      then (do (r, g, b) ← scan_color val; some (create_rgb (over_255 r) (over_255 g) (over_255 b)))
      else none
