-- ===== src/Config/Colors.antt =====
-- The colors of a configuration in src/config.c: 256 from the start, and whatever the options are.
use runes.Shared.{
  ℕ, ◌≡◌, refl, ◌∙◌, Option, none, some, List, [], ◌∷◌, arith, length, length-map, length-set,
}
use runes.Shared.Text.{Bytes}
use runes.Config.Types.{Cairo, Config}
use runes.Config.Palette.{palette}
use runes.Config.Parse.{parse_color}
use runes.Config.Options.{
  of_rgb, defaults, after_color, color_index, set_color, set_number, set_color_or_number,
  set_pattern, set_option,
}
use runes.Config.Args.{apply_all}

module _ (cairo : Cairo) where
  open cairo use {Pattern}

  colors_count : Config Pattern → ℕ
  colors_count c = length c.colors

  set_number-colors :
      (c : Config Pattern) (key val : Bytes)
      → length (set_number cairo c key val).colors ≡ length c.colors
  unfolding set_number
  set_number-colors c key val = ground arith

  set_color-colors :
      (c : Config Pattern) (i : Option ℕ) (new : Option Pattern)
      → length (set_color cairo c i new).colors ≡ length c.colors
  set_color-colors c none new = refl
  set_color-colors c (some i) none = refl
  set_color-colors c (some i) (some x) = length-set c.colors i x

  set_color_or_number-colors :
      (c : Config Pattern) (rest : Option Bytes) (key val : Bytes)
      → length (set_color_or_number cairo c rest key val).colors ≡ length c.colors
  set_color_or_number-colors c none key val = set_number-colors c key val
  set_color_or_number-colors c (some rest) key val =
      set_color-colors c (color_index rest) (parse_color cairo val)

  set_pattern-colors :
      (c : Config Pattern) (key val : Bytes)
      → length (set_pattern cairo c key val).colors ≡ length c.colors
  unfolding set_pattern
  set_pattern-colors c key val =
      ground (arith, set_color_or_number-colors c (after_color key) key val)

  set_option-colors :
      (c : Config Pattern) (key val : Bytes)
      → length (set_option cairo c key val).colors ≡ length c.colors
  unfolding set_option
  set_option-colors c key val = ground (arith, set_pattern-colors c key val)

  pub apply_all-colors :
      (c : Config Pattern) (options : List (Bytes × Bytes))
      → length (apply_all cairo c options).colors ≡ length c.colors
  apply_all-colors c [] = refl
  apply_all-colors c ((key, val) ∷ rest) =
      apply_all-colors (set_option cairo c key val) rest ∙ set_option-colors c key val

  palette_size : length palette ≡ 256
  unfolding palette
  palette_size = refl

  -- Whatever options are applied to the defaults, there are 256 colors.
  pub apply_all-colors_256 :
      (options : List (Bytes × Bytes))
      → length (apply_all cairo (defaults cairo) options).colors ≡ 256
  unfolding defaults
  apply_all-colors_256 options =
      apply_all-colors (defaults cairo) options ∙ length-map palette (of_rgb cairo) ∙ palette_size
