-- ===== src/Config/Palette.antt =====
-- The default palette of runes_config_set_defaults in src/config.c: the arguments of its calls of
-- cairo_pattern_create_rgb for config->colors, in order.
mod Low
mod High
use runes.Shared.{List, ◌++◌}
use runes.Config.Types.{Rgb}
use Low.{base_colors, cube_low}
use High.{cube_high, greys}

unfoldable pub palette : List Rgb
unfolding base_colors cube_low cube_high greys
palette = base_colors ++ (cube_low ++ (cube_high ++ greys))
