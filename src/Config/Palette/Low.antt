-- ===== src/Config/Palette/Low.antt =====
-- The first 124 config->colors of runes_config_set_defaults in src/config.c, in thousandths.
use runes.Shared.{List, [], ◌∷◌}
use runes.Config.Types.{Rgb, rgb}

-- colors[0] to colors[15].
unfoldable pub base_colors : List Rgb
base_colors =
    rgb 0 0 0
    ∷ rgb 804 0 0
    ∷ rgb 0 804 0
    ∷ rgb 804 804 0
    ∷ rgb 0 0 804
    ∷ rgb 804 0 804
    ∷ rgb 0 804 804
    ∷ rgb 898 898 898
    ∷ rgb 302 302 302
    ∷ rgb 1000 0 0
    ∷ rgb 0 1000 0
    ∷ rgb 1000 1000 0
    ∷ rgb 0 0 1000
    ∷ rgb 1000 0 1000
    ∷ rgb 0 1000 1000
    ∷ rgb 1000 1000 1000
    ∷ []

-- colors[16] to colors[123]: the first three of six planes.
unfoldable pub cube_low : List Rgb
cube_low =
    rgb 0 0 0
    ∷ rgb 0 0 373
    ∷ rgb 0 0 529
    ∷ rgb 0 0 686
    ∷ rgb 0 0 843
    ∷ rgb 0 0 1000
    ∷ rgb 0 373 0
    ∷ rgb 0 373 373
    ∷ rgb 0 373 529
    ∷ rgb 0 373 686
    ∷ rgb 0 373 843
    ∷ rgb 0 373 1000
    ∷ rgb 0 529 0
    ∷ rgb 0 529 373
    ∷ rgb 0 529 529
    ∷ rgb 0 529 686
    ∷ rgb 0 529 843
    ∷ rgb 0 529 1000
    ∷ rgb 0 686 0
    ∷ rgb 0 686 373
    ∷ rgb 0 686 529
    ∷ rgb 0 686 686
    ∷ rgb 0 686 843
    ∷ rgb 0 686 1000
    ∷ rgb 0 843 0
    ∷ rgb 0 843 373
    ∷ rgb 0 843 529
    ∷ rgb 0 843 686
    ∷ rgb 0 843 843
    ∷ rgb 0 843 1000
    ∷ rgb 0 1000 0
    ∷ rgb 0 1000 373
    ∷ rgb 0 1000 529
    ∷ rgb 0 1000 686
    ∷ rgb 0 1000 843
    ∷ rgb 0 1000 1000
    ∷ rgb 373 0 0
    ∷ rgb 373 0 373
    ∷ rgb 373 0 529
    ∷ rgb 373 0 686
    ∷ rgb 373 0 843
    ∷ rgb 373 0 1000
    ∷ rgb 373 373 0
    ∷ rgb 373 373 373
    ∷ rgb 373 373 529
    ∷ rgb 373 373 686
    ∷ rgb 373 373 843
    ∷ rgb 373 373 1000
    ∷ rgb 373 529 0
    ∷ rgb 373 529 373
    ∷ rgb 373 529 529
    ∷ rgb 373 529 686
    ∷ rgb 373 529 843
    ∷ rgb 373 529 1000
    ∷ rgb 373 686 0
    ∷ rgb 373 686 373
    ∷ rgb 373 686 529
    ∷ rgb 373 686 686
    ∷ rgb 373 686 843
    ∷ rgb 373 686 1000
    ∷ rgb 373 843 0
    ∷ rgb 373 843 373
    ∷ rgb 373 843 529
    ∷ rgb 373 843 686
    ∷ rgb 373 843 843
    ∷ rgb 373 843 1000
    ∷ rgb 373 1000 0
    ∷ rgb 373 1000 373
    ∷ rgb 373 1000 529
    ∷ rgb 373 1000 686
    ∷ rgb 373 1000 843
    ∷ rgb 373 1000 1000
    ∷ rgb 529 0 0
    ∷ rgb 529 0 373
    ∷ rgb 529 0 529
    ∷ rgb 529 0 686
    ∷ rgb 529 0 843
    ∷ rgb 529 0 1000
    ∷ rgb 529 373 0
    ∷ rgb 529 373 373
    ∷ rgb 529 373 529
    ∷ rgb 529 373 686
    ∷ rgb 529 373 843
    ∷ rgb 529 373 1000
    ∷ rgb 529 529 0
    ∷ rgb 529 529 373
    ∷ rgb 529 529 529
    ∷ rgb 529 529 686
    ∷ rgb 529 529 843
    ∷ rgb 529 529 1000
    ∷ rgb 529 686 0
    ∷ rgb 529 686 373
    ∷ rgb 529 686 529
    ∷ rgb 529 686 686
    ∷ rgb 529 686 843
    ∷ rgb 529 686 1000
    ∷ rgb 529 843 0
    ∷ rgb 529 843 373
    ∷ rgb 529 843 529
    ∷ rgb 529 843 686
    ∷ rgb 529 843 843
    ∷ rgb 529 843 1000
    ∷ rgb 529 1000 0
    ∷ rgb 529 1000 373
    ∷ rgb 529 1000 529
    ∷ rgb 529 1000 686
    ∷ rgb 529 1000 843
    ∷ rgb 529 1000 1000
    ∷ []
