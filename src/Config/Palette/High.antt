-- ===== src/Config/Palette/High.antt =====
-- The last 132 config->colors of runes_config_set_defaults in src/config.c, in thousandths.
use runes.Shared.{List, [], ◌∷◌}
use runes.Config.Types.{Rgb, rgb}

-- colors[124] to colors[231]: the last three.
unfoldable pub cube_high : List Rgb
cube_high =
    rgb 686 0 0
    ∷ rgb 686 0 373
    ∷ rgb 686 0 529
    ∷ rgb 686 0 686
    ∷ rgb 686 0 843
    ∷ rgb 686 0 1000
    ∷ rgb 686 373 0
    ∷ rgb 686 373 373
    ∷ rgb 686 373 529
    ∷ rgb 686 373 686
    ∷ rgb 686 373 843
    ∷ rgb 686 373 1000
    ∷ rgb 686 529 0
    ∷ rgb 686 529 373
    ∷ rgb 686 529 529
    ∷ rgb 686 529 686
    ∷ rgb 686 529 843
    ∷ rgb 686 529 1000
    ∷ rgb 686 686 0
    ∷ rgb 686 686 373
    ∷ rgb 686 686 529
    ∷ rgb 686 686 686
    ∷ rgb 686 686 843
    ∷ rgb 686 686 1000
    ∷ rgb 686 843 0
    ∷ rgb 686 843 373
    ∷ rgb 686 843 529
    ∷ rgb 686 843 686
    ∷ rgb 686 843 843
    ∷ rgb 686 843 1000
    ∷ rgb 686 1000 0
    ∷ rgb 686 1000 373
    ∷ rgb 686 1000 529
    ∷ rgb 686 1000 686
    ∷ rgb 686 1000 843
    ∷ rgb 686 1000 1000
    ∷ rgb 843 0 0
    ∷ rgb 843 0 373
    ∷ rgb 843 0 529
    ∷ rgb 843 0 686
    ∷ rgb 843 0 843
    ∷ rgb 843 0 1000
    ∷ rgb 843 373 0
    ∷ rgb 843 373 373
    ∷ rgb 843 373 529
    ∷ rgb 843 373 686
    ∷ rgb 843 373 843
    ∷ rgb 843 373 1000
    ∷ rgb 843 529 0
    ∷ rgb 843 529 373
    ∷ rgb 843 529 529
    ∷ rgb 843 529 686
    ∷ rgb 843 529 843
    ∷ rgb 843 529 1000
    ∷ rgb 843 686 0
    ∷ rgb 843 686 373
    ∷ rgb 843 686 529
    ∷ rgb 843 686 686
    ∷ rgb 843 686 843
    ∷ rgb 843 686 1000
    ∷ rgb 843 843 0
    ∷ rgb 843 843 373
    ∷ rgb 843 843 529
    ∷ rgb 843 843 686
    ∷ rgb 843 843 843
    ∷ rgb 843 843 1000
    ∷ rgb 843 1000 0
    ∷ rgb 843 1000 373
    ∷ rgb 843 1000 529
    ∷ rgb 843 1000 686
    ∷ rgb 843 1000 843
    ∷ rgb 843 1000 1000
    ∷ rgb 1000 0 0
    ∷ rgb 1000 0 373
    ∷ rgb 1000 0 529
    ∷ rgb 1000 0 686
    ∷ rgb 1000 0 843
    ∷ rgb 1000 0 1000
    ∷ rgb 1000 373 0
    ∷ rgb 1000 373 373
    ∷ rgb 1000 373 529
    ∷ rgb 1000 373 686
    ∷ rgb 1000 373 843
    ∷ rgb 1000 373 1000
    ∷ rgb 1000 529 0
    ∷ rgb 1000 529 373
    ∷ rgb 1000 529 529
    ∷ rgb 1000 529 686
    ∷ rgb 1000 529 843
    ∷ rgb 1000 529 1000
    ∷ rgb 1000 686 0
    ∷ rgb 1000 686 373
    ∷ rgb 1000 686 529
    ∷ rgb 1000 686 686
    ∷ rgb 1000 686 843
    ∷ rgb 1000 686 1000
    ∷ rgb 1000 843 0
    ∷ rgb 1000 843 373
    ∷ rgb 1000 843 529
    ∷ rgb 1000 843 686
    ∷ rgb 1000 843 843
    ∷ rgb 1000 843 1000
    ∷ rgb 1000 1000 0
    ∷ rgb 1000 1000 373
    ∷ rgb 1000 1000 529
    ∷ rgb 1000 1000 686
    ∷ rgb 1000 1000 843
    ∷ rgb 1000 1000 1000
    ∷ []

-- colors[232] to colors[255].
unfoldable pub greys : List Rgb
greys =
    rgb 31 31 31
    ∷ rgb 71 71 71
    ∷ rgb 110 110 110
    ∷ rgb 149 149 149
    ∷ rgb 188 188 188
    ∷ rgb 227 227 227
    ∷ rgb 267 267 267
    ∷ rgb 306 306 306
    ∷ rgb 345 345 345
    ∷ rgb 376 376 376
    ∷ rgb 400 400 400
    ∷ rgb 463 463 463
    ∷ rgb 502 502 502
    ∷ rgb 541 541 541
    ∷ rgb 580 580 580
    ∷ rgb 620 620 620
    ∷ rgb 659 659 659
    ∷ rgb 698 698 698
    ∷ rgb 737 737 737
    ∷ rgb 776 776 776
    ∷ rgb 816 816 816
    ∷ rgb 855 855 855
    ∷ rgb 894 894 894
    ∷ rgb 933 933 933
    ∷ []
