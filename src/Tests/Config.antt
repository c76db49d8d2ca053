-- ===== src/Tests/Config.antt =====
-- src/config.c at concrete inputs.
use runes.Shared.{◌≡◌, refl, some, List, [], ◌∷◌, ◌++◌, arith, length}
use runes.Shared.Libc.{atoi}
use runes.Shared.Text.{Bytes, codes}
use runes.Config.Options.{defaults, set_option, uses_value, is_pattern_option}
use runes.Config.Args.{
  done, process_args, settings, apply_all, at_end, last_option, process_args_overrun,
}
use runes.Config.File.{LineRun, process_config_file}
use runes.Config.New.{from_args, config_new, config_new-settings}
use runes.Tests.Data.{parts}

abbrev argv : List Bytes
argv = codes "--rows" ∷ codes "30" ∷ codes "x" ∷ codes "--color1" ∷ codes "#ff0080" ∷ []

-- `--colour` is no option, so that its value is not looked for.
abbrev argv_unused : List Bytes
argv_unused = codes "--rows" ∷ codes "30" ∷ codes "--colour" ∷ []

process_args_overrun_example :
    process_args parts (defaults parts) 5 (codes "runes" ∷ argv_unused)
    ≡ at_end (apply_all parts (defaults parts) (settings argv_unused)) 0 (last_option argv_unused)
process_args_overrun_example =
    process_args_overrun parts (defaults parts) 5 0 (codes "runes") argv_unused (omega arith)

unused_ends : at_end (defaults parts) 0 (last_option argv_unused) ≡ done (defaults parts)
unfolding uses_value is_pattern_option
unused_ends = refl

-- A file of one line, with a comment before it.
abbrev one_option : Bytes
one_option = codes "# colors\n\tcols = 100\n"

one_option_read :
    process_config_file parts [] (defaults parts) (some one_option)
    ≡ LineRun.done
        (set_option parts (defaults parts) (codes "cols") (codes "100"))
        (codes "\tcols" ++ (0 ∷ codes "= 100" ++ (0 ∷ 0 ∷ [])))
unfolding process_config_file set_option atoi
one_option_read = refl

config_new-settings_example :
    config_new parts [] (some one_option) (length (codes "runes" ∷ argv)) (codes "runes" ∷ argv)
    ≡ from_args (
        done (
          apply_all parts
            (set_option parts (defaults parts) (codes "cols") (codes "100"))
            (settings argv)))
config_new-settings_example =
    config_new-settings parts [] _ (some one_option) _ (codes "runes") argv one_option_read
