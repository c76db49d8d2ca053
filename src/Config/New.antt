-- ===== src/Config/New.antt =====
-- `runes_config_get_config_file` and `runes_config_new` of src/config.c. The file system is what opens
-- at each path: the file's bytes, or nothing.
use runes.Shared.{ℕ, ◌≡◌, Option, none, some, List, ◌∷◌, ◌++◌, length}
use runes.Shared.Text.{Bytes, codes}
use runes.Config.Types.{Cairo, Config}
use runes.Config.Options.{defaults}
use runes.Config.File.{LineRun, process_config_file}
use runes.Config.Args.{ArgsRun, done, process_args, settings, apply_all, process_args-settings}

-- The directory of a user's files, with the variable XDG_CONFIG_HOME or without it. A HOME that is
-- not set is not modelled.
abbrev pub config_dir : Bytes → Option Bytes → Bytes
config_dir home none = home ++ codes "/.config"
config_dir home (some dir) = dir

abbrev pub or_else : Option Bytes → Option Bytes → Option Bytes
or_else none other = other
or_else (some file) other = some file

unfoldable pub get_config_file : (Bytes → Option Bytes) → Bytes → Option Bytes → Option Bytes
get_config_file open_file home xdg =
    or_else (open_file (config_dir home xdg ++ codes "/runes/runes.conf"))
      (or_else (open_file (home ++ codes "/.runesrc")) (open_file (codes "/etc/runesrc")))

-- The file's faults, or what the command line gives after it.
pub data NewRun (Pattern : Type 0) : Type 0 where
  bad_file : NewRun Pattern
  from_args : ArgsRun Pattern → NewRun Pattern

module _ (cairo : Cairo) where
  open cairo use {Pattern}

  abbrev pub after_file : LineRun Pattern → ℕ → List Bytes → NewRun Pattern
  after_file (LineRun.done c buf) argc argv = from_args (process_args cairo c argc argv)
  after_file LineRun.before_line argc argv = bad_file
  after_file LineRun.past_line argc argv = bad_file

  -- `buf` is what the parser's line buffer holds at first.
  unfoldable pub config_new : Bytes → Option Bytes → ℕ → List Bytes → NewRun Pattern
  config_new buf file argc argv =
      after_file (process_config_file cairo buf (defaults cairo) file) argc argv

  -- The command line has the last word: its settings are applied, in order, to what the file left
  -- of the defaults.
  pub config_new-settings :
      (buf buf' : Bytes) (file : Option Bytes) (c : Config Pattern) (program : Bytes)
      (args : List Bytes)
      → process_config_file cairo buf (defaults cairo) file ≡ LineRun.done c buf'
      → config_new buf file (length (program ∷ args)) (program ∷ args)
        ≡ from_args (done (apply_all cairo c (settings args)))
  unfolding config_new
  config_new-settings buf buf' file c program args h =
      rw (h, process_args-settings cairo c program args)
