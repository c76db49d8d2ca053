-- ===== src/Sockets/Paths.antt =====
-- `runes_get_daemon_socket_name` and `runes_mkdir_p` of src/util.c. The file system is a parameter.
use runes.Shared.{Bool, true, false, Option, none, some, List, [], ◌∷◌, ◌++◌, ◌==◌, if◌then◌else◌}
use runes.Shared.Text.{Bytes, codes}

-- The directory of the socket, from HOME and XDG_RUNTIME_DIR. A HOME that is not set is not modelled.
abbrev pub socket_dir : Bytes → Option Bytes → Bytes
socket_dir home none = home ++ codes "/.runes"
socket_dir home (some runtime_dir) = runtime_dir ++ codes "/runes"

abbrev pub daemon_socket_name : Bytes → Option Bytes → Bytes
daemon_socket_name home runtime_dir = socket_dir home runtime_dir ++ codes "/runesd"

-- mkdir makes a directory, finds that something is there (EEXIST), or fails otherwise; stat fails, or
-- says whether it is a directory.
pub data Made : Type 0 where
  made exists refused : Made

pub record FileSystem : Type 1 where
  pub State : Type 0
  pub mkdir : State → Bytes → State × Made
  pub stat_dir : State → Bytes → Option Bool

-- The parts that strtok_r gives one after the other, of a string with slashes.
abbrev pub with_part : Bytes → List Bytes → List Bytes
with_part [] parts = parts
with_part (c ∷ s) parts = (c ∷ s) ∷ parts

abbrev pub parts_onto : Bytes → Bytes → List Bytes
parts_onto part [] = with_part part []
parts_onto part (c ∷ s) =
    let ends = with_part part (parts_onto [] s) in
    let goes_on = parts_onto (part ++ (c ∷ [])) s in if c == b'/' then ends else goes_on

abbrev pub path_components : Bytes → List Bytes
path_components dir = parts_onto [] dir

module _ (fs : FileSystem) where
  open fs use {State, mkdir, stat_dir}

  -- It returns, or ends the program.
  pub data MkdirP : Type 0 where
    returns : State → MkdirP
    dies : MkdirP

  abbrev pub checked : State → Option Bool → MkdirP
  checked s none = dies
  checked s (some false) = dies
  checked s (some true) = returns s

  abbrev pub longer : Bytes → Bytes → Bytes
  longer partial_path path_component = partial_path ++ (path_component ++ codes "/")

  abbrev pub after_mkdir : (State → MkdirP) → State × Made → MkdirP
  after_mkdir rest (s, made) = rest s
  after_mkdir rest (s, exists) = rest s
  after_mkdir rest (s, refused) = dies

  unfoldable pub mkdir_loop : Bytes → List Bytes → State → MkdirP
  mkdir_loop partial_path [] s = checked s (stat_dir s partial_path)
  mkdir_loop partial_path (path_component ∷ more) s =
      after_mkdir (mkdir_loop (longer partial_path path_component) more)
        (mkdir s (longer partial_path path_component))

  unfoldable pub mkdir_p : Bytes → State → MkdirP
  unfolding mkdir_loop
  mkdir_p dir s = mkdir_loop (codes "/") (path_components dir) s
