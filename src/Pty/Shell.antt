-- ===== src/Pty/Shell.antt =====
-- `runes_pty_spawn_subprocess` of src/pty-unix.c: what becomes of the descriptors, the environment and
-- the directory of a terminal's shell. The kernel is a parameter.
use runes.Shared.{
  ℕ, Bool, true, false, ◌||◌, Option, none, some, List, [], ◌∷◌, ◌++◌, ◌==◌, if◌then◌else◌,
}
use runes.Shared.Tables.{put}
use runes.Shared.Text.{Bytes, codes}
use runes.Pty.Environ.{getenv, setenv, unsetenv, decimal, strpbrk}

-- What a descriptor stands for, and FD_CLOEXEC.
pub record Opened : Type 0 where
  pub file : ℕ
  pub cloexec : Bool

abbrev pub Descriptors : Type 0
Descriptors = ℕ → Option Opened

abbrev pub close : ℕ → Descriptors → Descriptors
close fd fds = put fd none fds

-- A descriptor that is not open is refused; one onto itself stays as it is.
abbrev pub dup2_of : Option Opened → ℕ → ℕ → Descriptors → Descriptors
dup2_of none old new fds = fds
dup2_of (some o) old new fds =
    if old == new then fds else put new (some (record o { cloexec = false })) fds

abbrev pub dup2 : ℕ → ℕ → Descriptors → Descriptors
dup2 old new fds = dup2_of (fds old) old new fds

-- The copy of descriptor 2 that is closed with exec; where 2 is closed there is none.
abbrev pub keep_stderr : Option Opened → ℕ → Descriptors → Descriptors
keep_stderr none fd fds = fds
keep_stderr (some o) fd fds = put fd (some (record o { cloexec = true })) fds

-- exec closes the descriptors that are marked.
abbrev pub unless_marked : Option Opened → Option Opened
unless_marked none = none
unless_marked (some o) = if o.cloexec then none else some o

abbrev pub after_exec : Descriptors → Descriptors
after_exec fds n = unless_marked (fds n)

-- A process; a directory of `none` is that in which the program was started.
pub record Process : Type 0 where
  pub fds : Descriptors
  pub environ : List Bytes
  pub dir : Option Bytes

pub record Command : Type 0 where
  pub file : Bytes
  pub argv : List Bytes

-- What the kernel says: the descriptors that open and dup give, the file of the slave, whether chdir
-- can go to a directory, and why exec cannot run a command.
pub record Kernel : Type 0 where
  pub slave : ℕ
  pub slave_file : ℕ
  pub old_stderr_fd : ℕ
  pub chdir : Bytes → Bool
  pub execlp : Command → Process → Option Bytes

-- The child runs a program, or writes a line where the terminal program's errors go, and exits.
pub data Child : Type 0 where
  runs : Command → Process → Child
  exits : Bytes → Child

abbrev pub child_fds : Kernel → ℕ → Descriptors → Descriptors
child_fds k master fds =
    let kept = keep_stderr (fds 2) k.old_stderr_fd fds in
    let alone = close master kept in
    close k.slave (dup2 k.slave 2 (dup2 k.slave 1 (dup2 k.slave 0 alone)))

abbrev pub child_dir : Kernel → Option Bytes → Option Bytes → Option Bytes
child_dir k none dir = dir
child_dir k (some cwd) dir = if k.chdir cwd then some cwd else dir

abbrev pub given_environ : Option (List Bytes) → List Bytes → List Bytes
given_environ none environ = environ
given_environ (some envp) environ = envp

unfoldable pub child_environ : ℕ → List Bytes → List Bytes
child_environ window_id environ =
    let with_term = setenv (codes "TERM") (codes "screen-256color") environ in
    let plain = unsetenv (codes "COLORFGBG") (unsetenv (codes "COLORTERM") with_term) in
    let with_id = setenv (codes "WINDOWID") (decimal window_id) plain in
    unsetenv (codes "COLUMNS") (unsetenv (codes "LINES") with_id)

-- The configured command, or the environment's SHELL, or /bin/sh.
abbrev pub or_sh : Option Bytes → Bytes
or_sh none = codes "/bin/sh"
or_sh (some shell) = shell

abbrev pub cmd_or_shell : Option Bytes → List Bytes → Bytes
cmd_or_shell none environ = or_sh (getenv (codes "SHELL") environ)
cmd_or_shell (some cmd) environ = cmd

unfoldable pub command_for : Bytes → Command
command_for cmd =
    if strpbrk (λ c. c == b' ' || c == b'$') cmd
    then record { file = codes "/bin/sh"; argv = codes "/bin/sh" ∷ codes "-c" ∷ cmd ∷ [] }
    else record { file = cmd; argv = cmd ∷ [] }

abbrev pub after_execlp : Bytes → Command → Process → Option Bytes → Child
after_execlp cmd c p none = runs c (record p { fds = after_exec p.fds })
after_execlp cmd c p (some error) =
    exits (codes "Couldn't run " ++ (cmd ++ (codes ": " ++ (error ++ codes "\n"))))

-- The slave is opened before the fork, and the parent closes its own.
unfoldable pub spawn_subprocess :
    Kernel → Option Bytes → ℕ → ℕ → Option (List Bytes) → Option Bytes → Process → Process × Child
unfolding command_for child_environ
spawn_subprocess k cmd window_id master envp cwd p =
    let opened : Descriptors =
      put k.slave (some (record { file = k.slave_file; cloexec = false })) p.fds in
    let child : Process = record {
      fds = child_fds k master opened;
      environ = child_environ window_id (given_environ envp p.environ);
      dir = child_dir k cwd p.dir;
    } in
    let run = cmd_or_shell cmd child.environ in
    (
      record p { fds = close k.slave opened },
      after_execlp run (command_for run) child (k.execlp (command_for run) child),
    )
