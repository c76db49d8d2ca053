-- ===== src/Tests/Shell.antt =====
-- The start of a shell in src/pty-unix.c at concrete inputs.
use runes.Shared.{
  ℕ, ◌+◌, ◌≡◌, refl, true, false, Option, none, some, List, [], ◌∷◌, leb, if◌then◌else◌, arith,
}
use runes.Shared.Text.{Bytes, codes}
use runes.Pty.Environ.{getenv, setenv, unsetenv}
use runes.Pty.Shell.{
  Opened, Process, Command, Kernel, Child, runs, exits, command_for, spawn_subprocess,
}
use runes.Pty.ShellEnviron.{spawned}
use runes.Pty.ShellDescriptors.{shell_descriptor, FreeDescriptors, spawn_subprocess-descriptors}

abbrev standard : ℕ → Option Opened
standard n = if leb n 4 then some (record { file = n + 100; cloexec = false }) else none

-- The master of another terminal is at 4.
abbrev pub daemon : Process
daemon = record {
  fds = standard;
  environ = codes "HOME=/root" ∷ codes "SHELL=/bin/zsh" ∷ [];
  dir = none;
}

abbrev pub kernel : Kernel
kernel = record {
  slave = 6;
  slave_file = 200;
  old_stderr_fd = 7;
  chdir = λ dir. true;
  execlp = λ c p. none;
}

abbrev client_environ : Option (List Bytes)
client_environ =
    some (codes "SHELL=/bin/bash" ∷ codes "TERM=xterm" ∷ codes "COLUMNS=80" ∷ codes "LANG=C" ∷ [])

abbrev shell : Child
shell = (spawned kernel none 31 5 client_environ (some (codes "/tmp")) daemon).1

abbrev pub command_of : Child → Command
command_of (runs c q) = c
command_of (exits line) = command_for line

abbrev pub process_of : Child → Process
process_of (runs c q) = q
process_of (exits line) = daemon

shell_runs : shell ≡ runs (command_of shell) (process_of shell)
unfolding spawn_subprocess
shell_runs = refl

free : FreeDescriptors kernel none 31 5 client_environ (some (codes "/tmp")) daemon
free = ground arith

-- The shell has the other terminal's master.
spawn_subprocess-descriptors_example :
    ((process_of shell).fds 4
      ≡ shell_descriptor kernel none 31 5 client_environ (some (codes "/tmp")) daemon 4)
    × ((spawned kernel none 31 5 client_environ (some (codes "/tmp")) daemon).0.fds 4
        ≡ daemon.fds 4)
spawn_subprocess-descriptors_example =
    spawn_subprocess-descriptors kernel none 31 5 client_environ (some (codes "/tmp")) daemon
      (command_of shell) (process_of shell) 4 free shell_runs

bash_runs : command_of shell ≡ record { file = codes "/bin/bash"; argv = codes "/bin/bash" ∷ [] }
unfolding spawn_subprocess command_for getenv setenv unsetenv
bash_runs = refl
