-- ===== src/Daemon/Shells.antt =====
-- From a client to the shell of its terminal: src/runesc.c, src/daemon.c, src/term.c and
-- src/pty-unix.c put together.
use runes.Shared.{
  ℕ, ◌+◌, ◌≤◌, ◌≡◌, sym, ap, ◌∙◌, false, true, Option, some, List, ◌++◌, length, if◌then◌else◌,
}
use runes.Config.Types.{Config}
use runes.Protocol.Message.{Bytes, new_term, type_code, NewTermMessage, max_packet_size}
use runes.Protocol.Store.{ByteArray, create_new_term_message}
use runes.Protocol.Socket.{Errno, Recv, Send}
use runes.Protocol.Reads.{stream}
use runes.Protocol.Writes.{patience}
use runes.Protocol.Transport.{packet_wire}
use runes.Client.{asks_to_kill}
use runes.Daemon.{Daemon, served, handle_request}
use runes.Daemon.Session.{opened, request, client_opens_terminal}
use runes.Pty.Environ.{getenv}
use runes.Pty.EnvironLaws.{is_name}
use runes.Pty.Shell.{
  Process, Command, Kernel, Child, runs, child_dir, cmd_or_shell, command_for, spawn_subprocess,
}
use runes.Pty.ShellEnviron.{shell_variable, spawn_subprocess-environment, after_execlp-runs}

-- What `runes_term_new` makes of a message: the shell gets its environment and its directory.
abbrev pub term_shell :
    {Pattern : Type 0}
    → Kernel
    → Config Pattern
    → ℕ
    → ℕ
    → NewTermMessage
    → Process
    → Process × Child
term_shell k cfg window_id master m p =
    spawn_subprocess k cfg.cmd window_id master (some m.envp) (some m.cwd) p

spawn_subprocess-dir :
    (k : Kernel) (cmd : Option Bytes) (window_id master : ℕ) (envp : Option (List Bytes))
    (cwd : Option Bytes) (p : Process) (c : Command) (q : Process)
    → (spawn_subprocess k cmd window_id master envp cwd p).1 ≡ runs c q
    → q.dir ≡ child_dir k cwd p.dir
unfolding spawn_subprocess
spawn_subprocess-dir k cmd window_id master envp cwd p c q e =
    let (command, process) = after_execlp-runs _ _ c _ q _ e in ap (λ x. x.dir) (sym process)

module _ (fresh : ℕ → Bytes) (sized : (n : ℕ) → length (fresh n) ≡ n) where
  -- A client asks for a terminal, and the daemon that receives its request opens one more, with a
  -- message for which this holds: if the shell of a terminal with this message runs, it finds under
  -- every name what the client's environment has, but for the variables of the terminal itself; and it
  -- runs in the client's directory, if it can go there. The request is within the packet limit, and
  -- the client's socket takes something often enough.
  pub client_gets_shell :
      {Pattern : Type 0} (g : ByteArray) (sock : List Send) (errno_c : Errno)
      (argv environ : List Bytes) (cwd bytes : Bytes) (d : Daemon) (errno : Errno)
      (client : List Recv) (rest : Bytes) (k : Kernel) (cfg : Config Pattern) (window_id master : ℕ)
      (p : Process) (c : Command) (q : Process) (name : Bytes)
      → asks_to_kill argv ≡ false
      → create_new_term_message g (request argv environ cwd) ≡ some bytes
      → length bytes ≤ max_packet_size
      → 8 + length bytes ≤ patience sock
      → stream client ≡ packet_wire (type_code new_term) bytes ++ rest
      → (term_shell k cfg window_id master (request argv environ cwd) p).1 ≡ runs c q
      → k.chdir cwd ≡ true
      → is_name name ≡ true
      → (m : NewTermMessage) × (handle_request fresh d errno (some client)
          ≡ served (opened d m) errno)
        × ((term_shell k cfg window_id master m p).1 ≡ runs c q)
        × (getenv name q.environ ≡ shell_variable window_id environ name)
        × (q.dir ≡ some cwd)
        × (c ≡ command_for (cmd_or_shell cfg.cmd environ))
  client_gets_shell g sock errno_c argv environ cwd bytes d errno client rest k cfg window_id master
        p c q name asks made fits often arrives started there is =
      let m = request argv environ cwd in
      let (sock', sent_all, opens) =
        client_opens_terminal fresh sized g sock errno_c argv environ cwd bytes d errno client rest
          asks made fits often arrives in
      let (variables, command) =
        spawn_subprocess-environment k cfg.cmd window_id master (some environ) (some cwd) p c q name
          started is in
      (
        m,
        opens,
        started,
        variables,
        spawn_subprocess-dir k cfg.cmd window_id master (some environ) (some cwd) p c q started
            ∙ ap (λ b. if b then some cwd else p.dir) there,
        command,
      )
