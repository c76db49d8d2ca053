-- ===== src/Tests/Shells.antt =====
-- From a client to its shell, and the resizing of a terminal, at concrete inputs.
use runes.Shared.{◌≡◌, refl, some, [], arith}
use runes.Shared.Text.{codes}
use runes.Config.Options.{defaults}
use runes.Protocol.Message.{NewTermMessage}
use runes.Protocol.Socket.{other_errno}
use runes.Daemon.{served, initial, handle_request}
use runes.Daemon.Session.{opened}
use runes.Daemon.Shells.{term_shell, client_gets_shell}
use runes.Pty.Environ.{getenv}
use runes.Pty.Shell.{Child, runs, cmd_or_shell, command_for, spawn_subprocess}
use runes.Pty.ShellEnviron.{shell_variable}
use runes.Window.Events.{handle_resize}
use runes.Window.Hints.{normal_hints, hinted_width, hinted_height, Told, handle_resize-hints}
use runes.Tests.Data.{list_array, zeros, zeros_sized, hello, hello_bytes, slow}
use runes.Tests.Daemon.{hello_client, hello_stream, hello_created}
use runes.Tests.Shell.{daemon, kernel, command_of, process_of}
use runes.Tests.Screens.{four_columns, ascii, options, still, window}

abbrev hello_shell : Child
hello_shell = (term_shell kernel options 31 5 hello daemon).1

hello_runs : hello_shell ≡ runs (command_of hello_shell) (process_of hello_shell)
unfolding spawn_subprocess
hello_runs = refl

client_gets_shell_example :
    (m : NewTermMessage) × (handle_request zeros initial other_errno (some hello_client)
      ≡ served (opened initial m) other_errno)
    × ((term_shell kernel options 31 5 m daemon).1
        ≡ runs (command_of hello_shell) (process_of hello_shell))
    × (getenv (codes "HOME") (process_of hello_shell).environ
        ≡ shell_variable 31 hello.envp (codes "HOME"))
    × ((process_of hello_shell).dir ≡ some hello.cwd)
    × (command_of hello_shell ≡ command_for (cmd_or_shell options.cmd hello.envp))
client_gets_shell_example =
    client_gets_shell zeros zeros_sized list_array (slow 100) other_errno hello.argv hello.envp
      hello.cwd hello_bytes initial other_errno hello_client [] kernel options 31 5 daemon
      (command_of hello_shell) (process_of hello_shell) (codes "HOME") refl hello_created
      (omega arith) (omega arith) hello_stream hello_runs refl refl

handle_resize-hints_example :
    Told options still four_columns ascii 8 16 window 10 5 (
      handle_resize options still four_columns ascii 8 16
        (hinted_width options 8 16 9)
        (hinted_height options 8 16 4)
        window)
    × ((normal_hints options 8 16).base_width ≡ hinted_width options 8 16 79)
    × ((normal_hints options 8 16).base_height ≡ hinted_height options 8 16 23)
unfolding defaults
handle_resize-hints_example =
    handle_resize-hints options still four_columns ascii 8 16 9 4 79 23 window (omega arith)
      (omega arith) (omega arith) (omega arith) refl refl
