-- ===== src/Client.antt =====
-- src/runesc.c: the client. The socket's connection, the environment and the current directory are
-- arguments; a current directory that cannot be read ends the program.
use runes.Shared.{Bool, false, Option, none, some, List, [], ◌∷◌, length, if◌then◌else◌}
use runes.Shared.Int.{pos}
use runes.Shared.Text.{codes, str_eq}
use runes.Protocol.Message.{Bytes, new_term, kill_daemon, type_code}
use runes.Protocol.Store.{ByteArray, create_new_term_message}
use runes.Protocol.Socket.{Errno, Send, Write}
use runes.Protocol.Packet.{send_packet}

pub data ClientRun : Type 0 where
  wrote : Write → ClientRun
  not_created : ClientRun
  died : ClientRun

abbrev pub kill_flag : Bytes
kill_flag = codes "--kill-daemon"

-- `argc > 1 && !strcmp(argv[1], "--kill-daemon")`
abbrev pub asks_to_kill : List Bytes → Bool
asks_to_kill [] = false
asks_to_kill (program ∷ []) = false
asks_to_kill (program ∷ first ∷ rest) = str_eq first kill_flag

unfoldable pub send_kill_daemon_message : List Send → Errno → ClientRun
send_kill_daemon_message sock errno =
    wrote (send_packet sock errno [] (pos (type_code kill_daemon)) [])

-- What is left to do with a message that was made, or not.
unfoldable pub send_created : List Send → Errno → Option Bytes → ClientRun
send_created sock errno none = not_created
send_created sock errno (some buf) =
    wrote (send_packet sock errno [] (pos (type_code new_term)) buf)

module _ (g : ByteArray) (sock : List Send) (errno : Errno) where
  unfoldable pub send_new_term_message : List Bytes → List Bytes → Option Bytes → ClientRun
  unfolding send_created
  send_new_term_message argv environ none = died
  send_new_term_message argv environ (some cwd) = send_created sock errno (
      create_new_term_message g
        (record { argc = length argv; argv = argv; envp = environ; cwd = cwd }))

  unfoldable pub main : List Bytes → List Bytes → Option Bytes → ClientRun
  unfolding send_new_term_message send_kill_daemon_message
  main argv environ cwd =
      if asks_to_kill argv
      then send_kill_daemon_message sock errno
      else send_new_term_message argv environ cwd
