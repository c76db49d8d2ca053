-- ===== src/Tests/Daemon.antt =====
-- src/runesc.c and src/daemon.c at concrete inputs.
use runes.Shared.{ℕ, ◌≡◌, refl, none, some, List, [], ◌∷◌, ◌++◌, arith, length}
use runes.Shared.Text.{Bytes, codes}
use runes.Protocol.Message.{free_of_stack}
use runes.Protocol.Store.{
  htonl, store_u32, store_str, store_strs, store_strvec, store_message, create_new_term_message,
}
use runes.Protocol.Socket.{other_errno, Recv, Send, sent}
use runes.Protocol.Reads.{stream}
use runes.Protocol.Transport.{packet_wire}
use runes.Client.{wrote, main, kill_flag}
use runes.Daemon.{served, undefined, initial, handle_request, run}
use runes.Daemon.Session.{
  Carries, opened, stopped, all_opened, client_opens_terminal, client_stops_daemon, run_opens_all,
}
use runes.Daemon.Refusals.{handle_request_version}
use runes.Tests.Data.{list_array, zeros, zeros_sized, hello, hello_bytes, one_by_one, slow}

abbrev header : ℕ → ℕ → Bytes
header type len = 0 ∷ 0 ∷ 0 ∷ len ∷ 0 ∷ 0 ∷ 0 ∷ type ∷ []

abbrev pub hello_client : List Recv
hello_client = one_by_one (header 0 (length hello_bytes) ++ hello_bytes)

pub hello_stream : stream hello_client ≡ packet_wire 0 hello_bytes ++ []
unfolding htonl
hello_stream = refl

pub hello_created : create_new_term_message list_array hello ≡ some hello_bytes
unfolding create_new_term_message store_message store_strvec store_strs store_str store_u32 htonl
hello_created = refl

client_opens_terminal_example :
    (sock' : List Send) × (main list_array
        (slow 100)
        other_errno
        hello.argv
        hello.envp
        (some hello.cwd)
      ≡ wrote (sent (packet_wire 0 hello_bytes) sock' other_errno))
    × (handle_request zeros initial other_errno (some hello_client)
        ≡ served (opened initial hello) other_errno)
client_opens_terminal_example =
    client_opens_terminal zeros zeros_sized list_array (slow 100) other_errno hello.argv hello.envp
      hello.cwd hello_bytes initial other_errno hello_client [] refl hello_created (omega arith)
      (omega arith) hello_stream

kill_stream : stream (one_by_one (header 1 0)) ≡ packet_wire 1 [] ++ []
unfolding htonl
kill_stream = refl

client_stops_daemon_example :
    (sock' : List Send) × (main list_array
        (slow 8)
        other_errno
        (codes "runesc" ∷ kill_flag ∷ [])
        []
        none
      ≡ wrote (sent (packet_wire 1 []) sock' other_errno))
    × (run zeros
          (served initial other_errno)
          (some (one_by_one (header 1 0)) ∷ some hello_client ∷ [])
        ≡ served (stopped initial) other_errno)
client_stops_daemon_example =
    client_stops_daemon zeros zeros_sized list_array (slow 8) other_errno
      (codes "runesc" ∷ kill_flag ∷ []) [] none initial other_errno (one_by_one (header 1 0)) []
      (some hello_client ∷ []) refl (omega arith) refl kill_stream

run_opens_all_example :
    run zeros (served initial other_errno) (some hello_client ∷ some hello_client ∷ [])
    ≡ served (all_opened initial (hello ∷ hello ∷ [])) other_errno
run_opens_all_example =
    run_opens_all zeros zeros_sized list_array (some hello_client ∷ some hello_client ∷ [])
      (hello ∷ hello ∷ []) initial other_errno refl (one, (one, tt))
  where
    one : Carries list_array (some hello_client) hello
    one =
        (hello_client, hello_bytes, [], refl, omega arith, hello_created, omega arith, hello_stream)

unknown_stream : stream (one_by_one (header 7 0)) ≡ packet_wire 7 [] ++ []
unfolding htonl
unknown_stream = refl

version_stream :
    stream (one_by_one (header 0 4 ++ (0 ∷ 0 ∷ 0 ∷ 2 ∷ []))) ≡ packet_wire 0 (htonl 2 ++ []) ++ []
unfolding htonl
version_stream = refl

handle_request_version_example :
    handle_request zeros initial other_errno
      (some (one_by_one (header 0 4 ++ (0 ∷ 0 ∷ 0 ∷ 2 ∷ []))))
    ≡ undefined free_of_stack
handle_request_version_example =
    handle_request_version zeros zeros_sized initial other_errno _ 2 [] [] (omega arith)
      (omega arith) (omega arith) version_stream
