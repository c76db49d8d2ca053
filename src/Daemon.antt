-- ===== src/Daemon.antt =====
-- src/daemon.c: the daemon that opens a terminal for each client that asks. Terminals are listed by
-- the message that each was opened from; what happens in one is in other modules.
pub mod Session
pub mod Refusals
pub mod Shells
use runes.Shared.{
  ℕ, Bool, true, false, Option, none, some, List, [], ◌∷◌, ◌++◌, length, ◌==◌, if◌then◌else◌,
}
use runes.Protocol.Message.{
  Bytes, MessageType, new_term, kill_daemon, type_code, NewTermMessage, Outcome, ok, fail, fault,
  Fault,
}
use runes.Protocol.Load.{on_stack, parse_new_term_message}
use runes.Protocol.Socket.{Errno, Recv}
use runes.Protocol.Packet.{Packet, packet, no_packet, stuck, read_packet}

-- `running` is the loop's, `listening` that the request callback is armed.
pub record Daemon : Type 0 where
  pub terms : List NewTermMessage
  pub running : Bool
  pub listening : Bool

-- How a request ends: served, with the daemon as it is then; not at all, since the read does not
-- return; by `runes_die`; or in undefined behaviour.
pub data Served : Type 0 where
  served : Daemon → Errno → Served
  hung : Served
  died : Served
  undefined : Fault → Served

-- The end of a request whose message was handled.
abbrev pub after_message : Daemon → Errno → Outcome NewTermMessage → Served
after_message d errno (ok msg) = served (record d { terms = d.terms ++ (msg ∷ []) }) errno
after_message d errno fail = served d errno
after_message d errno (fault u) = undefined u

unfoldable pub handle_new_term_message : Daemon → Errno → Bytes → Served
handle_new_term_message d errno buf =
    after_message d errno (parse_new_term_message on_stack buf (length buf))

-- The switch over the packet's type. A return of 0 leaves the callback unarmed.
unfoldable pub handle_packet : Daemon → Packet → Served
unfolding handle_new_term_message
handle_packet d (packet type buf sock errno) =
    if type == type_code new_term
    then handle_new_term_message d errno buf
    else if type == type_code kill_daemon
    then served (record d { running = false; listening = false }) errno
    else served d errno
handle_packet d (no_packet sock errno) = served d errno
handle_packet d stuck = hung

-- A connection is what accept gave, or nothing if it failed.
unfoldable pub handle_request : (ℕ → Bytes) → Daemon → Errno → Option (List Recv) → Served
unfolding handle_packet
handle_request fresh d errno none = died
handle_request fresh d errno (some client) = handle_packet d (read_packet fresh client errno)

-- What the loop does with the next connection: nothing, once it has stopped.
abbrev pub next_request : (ℕ → Bytes) → Served → Option (List Recv) → Served
next_request fresh (served d errno) client =
    if d.running then handle_request fresh d errno client else served d errno
next_request fresh hung client = hung
next_request fresh died client = died
next_request fresh (undefined u) client = undefined u

-- The event loop over the connections that come in.
unfoldable pub run : (ℕ → Bytes) → Served → List (Option (List Recv)) → Served
run fresh s [] = s
run fresh s (client ∷ rest) = run fresh (next_request fresh s client) rest

-- `runes_daemon_new` and `runes_daemon_init_loop`: the callback is armed, and the loop about to run.
abbrev pub initial : Daemon
initial = record { terms = []; running = true; listening = true }
