-- ===== src/Daemon/Refusals.antt =====
-- What src/daemon.c does with requests that are none.
use runes.Shared.{ℕ, ◌+◌, ◌≤◌, ◌<◌, ◌≡◌, ◌≢◌, ◌∙◌, some, List, ◌++◌, arith, length}
use runes.Protocol.Message.{
  Bytes, new_term, type_code, max_packet_size, message_version, fail, free_of_stack, or_else,
}
use runes.Protocol.Store.{htonl}
use runes.Protocol.Load.{load_message, free_message, parse_new_term_message}
use runes.Protocol.Wire.{IsU32, load_u32-htonl, length-htonl}
use runes.Protocol.Socket.{Errno, Recv}
use runes.Protocol.Reads.{stream}
use runes.Protocol.Transport.{packet_wire, read_packet_too_big}
use runes.Daemon.{Daemon, served, undefined, handle_new_term_message, handle_packet, handle_request}
use runes.Daemon.Session.{handle_request-packet}

-- A message with a version other than ours is refused by the readers.
load_message_version :
    (v : ℕ) (body : Bytes)
    → IsU32 v
    → v ≢ message_version
    → load_message (htonl v ++ body) (length (htonl v ++ body)) ≡ fail
unfolding load_message
load_message_version v body u ne =
    ground (arith, load_u32-htonl v body (length (htonl v ++ body)), length-htonl v body)

module _ (fresh : ℕ → Bytes) (sized : (n : ℕ) → length (fresh n) ≡ n) (d : Daemon) (errno : Errno)
    (client : List Recv) where
  -- A packet of a type that the daemon does not know, or one that announces more than the limit,
  -- leaves the daemon as it was, and listening.
  pub handle_request_unknown :
      (type : ℕ) (buf rest : Bytes)
      → 2 ≤ type
      → IsU32 type
      → length buf ≤ max_packet_size
      → stream client ≡ packet_wire type buf ++ rest
      → handle_request fresh d errno (some client) ≡ served d errno
  unfolding handle_packet
  handle_request_unknown type buf rest k u h e =
      let (client', r) = handle_request-packet fresh sized d errno client type buf rest h u e in
      r ∙ ground arith

  pub handle_request_too_big :
      (type len : ℕ) (rest : Bytes)
      → max_packet_size < len
      → IsU32 len
      → stream client ≡ htonl len ++ (htonl type ++ rest)
      → handle_request fresh d errno (some client) ≡ served d errno
  unfolding handle_request handle_packet
  handle_request_too_big type len rest big u e =
      let (client', r, left) = read_packet_too_big fresh sized client errno type len rest big u e in
      rw r

  -- A request for a terminal that the readers refuse, such as one of another version, makes the
  -- daemon free a message that it keeps on its stack.
  pub handle_request_malformed :
      (buf rest : Bytes)
      → length buf ≤ max_packet_size
      → load_message buf (length buf) ≡ fail
      → stream client ≡ packet_wire (type_code new_term) buf ++ rest
      → handle_request fresh d errno (some client) ≡ undefined free_of_stack
  unfolding handle_packet handle_new_term_message parse_new_term_message free_message
  handle_request_malformed buf rest h refused e =
      let (client', r) =
        handle_request-packet fresh sized d errno client 0 buf rest h (omega arith) e in
      r ∙ rw (refused, or_else)

  pub handle_request_version :
      (v : ℕ) (body rest : Bytes)
      → IsU32 v
      → v ≢ message_version
      → 4 + length body ≤ max_packet_size
      → stream client ≡ packet_wire (type_code new_term) (htonl v ++ body) ++ rest
      → handle_request fresh d errno (some client) ≡ undefined free_of_stack
  handle_request_version v body rest u ne h e =
      handle_request_malformed (htonl v ++ body) rest (omega (arith, length-htonl v body))
        (load_message_version v body u ne) e
