-- ===== src/Protocol/Socket.antt =====
-- `runes_protocol_read_bytes` and `runes_protocol_write_bytes` of src/protocol.c, over a socket that
-- is the list of what the kernel will answer, in order.
use runes.Shared.{
  ℕ, suc, ◌+◌, ◌-◌, ◌%◌, ◌^◌, List, [], ◌∷◌, ◌++◌, take, drop, length, ltb, leb, if◌then◌else◌,
}
use runes.Protocol.Message.{Bytes}

-- The part of errno that the loops test.
pub data Errno : Type 0 where
  eintr other_errno : Errno

-- One answer of recv: these bytes are there (never none), a signal came, the connection broke, or
-- the peer closed it, which stays so.
pub data Recv : Type 0 where
  arrived : ℕ → Bytes → Recv
  interrupted : Recv
  broken : Recv
  closed : Recv

-- The buffer and what is left of the socket; a return of 0; or no return at all, since the socket
-- stays silent or the loop spins.
pub data Read : Type 0 where
  received : Bytes → List Recv → Errno → Read
  refused : List Recv → Errno → Read
  never_returns : Read

-- The buffer with a chunk copied in at a position.
abbrev pub write_at : Bytes → ℕ → Bytes → Bytes
write_at out pos chunk = take pos out ++ (chunk ++ drop (pos + length chunk) out)

-- `bytes += got` at got = -1.
abbrev pub add_minus_one : ℕ → ℕ
add_minus_one bytes = (bytes + 2 ^ 64 - 1) % 2 ^ 64

-- What recv left of a chunk stays in front of the socket.
abbrev pub left_over : Bytes → List Recv → List Recv
left_over [] rest = rest
left_over (x ∷ xs) rest = arrived x xs ∷ rest

-- At the end of the stream recv returns 0 and leaves errno alone.
abbrev pub at_end : Errno → List Recv → Read
at_end eintr sock = never_returns
at_end other_errno sock = refused (closed ∷ sock) other_errno

-- recv takes as much of a chunk as there is room for; with the room filled the loop is over.
unfoldable pub read_loop : List Recv → Errno → ℕ → ℕ → Bytes → Read
read_loop [] errno bytes len out = if ltb bytes len then never_returns else received out [] errno
read_loop (arrived b bs ∷ sock) errno bytes len out =
    let chunk = b ∷ bs in
    let room = len - bytes in
    let more = read_loop sock errno (bytes + length chunk) len (write_at out bytes chunk) in
    if ltb bytes len
    then if leb (length chunk) room
      then more
      else received (write_at out bytes (take room chunk)) (left_over (drop room chunk) sock) errno
    else received out (arrived b bs ∷ sock) errno
read_loop (interrupted ∷ sock) errno bytes len out =
    let again = read_loop sock eintr (add_minus_one bytes) len out in
    if ltb bytes len then again else received out (interrupted ∷ sock) errno
read_loop (broken ∷ sock) errno bytes len out =
    if ltb bytes len then refused sock other_errno else received out (broken ∷ sock) errno
read_loop (closed ∷ sock) errno bytes len out =
    if ltb bytes len then at_end errno sock else received out (closed ∷ sock) errno

-- `out` is what the buffer holds before.
unfoldable pub read_bytes : List Recv → Errno → ℕ → Bytes → Read
read_bytes sock errno len out = read_loop sock errno 0 len out

-- One answer of send: at most this many bytes and one more are taken, a signal came, or the
-- connection broke.
pub data Send : Type 0 where
  takes : ℕ → Send
  interrupted broken : Send

pub data Write : Type 0 where
  sent : Bytes → List Send → Errno → Write
  refused : Bytes → List Send → Errno → Write
  never_returns : Write

-- `wire` is what the kernel has taken so far.
unfoldable pub write_loop : List Send → Errno → ℕ → Bytes → Bytes → Write
write_loop [] errno bytes buf wire =
    if ltb bytes (length buf) then never_returns else sent wire [] errno
write_loop (takes k ∷ sock) errno bytes buf wire =
    let chunk = take (suc k) (drop bytes buf) in
    let more = write_loop sock errno (bytes + length chunk) buf (wire ++ chunk) in
    if ltb bytes (length buf) then more else sent wire (takes k ∷ sock) errno
write_loop (Send.interrupted ∷ sock) errno bytes buf wire =
    let again = write_loop sock eintr (add_minus_one bytes) buf wire in
    if ltb bytes (length buf) then again else sent wire (Send.interrupted ∷ sock) errno
write_loop (Send.broken ∷ sock) errno bytes buf wire =
    if ltb bytes (length buf)
    then Write.refused wire sock other_errno
    else sent wire (Send.broken ∷ sock) errno

unfoldable pub write_bytes : List Send → Errno → Bytes → Bytes → Write
write_bytes sock errno buf wire = write_loop sock errno 0 buf wire
