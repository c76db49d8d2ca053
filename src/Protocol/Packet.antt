-- ===== src/Protocol/Packet.antt =====
-- `runes_protocol_send_packet` and `runes_protocol_read_packet` of src/protocol.c.
use runes.Shared.{ℕ, ◌+◌, ◌-◌, ◌%◌, ◌^◌, Bool, true, List, length, ltb, leb, if◌then◌else◌}
use runes.Shared.Int.{ℤ, pos, negsuc}
use runes.Protocol.Message.{Bytes, max_packet_size, num_message_types, Outcome, ok, fail, fault}
use runes.Protocol.Store.{htonl}
use runes.Protocol.Load.{ntohl}
use runes.Protocol.Socket.{
  Errno, Recv, Read, received, refused, never_returns, read_bytes, Send, Write, sent, write_bytes,
}

-- `type < 0 || type >= RUNES_PROTOCOL_NUM_MESSAGE_TYPES`
abbrev pub unknown_type : ℤ → Bool
unknown_type (pos n) = leb num_message_types n
unknown_type (negsuc n) = true

-- An int converted to uint32_t.
abbrev pub to_u32 : ℤ → ℕ
to_u32 (pos n) = n % 2 ^ 32
to_u32 (negsuc n) = (2 ^ 32 - (n + 1) % 2 ^ 32) % 2 ^ 32

-- The next write if this one returned 1.
abbrev pub and_write : Write → (Bytes → List Send → Errno → Write) → Write
and_write (sent wire sock errno) next = next wire sock errno
and_write (Write.refused wire sock errno) next = Write.refused wire sock errno
and_write Write.never_returns next = Write.never_returns

unfoldable pub send_packet : List Send → Errno → Bytes → ℤ → Bytes → Write
send_packet sock errno wire type buf =
    if ltb max_packet_size (length buf)
    then Write.refused wire sock errno
    else if unknown_type type
    then Write.refused wire sock errno
    else and_write (write_bytes sock errno (htonl (length buf)) wire) λ wire1 sock1 errno1.
      and_write (write_bytes sock1 errno1 (htonl (to_u32 type)) wire1)
        λ wire2 sock2 errno2. write_bytes sock2 errno2 buf wire2

pub data Packet : Type 0 where
  packet : ℕ → Bytes → List Recv → Errno → Packet
  no_packet : List Recv → Errno → Packet
  stuck : Packet

-- The next step if a read returned 1.
abbrev pub and_read : Read → (Bytes → List Recv → Errno → Packet) → Packet
and_read (received out sock errno) next = next out sock errno
and_read (refused sock errno) next = no_packet sock errno
and_read never_returns next = stuck

-- ntohl of a uint32_t that was read as four bytes; there are always four.
abbrev pub ntohl_of : Outcome ℕ → ℕ
ntohl_of (ok n) = n
ntohl_of fail = 0
ntohl_of (fault u) = 0

-- `fresh n` is what n bytes of new memory hold.
unfoldable pub read_packet : (ℕ → Bytes) → List Recv → Errno → Packet
read_packet fresh sock errno =
    and_read (read_bytes sock errno 4 (fresh 4)) λ len_bytes sock1 errno1.
      and_read (read_bytes sock1 errno1 4 (fresh 4)) λ type_bytes sock2 errno2.
        let len = ntohl_of (ntohl len_bytes) in
        if ltb max_packet_size len
        then no_packet sock2 errno2
        else and_read (read_bytes sock2 errno2 len (fresh len))
            λ buf sock3 errno3. packet (ntohl_of (ntohl type_bytes)) buf sock3 errno3
