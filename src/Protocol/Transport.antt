-- ===== src/Protocol/Transport.antt =====
-- Packets of src/protocol.c from one end of a socket to the other.
use mathlib.Core.Path.{subst}
use runes.Shared.{
  true, false, ℕ, ◌+◌, ◌≤◌, ◌<◌, ◌≡◌, refl, ap, ◌∙◌, List, [], ◌++◌, arith, length, length-append,
  take, drop, take-append, drop-append, append_assoc, append-nil, ltb,
}
use runes.Shared.Int.{pos}
use runes.Protocol.Message.{Bytes, MessageType, type_code, max_packet_size}
use runes.Protocol.Store.{htonl}
use runes.Protocol.Load.{ntohl}
use runes.Protocol.Wire.{ntohl-htonl, IsU32}
use runes.Protocol.Socket.{Errno, Recv, received, read_bytes, Send, sent}
use runes.Protocol.Reads.{stream, read_bytes-stream}
use runes.Protocol.Writes.{patience, write_bytes-sent}
use runes.Protocol.Packet.{
  packet, no_packet, ntohl_of, send_packet, read_packet, to_u32, unknown_type,
}

abbrev pub packet_wire : ℕ → Bytes → Bytes
packet_wire type buf = htonl (length buf) ++ (htonl type ++ buf)

length-htonl4 : (i : ℕ) → length (htonl i) ≡ 4
unfolding htonl
length-htonl4 i = refl

to_u32-type_code : (type : MessageType) → to_u32 (pos (type_code type)) ≡ type_code type
to_u32-type_code MessageType.new_term = refl
to_u32-type_code MessageType.kill_daemon = refl

known_type : (type : MessageType) → unknown_type (pos (type_code type)) ≡ false
known_type MessageType.new_term = refl
known_type MessageType.kill_daemon = refl

-- A packet within the limit goes out as its size, its type and its bytes, if the socket takes
-- something often enough, however little at a time.
pub send_packet-wire :
    (sock : List Send) (errno : Errno) (wire : Bytes) (type : MessageType) (buf : Bytes)
    → length buf ≤ max_packet_size
    → 8 + length buf ≤ patience sock
    → (sock' : List Send) × (send_packet sock errno wire (pos (type_code type)) buf
        ≡ sent (wire ++ packet_wire (type_code type) buf) sock' errno)
unfolding send_packet
send_packet-wire sock errno wire type buf h k =
    let (sock1, e1, k1) =
      write_bytes-sent sock errno (htonl (length buf)) wire
        (omega (arith, length-htonl4 (length buf))) in
    let (sock2, e2, k2) =
      write_bytes-sent sock1 errno (htonl (type_code type)) (wire ++ htonl (length buf))
        (omega (arith, length-htonl4 (length buf), length-htonl4 (type_code type))) in
    let (sock3, e3, k3) =
      write_bytes-sent sock2 errno buf ((wire ++ htonl (length buf)) ++ htonl (type_code type))
        (omega (arith, length-htonl4 (length buf), length-htonl4 (type_code type))) in
    (
      sock3,
      rw (within, known, to_u32-type_code type, e1, e2, e3)
          (ap (λ w. sent w sock3 errno)
            (append_assoc (wire ++ htonl (length buf)) (htonl (type_code type)) buf
              ∙ append_assoc wire (htonl (length buf)) (htonl (type_code type) ++ buf))),
    )
  where
    within : ltb max_packet_size (length buf) ≡ false
    within = ground arith

    known : unknown_type (pos (type_code type)) ≡ false
    known = known_type type

-- Reading what stands first on the stream.
read_bytes_first :
    (sock : List Recv) (errno : Errno) (n : ℕ) (out xs rest : Bytes)
    → length out ≡ n
    → length xs ≡ n
    → stream sock ≡ xs ++ rest
    → (sock' : List Recv) × (read_bytes sock errno n out ≡ received xs sock' errno)
      × (stream sock' ≡ rest)
read_bytes_first sock errno n out xs rest sized lx e =
    let (sock', r, left) =
      read_bytes-stream sock errno out (rw e (omega (arith, length-append xs rest))) in
    (
      sock',
      subst (λ k. read_bytes sock errno k out ≡ received xs sock' errno) sized
          (r ∙ ap (λ o. received o sock' errno) taken),
      left ∙ dropped,
    )
  where
    same : length out ≡ length xs
    same = omega arith

    taken : take (length out) (stream sock) ≡ xs
    taken = rw (e, same) (take-append xs rest)

    dropped : drop (length out) (stream sock) ≡ rest
    dropped = rw (e, same) (drop-append xs rest)

ntohl_of-htonl : (i : ℕ) → IsU32 i → ntohl_of (ntohl (htonl i)) ≡ i
ntohl_of-htonl i h = ap ntohl_of (rw append-nil at (ntohl-htonl i [] h))

module _ (fresh : ℕ → Bytes) (sized : (n : ℕ) → length (fresh n) ≡ n) where
  -- A packet that arrives within the limit, in whatever chunks, is read as it was sent, and what
  -- follows it on the socket is left.
  pub read_packet-stream :
      (sock : List Recv) (errno : Errno) (type : ℕ) (buf rest : Bytes)
      → length buf ≤ max_packet_size
      → IsU32 type
      → stream sock ≡ packet_wire type buf ++ rest
      → (sock' : List Recv) × (read_packet fresh sock errno ≡ packet type buf sock' errno)
        × (stream sock' ≡ rest)
  unfolding read_packet
  read_packet-stream sock errno type buf rest h t e =
      let (sock1, r1, l1) =
        read_bytes_first sock errno 4 (fresh 4) (htonl (length buf)) ((htonl type ++ buf) ++ rest)
          (sized 4) (length-htonl4 (length buf))
          (e ∙ append_assoc (htonl (length buf)) (htonl type ++ buf) rest) in
      let (sock2, r2, l2) =
        read_bytes_first sock1 errno 4 (fresh 4) (htonl type) (buf ++ rest) (sized 4)
          (length-htonl4 type) (l1 ∙ append_assoc (htonl type) buf rest) in
      let (sock3, r3, l3) =
        read_bytes_first sock2 errno (length buf) (fresh (length buf)) buf rest (sized (length buf))
          refl l2 in
      (
        sock3,
        rw (r1, r2, ntohl_of-htonl (length buf) (omega arith), within, r3, ntohl_of-htonl type t),
        l3,
      )
    where
      within : ltb max_packet_size (length buf) ≡ false
      within = ground arith

  -- A header that announces more than the limit is refused, with no more read than the header.
  pub read_packet_too_big :
      (sock : List Recv) (errno : Errno) (type len : ℕ) (rest : Bytes)
      → max_packet_size < len
      → IsU32 len
      → stream sock ≡ htonl len ++ (htonl type ++ rest)
      → (sock' : List Recv) × (read_packet fresh sock errno ≡ no_packet sock' errno)
        × (stream sock' ≡ rest)
  unfolding read_packet
  read_packet_too_big sock errno type len rest big small e =
      let (sock1, r1, l1) =
        read_bytes_first sock errno 4 (fresh 4) (htonl len) (htonl type ++ rest) (sized 4)
          (length-htonl4 len) e in
      let (sock2, r2, l2) =
        read_bytes_first sock1 errno 4 (fresh 4) (htonl type) rest (sized 4) (length-htonl4 type)
          l1 in
      (sock2, rw (r1, r2, ntohl_of-htonl len small, over), l2)
    where
      over : ltb max_packet_size len ≡ true
      over = ground arith
