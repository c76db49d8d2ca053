-- ===== src/Protocol/Writes.antt =====
-- The write loop of src/protocol.c over a socket that works.
use runes.Shared.{
  ℕ, suc, ◌+◌, ◌≤◌, ◌<◌, ◌≡◌, ap, ◌∙◌, List, [], ◌∷◌, ◌++◌, arith, length, take, drop, drop-add,
  length-drop, length-zero, length-take, take_and_rest, append_assoc, append-nil, ltb, Bool-cases,
  inl, inr,
}
use runes.Protocol.Message.{Bytes}
use runes.Protocol.Socket.{Errno, Send, takes, Write, sent, write_loop, write_bytes}

write_loop_done :
    (sock : List Send) (errno : Errno) (b : ℕ) (buf wire : Bytes)
    → length buf ≤ b
    → write_loop sock errno b buf wire ≡ sent wire sock errno
unfolding write_loop
write_loop_done [] errno b buf wire h = ground arith
write_loop_done (takes k ∷ sock) errno b buf wire h = ground arith
write_loop_done (Send.interrupted ∷ sock) errno b buf wire h = ground arith
write_loop_done (Send.broken ∷ sock) errno b buf wire h = ground arith

-- The socket takes something at this many calls, before anything else happens.
abbrev pub patience : List Send → ℕ
patience [] = 0
patience (takes k ∷ sock) = suc (patience sock)
patience (Send.interrupted ∷ sock) = 0
patience (Send.broken ∷ sock) = 0

-- All that is left of the buffer goes out, in at most that many calls.
abbrev Sends : Write → Bytes → Bytes → List Send → Errno → Type 0
Sends r wire rest sock errno =
    (sock' : List Send) × (r ≡ sent (wire ++ rest) sock' errno)
    × (patience sock ≤ patience sock' + length rest)

Sends-none :
    (sock : List Send) (errno : Errno) (b : ℕ) (buf wire : Bytes)
    → length buf ≤ b
    → Sends (write_loop sock errno b buf wire) wire (drop b buf) sock errno
Sends-none sock errno b buf wire h =
    (sock, write_loop_done sock errno b buf wire h ∙ rw (rest, append-nil), omega arith)
  where
    rest : drop b buf ≡ []
    rest = length-zero (drop b buf) (omega (arith, length-drop b buf))

write_loop_takes :
    (n : ℕ) (sock : List Send) (errno : Errno) (b : ℕ) (buf wire : Bytes)
    → b < length buf
    → let chunk = take (suc n) (drop b buf) in
      write_loop (takes n ∷ sock) errno b buf wire
      ≡ write_loop sock errno (b + length chunk) buf (wire ++ chunk)
unfolding write_loop
write_loop_takes n sock errno b buf wire h = ground arith

Sends-takes :
    (n : ℕ) (sock : List Send) (errno : Errno) (b : ℕ) (buf wire : Bytes) (r : Write)
    → b < length buf
    → let chunk = take (suc n) (drop b buf) in
      Sends r (wire ++ chunk) (drop (b + length chunk) buf) sock errno
      → Sends r wire (drop b buf) (takes n ∷ sock) errno
Sends-takes n sock errno b buf wire r h (sock', e, k) = (
  sock',
  e
      ∙ ap (λ w. sent w sock' errno)
          (append_assoc wire chunk (drop (b + length chunk) buf)
            ∙ ap (◌++◌ wire)
                (rw (drop-add b (length chunk) buf) (take_and_rest (suc n) (drop b buf)))),
  omega (
    arith,
    length-drop b buf,
    length-drop (b + length chunk) buf,
    length-take (suc n) (drop b buf),
  ),
)
  where
    chunk : Bytes
    chunk = take (suc n) (drop b buf)

write_loop-sent :
    (sock : List Send) (errno : Errno) (b : ℕ) (buf wire : Bytes)
    → length buf ≤ b + patience sock
    → Sends (write_loop sock errno b buf wire) wire (drop b buf) sock errno
write_loop-sent [] errno b buf wire k = Sends-none [] errno b buf wire (omega arith)
write_loop-sent (takes n ∷ sock) errno b buf wire k = elim (Bool-cases (ltb b (length buf))) [
  | inl more ↦ rw (write_loop_takes n sock errno b buf wire (ground arith)) (
      Sends-takes n sock errno b buf wire _ (ground arith) (
        write_loop-sent sock errno (b + length (take (suc n) (drop b buf))) buf
          (wire ++ take (suc n) (drop b buf))
          (ground (arith, length-take (suc n) (drop b buf), length-drop b buf))))
  | inr done ↦ Sends-none (takes n ∷ sock) errno b buf wire (ground arith)
]
write_loop-sent (_ ∷ sock) errno b buf wire k = Sends-none _ errno b buf wire (omega arith)

-- If the socket takes something often enough, then however little it takes at a time, all of the
-- buffer and nothing else goes out, and the call returns.
pub write_bytes-sent :
    (sock : List Send) (errno : Errno) (buf wire : Bytes)
    → length buf ≤ patience sock
    → (sock' : List Send) × (write_bytes sock errno buf wire ≡ sent (wire ++ buf) sock' errno)
      × (patience sock ≤ patience sock' + length buf)
unfolding write_bytes
write_bytes-sent sock errno buf wire h = write_loop-sent sock errno 0 buf wire (omega arith)
