-- ===== src/Protocol/Reads.antt =====
-- The read loop of src/protocol.c: the stream that it carries over a socket that works, and what a
-- signal or an end of file does to it.
use runes.Shared.{
  ℕ, zero, suc, ◌+◌, ◌-◌, ◌^◌, ◌≤◌, ◌<◌, ◌≡◌, refl, sym, ap, ◌∙◌, List, [], ◌∷◌, ◌++◌, arith,
  length, length-append, take, drop, drop-add, drop-append, take-append, length-drop, length-zero,
  length-take, take-append_more, take-append_less, drop-append_more, drop-append_less, append_assoc,
  append-nil, leb, Bool-cases, inl, inr,
}
use runes.Protocol.Message.{Bytes}
use runes.Protocol.Socket.{
  Errno, eintr, Recv, arrived, interrupted, broken, closed, Read, received, write_at, at_end,
  left_over, read_loop, read_bytes,
}

-- The bytes that arrive before anything else happens.
abbrev pub stream : List Recv → Bytes
stream [] = []
stream (arrived b bs ∷ sock) = (b ∷ bs) ++ stream sock
stream (interrupted ∷ sock) = []
stream (broken ∷ sock) = []
stream (closed ∷ sock) = []

stream-left_over : (xs : Bytes) (sock : List Recv) → stream (left_over xs sock) ≡ xs ++ stream sock
stream-left_over [] sock = refl
stream-left_over (x ∷ xs) sock = refl

write_at-append :
    (pre chunk old : Bytes)
    → write_at (pre ++ old) (length pre) chunk ≡ (pre ++ chunk) ++ drop (length chunk) old
write_at-append pre chunk old = rw (
  take-append pre old,
  drop-add (length pre) (length chunk) (pre ++ old),
  drop-append pre old,
  append_assoc,
)

read_loop_done :
    (sock : List Recv) (errno : Errno) (b len : ℕ) (out : Bytes)
    → len ≤ b
    → read_loop sock errno b len out ≡ received out sock errno
unfolding read_loop
read_loop_done [] errno b len out h = ground arith
read_loop_done (arrived x xs ∷ sock) errno b len out h = ground arith
read_loop_done (interrupted ∷ sock) errno b len out h = ground arith
read_loop_done (broken ∷ sock) errno b len out h = ground arith
read_loop_done (closed ∷ sock) errno b len out h = ground arith

-- The loop asked for n bytes more, and the first n of the stream.
abbrev Fills : Read → ℕ → Bytes → List Recv → Errno → Type 0
Fills r n pre sock errno =
    (sock' : List Recv) × (r ≡ received (pre ++ take n (stream sock)) sock' errno)
    × (stream sock' ≡ drop n (stream sock))

-- The two ways a chunk is taken: whole, or as far as there is room.
read_loop_whole :
    (x : ℕ) (xs : Bytes) (sock : List Recv) (errno : Errno) (b len : ℕ) (out : Bytes)
    → b + suc (length xs) ≤ len
    → read_loop (arrived x xs ∷ sock) errno b len out
      ≡ read_loop sock errno (b + suc (length xs)) len (write_at out b (x ∷ xs))
unfolding read_loop
read_loop_whole x xs sock errno b len out h = ground arith

read_loop_part :
    (x : ℕ) (xs : Bytes) (sock : List Recv) (errno : Errno) (b len : ℕ) (out : Bytes)
    → b < len
    → len < b + suc (length xs)
    → read_loop (arrived x xs ∷ sock) errno b len out
      ≡ received
          (write_at out b (take (len - b) (x ∷ xs)))
          (left_over (drop (len - b) (x ∷ xs)) sock)
          errno
unfolding read_loop
read_loop_part x xs sock errno b len out h k = ground arith

Fills-whole :
    (c : Bytes) (n : ℕ) (pre : Bytes) (sock whole : List Recv) (errno : Errno) (r : Read)
    → stream whole ≡ c ++ stream sock
    → length c ≤ n
    → Fills r (n - length c) (pre ++ c) sock errno
    → Fills r n pre whole errno
Fills-whole c n pre sock whole errno r e h (sock', f, left) = (
  sock',
  f
      ∙ ap (λ o. received o sock' errno)
          (append_assoc pre c (take (n - length c) (stream sock))
            ∙ ap (◌++◌ pre) (rw e (sym (take-append_more n c (stream sock) h)))),
  left ∙ rw e (sym (drop-append_more n c (stream sock) h)),
)

Fills-part :
    (c : Bytes) (n : ℕ) (pre old : Bytes) (sock whole : List Recv) (errno : Errno)
    → stream whole ≡ c ++ stream sock
    → n ≤ length c
    → length old ≡ n
    → Fills
        (received (write_at (pre ++ old) (length pre) (take n c)) (left_over (drop n c) sock) errno)
        n
        pre
        whole
        errno
Fills-part c n pre old sock whole errno e h el = (
  left_over (drop n c) sock,
  ap (λ o. received o (left_over (drop n c) sock) errno)
      (write_at-append pre (take n c) old
        ∙ rw (none_left, append-nil, e, take-append_less n c (stream sock) h)),
  stream-left_over (drop n c) sock ∙ rw e (sym (drop-append_less n c (stream sock) h)),
)
  where
    none_left : drop (length (take n c)) old ≡ []
    none_left = length-zero _ (omega (arith, length-drop (length (take n c)) old, length-take n c))

read_loop-stream :
    (sock : List Recv) (errno : Errno) (n b len : ℕ) (pre old out : Bytes)
    → out ≡ pre ++ old
    → length old ≡ n
    → b ≡ length pre
    → len ≡ b + n
    → n ≤ length (stream sock)
    → Fills (read_loop sock errno b len out) n pre sock errno
read_loop-stream sock errno zero b len pre old out eo el eb en h = (
  sock,
  (read_loop_done sock errno b len out (omega arith)
      ∙ ap (λ o. received o sock errno) (eo ∙ ap (◌++◌ pre) (length-zero old el))),
  refl,
)
read_loop-stream (arrived x xs ∷ sock) errno (suc n) b len pre old out eo el eb en h =
    elim (Bool-cases (leb (suc (length xs)) (suc n))) [
      | inl whole ↦ rw (read_loop_whole x xs sock errno b len out (ground arith)) (
          Fills-whole (x ∷ xs) (suc n) pre sock (arrived x xs ∷ sock) errno _ refl (ground arith) (
            read_loop-stream sock errno (suc n - suc (length xs)) (b + suc (length xs)) len
              (pre ++ x ∷ xs) (drop (suc (length xs)) old) _
              (rw (eo, eb) (write_at-append pre (x ∷ xs) old))
              (omega (arith, length-drop (suc (length xs)) old))
              (omega (arith, length-append pre (x ∷ xs))) (ground arith)
              (ground (arith, length-append (x ∷ xs) (stream sock)))))
      | inr part ↦
          let room : len - b ≡ suc n = omega arith in
          rw (read_loop_part x xs sock errno b len out (omega arith) (ground arith), room, eo, eb)
            (Fills-part (x ∷ xs) (suc n) pre old sock (arrived x xs ∷ sock) errno refl
              (ground arith) el)
    ]
read_loop-stream [] errno (suc n) b len pre old out eo el eb en h = absurd (omega arith)
read_loop-stream (_ ∷ sock) errno (suc n) b len pre old out eo el eb en h = absurd (omega arith)

-- With enough of the stream there, however it is cut into chunks, reading fills the buffer with
-- its first bytes, returns, and leaves the rest of the stream.
pub read_bytes-stream :
    (sock : List Recv) (errno : Errno) (out : Bytes)
    → length out ≤ length (stream sock)
    → (sock' : List Recv) × (read_bytes sock errno (length out) out
        ≡ received (take (length out) (stream sock)) sock' errno)
      × (stream sock' ≡ drop (length out) (stream sock))
unfolding read_bytes
read_bytes-stream sock errno out h =
    read_loop-stream sock errno (length out) 0 (length out) [] out out refl refl refl (omega arith)
      h

read_loop_interrupted :
    (sock : List Recv) (errno : Errno) (len : ℕ) (out : Bytes)
    → 0 < len
    → read_loop (interrupted ∷ sock) errno 0 len out ≡ read_loop sock eintr (2 ^ 64 - 1) len out
unfolding read_loop
read_loop_interrupted sock errno len out h = ground arith

-- A signal before the first byte ends the read at once: the count wraps below zero, the call
-- reports success, and the buffer holds what it held before.
pub read_bytes_interrupted :
    (sock : List Recv) (errno : Errno) (len : ℕ) (out : Bytes)
    → 0 < len
    → len < 2 ^ 64
    → read_bytes (interrupted ∷ sock) errno len out ≡ received out sock eintr
unfolding read_bytes
read_bytes_interrupted sock errno len out h k =
    read_loop_interrupted sock errno len out h
    ∙ read_loop_done sock eintr (2 ^ 64 - 1) len out (omega arith)

-- A peer that closes before the first byte makes the call fail, unless errno still says EINTR from
-- an earlier call: then it never returns.
pub read_bytes-closed :
    (sock : List Recv) (errno : Errno) (len : ℕ) (out : Bytes)
    → 0 < len
    → read_bytes (closed ∷ sock) errno len out ≡ at_end errno sock
unfolding read_bytes read_loop
read_bytes-closed sock errno len out h = ground arith
