-- ===== src/Daemon/Session.antt =====
-- Clients and the daemon: what a run of src/runesc.c makes src/daemon.c do.
use runes.Shared.{
  ℕ, ◌+◌, ◌≤◌, ◌≡◌, refl, sym, ap, ◌∙◌, true, false, Option, some, List, [], ◌∷◌, ◌++◌, arith,
  length, append-nil, append_assoc, if◌then◌else◌, Bool-cases, inl, inr,
}
use runes.Protocol.Message.{
  Bytes, new_term, kill_daemon, type_code, NewTermMessage, max_packet_size,
}
use runes.Protocol.Store.{ByteArray, create_new_term_message}
use runes.Protocol.Load.{on_stack}
use runes.Protocol.Wire.{IsU32}
use runes.Protocol.RoundTrip.{fits, create-message_wire, parse-create}
use runes.Protocol.Socket.{Errno, Recv, Send, sent}
use runes.Protocol.Reads.{stream}
use runes.Protocol.Writes.{patience}
use runes.Protocol.Packet.{packet}
use runes.Protocol.Transport.{packet_wire, send_packet-wire, read_packet-stream}
use runes.Client.{wrote, asks_to_kill, main}
use runes.Daemon.{Daemon, served, handle_packet, handle_request, next_request, run}

abbrev pub opened : Daemon → NewTermMessage → Daemon
opened d m = record d { terms = d.terms ++ (m ∷ []) }

abbrev pub stopped : Daemon → Daemon
stopped d = record d { running = false; listening = false }

-- The message that a client with these arguments sends.
abbrev pub request : List Bytes → List Bytes → Bytes → NewTermMessage
request argv environ cwd = record { argc = length argv; argv = argv; envp = environ; cwd = cwd }

-- The connection carries a request for a terminal with this message.
abbrev pub Carries : ByteArray → Option (List Recv) → NewTermMessage → Type 0
Carries g c m =
    (client : List Recv) × (bytes : Bytes) × (rest : Bytes) × (c ≡ some client)
    × IsU32 m.argc
    × (create_new_term_message g m ≡ some bytes)
    × (length bytes ≤ max_packet_size)
    × (stream client ≡ packet_wire (type_code new_term) bytes ++ rest)

abbrev pub AllCarry : ByteArray → List (Option (List Recv)) → List NewTermMessage → Type 0
AllCarry g [] [] = Unit {0}
AllCarry g [] (m ∷ ms) = ⊥
AllCarry g (c ∷ cs) [] = ⊥
AllCarry g (c ∷ cs) (m ∷ ms) = Carries g c m × AllCarry g cs ms

abbrev pub all_opened : Daemon → List NewTermMessage → Daemon
all_opened d ms = record d { terms = d.terms ++ ms }

-- What was created was within the limits.
create-fits :
    (g : ByteArray) (m : NewTermMessage) {bytes : Bytes}
    → create_new_term_message g m ≡ some bytes
    → fits m ≡ true
create-fits g m e = elim (Bool-cases (fits m)) [
  | inl h ↦ h
  | inr h ↦ ground (arith, create-message_wire g m)
]

module _ (fresh : ℕ → Bytes) (sized : (n : ℕ) → length (fresh n) ≡ n) where
  -- One request, by the packet that arrives.
  pub handle_request-packet :
      (d : Daemon) (errno : Errno) (client : List Recv) (type : ℕ) (buf rest : Bytes)
      → length buf ≤ max_packet_size
      → IsU32 type
      → stream client ≡ packet_wire type buf ++ rest
      → (client' : List Recv) × (handle_request fresh d errno (some client)
          ≡ handle_packet d (packet type buf client' errno))
  unfolding handle_request
  handle_request-packet d errno client type buf rest h t e =
      let (client', r, left) = read_packet-stream fresh sized client errno type buf rest h t e in
      (client', rw r)

  opens :
      (g : ByteArray) (d : Daemon) (errno : Errno) (client : List Recv) (m : NewTermMessage)
      (bytes rest : Bytes)
      → IsU32 m.argc
      → create_new_term_message g m ≡ some bytes
      → length bytes ≤ max_packet_size
      → stream client ≡ packet_wire (type_code new_term) bytes ++ rest
      → handle_request fresh d errno (some client) ≡ served (opened d m) errno
  unfolding handle_packet
  opens g d errno client m bytes rest u c h e =
      let (client', r) = handle_request-packet d errno client 0 bytes rest h (omega arith) e in
      r ∙ rw (parse-create g on_stack m u c (omega arith))

  -- A request for a terminal: the client sends it all, and the daemon that receives it, in whatever
  -- chunks, opens one terminal more, with the client's arguments, environment and directory. The
  -- message is within the packet limit, and the client's socket takes something often enough.
  pub client_opens_terminal :
      (g : ByteArray) (sock : List Send) (errno_c : Errno) (argv environ : List Bytes)
      (cwd bytes : Bytes) (d : Daemon) (errno : Errno) (client : List Recv) (rest : Bytes)
      → asks_to_kill argv ≡ false
      → create_new_term_message g (request argv environ cwd) ≡ some bytes
      → length bytes ≤ max_packet_size
      → 8 + length bytes ≤ patience sock
      → stream client ≡ packet_wire (type_code new_term) bytes ++ rest
      → (sock' : List Send) × (main g sock errno_c argv environ (some cwd)
          ≡ wrote (sent (packet_wire (type_code new_term) bytes) sock' errno_c))
        × (handle_request fresh d errno (some client)
            ≡ served (opened d (request argv environ cwd)) errno)
  unfolding main
  client_opens_terminal g sock errno_c argv environ cwd bytes d errno client rest asks c h k e =
      let (sock', s) = send_packet-wire sock errno_c [] new_term bytes h k in
      (
        sock',
        rw (asks, c, s),
        opens g d errno client (request argv environ cwd) bytes rest argc_u32 c h e,
      )
    where
      argc_u32 : IsU32 (length argv)
      argc_u32 = ground (arith, create-fits g (request argv environ cwd) c)

  next_running :
      (d : Daemon) (errno : Errno) (client : Option (List Recv))
      → d.running ≡ true
      → next_request fresh (served d errno) client ≡ handle_request fresh d errno client
  next_running d errno client h =
      ap (λ b. if b then handle_request fresh d errno client else served d errno) h

  next_stopped :
      (d : Daemon) (errno : Errno) (client : Option (List Recv))
      → d.running ≡ false
      → next_request fresh (served d errno) client ≡ served d errno
  next_stopped d errno client h =
      ap (λ b. if b then handle_request fresh d errno client else served d errno) h

  run_stopped :
      (d : Daemon) (errno : Errno) (more : List (Option (List Recv)))
      → d.running ≡ false
      → run fresh (served d errno) more ≡ served d errno
  unfolding run
  run_stopped d errno [] h = refl
  run_stopped d errno (client ∷ more) h =
      ap (λ s. run fresh s more) (next_stopped d errno client h) ∙ run_stopped d errno more h

  -- A request to stop: the client sends it, and the daemon that receives it serves nobody after.
  pub client_stops_daemon :
      (g : ByteArray) (sock : List Send) (errno_c : Errno) (argv environ : List Bytes)
      (cwd : Option Bytes) (d : Daemon) (errno : Errno) (client : List Recv) (rest : Bytes)
      (more : List (Option (List Recv)))
      → asks_to_kill argv ≡ true
      → 8 ≤ patience sock
      → d.running ≡ true
      → stream client ≡ packet_wire (type_code kill_daemon) [] ++ rest
      → (sock' : List Send) × (main g sock errno_c argv environ cwd
          ≡ wrote (sent (packet_wire (type_code kill_daemon) []) sock' errno_c))
        × (run fresh (served d errno) (some client ∷ more) ≡ served (stopped d) errno)
  unfolding main run handle_packet
  client_stops_daemon g sock errno_c argv environ cwd d errno client rest more asks k going e =
      let (sock', s) =
        send_packet-wire sock errno_c [] kill_daemon [] (omega arith) (omega arith) in
      let (client', r) =
        handle_request-packet d errno client 1 [] rest (omega arith) (omega arith) e in
      (
        sock',
        rw (asks, s),
        ap (λ x. run fresh x more) (next_running d errno (some client) going ∙ r)
            ∙ run_stopped (stopped d) errno more refl,
      )

  -- A run of requests opens their terminals, each once and in the order of the connections, and
  -- the daemon goes on listening.
  pub run_opens_all :
      (g : ByteArray) (clients : List (Option (List Recv))) (ms : List NewTermMessage) (d : Daemon)
      (errno : Errno)
      → d.running ≡ true
      → AllCarry g clients ms
      → run fresh (served d errno) clients ≡ served (all_opened d ms) errno
  unfolding run
  run_opens_all g [] [] d errno going c =
      ap (λ ts. served (record d { terms = ts }) errno) (sym (append-nil d.terms))
  run_opens_all g [] (m ∷ ms) d errno going c = absurd c
  run_opens_all g (x ∷ cs) [] d errno going c = absurd c
  run_opens_all g (x ∷ cs) (m ∷ ms) d errno going ((client, bytes, rest, e, u, made, h, s), more) =
      ap (λ r. run fresh r cs)
        (next_running d errno x going
          ∙ ap (handle_request fresh d errno) e
          ∙ opens g d errno client m bytes rest u made h s)
      ∙ run_opens_all g cs ms (opened d m) errno going more
      ∙ ap (λ ts. served (record d { terms = ts }) errno) (append_assoc d.terms (m ∷ []) ms)
