-- ===== src/Sockets.antt =====
-- src/socket.c: opening the daemon's socket and connecting to it. What the system says to a call is an
-- argument, and the calls are listed in order.
pub mod Paths
pub mod PathLaws
use runes.Shared.{
  ℕ, ◌+◌, Bool, true, false, Option, none, some, List, [], ◌∷◌, length, ltb, ◌==◌, if◌then◌else◌,
}
use runes.Shared.Text.{Bytes}
use runes.Sockets.Paths.{FileSystem, MkdirP, returns, dies, mkdir_p}

pub data Call : Type 0 where
  socket : Call
  unlink bind connect : Bytes → Call
  chmod : Bytes → ℕ → Call
  listen : ℕ → Call

-- Which calls succeed.
pub record Answers : Type 0 where
  pub makes_socket : Bool
  pub binds : Bool
  pub chmods : Bool
  pub listens : Bool
  pub connects : Bool

-- What comes before the last slash: `strrchr`, and a NUL in its place.
abbrev or_here : ℕ → Option Bytes → Option Bytes
or_here c (some dir) = some (c ∷ dir)
or_here c none = if c == b'/' then some [] else none

abbrev pub before_slash : Bytes → Option Bytes
before_slash [] = none
before_slash (c ∷ s) = or_here c (before_slash s)

-- `runes_socket_populate_sockaddr` goes on with a path that fits its field of `max_len` bytes with
-- the NUL.
abbrev pub fits_sockaddr : ℕ → Bytes → Bool
fits_sockaddr max_len path = if ltb max_len (length path + 1) then false else true

-- It returns, or ends the program; with the calls so far.
pub data Connected : Type 0 where
  connected died : List Call → Connected

unfoldable pub client_open : ℕ → Answers → Bytes → Connected
client_open max_len system path =
    if fits_sockaddr max_len path
    then (if system.makes_socket
        then (if system.connects
            then connected (socket ∷ connect path ∷ [])
            else died (socket ∷ connect path ∷ []))
        else died (socket ∷ []))
    else died []

module _ (fs : FileSystem) where
  open fs use {State}

  pub data Opened : Type 0 where
    opened : State → List Call → Opened
    stopped : List Call → Opened

  -- S_IRUSR|S_IWUSR is 0600.
  abbrev pub bind_and_listen : Answers → Bytes → State → Opened
  bind_and_listen system path s =
      if system.makes_socket
      then (if system.binds
          then (if system.chmods
              then (if system.listens
                  then opened s (unlink path ∷ socket ∷ bind path ∷ chmod path 384 ∷ listen 5 ∷ [])
                  else stopped (unlink path ∷ socket ∷ bind path ∷ chmod path 384 ∷ listen 5 ∷ []))
              else stopped (unlink path ∷ socket ∷ bind path ∷ chmod path 384 ∷ []))
          else stopped (unlink path ∷ socket ∷ bind path ∷ []))
      else stopped (unlink path ∷ socket ∷ [])

  abbrev pub after_dirs : Answers → Bytes → MkdirP fs → Opened
  after_dirs system path dies = stopped []
  after_dirs system path (returns s) = bind_and_listen system path s

  abbrev pub in_directory : Answers → Bytes → State → Option Bytes → Opened
  in_directory system path s none = stopped []
  in_directory system path s (some dir) = after_dirs system path (mkdir_p fs dir s)

  unfoldable pub server_open : ℕ → Answers → Bytes → State → Opened
  unfolding mkdir_p
  server_open max_len system path s =
      if fits_sockaddr max_len path
      then in_directory system path s (before_slash path)
      else stopped []
