-- ===== src/Lib.antt =====
-- runes is a terminal emulator for X. One program, `runes`, opens one terminal; another, `runesd`,
-- is a daemon that opens a terminal for each client that asks; `runesc` is the client. A terminal
-- is a window, a display that draws the cells of the vt100 library's screen, a pseudo terminal and
-- a configuration, tied together by the callbacks of an event loop.
--
-- The modules and what they model:
--
-- - Shared: lists measured by native numbers, Boolean tests, signed integers (Int), C strings as
--   lists of bytes (Text), and the functions of the C library that the program calls on strings
--   (Libc).
-- - Protocol: src/protocol.c and src/protocol.h. Message has the types and the machine arithmetic,
--   Store the writers (`runes_protocol_store_*`, `runes_protocol_create_new_term_message`), Load the
--   readers (`runes_protocol_load_*`, `runes_protocol_parse_new_term_message`), Socket the loops
--   `runes_protocol_read_bytes` and `runes_protocol_write_bytes`, and Packet
--   `runes_protocol_send_packet` and `runes_protocol_read_packet`. The other children have the
--   proofs: Wire and RoundTrip of the format, Reads, Writes and Transport of the sockets, and Faults
--   of malformed messages.
-- - Client: src/runesc.c. Daemon: the request handler and the state of src/daemon.c; its children
--   put client and daemon together over a socket (Session), say what the daemon refuses (Refusals),
--   and follow a client's environment to its shell (Shells).
-- - Config: src/config.c and src/config.h. Types, Palette, Options, Parse, File, Args and New have
--   the definitions; Args and New have their theorems with them, and Laws, Colors and Cube have the
--   others.
-- - Display: src/display.c. Location and Selection model the selection, Runs the division of a row
--   of the screen into runs (the loop of `runes_display_draw_screen`), Paint
--   `runes_display_draw_string`, Screen the loop over the rows, and Glyphs the functions
--   `runes_display_draw_glyphs*`, Font the size of a font and the cache of its glyphs, and Cursor
--   the cursor; RunLaws, RowLoop, PaintLaws, Cover, GlyphSpec, GlyphLaws, ScreenLaws and FontLaws
--   have the proofs, and Cursor its own.
-- - Window: src/window-xlib.c. Keys has the key tables and the key handler, View scrolling and the
--   place of the mouse, Clock the times of redraws and of the timers of src/loop.c. State is what a
--   window keeps, with the calls that it makes as a log; Flush, Select, Word, Mouse and Events have
--   the operations on it, up to the events of one window and the timers' callbacks; Queue is
--   `runes_window_event_cb` on a connection that terminals share; New has `runes_term_new`, and
--   Hints the size hints of `runes_window_create_window` with what resizing makes of them. Place
--   is on the places of rows and cursor, and of the mouse. Loop puts a window and its
--   shell together, with the steps that the event loop can take. Proofs: KeyLaws, Pacing, WordLaws,
--   WordEnd, ClickLaws, PtyLaws, and Configure, Pass, Split and QueueLaws on the queue; and Life,
--   EventLife, Refine and Reachable, in which every handler is a run of the steps of Term.
-- - Pty: the input callback of src/pty-unix.c, and `runes_pty_spawn_subprocess` in Shell, with the
--   functions on an environment in Environ; EnvironLaws, ShellEnviron and ShellDescriptors have
--   proofs.
-- - Term: the count of src/term.c and the callbacks that hold a reference, as steps of the event
--   loop: Life and Reachable on what any run keeps, Drain on how a terminal ends, Work on runs of
--   steps.
-- - Sockets: src/socket.c, and what src/util.c has of paths (Paths); PathLaws has proofs.
-- - EventLoop: src/loop.c, with the structures that it keeps for libevent's events; Callbacks has
--   `runes_loop_work_cb`, `runes_loop_timer_cb` and what the callbacks of src/window-xlib.c ask of
--   the loop. Owned says what is kept true, Changes, Kept, Calls, Fired and Worked prove it for each
--   step, and Safety for all of them.
-- - Tests: the definitions at concrete inputs.
--
-- How the code is read. A C string is the list of its bytes without the NUL, a vector the list of
-- its strings, and memory from a pointer on is what lies to the end of its allocation, so that a
-- read of more than that is a value of its own (a fault) and not a number. size_t and uint32_t
-- arithmetic wraps where it is written; ints are unbounded integers, so that an overflow of an
-- int, which C leaves undefined, is not modelled. Allocation is taken to succeed. errno is state
-- that is passed on, since the loops over a socket look at it. In a window's state, answers of the
-- clock and of X are functions of the number of the question, and the count of clicks wraps as an
-- unsigned int.
--
-- What is not under the program's control is a parameter, or an argument that lists what it
-- answers: the byte arrays of GLib (a record with the law that an append adds at the end) and its
-- classes of characters, the patterns of cairo, what pango measures, the parser, the grid and the
-- texts of the vt100 library, the answers of the kernel to recv and send, to open, fork, chdir and
-- exec, XCheckIfEvent and XCheckTypedWindowEvent on Xlib's queue, the file system, the contents of
-- new memory, the readings of the clock, and what X says in an event.
--
-- Fuel. The loops over a socket end with the list of the kernel's answers; a list that ends too
-- early gives the result of a call that does not return. The loop over a configuration file takes
-- its length, since each line takes a byte. The loops over a row take its number of columns, since
-- each round moves right; the loops over a time take its milliseconds, and one round borrows
-- enough seconds, as a rate below a second leaves no more to borrow. The searches for a word take
-- the cells that are left in their direction, as each round goes one further; the searches of the
-- queue, for any event of a terminal and for its last resize, take one round more than there are
-- events, as each takes one; drawing glyphs takes two calls, as the inner one draws one cell.
--
-- Not modelled: warnings and the release of memory; accept and close; the urgency hint and what a
-- bell does to the screen; the strokes of cairo and pango; and the calls of Xlib that create and
-- release windows and input contexts.
pub mod Shared
pub mod Protocol
pub mod Client
pub mod Daemon
pub mod Config
pub mod Display
pub mod Window
pub mod Pty
pub mod Term
pub mod Sockets
pub mod EventLoop
mod Tests
