-- ===== src/Tests.antt =====
-- Runs of the definitions at concrete inputs, and the theorems at inputs that meet their hypotheses.
mod Data
mod Protocol
mod Daemon
mod Config
mod Display
mod Window
mod Pty
mod Term
mod Screens
mod Terminal
mod Queue
mod EventLoop
mod Shell
mod Shells
mod Glyphs
mod Sockets
