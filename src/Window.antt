-- ===== src/Window.antt =====
-- src/window-xlib.c: the window of a terminal. X, the vt100 library and the clock are parameters, or the
-- answers that they give are arguments.
pub mod Keys
pub mod KeyLaws
pub mod View
pub mod Place
pub mod Clock
pub mod Pacing
pub mod State
pub mod Flush
pub mod Select
pub mod Word
pub mod WordLaws
pub mod WordEnd
pub mod ClickLaws
pub mod Mouse
pub mod Events
pub mod Life
pub mod EventLife
pub mod Refine
pub mod Loop
pub mod PtyLaws
pub mod New
pub mod Hints
pub mod Reachable
pub mod Queue
pub mod Configure
pub mod Pass
pub mod Split
pub mod QueueLaws
