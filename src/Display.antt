-- ===== src/Display.antt =====
-- src/display.c: how the cells of a screen become painted runs, and the selection. The screen is the
-- vt100 library's and cairo and pango draw, so that they are parameters or the data that passes to
-- them.
pub mod Location
pub mod Runs
pub mod RunLaws
pub mod RowLoop
pub mod Selection
pub mod Paint
pub mod PaintLaws
pub mod Cover
pub mod Glyphs
pub mod Font
pub mod FontLaws
pub mod Cursor
pub mod GlyphSpec
pub mod GlyphLaws
pub mod Screen
pub mod ScreenLaws
