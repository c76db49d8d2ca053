-- ===== src/Config.antt =====
-- src/config.c and src/config.h: the options of a terminal, their defaults, and how the configuration
-- file and the command line change them.
pub mod Types
pub mod Palette
pub mod Parse
pub mod Options
pub mod Args
pub mod File
pub mod New
pub mod Laws
pub mod Colors
pub mod Cube
