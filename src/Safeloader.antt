-- ===== src/Safeloader.antt =====
-- tools/tplink-safeloader: the image tool.
pub mod Layout
pub mod Boards
pub mod Pieces
pub mod Files
pub mod Image
pub mod Build
pub mod Tables
pub mod Extract
pub mod Unpack
pub mod CommandLine
