-- ===== src/Util.antt =====
-- src/spice-util.c: the pure helpers that the channels share.
pub mod Scancode
pub mod Edge
pub mod Newlines
