-- ===== src/Demu.antt =====
-- demu.c and demu.h: the ranges of guest memory, the memory spaces, the I/O requests, and the
-- sequence of the start and of the teardown.
pub mod Pages
pub mod Spaces
pub mod Sequence
pub mod Requests
mod Tests
