-- ===== src/Util.antt =====
-- util/: reading and writing in full, and the lists of initializers.
pub mod ReadWrite
pub mod Init
mod Tests
