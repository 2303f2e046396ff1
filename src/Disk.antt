-- ===== src/Disk.antt =====
-- disk/: the disk images behind the block device.
pub mod Image
pub mod Mmap
pub mod Open
pub mod Qcow
mod Tests
