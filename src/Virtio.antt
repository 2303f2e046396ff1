-- ===== src/Virtio.antt =====
-- virtio/ and include/kvm/virtio.h: the split virtqueue and what is built on it.
pub mod Ring
pub mod Guest
pub mod Chain
pub mod Device
pub mod Ops
pub mod Mmio
pub mod Blk
mod Tests
