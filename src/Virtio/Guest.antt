-- ===== src/Virtio/Guest.antt =====
-- What the device sees of guest memory: the calls of demu.c that map it, and what is found there.
use virtio_disk.Prelude.{ℕ, List}
use virtio_disk.Virtio.Ring.{Desc, Vring}

pub data Prot : Type 0 where
  prot_read prot_write prot_read_write : Prot

-- `map_guest_range` gives the host pointer of a guest range, null if it fails. `table` and
-- `ring_at` are the descriptors, and the three parts of a ring, that are found at host pointers.
-- `vring_size`, `avail_offset` and `used_offset` are the layout of linux/virtio_ring.h, which is no
-- part of the repository: the size of a legacy ring, and where in it vring_init puts its parts.
pub record Guest : Type 0 where
  pub map_guest_range : ℕ → ℕ → Prot → ℕ
  pub table : ℕ → List Desc
  pub ring_at : ℕ → ℕ → ℕ → ℕ → Vring
  pub vring_size : ℕ → ℕ → ℕ
  pub avail_offset : ℕ → ℕ → ℕ
  pub used_offset : ℕ → ℕ → ℕ

pub record Iovec : Type 0 where
  pub base : ℕ
  pub len : ℕ

-- Calls of demu_map_guest_range (with the pointer that it returned) and demu_unmap_guest_range.
pub data Event : Type 0 where
  mapped : ℕ → ℕ → Event
  unmapped : ℕ → ℕ → Event
