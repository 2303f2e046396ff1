-- ===== src/Virtio/Device/Setup.antt =====
-- Setting a queue up and taking it down: virtio_init_device_vq and the unmapping of virtio_exit_vq.
use virtio_disk.Prelude.{ℕ, ◌+◌, ◌*◌, ◌/◌, ◌≡◌, Bool, ◌||◌, some, List, map, bit_and, arith, ◌==◌}
use virtio_disk.Prelude.Bits.{bit, bit-lt, bit_and_low, bit_and-zero}
use virtio_disk.Virtio.Guest.{Guest, Event, mapped, unmapped}
use virtio_disk.Virtio.Ring.{VirtQueue}
use virtio_disk.Virtio.Device.{VirtioDevice, init_device_vq, unmap_vq}

abbrev pub undo : Event → Event
undo (mapped p n) = unmapped p n
undo (unmapped p n) = mapped p n

-- Once a queue is set up, taking it down unmaps exactly the ranges that setting it up mapped, in the
-- same order.
pub unmap_vq-init_device_vq :
    (g : Guest) (vdev : VirtioDevice) (q : VirtQueue) (nr_descs : ℕ) {q' : VirtQueue}
    {events : List Event}
    → init_device_vq g vdev q nr_descs ≡ some (q', events)
    → unmap_vq g q' ≡ map undo events
unfolding init_device_vq unmap_vq
unmap_vq-init_device_vq g vdev q nr_descs e = ground arith

bit_and_29 : (f : ℕ) → bit_and f 29 ≡ bit 0 f + 4 * bit 2 f + 8 * bit 3 f + 16 * bit 4 f
unfolding bit
bit_and_29 f = omega (
  arith,
  bit_and_low f 29,
  bit_and_low (f / 2) 14,
  bit_and_low (f / 2 / 2) 7,
  bit_and_low (f / 2 / 2 / 2) 3,
  bit_and_low (f / 2 / 2 / 2 / 2) 1,
  bit_and-zero (f / 2 / 2 / 2 / 2 / 2),
)

abbrev pub has_feature : ℕ → VirtioDevice → Bool
has_feature k vdev = bit k vdev.features == 1

-- Whether a queue uses event indices does not depend on the feature bit of event indices, bit 29:
-- the number of the bit is taken for a mask, so the bits 0, 2, 3 and 4 decide.
pub use_event_idx_lem :
    (g : Guest) (vdev : VirtioDevice) (q : VirtQueue) (nr_descs : ℕ) {q' : VirtQueue}
    {events : List Event}
    → init_device_vq g vdev q nr_descs ≡ some (q', events)
    → q'.use_event_idx
      ≡ (has_feature 0 vdev || has_feature 2 vdev || has_feature 3 vdev || has_feature 4 vdev)
unfolding init_device_vq
use_event_idx_lem g vdev q nr_descs e = ground (
  arith,
  bit_and_29 vdev.features,
  bit-lt 0 vdev.features,
  bit-lt 2 vdev.features,
  bit-lt 3 vdev.features,
  bit-lt 4 vdev.features,
)
