-- ===== src/Virtio/Blk/Device.antt =====
-- The block device as an implementation of struct virtio_ops: the lower half of virtio/blk.c.
use virtio_disk.Prelude.{
  ℕ, ◌+◌, ◌^◌, Bool, true, false, Option, some, List, get_elem?, set, bit_or, ◌==◌, if◌then◌else◌,
  ◌>>=◌,
}
use virtio_disk.Virtio.Guest.{Guest, Event}
use virtio_disk.Virtio.Ring.{VirtQueue}
use virtio_disk.Virtio.Device.{VirtioDevice, init_device_vq}
use virtio_disk.Virtio.Ops.{VirtioOps}

-- struct blk_dev without its requests: the bytes of the configuration, the virtqueues (there are
-- NUM_VIRT_QUEUES = 1), whether the disk is read-only, the counter of the event that wakes the I/O
-- thread, whether that thread runs, and whether it was told to stop.
pub record BlkDev : Type 0 where
  pub blk_config : List ℕ
  pub vqs : List VirtQueue
  pub readonly : Bool
  pub io_efd : ℕ
  pub io_thread : Bool
  pub io_done : Bool

abbrev pub queue_size : ℕ
queue_size = 256

-- 1UL << VIRTIO_BLK_F_SEG_MAX | 1UL << VIRTIO_BLK_F_FLUSH | ..., and VIRTIO_BLK_F_RO
abbrev pub base_features : ℕ
base_features = bit_or (bit_or (bit_or (2 ^ 2) (2 ^ 9)) (2 ^ 29)) (2 ^ 28)

unfoldable pub get_host_features : BlkDev → ℕ
get_host_features dev = bit_or base_features (if dev.readonly then 2 ^ 5 else 0)

-- A write of 1 to the event; it is assumed to succeed.
unfoldable pub notify_vq : BlkDev → ℕ → BlkDev
notify_vq dev vq = record dev { io_efd = dev.io_efd + 1 }

-- eventfd and pthread_create are assumed to succeed.
unfoldable pub init_vq : Guest → VirtioDevice → BlkDev → ℕ → Option (BlkDev × List Event)
init_vq g vdev dev vq = do
  q ← get_elem? dev.vqs vq
  (q', events) ← init_device_vq g vdev q queue_size
  let dev1 = record dev { vqs = set dev.vqs vq q' }
  some (
    (if vq == 0 then record dev1 { io_efd = 0; io_done = false; io_thread = true } else dev1),
    events,
  )

-- The I/O thread is told to stop, woken and joined; disk_image__wait returns at once without AIO.
unfoldable pub exit_vq : BlkDev → ℕ → BlkDev
unfolding notify_vq
exit_vq dev vq =
    if vq == 0
    then record (notify_vq (record dev { io_done = true }) vq) { io_thread = false }
    else dev

abbrev pub blk_ops : Guest → VirtioOps BlkDev
blk_ops g = record {
  get_config = λ dev. dev.blk_config;
  set_config = λ dev bytes. record dev { blk_config = bytes };
  get_host_features = get_host_features;
  get_vq_count = λ dev. 1;
  init_vq = init_vq g;
  exit_vq = exit_vq;
  notify_vq = notify_vq;
  get_vq = λ dev vq. get_elem? dev.vqs vq;
  put_vq = λ dev vq q. record dev { vqs = set dev.vqs vq q };
  get_size_vq = λ dev vq. queue_size;
  set_size_vq = λ dev vq size. dev;
  notify_status = λ vdev dev status. dev;
}
