-- ===== src/Disk/Image.antt =====
-- disk_image__read, disk_image__write and disk_image__flush of disk/core.c.
use virtio_disk.Prelude.{ℕ, Bool, not, ◌&&◌, Option, none, some, List, if◌then◌else◌}
use virtio_disk.Prelude.Int.{ℤ, pos, is_neg}
use virtio_disk.Virtio.Guest.{Iovec}

-- struct disk_image: `state` is what is behind its file and private data, the operations are those
-- of struct disk_image_operations that these functions call (`none` is a null pointer), and
-- `has_callback` is whether disk_image__set_callback was called. `fsync` is the system's.
pub record DiskImage (S : Type 0) : Type 0 where
  pub state : S
  pub read : Option (S → ℕ → List Iovec → S × ℤ)
  pub write : Option (S → ℕ → List Iovec → S × ℤ)
  pub flush : Option (S → S × ℤ)
  pub fsync : S → S × ℤ
  pub async : Bool
  pub has_callback : Bool

module _ {S : Type 0} where
  -- what the operation makes of the disk, and its result
  abbrev pub transfer :
      Option (S → ℕ → List Iovec → S × ℤ) → DiskImage S → ℕ → List Iovec → DiskImage S × ℤ
  transfer none disk sector iov = (disk, pos 0)
  transfer (some op) disk sector iov =
      let (s, total) = op disk.state sector iov in (record disk { state = s }, total)

  -- The disk, the result, and the length that the completion callback is called with, if it is.
  abbrev pub finish : DiskImage S × ℤ → DiskImage S × ℤ × Option ℤ
  finish (disk, total) = (
    disk,
    total,
    if not (is_neg total) && not disk.async && disk.has_callback then some total else none,
  )

  unfoldable pub image_read : DiskImage S → ℕ → List Iovec → DiskImage S × ℤ × Option ℤ
  image_read disk sector iov = finish (transfer disk.read disk sector iov)

  unfoldable pub image_write : DiskImage S → ℕ → List Iovec → DiskImage S × ℤ × Option ℤ
  image_write disk sector iov = finish (transfer disk.write disk sector iov)

  abbrev pub flush_with : Option (S → S × ℤ) → DiskImage S → DiskImage S × ℤ
  flush_with none disk = let (s, r) = disk.fsync disk.state in (record disk { state = s }, r)
  flush_with (some op) disk = let (s, r) = op disk.state in (record disk { state = s }, r)

  unfoldable pub image_flush : DiskImage S → DiskImage S × ℤ
  image_flush disk = flush_with disk.flush disk
