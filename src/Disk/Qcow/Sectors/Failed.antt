-- ===== src/Disk/Qcow/Sectors/Failed.antt =====
-- What qcow_read_sector_single makes of a cluster that cannot be read.
use virtio_disk.Prelude.{
  ℕ, suc, ◌+◌, ◌-◌, ◌*◌, ◌%◌, ◌^◌, ◌≤◌, ◌<◌, ◌≡◌, Option, none, some, List, [], length,
  take-append-drop, arith,
}
use virtio_disk.Disk.Qcow.{Qcow}
use virtio_disk.Disk.Qcow.Read.{Chunk}
use virtio_disk.Disk.Qcow.Sectors.{write_at, read_loop, qcow_read_sector_single}

write_at-nil : (dst : List ℕ) (at : ℕ) → at ≤ length dst → write_at dst at [] ≡ some dst
unfolding write_at
write_at-nil dst at h =
    let e : at + 0 ≡ at = omega arith in rw e (ground (arith, take-append-drop at dst))

module _ {S : Type 0} (read_cluster : S → Qcow → ℕ → ℕ → Option (S × Qcow × Option Chunk))
    {s s1 : S} {q q1 : Qcow} (sector : ℕ) (dst : List ℕ)
    (run : read_cluster s q (sector * 512 % 2 ^ 64) (length dst) ≡ some (s1, q1, none))
    (inside : sector * 512 % 2 ^ 64 < q.header.size) (wanted : 0 < length dst) where
  -- If the first cluster of a request cannot be read, the request is reported as read: the number
  -- that comes back is the whole length, and the buffer is as it was. The -1 of the cluster's read
  -- is taken for 2 ^ 32 - 1 bytes.
  pub qcow_read_sector_single_failed :
      (rounds : ℕ)
      → length dst < 2 ^ 32
      → qcow_read_sector_single read_cluster (suc (suc rounds)) s q sector dst
        ≡ some (s1, q1, dst, some (length dst))
  unfolding qcow_read_sector_single read_loop
  qcow_read_sector_single_failed rounds h =
      let same = write_at-nil dst 0 (omega arith) in
      let all : length dst - 0 ≡ length dst = omega arith in ground (arith, same, all)
