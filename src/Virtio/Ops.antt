-- ===== src/Virtio/Ops.antt =====
-- The operations that a device offers to the core and the transport (struct virtio_ops of
-- include/kvm/virtio.h), and the functions of virtio/core.c that go through them.
--
-- A function of the device that changes it returns the new device. `get_vq` and `get_config` hand
-- out pointers in the source: here a value is read by them and written by `put_vq` and
-- `set_config`. `none` is an access outside the device's memory.
pub mod Status
pub mod Config
use virtio_disk.Prelude.{
  ℕ, zero, suc, ◌+◌, ◌-◌, ◌*◌, ◌/◌, ◌%◌, ◌^◌, Bool, true, false, not, ◌&&◌, ◌||◌, Option, none,
  some, List, [], ◌∷◌, ◌++◌, bit_and, bit_or, get_elem?, set, ◌==◌, if◌then◌else◌, ◌>>=◌,
}
use virtio_disk.Prelude.Bits.{test}
use virtio_disk.Virtio.Guest.{Guest, Event}
use virtio_disk.Virtio.Ring.{VirtQueue}
use virtio_disk.Virtio.Device.{VirtioDevice, zero_queue, unmap_vq}

pub record VirtioOps (D : Type 0) : Type 0 where
  pub get_config : D → List ℕ
  pub set_config : D → List ℕ → D
  pub get_host_features : D → ℕ
  pub get_vq_count : D → ℕ
  pub init_vq : VirtioDevice → D → ℕ → Option (D × List Event)
  pub exit_vq : D → ℕ → D
  pub notify_vq : D → ℕ → D
  pub get_vq : D → ℕ → Option VirtQueue
  pub put_vq : D → ℕ → VirtQueue → D
  pub get_size_vq : D → ℕ → ℕ
  pub set_size_vq : D → ℕ → ℕ → D
  pub notify_status : VirtioDevice → D → ℕ → D

-- VIRTIO_CONFIG_S_MASK, VIRTIO_CONFIG_S_DRIVER_OK, and the three bits of the program's own
abbrev pub config_s_mask : ℕ
config_s_mask = 0xcf

abbrev pub config_s_driver_ok : ℕ
config_s_driver_ok = 4

abbrev pub status_start : ℕ
status_start = 2 ^ 8

abbrev pub status_stop : ℕ
status_stop = 2 ^ 9

abbrev pub status_swab : ℕ
status_swab = 2 ^ 10

-- ~m on 32 bits
abbrev pub not32 : ℕ → ℕ
not32 m = 2 ^ 32 - 1 - m

unfoldable pub set_guest_features : VirtioDevice → ℕ → VirtioDevice
set_guest_features vdev features = record vdev { features = bit_or vdev.features features }

-- The three decisions of virtio_notify_status, on the device's status and what the driver wrote.
abbrev pub merged : ℕ → ℕ → ℕ
merged old status = bit_or (bit_and old (not32 config_s_mask)) status

abbrev pub starts : ℕ → ℕ → Bool
starts old status = test status config_s_driver_ok && not (test (merged old status) status_start)

abbrev pub stops : ℕ → ℕ → Bool
stops old status = not (starts old status) && (status == 0) && test (merged old status) status_start

-- the status, and the hints for the device, after the first decision
abbrev pub started_status : ℕ → ℕ → ℕ
started_status old status =
    if starts old status
    then bit_or (merged old status) status_start
    else if stops old status
    then bit_and (merged old status) (not32 status_start)
    else merged old status

abbrev pub started_ext : ℕ → ℕ → ℕ
started_ext old status =
    if starts old status
    then bit_or status status_start
    else if stops old status
    then bit_or status status_stop
    else status

abbrev pub swabs : ℕ → ℕ → Bool
swabs old status = (status == 0) && not (test (started_status old status) status_swab)

unfoldable pub next_status : ℕ → ℕ → ℕ
next_status old status =
    if swabs old status
    then bit_or (started_status old status) status_swab
    else started_status old status

unfoldable pub ext_status : ℕ → ℕ → ℕ
ext_status old status =
    if swabs old status then bit_or (started_ext old status) status_swab else started_ext old status

-- Little-endian access to `size` bytes from an offset on; `none` is an access past the end.
unfoldable pub load : List ℕ → ℕ → ℕ → Option ℕ
load bytes offset zero = some 0
load bytes offset (suc size) = do
  b ← get_elem? bytes offset
  v ← load bytes (offset + 1) size
  some (b + 256 * v)

unfoldable pub store : List ℕ → ℕ → ℕ → ℕ → Option (List ℕ)
store bytes offset zero v = some bytes
store bytes offset (suc size) v = do
  _ ← get_elem? bytes offset
  store (set bytes offset (v % 256)) (offset + 1) size (v / 256)

-- the cases of `switch (size)`
abbrev pub is_access : ℕ → Bool
is_access size = (size == 1) || (size == 2) || (size == 4)

abbrev pub put_low : ℕ → ℕ → ℕ → ℕ
put_low value size v = value / 256 ^ size * 256 ^ size + v

module _ {D : Type 0} (ops : VirtioOps D) where
  module _ (reset : D → Option (D × List Event)) where
    -- The device hears of the status last.
    unfoldable pub notify_status : VirtioDevice → D → ℕ → Option (VirtioDevice × D × List Event)
    notify_status vdev dev status = do
      let old = vdev.status
      (dev1, events) ←
          (if stops old status && test (started_ext old status) status_stop
            then reset dev
            else some (dev, []))
      let vdev1 = record vdev { status = next_status old status }
      some (vdev1, ops.notify_status vdev1 dev1 (ext_status old status), events)

  module _ (g : Guest) where
    unfoldable pub exit_vq : D → ℕ → Option (D × List Event)
    exit_vq dev num = do
      vq ← ops.get_vq dev num
      let dev1 = if vq.enabled then ops.exit_vq dev num else dev
      let events = if vq.enabled then unmap_vq g vq else []
      some (ops.put_vq dev1 num zero_queue, events)

  -- The result and the buffer of the I/O request, of which the low `size` bytes are replaced.
  unfoldable pub read_config : D → ℕ → ℕ → ℕ → Option (Bool × ℕ)
  read_config dev offset value size =
      if is_access size
      then (do v ← load (ops.get_config dev) offset size; some (true, put_low value size v))
      else some (false, value)

  unfoldable pub write_config : D → ℕ → ℕ → ℕ → Option (Bool × D)
  write_config dev offset value size =
      if is_access size
      then (do
        bytes ← store (ops.get_config dev) offset size value
        some (true, ops.set_config dev bytes))
      else some (false, dev)
