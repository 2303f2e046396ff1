-- ===== src/Virtio/Mmio.antt =====
-- The virtio-mmio transport: include/kvm/virtio-mmio.h and virtio/mmio.c. The register files of the
-- two versions are in Legacy and Modern.
--
-- The transport works on any device through its `VirtioOps`. A request of the guest is handled by
-- one call of `callback`; `none` is an access outside the device's memory or a failed BUG_ON.
pub mod Regs
pub mod Legacy
pub mod Modern
pub mod Features
use virtio_disk.Prelude.{
  ℕ, zero, suc, ◌+◌, ◌-◌, ◌%◌, ◌^◌, Bool, true, false, Option, none, some, List, [], ◌∷◌, ◌++◌,
  bit_or, if◌then◌else◌, leb, ◌>>=◌,
}
use virtio_disk.Virtio.Guest.{Guest, Event}
use virtio_disk.Virtio.Device.{VirtioDevice}
use virtio_disk.Virtio.Ops.{VirtioOps, exit_vq, notify_status, read_config, write_config}
use virtio_disk.Virtio.Mmio.Regs.{MmioHdr}

-- struct virtio_device and struct virtio_mmio, the device behind them, the interrupts that were
-- raised (line and level) and the mapping calls that were made.
pub record Machine (D : Type 0) : Type 0 where
  pub vdev : VirtioDevice
  pub addr : ℕ
  pub irq : ℕ
  pub hdr : MmioHdr
  pub dev : D
  pub irqs : List (ℕ × ℕ)
  pub events : List Event

abbrev pub irq_high : ℕ
irq_high = 1

abbrev pub int_vring : ℕ
int_vring = 1

abbrev pub int_config : ℕ
int_config = 2

abbrev pub mmio_config : ℕ
mmio_config = 0x100

-- VIRTIO_ENDIAN_LE, which is also VIRTIO_ENDIAN_HOST
abbrev pub endian_le : ℕ
endian_le = 1

module _ {D : Type 0} where
  unfoldable pub signal : ℕ → Machine D → Machine D
  signal reason m = record m {
    hdr = record m.hdr { interrupt_state = bit_or m.hdr.interrupt_state reason };
    irqs = m.irqs ++ ((m.irq, irq_high) ∷ []);
  }

  unfoldable pub signal_vq : Machine D → Machine D
  unfolding signal
  signal_vq = signal int_vring

  unfoldable pub signal_config : Machine D → Machine D
  unfolding signal
  signal_config = signal int_config

  -- `registered` is whether demu_register_memory_space found room.
  unfoldable pub mmio_init : Bool → Machine D → ℕ → ℕ → ℕ → Bool × Machine D
  mmio_init registered m subsys_id addr irq =
      let legacy = m.vdev.legacy in
      let endian = if legacy then m.vdev.endian else endian_le in
      let m1 = record m { addr = addr; irq = irq; vdev = record m.vdev { endian = endian } } in
      let hdr : MmioHdr = record {
        magic = 0x7472_6976;
        version = if legacy then 1 else 2;
        device_id = subsys_id;
        vendor_id = 0x4d56_4b4c;
        host_features_sel = 0;
        guest_features_sel = 0;
        guest_page_size = 0;
        queue_sel = 0;
        queue_num_max = 256;
        queue_num = 0;
        interrupt_state = 0;
        status = 0;
      } in
      if registered then (true, record m1 { hdr = hdr }) else (false, m1)

  module _ (ops : VirtioOps D) where
    unfoldable pub init_vq : Machine D → ℕ → Option (Machine D)
    init_vq m vq = do
      (dev, events) ← ops.init_vq m.vdev m.dev vq
      some (record m { dev = dev; events = m.events ++ events })

    unfoldable pub device_specific : Machine D → ℕ → ℕ → ℕ → Bool → Option (Machine D × ℕ)
    device_specific m addr value len is_write =
        if is_write
        then (do
          (_, dev) ← write_config ops m.dev addr value len
          some (record m { dev = dev }, value))
        else (do (_, value') ← read_config ops m.dev addr value len; some (m, value'))

    module _ (g : Guest) where
      unfoldable pub mmio_exit_vq : Machine D → ℕ → Option (Machine D)
      mmio_exit_vq m vq = do
        (dev, events) ← exit_vq ops g m.dev vq
        some (record m { dev = dev; events = m.events ++ events })

      -- the loop of virtio_mmio_reset, with the queues that are left and the next one
      unfoldable pub reset_from : ℕ → ℕ → D → Option (D × List Event)
      reset_from zero vq dev = some (dev, [])
      reset_from (suc left) vq dev = do
        (dev1, ev1) ← exit_vq ops g dev vq
        (dev2, ev2) ← reset_from left (vq + 1) dev1
        some (dev2, ev1 ++ ev2)

      unfoldable pub reset : D → Option (D × List Event)
      unfolding reset_from
      reset dev = reset_from (ops.get_vq_count dev) 0 dev

      -- a write to the status register, once it is stored
      unfoldable pub set_status : Machine D → ℕ → Option (Machine D)
      set_status m status = do
        (vdev, dev, events) ← notify_status ops reset m.vdev m.dev (status % 2 ^ 8)
        some (record m { vdev = vdev; dev = dev; events = m.events ++ events })

  -- the 32-bit offset of an access
  abbrev pub offset_of : Machine D → ℕ → ℕ
  offset_of m addr = (addr + 2 ^ 32 - m.addr) % 2 ^ 32
