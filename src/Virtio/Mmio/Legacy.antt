-- ===== src/Virtio/Mmio/Legacy.antt =====
-- The legacy register file: virtio/mmio-legacy.c. Guest and host are little-endian, so
-- ioport__read32 and ioport__write32 move the low word of the I/O request's buffer.
use virtio_disk.Prelude.{
  ℕ, ◌-◌, ◌%◌, ◌^◌, Bool, true, Option, some, bit_and, leb, ◌==◌, if◌then◌else◌, ◌>>=◌,
}
use virtio_disk.Virtio.Guest.{Guest}
use virtio_disk.Virtio.Ring.{VirtQueue}
use virtio_disk.Virtio.Ops.{VirtioOps, set_guest_features, put_low, not32}
use virtio_disk.Virtio.Mmio.{
  Machine, init_vq, mmio_exit_vq, set_status, device_specific, offset_of, mmio_config, endian_le,
}
use virtio_disk.Virtio.Mmio.Regs.{Reg, raw_word, decode}

module _ {D : Type 0} (ops : VirtioOps D) where
  -- the vmmio_selected_vq of the source
  abbrev pub selected : Machine D → Option VirtQueue
  selected m = ops.get_vq m.dev m.hdr.queue_sel

  config_in_reg : Reg → ℕ → Machine D → ℕ → Option ℕ
  config_in_reg Reg.magic_value addr m value = do v ← raw_word m.hdr addr; some (put_low value 4 v)
  config_in_reg Reg.version addr m value = do v ← raw_word m.hdr addr; some (put_low value 4 v)
  config_in_reg Reg.device_id addr m value = do v ← raw_word m.hdr addr; some (put_low value 4 v)
  config_in_reg Reg.vendor_id addr m value = do v ← raw_word m.hdr addr; some (put_low value 4 v)
  config_in_reg Reg.status addr m value = do v ← raw_word m.hdr addr; some (put_low value 4 v)
  config_in_reg Reg.interrupt_status addr m value = do
    v ← raw_word m.hdr addr
    some (put_low value 4 v)
  config_in_reg Reg.device_features addr m value = some (
      put_low value 4
        (if m.hdr.host_features_sel == 0 then ops.get_host_features m.dev % 2 ^ 32 else 0))
  config_in_reg Reg.queue_pfn addr m value = do
    vq ← selected m
    some (put_low value 4 vq.vring_addr.desc_lo)
  config_in_reg Reg.queue_num_max addr m value =
      some (put_low value 4 (ops.get_size_vq m.dev m.hdr.queue_sel))
  config_in_reg _ addr m value = some value

  unfoldable pub config_in : ℕ → Machine D → ℕ → Option ℕ
  unfolding config_in_reg decode
  config_in addr m value = config_in_reg (decode addr) addr m value

  module _ (g : Guest) where
    set_pfn : Machine D → ℕ → Option (Machine D)
    set_pfn m val = if val == 0 then mmio_exit_vq ops g m m.hdr.queue_sel else (do
      vq ← selected m
      let vq' = record vq {
        vring_addr = record vq.vring_addr {
          legacy = true;
          desc_lo = val;
          avail_lo = m.hdr.guest_page_size;
        };
      }
      init_vq ops (record m { dev = ops.put_vq m.dev m.hdr.queue_sel vq' }) m.hdr.queue_sel)

    config_out_reg : Reg → Machine D → ℕ → Option (Machine D)
    config_out_reg Reg.device_features_sel m val =
        some (record m { hdr = record m.hdr { host_features_sel = val } })
    config_out_reg Reg.driver_features_sel m val =
        some (record m { hdr = record m.hdr { guest_features_sel = val } })
    config_out_reg Reg.queue_sel m val = some (record m { hdr = record m.hdr { queue_sel = val } })
    config_out_reg Reg.status m val =
        let vdev = if val == 0 then record m.vdev { endian = endian_le } else m.vdev in
        set_status ops g (record m { hdr = record m.hdr { status = val }; vdev = vdev }) val
    config_out_reg Reg.driver_features m val = some (
        if m.hdr.guest_features_sel == 0
        then record m { vdev = set_guest_features m.vdev val }
        else m)
    config_out_reg Reg.guest_page_size m val =
        some (record m { hdr = record m.hdr { guest_page_size = val } })
    config_out_reg Reg.queue_num m val = some (record m {
      hdr = record m.hdr { queue_num = val };
      dev = ops.set_size_vq m.dev m.hdr.queue_sel val;
    })
    config_out_reg Reg.queue_align m val = do
      vq ← selected m
      let vq' = record vq { vring_addr = record vq.vring_addr { desc_hi = val } }
      some (record m { dev = ops.put_vq m.dev m.hdr.queue_sel vq' })
    config_out_reg Reg.queue_pfn m val = set_pfn m val
    config_out_reg Reg.queue_notify m val = some (record m { dev = ops.notify_vq m.dev val })
    config_out_reg Reg.interrupt_ack m val = some (record m {
      hdr = record m.hdr { interrupt_state = bit_and m.hdr.interrupt_state (not32 val) };
    })
    config_out_reg _ m val = some m

    unfoldable pub config_out : ℕ → Machine D → ℕ → Option (Machine D)
    unfolding config_out_reg set_pfn decode
    config_out addr m value = config_out_reg (decode addr) m (value % 2 ^ 32)

    -- One access of the guest: the machine after it, and the buffer of the request.
    unfoldable pub callback : Machine D → ℕ → ℕ → ℕ → Bool → Option (Machine D × ℕ)
    callback m addr value len is_write =
        let offset = offset_of m addr in
        if leb mmio_config offset
        then device_specific ops m (offset - mmio_config) value len is_write
        else if is_write
        then (do m' ← config_out offset m value; some (m', value))
        else (do value' ← config_in offset m value; some (m, value'))
