-- ===== src/Virtio/Mmio/Modern.antt =====
-- The register file of virtio 1.0: virtio/mmio-modern.c.
use virtio_disk.Prelude.{
  ℕ, ◌-◌, ◌*◌, ◌/◌, ◌%◌, ◌^◌, Bool, not, Option, some, bit_and, bit_or, ltb, leb, ◌==◌,
  if◌then◌else◌, ◌>>=◌,
}
use virtio_disk.Virtio.Guest.{Guest}
use virtio_disk.Virtio.Ring.{VirtQueue, VringAddr}
use virtio_disk.Virtio.Ops.{VirtioOps, set_guest_features, put_low, not32}
use virtio_disk.Virtio.Mmio.{
  Machine, init_vq, mmio_exit_vq, set_status, device_specific, offset_of, mmio_config,
}
use virtio_disk.Virtio.Mmio.Regs.{Reg, raw_word, decode}

-- VIRTIO_F_VERSION_1 and VIRTIO_F_ACCESS_PLATFORM, the features that the transport adds
abbrev pub transport_features : ℕ
transport_features = bit_or (2 ^ 32) (2 ^ 33)

module _ {D : Type 0} (ops : VirtioOps D) where
  abbrev pub selected : Machine D → Option VirtQueue
  selected m = ops.get_vq m.dev m.hdr.queue_sel

  addr_word : (VringAddr → ℕ) → Machine D → ℕ → Option ℕ
  addr_word word m value = do vq ← selected m; some (put_low value 4 (word vq.vring_addr))

  raw_in : ℕ → Machine D → ℕ → Option ℕ
  raw_in addr m value = do v ← raw_word m.hdr addr; some (put_low value 4 v)

  unfoldable pub features_word : Machine D → ℕ
  features_word m =
      if ltb 1 m.hdr.host_features_sel
      then 0
      else bit_or transport_features (ops.get_host_features m.dev)
        / 2 ^ (32 * m.hdr.host_features_sel)
        % 2 ^ 32

  config_in_reg : Reg → ℕ → Machine D → ℕ → Option ℕ
  config_in_reg Reg.magic_value addr m value = raw_in addr m value
  config_in_reg Reg.version addr m value = raw_in addr m value
  config_in_reg Reg.device_id addr m value = raw_in addr m value
  config_in_reg Reg.vendor_id addr m value = raw_in addr m value
  config_in_reg Reg.status addr m value = raw_in addr m value
  config_in_reg Reg.interrupt_status addr m value = raw_in addr m value
  config_in_reg Reg.device_features addr m value = some (put_low value 4 (features_word m))
  config_in_reg Reg.queue_num_max addr m value =
      some (put_low value 4 (ops.get_size_vq m.dev m.hdr.queue_sel))
  config_in_reg Reg.queue_ready addr m value = do
    vq ← selected m
    some (put_low value 4 (if vq.enabled then 1 else 0))
  config_in_reg Reg.queue_desc_low addr m value = addr_word (λ a. a.desc_lo) m value
  config_in_reg Reg.queue_desc_high addr m value = addr_word (λ a. a.desc_hi) m value
  config_in_reg Reg.queue_used_low addr m value = addr_word (λ a. a.used_lo) m value
  config_in_reg Reg.queue_used_high addr m value = addr_word (λ a. a.used_hi) m value
  config_in_reg Reg.queue_avail_low addr m value = addr_word (λ a. a.avail_lo) m value
  config_in_reg Reg.queue_avail_high addr m value = addr_word (λ a. a.avail_hi) m value
  config_in_reg Reg.config_generation addr m value = some (put_low value 4 0)
  config_in_reg _ addr m value = some value

  unfoldable pub config_in : ℕ → Machine D → ℕ → Option ℕ
  unfolding config_in_reg addr_word raw_in features_word decode
  config_in addr m value = config_in_reg (decode addr) addr m value

  set_addr : (VringAddr → VringAddr) → Machine D → Option (Machine D)
  set_addr change m = do
    vq ← selected m
    let vq' = record vq { vring_addr = change vq.vring_addr }
    some (record m { dev = ops.put_vq m.dev m.hdr.queue_sel vq' })

  module _ (g : Guest) where
    config_out_reg : Reg → Machine D → ℕ → Option (Machine D)
    config_out_reg Reg.device_features_sel m val =
        some (record m { hdr = record m.hdr { host_features_sel = val } })
    config_out_reg Reg.driver_features_sel m val =
        some (record m { hdr = record m.hdr { guest_features_sel = val } })
    config_out_reg Reg.queue_sel m val = some (record m { hdr = record m.hdr { queue_sel = val } })
    config_out_reg Reg.status m val =
        set_status ops g (record m { hdr = record m.hdr { status = val } }) val
    config_out_reg Reg.driver_features m val = some (
        if m.hdr.guest_features_sel == 0
        then record m { vdev = set_guest_features m.vdev val }
        else m)
    config_out_reg Reg.queue_num m val = some (record m {
      hdr = record m.hdr { queue_num = val };
      dev = ops.set_size_vq m.dev m.hdr.queue_sel val;
    })
    config_out_reg Reg.queue_ready m val =
        if val == 0 then mmio_exit_vq ops g m m.hdr.queue_sel else init_vq ops m m.hdr.queue_sel
    config_out_reg Reg.queue_notify m val = some (record m { dev = ops.notify_vq m.dev val })
    config_out_reg Reg.interrupt_ack m val = some (record m {
      hdr = record m.hdr { interrupt_state = bit_and m.hdr.interrupt_state (not32 val) };
    })
    config_out_reg Reg.queue_desc_low m val = set_addr (λ a. record a { desc_lo = val }) m
    config_out_reg Reg.queue_desc_high m val = set_addr (λ a. record a { desc_hi = val }) m
    config_out_reg Reg.queue_used_low m val = set_addr (λ a. record a { used_lo = val }) m
    config_out_reg Reg.queue_used_high m val = set_addr (λ a. record a { used_hi = val }) m
    config_out_reg Reg.queue_avail_low m val = set_addr (λ a. record a { avail_lo = val }) m
    config_out_reg Reg.queue_avail_high m val = set_addr (λ a. record a { avail_hi = val }) m
    config_out_reg _ m val = some m

    unfoldable pub config_out : ℕ → Machine D → ℕ → Option (Machine D)
    unfolding config_out_reg set_addr decode
    config_out addr m value = config_out_reg (decode addr) m (value % 2 ^ 32)

    -- One access of the guest: the machine after it, and the buffer of the request.
    unfoldable pub callback : Machine D → ℕ → ℕ → ℕ → Bool → Option (Machine D × ℕ)
    callback m addr value len is_write =
        let offset = offset_of m addr in
        if leb mmio_config offset
        then device_specific ops m (offset - mmio_config) value len is_write
        else if not (len == 4)
        then some (m, value)
        else if is_write
        then (do m' ← config_out offset m value; some (m', value))
        else (do value' ← config_in offset m value; some (m, value'))
