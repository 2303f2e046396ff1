-- ===== src/Virtio/Mmio/Features.antt =====
-- How the driver reads the feature bits of a modern device, in two halves.
use virtio_disk.Prelude.{ℕ, ◌+◌, ◌-◌, ◌*◌, ◌%◌, ◌^◌, ◌<◌, ◌≡◌, true, false, some, bit_or, arith}
use virtio_disk.Virtio.Guest.{Guest}
use virtio_disk.Virtio.Ops.{VirtioOps, put_low}
use virtio_disk.Virtio.Mmio.{Machine}
use virtio_disk.Virtio.Mmio.Regs.{decode}
use virtio_disk.Virtio.Mmio.Modern.{
  transport_features, features_word, config_in, config_out, callback,
}

-- The offsets of VIRTIO_MMIO_DEVICE_FEATURES and VIRTIO_MMIO_DEVICE_FEATURES_SEL
abbrev pub features_at : ℕ
features_at = 0x10

abbrev pub features_sel_at : ℕ
features_sel_at = 0x14

offset : (a k : ℕ) → k < 2 ^ 12 → (a + k + 2 ^ 32 - a) % 2 ^ 32 ≡ k
offset a k h = omega arith

word : (v : ℕ) → v < 2 ^ 32 → v % 2 ^ 32 ≡ v
word v h = omega arith

whole : (w v : ℕ) → w < 2 ^ 32 → put_low w 4 v ≡ v
whole w v h = omega arith

module _ {D : Type 0} (ops : VirtioOps D) (g : Guest) where
  -- what the driver sees: select a word, then read it
  abbrev pub selects : Machine D → ℕ → Machine D
  selects m sel = record m { hdr = record m.hdr { host_features_sel = sel } }

  select-selects :
      (m : Machine D) (sel : ℕ)
      → sel < 2 ^ 32
      → callback ops g m (m.addr + features_sel_at) sel 4 true ≡ some (selects m sel, sel)
  unfolding callback config_out decode
  select-selects m sel h = rw (offset m.addr features_sel_at (omega arith), word sel h)

  read-features :
      (m : Machine D) (w : ℕ)
      → w < 2 ^ 32
      → callback ops g m (m.addr + features_at) w 4 false ≡ some (m, features_word ops m)
  unfolding callback config_in decode features_word
  read-features m w h =
      rw (offset m.addr features_at (omega arith), whole w (features_word ops m) h)

  halves :
      (m : Machine D)
      → bit_or transport_features (ops.get_host_features m.dev) < 2 ^ 64
      → features_word ops (selects m 0) + 2 ^ 32 * features_word ops (selects m 1)
        ≡ bit_or transport_features (ops.get_host_features m.dev)
  unfolding features_word
  halves m h = omega arith

  -- A driver that selects and reads the two halves of the feature bits, in a buffer of one word,
  -- gets the device's features with the two that the transport adds, if these are 64 bits; the
  -- machine is left as it was but for the selection.
  pub callback-features :
      (m : Machine D) (w : ℕ)
      → w < 2 ^ 32
      → bit_or transport_features (ops.get_host_features m.dev) < 2 ^ 64
      → (lo hi : ℕ) × (callback ops g m (m.addr + features_sel_at) 0 4 true ≡ some (selects m 0, 0))
        × (callback ops g (selects m 0) (m.addr + features_at) w 4 false ≡ some (selects m 0, lo))
        × (callback ops g (selects m 0) (m.addr + features_sel_at) 1 4 true ≡ some (selects m 1, 1))
        × (callback ops g (selects m 1) (m.addr + features_at) w 4 false ≡ some (selects m 1, hi))
        × (lo + 2 ^ 32 * hi ≡ bit_or transport_features (ops.get_host_features m.dev))
  callback-features m w h wide = (
    features_word ops (selects m 0),
    features_word ops (selects m 1),
    select-selects m 0 (omega arith),
    read-features (selects m 0) w h,
    select-selects (selects m 0) 1 (omega arith),
    read-features (selects m 1) w h,
    halves m wide,
  )
