-- ===== src/Virtio/Ops/Config.antt =====
-- Access to the device's configuration: virtio_read_config and virtio_write_config.
use virtio_disk.Prelude.{
  ℕ, zero, suc, ◌+◌, ◌*◌, ◌/◌, ◌%◌, ◌^◌, ◌≤◌, ◌<◌, ◌≡◌, refl, ◌∙◌, ◌⊎◌, inl, true, some, List,
  length, length-set, get_elem?, get_elem?-lt, get_elem?-set_self, get_elem?-set_ne, set, arith,
}
use virtio_disk.Virtio.Ops.{VirtioOps, is_access, put_low, load, store, read_config, write_config}

-- the low `size` bytes of a number
abbrev low : ℕ → ℕ → ℕ
low zero v = 0
low (suc size) v = v % 256 + 256 * low size (v / 256)

-- What a store of `size` bytes from an offset on does to the bytes.
record Stored (bytes : List ℕ) (offset size v : ℕ) (after : List ℕ) : Type 0 where
  size_kept : length after ≡ length bytes
  read_back : load after offset size ≡ some (low size v)
  others : (j : ℕ) → (j < offset) ⊎ (offset + size ≤ j) → get_elem? after j ≡ get_elem? bytes j

store-Stored :
    (bytes : List ℕ) (offset size v : ℕ)
    → offset + size ≤ length bytes
    → (after : List ℕ) × (store bytes offset size v ≡ some after) × Stored bytes offset size v after
unfolding load store
store-Stored bytes offset zero v h =
    (bytes, refl, record { size_kept = refl; read_back = refl; others = λ j k. refl })
store-Stored bytes offset (suc size) v h =
    let (b, e) = get_elem?-lt bytes offset (omega arith) in
    let bytes1 = set bytes offset (v % 256) in
    let (after, run, s) =
      store-Stored bytes1 (offset + 1) size (v / 256)
        (omega (arith, length-set bytes offset (v % 256))) in
    let self : get_elem? after offset ≡ some (v % 256) =
      s.others offset (inl (omega arith))
      ∙ get_elem?-set_self bytes offset (v % 256) (omega arith) in
    (
      after,
      rw e run,
      record {
        size_kept = s.size_kept ∙ length-set bytes offset (v % 256);
        read_back = rw (self, s.read_back);
        others = λ j k. s.others j (ground arith) ∙ get_elem?-set_ne bytes (v % 256) (ground arith);
      },
    )

low-access : (size v : ℕ) → is_access size ≡ true → low size v ≡ v % 256 ^ size
low-access zero v h = ground arith
low-access (suc zero) v h = omega arith
low-access (suc (suc zero)) v h = omega arith
low-access (suc (suc (suc zero))) v h = ground arith
low-access (suc (suc (suc (suc zero)))) v h = omega arith
low-access (suc (suc (suc (suc (suc n))))) v h = ground arith

module _ {D : Type 0} (ops : VirtioOps D) where
  -- The device keeps the configuration that it is given.
  abbrev pub Keeps : Type 0
  Keeps = (dev : D) (bytes : List ℕ) → ops.get_config (ops.set_config dev bytes) ≡ bytes

  -- On a device that keeps its configuration, a write of 1, 2 or 4 bytes inside the configuration
  -- succeeds; a read of the same place then returns what was written, in the low bytes of the
  -- buffer, and every byte elsewhere is as before.
  pub read_config-write_config :
      (dev : D) (offset size v w : ℕ)
      → Keeps
      → is_access size ≡ true
      → offset + size ≤ length (ops.get_config dev)
      → (dev' : D) × (write_config ops dev offset v size ≡ some (true, dev'))
        × (read_config ops dev' offset w size ≡ some (true, put_low w size (v % 256 ^ size)))
        × ((j : ℕ)
            → (j < offset) ⊎ (offset + size ≤ j)
            → get_elem? (ops.get_config dev') j ≡ get_elem? (ops.get_config dev) j)
  unfolding read_config write_config
  read_config-write_config dev offset size v w keeps acc h =
      let (after, run, s) = store-Stored (ops.get_config dev) offset size v h in
      let kept = keeps dev after in
      (
        ops.set_config dev after,
        rw (acc, run),
        rw (acc, kept, s.read_back, low-access size v acc),
        rw kept s.others,
      )
