-- ===== src/Virtio/Device.antt =====
-- The device-independent part of virtio/core.c: setting queues up and taking them down, features,
-- status, and access to the device's configuration.
pub mod Setup
use virtio_disk.Prelude.{
  ℕ, ◌+◌, ◌*◌, ◌/◌, ◌%◌, ◌^◌, ◌≡◌, ◌≢◌, Bool, true, false, not, ◌&&◌, ◌||◌, Option, none, some,
  List, [], ◌∷◌, ◌++◌, bit_and, bit_or, ◌==◌, if◌then◌else◌, ◌>>=◌,
}
use virtio_disk.Prelude.Bits.{test}
use virtio_disk.Prelude.Int.{ℤ}
use virtio_disk.Virtio.Guest.{Guest, prot_read_write, Event, mapped, unmapped}
use virtio_disk.Virtio.Ring.{Vring, VringAddr, VirtQueue}

pub record VirtioDevice : Type 0 where
  pub legacy : Bool
  pub endian : ℕ
  pub features : ℕ
  pub status : ℕ

-- VIRTIO_RING_F_EVENT_IDX, the number of a feature bit by the virtio specification
abbrev pub ring_f_event_idx : ℕ
ring_f_event_idx = 29

abbrev pub page_size : ℕ
page_size = 4096

abbrev pub zero_addr : VringAddr
zero_addr = record {
  legacy = false;
  desc_lo = 0;
  desc_hi = 0;
  avail_lo = 0;
  avail_hi = 0;
  used_lo = 0;
  used_hi = 0;
}

-- `memset(vq, 0, sizeof(*vq))`
abbrev pub zero_queue : VirtQueue
zero_queue = record {
  vring = none;
  vring_addr = zero_addr;
  last_avail_idx = 0;
  last_used_signalled = 0;
  endian = 0;
  use_event_idx = false;
  enabled = false;
}

-- (u64)hi << 32 | lo, for words lo of 32 bits
abbrev pub join64 : ℕ → ℕ → ℕ
join64 hi lo = bit_or (hi * 2 ^ 32) lo

module _ (g : Guest) where
  -- `none` is BUG_ON of a null pointer. The ranges that were mapped are returned beside the queue.
  legacy_ring : VirtQueue → ℕ → Option (Vring × List Event)
  legacy_ring vq nr_descs =
      let base = vq.vring_addr.desc_lo * vq.vring_addr.avail_lo in
      let align = vq.vring_addr.desc_hi in
      let size = g.vring_size nr_descs align in
      let p = g.map_guest_range base size prot_read_write in
      let avail = p + g.avail_offset nr_descs align in
      let used = p + g.used_offset nr_descs align in
      let vring = record (g.ring_at nr_descs p avail used) {
        num = nr_descs;
        desc_at = p;
        avail_at = avail;
        used_at = used;
      } in
      if p == 0 then none else some (vring, mapped p size ∷ [])

  modern_ring : VirtQueue → ℕ → Option (Vring × List Event)
  modern_ring vq nr_descs =
      let a = vq.vring_addr in
      let desc = g.map_guest_range (join64 a.desc_hi a.desc_lo) page_size prot_read_write in
      let used = g.map_guest_range (join64 a.used_hi a.used_lo) page_size prot_read_write in
      let avail = g.map_guest_range (join64 a.avail_hi a.avail_lo) page_size prot_read_write in
      let vring = record (g.ring_at nr_descs desc avail used) {
        num = nr_descs;
        desc_at = desc;
        avail_at = avail;
        used_at = used;
      } in
      if desc == 0 || used == 0 || avail == 0
      then none
      else some (vring, mapped desc page_size ∷ mapped used page_size ∷ mapped avail page_size ∷ [])

  unfoldable pub init_device_vq : VirtioDevice → VirtQueue → ℕ → Option (VirtQueue × List Event)
  unfolding legacy_ring modern_ring
  init_device_vq vdev vq nr_descs = do
    (vring, events) ←
        (if vq.vring_addr.legacy then legacy_ring vq nr_descs else modern_ring vq nr_descs)
    some (
      record vq {
        vring = some vring;
        endian = vdev.endian;
        use_event_idx = test vdev.features ring_f_event_idx;
        enabled = true;
      },
      events,
    )

  -- the calls of demu_unmap_guest_range in virtio_exit_vq
  unfoldable pub unmap_vq : VirtQueue → List Event
  unmap_vq vq = elim vq.vring [
    | none ↦ []
    | some v ↦
        if vq.vring_addr.legacy
        then unmapped v.desc_at (g.vring_size v.num vq.vring_addr.desc_hi) ∷ []
        else unmapped v.desc_at page_size
          ∷ unmapped v.used_at page_size
          ∷ unmapped v.avail_at page_size
          ∷ []
  ]
