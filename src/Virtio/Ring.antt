-- ===== src/Virtio/Ring.antt =====
-- The split virtqueue: include/kvm/virtio.h and the first part of virtio/core.c.
--
-- A `struct vring` is three pointers into guest memory. The model holds what the memory behind
-- them contains, `none` being the null pointers of a queue that is not set up. The layout of the
-- rings is that of linux/virtio_ring.h, which is no part of the repository: `used_event` is the
-- word that its macro vring_used_event reads, `avail_event` the one of vring_avail_event.
-- Guest and host have one byte order, as in the build's default (VIRTIO_RING_ENDIAN), so the
-- conversions are the identity. Memory barriers have no effect on a run of one thread.
pub mod Avail
pub mod Used
pub mod Signal
use virtio_disk.Prelude.{
  ℕ, ◌+◌, ◌%◌, ◌^◌, ◌<◌, ◌≡◌, Bool, true, false, not, Option, none, some, List, length, get_elem?,
  set, ◌==◌, if◌then◌else◌, ◌>>=◌,
}
use virtio_disk.Prelude.Bits.{test}

pub record Desc : Type 0 where
  pub addr : ℕ
  pub len : ℕ
  pub flags : ℕ
  pub next : ℕ

pub record UsedElem : Type 0 where
  pub id : ℕ
  pub len : ℕ

-- `desc_at`, `avail_at` and `used_at` are the pointers themselves.
pub record Vring : Type 0 where
  pub num : ℕ
  pub desc_at : ℕ
  pub avail_at : ℕ
  pub used_at : ℕ
  pub desc : List Desc
  pub avail_flags : ℕ
  pub avail_idx : ℕ
  pub avail_ring : List ℕ
  pub used_event : ℕ
  pub used_idx : ℕ
  pub used_ring : List UsedElem
  pub avail_event : ℕ

-- The union of the legacy and the modern description: `pfn` is the word of `desc_lo`, `align` that
-- of `desc_hi` and `pgsize` that of `avail_lo`.
pub record VringAddr : Type 0 where
  pub legacy : Bool
  pub desc_lo : ℕ
  pub desc_hi : ℕ
  pub avail_lo : ℕ
  pub avail_hi : ℕ
  pub used_lo : ℕ
  pub used_hi : ℕ

pub record VirtQueue : Type 0 where
  pub vring : Option Vring
  pub vring_addr : VringAddr
  pub last_avail_idx : ℕ
  pub last_used_signalled : ℕ
  pub endian : ℕ
  pub use_event_idx : Bool
  pub enabled : Bool

-- u16 addition
abbrev pub add16 : ℕ → ℕ → ℕ
add16 a b = (a + b) % 2 ^ 16

-- VRING_DESC_F_NEXT, VRING_DESC_F_WRITE, VRING_DESC_F_INDIRECT and VRING_AVAIL_F_NO_INTERRUPT,
-- as numbered by the virtio specification
abbrev pub desc_f_next : ℕ
desc_f_next = 1

abbrev pub desc_f_write : ℕ
desc_f_write = 2

abbrev pub desc_f_indirect : ℕ
desc_f_indirect = 4

abbrev pub avail_f_no_interrupt : ℕ
avail_f_no_interrupt = 1

-- The head is what the guest wrote. `none` is an access through a null pointer or past the ring.
unfoldable pub pop : VirtQueue → Option (ℕ × VirtQueue)
pop q = do
  v ← q.vring
  head ← get_elem? v.avail_ring (q.last_avail_idx % v.num)
  some (head, record q { last_avail_idx = add16 q.last_avail_idx 1 })

-- Whether the guest has put up a request, after telling it where to notify next.
unfoldable pub available : VirtQueue → Bool × VirtQueue
available q = elim q.vring [
  | none ↦ (false, q)
  | some v ↦ (
    not (v.avail_idx == q.last_avail_idx),
    if q.use_event_idx
        then record q { vring = some (record v { avail_event = q.last_avail_idx }) }
        else q,
  )
]

unfoldable pub used_idx_advance : VirtQueue → ℕ → Option VirtQueue
used_idx_advance q jump = do
  v ← q.vring
  some (record q { vring = some (record v { used_idx = add16 v.used_idx jump }) })

unfoldable pub set_used_elem_no_update : VirtQueue → ℕ → ℕ → ℕ → Option VirtQueue
set_used_elem_no_update q head len offset = do
  v ← q.vring
  some (record q {
    vring = some (record v {
      used_ring =
          set v.used_ring (add16 v.used_idx offset % v.num) (record { id = head; len = len });
    });
  })

unfoldable pub set_used_elem : VirtQueue → ℕ → ℕ → Option VirtQueue
unfolding set_used_elem_no_update used_idx_advance
set_used_elem q head len = do q' ← set_used_elem_no_update q head len 0; used_idx_advance q' 1

-- `need_event event_idx new_idx old_idx` is vring_need_event of linux/virtio_ring.h.
module _ (need_event : ℕ → ℕ → ℕ → Bool) where
  unfoldable pub should_signal : VirtQueue → Option (Bool × VirtQueue)
  should_signal q = do
    v ← q.vring
    some (
        if not q.use_event_idx
        then (not (test v.avail_flags avail_f_no_interrupt), q)
        else if need_event v.used_event v.used_idx q.last_used_signalled
        then (true, record q { last_used_signalled = v.used_idx })
        else (false, q))

-- A queue that is set up with the device's 256 entries.
pub record IsValid (q : VirtQueue) (v : Vring) : Type 0 where
  pub ready : q.vring ≡ some v
  pub num_256 : v.num ≡ 256
  pub avail_len : length v.avail_ring ≡ 256
  pub used_len : length v.used_ring ≡ 256
  pub avail_word : v.avail_idx < 2 ^ 16
  pub used_word : v.used_idx < 2 ^ 16
  pub last_word : q.last_avail_idx < 2 ^ 16
