-- ===== src/Virtio/Chain.antt =====
-- From a head to the buffers of a request: next_desc, virt_queue__get_head_iov and
-- virt_queue__get_iov of virtio/core.c, built without MAP_IN_ADVANCE.
--
-- `iov[]` of a request has VIRTIO_BLK_QUEUE_SIZE entries (virtio/blk.c). The loop over the
-- descriptors has no bound of its own, so the model recurs on the entries that are left, and a
-- write past the last one is `none`, as is a read past a descriptor table.
pub mod Walk
pub mod Request
use virtio_disk.Prelude.{
  ℕ, zero, suc, ◌+◌, ◌/◌, ◌%◌, ◌^◌, min, Bool, not, ◌&&◌, Option, none, some, List, [], ◌∷◌, ◌++◌,
  get_elem?, ◌==◌, if◌then◌else◌, ◌>>=◌,
}
use virtio_disk.Prelude.Bits.{test}
use virtio_disk.Virtio.Guest.{Prot, prot_read, prot_write, Guest, Iovec, Event, mapped, unmapped}
use virtio_disk.Virtio.Ring.{
  Desc, Vring, VirtQueue, add16, desc_f_next, desc_f_write, desc_f_indirect, pop,
}

-- `*out`, `*in`, the entries of `iov[]` that are filled in, and the calls made.
pub record HeadIov : Type 0 where
  pub iov : List Iovec
  pub out : ℕ
  pub in_count : ℕ
  pub trace : List Event

abbrev pub max_iov : ℕ
max_iov = 256

-- `max` stands for the end of the chain.
unfoldable pub next_desc : Desc → ℕ → ℕ
next_desc d max_idx = if not (test d.flags desc_f_next) then max_idx else min d.next max_idx

-- the end of virt_queue__get_head_iov: `if (desc && mapped)`
abbrev pub release : ℕ → ℕ → List Event
release p len = if not (p == 0) && not (len == 0) then unmapped p len ∷ [] else []

module _ (g : Guest) where
  -- the buffer of a descriptor, once it is mapped
  abbrev pub buffer : Desc → Iovec
  buffer d = record {
    base =
        g.map_guest_range d.addr d.len
          (if test d.flags desc_f_write then prot_write else prot_read);
    len = d.len;
  }

  -- the body of the loop
  unfoldable pub take_desc : HeadIov → Desc → HeadIov
  take_desc w d =
      let b = buffer d in
      record {
        iov = w.iov ++ (b ∷ []);
        out = if test d.flags desc_f_write then w.out else add16 w.out 1;
        in_count = if test d.flags desc_f_write then add16 w.in_count 1 else w.in_count;
        trace = w.trace ++ (mapped b.base b.len ∷ []);
      }

  unfoldable pub walk : ℕ → List Desc → ℕ → ℕ → HeadIov → Option HeadIov
  walk zero desc max_idx idx w = none
  walk (suc room) desc max_idx idx w = do
    d ← get_elem? desc idx
    let w' = take_desc w d
    let next = next_desc d max_idx
    let rest = walk room desc max_idx next w'
    if next == max_idx then some w' else rest

  abbrev pub no_walk : List Event → HeadIov
  no_walk trace = record { iov = []; out = 0; in_count = 0; trace = trace }

  -- The table of an indirect descriptor is mapped for the walk, which reads through a null pointer
  -- (`none`) if that fails. `sizeof(struct vring_desc)` is 16.
  unfoldable pub walk_indirect : Desc → Option HeadIov
  walk_indirect d = do
    let p = g.map_guest_range d.addr d.len prot_read
    table ← (if p == 0 then none else some (g.table p))
    w ← walk max_iov table (d.len / 16 % 2 ^ 16) 0 (no_walk (mapped p d.len ∷ []))
    some (record w { trace = w.trace ++ release p d.len })

  unfoldable pub get_head_iov : VirtQueue → ℕ → Option HeadIov
  get_head_iov q head = do
    v ← q.vring
    d ← get_elem? v.desc head
    if test d.flags desc_f_indirect
        then walk_indirect d
        else walk max_iov v.desc (v.num % 2 ^ 16) head (no_walk [])

  unfoldable pub get_iov : VirtQueue → Option (ℕ × VirtQueue × HeadIov)
  get_iov q = do (head, q') ← pop q; w ← get_head_iov q' head; some (head, q', w)
