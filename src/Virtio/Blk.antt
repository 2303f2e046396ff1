-- ===== src/Virtio/Blk.antt =====
-- The requests of the block device: virtio/blk.c.
pub mod Complete
pub mod Reliable
pub mod Serve
pub mod Servable
pub mod Lost
pub mod Device
use virtio_disk.Prelude.{
  ℕ, zero, suc, ◌+◌, ◌-◌, Bool, true, false, not, ◌&&◌, Option, none, some, List, [], ◌∷◌, ◌++◌,
  map, take, get_elem?, ltb, ◌==◌, if◌then◌else◌, ◌>>=◌,
}
use virtio_disk.Prelude.Int.{ℤ, pos, negsuc, is_neg, to_u32}
use virtio_disk.Virtio.Guest.{Guest, Iovec, Event, unmapped}
use virtio_disk.Virtio.Ring.{VirtQueue, available, pop, set_used_elem, should_signal}
use virtio_disk.Virtio.Chain.{HeadIov, get_head_iov}
use virtio_disk.Disk.Image.{DiskImage, image_read, image_write, image_flush}

-- struct virtio_blk_outhdr, as far as it is read
pub record OutHdr : Type 0 where
  pub kind : ℕ
  pub sector : ℕ

-- What the block device is given: guest memory, the request header at a host pointer,
-- vring_need_event of linux/virtio_ring.h, and the length of the serial number that
-- disk_image__get_serial prints (`none`: fstat failed).
pub record Env : Type 0 where
  pub guest : Guest
  pub header : ℕ → OutHdr
  pub need_event : ℕ → ℕ → ℕ → Bool
  pub serial_len : Option ℕ

-- VIRTIO_BLK_T_*, VIRTIO_BLK_S_* and VIRTIO_BLK_ID_BYTES, as numbered by the virtio specification
abbrev pub blk_t_in : ℕ
blk_t_in = 0

abbrev pub blk_t_out : ℕ
blk_t_out = 1

abbrev pub blk_t_flush : ℕ
blk_t_flush = 4

abbrev pub blk_t_get_id : ℕ
blk_t_get_id = 8

abbrev pub blk_s_ok : ℕ
blk_s_ok = 0

abbrev pub blk_s_ioerr : ℕ
blk_s_ioerr = 1

abbrev pub blk_id_bytes : ℕ
blk_id_bytes = 20

-- The fields of struct blk_dev_req that a request has of its own.
pub record Req : Type 0 where
  pub head : ℕ
  pub gathered : HeadIov

-- The queue and the disk, and what the I/O thread has done: the status bytes that it wrote (where
-- and what), the mapping calls, and how often it raised the queue's interrupt.
pub record Io (S : Type 0) : Type 0 where
  pub vq : VirtQueue
  pub disk : DiskImage S
  pub io_done : Bool
  pub statuses : List (ℕ × ℕ)
  pub events : List Event
  pub signals : ℕ

abbrev pub status_of : ℤ → ℕ
status_of len = if is_neg len then blk_s_ioerr else blk_s_ok

-- The pointer of a buffer that the program reads or writes itself: `none` for a null pointer, which
-- demu_map_guest_range returned where it failed, and nothing tests.
abbrev pub pointer : Iovec → Option ℕ
pointer b = if b.base == 0 then none else some b.base

abbrev pub unmap_all : List Iovec → List Event
unmap_all = map λ b. unmapped b.base b.len

-- `iov + 1` with `in + out - 2` entries: the buffers between the header and the status byte. The
-- list has the `in + out` entries of `iov[]` that are in use. For a request of one descriptor the
-- count is -1, and the loops over the entries run out of the array.
unfoldable pub drop_last : List Iovec → List Iovec
drop_last [] = []
drop_last (b ∷ []) = []
drop_last (b ∷ c ∷ bs) = b ∷ drop_last (c ∷ bs)

unfoldable pub middle : List Iovec → Option (List Iovec)
unfolding drop_last
middle [] = none
middle (h ∷ []) = none
middle (h ∷ b ∷ bs) = some (drop_last (b ∷ bs))

module _ {S : Type 0} (env : Env) where
  -- virtio_blk_complete. `iov[out + in - 1]` is the status byte; the `out + in` first entries are
  -- unmapped.
  unfoldable pub complete : Io S → Req → ℤ → Option (Io S)
  complete io req len = do
    let iov = req.gathered.iov
    let count = req.gathered.out + req.gathered.in_count
    last ← (if count == 0 then none else get_elem? iov (count - 1))
    status ← pointer last
    vq1 ← set_used_elem io.vq req.head (to_u32 len)
    (signal, vq2) ← should_signal env.need_event vq1
    some (record io {
      vq = vq2;
      statuses = io.statuses ++ ((status, status_of len) ∷ []);
      events = io.events ++ unmap_all (take count iov);
      signals = if signal then io.signals + 1 else io.signals;
    })

  -- the end of disk_image__read and disk_image__write, whose callback is virtio_blk_complete
  call_back : Io S → Req → DiskImage S × ℤ × Option ℤ → Option (Io S)
  call_back io req (disk, total, called) = elim called [
    | none ↦ some (record io { disk = disk })
    | some len ↦ complete (record io { disk = disk }) req len
  ]

  unfoldable pub do_read : Io S → Req → ℕ → Option (Io S)
  unfolding call_back
  do_read io req sector = do
    bufs ← middle req.gathered.iov
    call_back io req (image_read io.disk sector bufs)

  unfoldable pub do_write : Io S → Req → ℕ → Option (Io S)
  unfolding call_back
  do_write io req sector = do
    bufs ← middle req.gathered.iov
    call_back io req (image_write io.disk sector bufs)

  unfoldable pub do_flush : Io S → Req → Option (Io S)
  do_flush io req =
      let (disk, r) = image_flush io.disk in complete (record io { disk = disk }) req r

  -- The serial number is printed to `iov[1]`; if fstat fails, nothing is, and the length stays
  -- VIRTIO_BLK_ID_BYTES.
  unfoldable pub do_get_id : Io S → Req → Option (Io S)
  do_get_id io req = do
    second ← get_elem? req.gathered.iov 1
    _ ← elim env.serial_len [ none ↦ some second.base | some n ↦ pointer second ]
    complete io req (pos (elim env.serial_len [ none ↦ blk_id_bytes | some n ↦ n ]))

  -- virtio_blk_do_io_request. What it returns to its caller is dropped.
  unfoldable pub do_io_request : Io S → Req → Option (Io S)
  do_io_request io req = do
    first ← get_elem? req.gathered.iov 0
    at ← pointer first
    let hdr = env.header at
    if hdr.kind == blk_t_in
        then do_read io req hdr.sector
        else if hdr.kind == blk_t_out
        then do_write io req hdr.sector
        else if hdr.kind == blk_t_flush
        then do_flush io req
        else if hdr.kind == blk_t_get_id
        then do_get_id io req
        else some io

  -- One round of virtio_blk_do_io, behind its test. `reqs[]` has 256 entries.
  unfoldable pub take_request : Io S → Option (Io S)
  take_request io = do
    (head, vq) ← pop io.vq
    gathered ← (if ltb head 256 then get_head_iov env.guest vq head else none)
    do_io_request (record io { vq = vq; events = io.events ++ gathered.trace })
        (record { head = head; gathered = gathered })

  -- virtio_blk_do_io with fuel, `none` if it runs out
  unfoldable pub do_io : ℕ → Io S → Option (Io S)
  do_io zero io = none
  do_io (suc fuel) io =
      let (more, vq) = available io.vq in
      let io1 = record io { vq = vq } in
      let rest = take_request io1 >>= do_io fuel in
      if more && not io.io_done then rest else some io1
