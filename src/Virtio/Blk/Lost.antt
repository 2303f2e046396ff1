-- ===== src/Virtio/Blk/Lost.antt =====
-- Requests that virtio_blk_do_io_request takes and never answers.
use virtio_disk.Prelude.{ℕ, ◌≡◌, refl, ◌≢◌, true, some, List, get_elem?, arith, ne→==}
use virtio_disk.Prelude.Int.{ℤ, is_neg}
use virtio_disk.Virtio.Guest.{Iovec}
use virtio_disk.Disk.Image.{image_read, image_write}
use virtio_disk.Virtio.Blk.{
  Env, Io, Req, call_back, do_read, do_write, do_io_request, middle, blk_t_in, blk_t_out,
  blk_t_flush, blk_t_get_id,
}

-- The queue, the status bytes, the mappings and the interrupts are as before.
pub record Unanswered {S : Type 0} (io io' : Io S) : Type 0 where
  pub vq : io'.vq ≡ io.vq
  pub statuses : io'.statuses ≡ io.statuses
  pub events : io'.events ≡ io.events
  pub signals : io'.signals ≡ io.signals

module _ {S : Type 0} (env : Env) (io : Io S) (req : Req) where
  -- The disk's read fails, its write fails, or the type of the request is not known.
  pub data IsHopeless (hdr : Iovec) : Type 0 where
    read_fails :
        {op : S → ℕ → List Iovec → S × ℤ} {bufs : List Iovec}
        → (env.header hdr.base).kind ≡ blk_t_in
        → io.disk.read ≡ some op
        → middle req.gathered.iov ≡ some bufs
        → is_neg (op io.disk.state (env.header hdr.base).sector bufs).1 ≡ true
        → IsHopeless hdr
    write_fails :
        {op : S → ℕ → List Iovec → S × ℤ} {bufs : List Iovec}
        → (env.header hdr.base).kind ≡ blk_t_out
        → io.disk.write ≡ some op
        → middle req.gathered.iov ≡ some bufs
        → is_neg (op io.disk.state (env.header hdr.base).sector bufs).1 ≡ true
        → IsHopeless hdr
    unknown :
        (env.header hdr.base).kind ≢ blk_t_in
        → (env.header hdr.base).kind ≢ blk_t_out
        → (env.header hdr.base).kind ≢ blk_t_flush
        → (env.header hdr.base).kind ≢ blk_t_get_id
        → IsHopeless hdr

  -- virtio_blk_do_io_request returns from a request whose header is mapped and whose read or write
  -- fails, or whose type is unknown, without an answer: no status byte is written, no used element is published, its
  -- buffers stay mapped, no interrupt is raised.
  pub do_io_request-Unanswered :
      {hdr : Iovec}
      → get_elem? req.gathered.iov 0 ≡ some hdr
      → hdr.base ≢ 0
      → IsHopeless hdr
      → (io' : Io S) × (do_io_request env io req ≡ some io') × Unanswered io io'
  unfolding do_io_request do_read do_write call_back image_read image_write
  do_io_request-Unanswered {hdr} e there (read_fails {op} {bufs} k has m neg) = (
    record io {
      disk = record io.disk { state = (op io.disk.state (env.header hdr.base).sector bufs).0 };
    },
    ground arith,
    record { vq = refl; statuses = refl; events = refl; signals = refl },
  )
  do_io_request-Unanswered {hdr} e there (write_fails {op} {bufs} k has m neg) = (
    record io {
      disk = record io.disk { state = (op io.disk.state (env.header hdr.base).sector bufs).0 };
    },
    ground arith,
    record { vq = refl; statuses = refl; events = refl; signals = refl },
  )
  do_io_request-Unanswered {hdr} e there (unknown a b c d) = (
    io,
    rw (e, ne→== hdr.base 0 there, ne→== _ 0 a, ne→== _ 1 b, ne→== _ 4 c, ne→== _ 8 d),
    record { vq = refl; statuses = refl; events = refl; signals = refl },
  )
