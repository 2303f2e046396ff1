-- ===== src/Virtio/Blk/Serve.antt =====
-- virtio_blk_do_io_request and virtio_blk_do_io over a disk without errors: every request that the
-- guest has put up is answered.
pub mod Loop
use virtio_disk.Prelude.{◌+◌, ◌≡◌, ◌≢◌, ◌⊎◌, true, none, some, List, [], ◌∷◌, ◌++◌, length, ◌==◌}
use virtio_disk.Prelude.Int.{ℤ, pos, to_u32}
use virtio_disk.Virtio.Guest.{Iovec}
use virtio_disk.Virtio.Ring.{Vring, IsValid}
use virtio_disk.Virtio.Ring.Used.{completed}
use virtio_disk.Disk.Image.{DiskImage, transfer, finish, flush_with}
use virtio_disk.Virtio.Blk.{
  Env, Io, Req, OutHdr, status_of, blk_s_ok, unmap_all, blk_t_in, blk_t_out, blk_t_flush,
  blk_t_get_id, blk_id_bytes,
}
use virtio_disk.Virtio.Blk.Reliable.{IsReliable}
use virtio_disk.Virtio.Blk.Complete.{Completed}

-- No buffer is null.
abbrev pub AllMapped : List Iovec → Type 0
AllMapped [] = Unit
AllMapped (b ∷ bs) = (b.base ≢ 0) × AllMapped bs

-- A request with a header, buffers and a status byte, all of them mapped, of a type that the device
-- knows.
pub record IsProper (env : Env) (req : Req) (hdr : Iovec) (bufs : List Iovec) (last : Iovec)
    : Type 0 where
  pub split : req.gathered.iov ≡ hdr ∷ (bufs ++ (last ∷ []))
  pub counted : req.gathered.out + req.gathered.in_count ≡ length req.gathered.iov
  pub mapped : AllMapped req.gathered.iov
  pub known :
      let k = (env.header hdr.base).kind in
      (k ≡ blk_t_in) ⊎ (k ≡ blk_t_out) ⊎ (k ≡ blk_t_flush) ⊎ (k ≡ blk_t_get_id)

module _ {S : Type 0} where
  -- What the type of a request asks of the disk, with what becomes of it, and the result: a read or a
  -- write of the buffers at the sector, a flush, or the length of the serial number.
  abbrev pub Serves : Env → OutHdr → DiskImage S → List Iovec → DiskImage S × ℤ → Type 0
  Serves env hdr disk bufs out =
      ((hdr.kind ≡ blk_t_in) × (out ≡ transfer disk.read disk hdr.sector bufs))
      ⊎ ((hdr.kind ≡ blk_t_out) × (out ≡ transfer disk.write disk hdr.sector bufs))
      ⊎ ((hdr.kind ≡ blk_t_flush) × (out ≡ flush_with disk.flush disk))
      ⊎ ((hdr.kind ≡ blk_t_get_id)
          × (out ≡ (disk, pos (elim env.serial_len [ none ↦ blk_id_bytes | some n ↦ n ]))))

  -- What the guest finds when a request is answered: the disk did what was asked, the status byte
  -- says so, every buffer is unmapped, the head is published with the result as its length, and
  -- nothing else is taken or lost.
  pub record Answered (env : Env) (io : Io S) (v : Vring) (req : Req) (hdr : Iovec)
      (bufs : List Iovec) (last : Iovec) (io' : Io S) : Type 0 where
    pub result : ℤ
    pub served : Serves env (env.header hdr.base) io.disk bufs (io'.disk, result)
    pub ring : IsValid io'.vq (completed v req.head (to_u32 result))
    pub taken : io'.vq.last_avail_idx ≡ io.vq.last_avail_idx
    pub statuses : io'.statuses ≡ io.statuses ++ ((last.base, blk_s_ok) ∷ [])
    pub events : io'.events ≡ io.events ++ unmap_all req.gathered.iov
    pub reliable : IsReliable io'.disk
    pub io_done : io'.io_done ≡ io.io_done
