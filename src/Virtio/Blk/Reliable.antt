-- ===== src/Virtio/Blk/Reliable.antt =====
-- A disk that answers at once and meets no error, as virtio_blk_do_io_request sees it.
use virtio_disk.Prelude.{ℕ, ◌≡◌, refl, true, false, Option, none, some, List}
use virtio_disk.Prelude.Int.{ℤ, is_neg}
use virtio_disk.Virtio.Guest.{Iovec}
use virtio_disk.Disk.Image.{DiskImage, transfer, finish, flush_with}

module _ {S : Type 0} where
  abbrev pub NoError : Option (S → ℕ → List Iovec → S × ℤ) → Type 0
  NoError none = Unit
  NoError (some op) = (s : S) (sector : ℕ) (iov : List Iovec) → is_neg (op s sector iov).1 ≡ false

  abbrev pub NoFlushError : Option (S → S × ℤ) → Type 0
  NoFlushError none = Unit
  NoFlushError (some op) = (s : S) → is_neg (op s).1 ≡ false

  -- A disk that answers at once, is wired to virtio_blk_complete, and meets no error.
  pub record IsReliable (disk : DiskImage S) : Type 0 where
    pub sync : disk.async ≡ false
    pub wired : disk.has_callback ≡ true
    pub reads : NoError disk.read
    pub writes : NoError disk.write
    pub flushes : NoFlushError disk.flush
    pub syncs : (s : S) → is_neg (disk.fsync s).1 ≡ false

  -- the disk in a later state
  abbrev pub later : DiskImage S → S → DiskImage S
  later disk s = record disk { state = s }

  later-IsReliable : {disk : DiskImage S} (s : S) → IsReliable disk → IsReliable (later disk s)
  later-IsReliable s r = record {
    sync = r.sync;
    wired = r.wired;
    reads = r.reads;
    writes = r.writes;
    flushes = r.flushes;
    syncs = r.syncs;
  }

  -- A transfer without error calls back with its result, with a reliable disk left behind.
  pub record CallsBack (r : DiskImage S × ℤ × Option ℤ) (out : DiskImage S × ℤ) : Type 0 where
    pub same : out ≡ (r.0, r.1)
    pub called : r.2 ≡ some r.1
    pub fine : is_neg r.1 ≡ false
    pub reliable : IsReliable r.0

  pub finish-CallsBack :
      {disk : DiskImage S} (op : Option (S → ℕ → List Iovec → S × ℤ)) (sector : ℕ)
      (iov : List Iovec)
      → IsReliable disk
      → NoError op
      → CallsBack (finish (transfer op disk sector iov)) (transfer op disk sector iov)
  finish-CallsBack {disk} none sector iov r h = record {
    same = refl;
    called = rw (r.sync, r.wired);
    fine = refl;
    reliable = r;
  }
  finish-CallsBack {disk} (some op) sector iov r h = record {
    same = refl;
    called = rw (h disk.state sector iov, r.sync, r.wired);
    fine = h disk.state sector iov;
    reliable = later-IsReliable (op disk.state sector iov).0 r;
  }

  pub flush_with-IsReliable :
      {disk : DiskImage S} (op : Option (S → S × ℤ))
      → IsReliable disk
      → NoFlushError op
      → IsReliable (flush_with op disk).0 × (is_neg (flush_with op disk).1 ≡ false)
  flush_with-IsReliable {disk} none r h =
      (later-IsReliable (disk.fsync disk.state).0 r, r.syncs disk.state)
  flush_with-IsReliable {disk} (some op) r h = (later-IsReliable (op disk.state).0 r, h disk.state)
