-- ===== src/Virtio/Blk/Complete.antt =====
-- virtio_blk_complete: what the guest finds when a request is done.
use virtio_disk.Prelude.{
  ℕ, ◌+◌, ◌-◌, ◌≡◌, refl, ◌≢◌, Bool, true, false, not, some, [], ◌∷◌, ◌++◌, take, get_elem?, arith,
  inl, inr, if◌then◌else◌, Bool-cases, ne→==,
}
use virtio_disk.Prelude.Bits.{test}
use virtio_disk.Prelude.Int.{ℤ, to_u32}
use virtio_disk.Virtio.Guest.{Iovec}
use virtio_disk.Virtio.Ring.{VirtQueue, Vring, IsValid, should_signal, avail_f_no_interrupt}
use virtio_disk.Virtio.Ring.Used.{completed, returned, set_used_elem-completed, completed-IsValid}
use virtio_disk.Virtio.Blk.{Env, Io, Req, status_of, unmap_all, complete}

-- `q'` has the ring of `q` and has taken as many requests.
pub record SameRing (q q' : VirtQueue) : Type 0 where
  pub vring : q'.vring ≡ q.vring
  pub taken : q'.last_avail_idx ≡ q.last_avail_idx

pub SameRing-IsValid : {q q' : VirtQueue} {v : Vring} → SameRing q q' → IsValid q v → IsValid q' v
SameRing-IsValid same ok = ground arith

pub should_signal-SameRing :
    (need_event : ℕ → ℕ → ℕ → Bool) (q : VirtQueue) {v : Vring}
    → q.vring ≡ some v
    → (b : Bool) × (q' : VirtQueue) × (should_signal need_event q ≡ some (b, q')) × SameRing q q'
unfolding should_signal
should_signal-SameRing need_event q {v} e = elim (Bool-cases q.use_event_idx) [
  | inl on ↦ elim (Bool-cases (need_event v.used_event v.used_idx q.last_used_signalled)) [
    | inl yes' ↦ (true, record q { last_used_signalled = v.used_idx }, ground arith, ground arith)
    | inr no' ↦ (false, q, ground arith, ground arith)
  ]
  | inr off ↦ (not (test v.avail_flags avail_f_no_interrupt), q, ground arith, ground arith)
]

-- What completing a request with a result does: the status byte is the last buffer's and says
-- whether the result is an error, the counted buffers are unmapped, and the head is published with the
-- result as its length. Nothing is taken from the queue, and the disk is left alone.
pub record Completed {S : Type 0} (io : Io S) (v : Vring) (req : Req) (len : ℤ) (last : Iovec)
    (io' : Io S) : Type 0 where
  pub ring : IsValid io'.vq (completed v req.head (to_u32 len))
  pub taken : io'.vq.last_avail_idx ≡ io.vq.last_avail_idx
  pub statuses : io'.statuses ≡ io.statuses ++ ((last.base, status_of len) ∷ [])
  pub events :
      io'.events
      ≡ io.events ++ unmap_all (take (req.gathered.out + req.gathered.in_count) req.gathered.iov)
  pub disk : io'.disk ≡ io.disk
  pub io_done : io'.io_done ≡ io.io_done

-- On a valid queue, and for a request whose counted buffers are not none and whose last is there
-- and mapped, virtio_blk_complete succeeds: it writes the status byte of the last buffer by the sign
-- of the result, unmaps the counted buffers in order, and publishes the head with the result as its
-- length; the queue stays valid, nothing is taken from it, and the disk is left alone.
pub complete-Completed :
    {S : Type 0} (env : Env) (io : Io S) (req : Req) (len : ℤ) {v : Vring} {last : Iovec}
    → IsValid io.vq v
    → req.gathered.out + req.gathered.in_count ≢ 0
    → get_elem? req.gathered.iov (req.gathered.out + req.gathered.in_count - 1) ≡ some last
    → last.base ≢ 0
    → (io' : Io S) × (complete env io req len ≡ some io') × Completed io v req len last io'
unfolding complete
complete-Completed env io req len {v} {last} ok some_iov e there =
    let q = returned io.vq v req.head (to_u32 len) in
    let valid = completed-IsValid req.head (to_u32 len) ok in
    let (b, q', asks, same) = should_signal-SameRing env.need_event q valid.ready in
    (
      record io {
        vq = q';
        statuses = io.statuses ++ ((last.base, status_of len) ∷ []);
        events =
            io.events
            ++ unmap_all (take (req.gathered.out + req.gathered.in_count) req.gathered.iov);
        signals = if b then io.signals + 1 else io.signals;
      },
      rw (
        ne→== _ 0 some_iov,
        e,
        ne→== last.base 0 there,
        set_used_elem-completed {q = io.vq} req.head (to_u32 len) ok.ready,
        asks,
      ),
      record {
        ring = SameRing-IsValid same valid;
        taken = same.taken;
        statuses = refl;
        events = refl;
        disk = refl;
        io_done = refl;
      },
    )
