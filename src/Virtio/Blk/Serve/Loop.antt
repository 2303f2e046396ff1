-- ===== src/Virtio/Blk/Serve/Loop.antt =====
-- virtio_blk_do_io answers everything that is pending, in order.
use virtio_disk.Prelude.{ℕ, ◌+◌, ◌-◌, ◌%◌, ◌^◌, ◌≤◌, ◌<◌, ◌≡◌, ◌≢◌, List, [], ◌∷◌, ◌++◌, map, arith}
use virtio_disk.Virtio.Guest.{Guest}
use virtio_disk.Virtio.Ring.{Vring, VirtQueue, IsValid, add16}
use virtio_disk.Virtio.Ring.Avail.{entry, backlog, pending, announced}
use virtio_disk.Virtio.Ring.Used.{completed, used_entry, published}
use virtio_disk.Virtio.Blk.{Env, Io, blk_s_ok}
use virtio_disk.Virtio.Blk.Reliable.{IsReliable}
use virtio_disk.Virtio.Blk.Servable.{ok_at}

avail_idx-announced : (q : VirtQueue) (v : Vring) → (announced q v).avail_idx ≡ v.avail_idx
avail_idx-announced q v = ground arith

module _ {S : Type 0} (env : Env) where
  -- One round of the loop on the oldest request.
  record Round (io : Io S) (v : Vring) (place : ℕ) (io' : Io S) : Type 0 where
    len : ℕ
    ring : IsValid io'.vq (completed (announced io.vq v) (entry v io.vq.last_avail_idx) len)
    taken_one : io'.vq.last_avail_idx ≡ add16 io.vq.last_avail_idx 1
    one_status : io'.statuses ≡ io.statuses ++ ((place, blk_s_ok) ∷ [])
    reliable : IsReliable io'.disk
    io_done : io'.io_done ≡ io.io_done

  -- What a run of the loop has done: nothing is pending any more; from the used index at its start
  -- on the heads that were pending are published, each once and in their order; older entries of
  -- the used ring stay, as far as the new ones leave them room; and each request has its status
  -- byte, which says that it succeeded.
  pub record Outcome (io : Io S) (v : Vring) (n : ℕ) (places : List ℕ) (io' : Io S) (v' : Vring)
      : Type 0 where
    pub ring : IsValid io'.vq v'
    pub idle : backlog io'.vq v' ≡ 0
    pub answered : map (λ e. e.id) (published v' v.used_idx n) ≡ pending io.vq v
    pub kept :
        (i : ℕ)
        → i < 2 ^ 16
        → n ≤ (i + 2 ^ 16 - v.used_idx) % 256
        → used_entry v' i ≡ used_entry v i
    pub statuses : io'.statuses ≡ io.statuses ++ ok_at places

  module _ (io io1 : Io S) {v : Vring} {p : ℕ} (ok : IsValid io.vq v) (ne : backlog io.vq v ≢ 0)
      (round : Round io v p io1) where
    -- the ring after the round
    abbrev after_round : Vring
    after_round = completed (announced io.vq v) (entry v io.vq.last_avail_idx) round.len
