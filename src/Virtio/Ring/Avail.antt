-- ===== src/Virtio/Ring/Avail.antt =====
-- The available ring as a queue of heads, oldest first: virt_queue__available and virt_queue__pop.
use virtio_disk.Prelude.{
  ℕ, zero, suc, ◌+◌, ◌-◌, ◌%◌, ◌^◌, ◌≡◌, refl, ap, ◌≢◌, true, false, none, some, List, [], ◌∷◌,
  get_elem?, get_elem?-lt, arith, if◌then◌else◌, ◌⊎◌, inl, inr, ℕ_discrete,
}
use virtio_disk.Virtio.Ring.{VirtQueue, Vring, IsValid, add16, pop, available}

abbrev pub entry : Vring → ℕ → ℕ
entry v i = elim (get_elem? v.avail_ring (i % v.num)) [ none ↦ 0 | some h ↦ h ]

-- the `n` heads from free-running index `i` on
abbrev pub heads : Vring → ℕ → ℕ → List ℕ
heads v i zero = []
heads v i (suc n) = entry v i ∷ heads v (add16 i 1) n

-- how many requests the guest has put up and the device has not taken
abbrev pub backlog : VirtQueue → Vring → ℕ
backlog q v = (v.avail_idx + 2 ^ 16 - q.last_avail_idx) % 2 ^ 16

abbrev pub pending : VirtQueue → Vring → List ℕ
pending q v = heads v q.last_avail_idx (backlog q v)

heads_of_pos : (v : Vring) (i n : ℕ) → n ≢ 0 → heads v i n ≡ entry v i ∷ heads v (add16 i 1) (n - 1)
heads_of_pos v i zero h = absurd (h refl)
heads_of_pos v i (suc n) h = ap (λ k. heads v i (suc k)) (omega arith)

-- The guest's entry is read back from the ring.
ring-some :
    {q : VirtQueue} {v : Vring}
    → IsValid q v
    → get_elem? v.avail_ring (q.last_avail_idx % v.num) ≡ some (entry v q.last_avail_idx)
ring-some {q} {v} ok = ground (arith, get_elem?-lt v.avail_ring (q.last_avail_idx % v.num))

backlog_pos :
    {q : VirtQueue} {v : Vring} → IsValid q v → v.avail_idx ≢ q.last_avail_idx → backlog q v ≢ 0
backlog_pos {q} {v} ok ne = omega arith

backlog_step :
    {q : VirtQueue} {v : Vring}
    → IsValid q v
    → v.avail_idx ≢ q.last_avail_idx
    → (v.avail_idx + 2 ^ 16 - add16 q.last_avail_idx 1) % 2 ^ 16 ≡ backlog q v - 1
backlog_step ok ne = omega arith

-- the ring after virt_queue__available has told the guest where to notify next
abbrev pub announced : VirtQueue → Vring → Vring
announced q v = if q.use_event_idx then record v { avail_event = q.last_avail_idx } else v

pub available-IsValid :
    {q : VirtQueue} {v : Vring} → IsValid q v → IsValid (available q).1 (announced q v)
unfolding available
available-IsValid {q} {v} ok = ground arith

pub pop-IsValid :
    {q q' : VirtQueue} {v : Vring} {h : ℕ} → IsValid q v → pop q ≡ some (h, q') → IsValid q' v
unfolding pop
pop-IsValid {q} {v} ok e = ground (arith, ring-some ok)

heads-announced : (q : VirtQueue) (v : Vring) (i n : ℕ) → heads (announced q v) i n ≡ heads v i n
heads-announced q v i zero = refl
heads-announced q v i (suc n) = ground (arith, heads-announced q v (add16 i 1) n)

pub available-none :
    {q : VirtQueue} {v : Vring} → IsValid q v → backlog q v ≡ 0 → (available q).0 ≡ false
unfolding available
available-none {q} {v} ok e = ground arith

pub backlog-available :
    {q : VirtQueue} {v : Vring}
    → IsValid q v
    → backlog (available q).1 (announced q v) ≡ backlog q v
unfolding available
backlog-available {q} {v} ok = ground arith

-- the queue after virt_queue__available and virt_queue__pop
abbrev pub taken : VirtQueue → Vring → VirtQueue
taken q v = record q { vring = some (announced q v); last_avail_idx = add16 q.last_avail_idx 1 }

module _ {q : VirtQueue} {v : Vring} (ok : IsValid q v) (ne : backlog q v ≢ 0) where
  pub available-some : (available q).0 ≡ true
  unfolding available
  available-some = ground arith

  pub pop-available : pop (available q).1 ≡ some (entry v q.last_avail_idx, taken q v)
  unfolding available pop
  pop-available = ground (arith, ring-some ok)

  pub taken-IsValid : IsValid (taken q v) (announced q v)
  taken-IsValid = ground arith

  pub backlog-taken : backlog (taken q v) (announced q v) ≡ backlog q v - 1
  backlog-taken = ground (arith, backlog_step ok)

  pub pending-taken : pending q v ≡ entry v q.last_avail_idx ∷ pending (taken q v) (announced q v)
  pending-taken = rw (
    heads_of_pos v q.last_avail_idx (backlog q v) ne,
    backlog-taken,
    heads-announced q v (add16 q.last_avail_idx 1) (backlog q v - 1),
  )

-- What the guest has put up is taken in its order: if virt_queue__available says no, nothing is
-- pending; if it says yes, virt_queue__pop takes the oldest pending head, the others stay pending
-- in their order, and the queue stays valid.
pub pop-pending :
    {q : VirtQueue} {v : Vring}
    → IsValid q v
    → (((available q).0 ≡ false) × (pending q v ≡ []))
      ⊎ ((h : ℕ) × (q' : VirtQueue) × ((available q).0 ≡ true)
          × (pop (available q).1 ≡ some (h, q'))
          × (pending q v ≡ h ∷ pending q' (announced q v))
          × IsValid q' (announced q v))
pop-pending {q} {v} ok = elim (ℕ_discrete (backlog q v) 0) [
  | yes e ↦ inl (available-none ok e, ap (heads v q.last_avail_idx) e)
  | no ne ↦ inr (
    entry v q.last_avail_idx,
    taken q v,
    available-some ok ne,
    pop-available ok ne,
    pending-taken ok ne,
    taken-IsValid ok ne,
  )
]
