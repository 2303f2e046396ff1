-- ===== src/Virtio/Ring/Used.antt =====
-- The used ring as a log of completions: virt_queue__set_used_elem.
use virtio_disk.Prelude.{
  ℕ, zero, suc, ◌%◌, ◌^◌, ◌<◌, ◌≡◌, refl, sym, ap, ◌≢◌, none, some, List, [], ◌∷◌, ◌++◌, get_elem?,
  set, length-set, get_elem?-set_self, get_elem?-set_ne, arith,
}
use mathlib.Core.Path.{ap₂}
use virtio_disk.Virtio.Ring.Avail.{entry, heads, pending, backlog}
use virtio_disk.Virtio.Ring.{VirtQueue, Vring, UsedElem, IsValid, add16, set_used_elem}

abbrev pub used_elem : ℕ → ℕ → UsedElem
used_elem head len = record { id = head; len = len }

abbrev pub used_entry : Vring → ℕ → UsedElem
used_entry v i = elim (get_elem? v.used_ring (i % v.num)) [ none ↦ used_elem 0 0 | some e ↦ e ]

-- the `n` completions from free-running index `i` on
abbrev pub published : Vring → ℕ → ℕ → List UsedElem
published v i zero = []
published v i (suc n) = used_entry v i ∷ published v (add16 i 1) n

-- the ring after a completion
abbrev pub completed : Vring → ℕ → ℕ → Vring
completed v head len = record v {
  used_ring = set v.used_ring (add16 v.used_idx 0 % v.num) (used_elem head len);
  used_idx = add16 v.used_idx 1;
}

pub set_used_elem-completed :
    {q : VirtQueue} {v : Vring} (head len : ℕ)
    → q.vring ≡ some v
    → set_used_elem q head len ≡ some (record q { vring = some (completed v head len) })
unfolding set_used_elem
set_used_elem-completed head len e = ground arith

pub completed-IsValid :
    {q : VirtQueue} {v : Vring} (head len : ℕ)
    → IsValid q v
    → IsValid (record q { vring = some (completed v head len) }) (completed v head len)
completed-IsValid {q} {v} head len ok =
    ground (arith, length-set v.used_ring (add16 v.used_idx 0 % v.num) (used_elem head len))

module _ {q : VirtQueue} {v : Vring} (head len : ℕ) (ok : IsValid q v) where
  slot : add16 v.used_idx 0 ≡ v.used_idx
  slot = omega arith

  pub used_entry_self : used_entry (completed v head len) v.used_idx ≡ used_elem head len
  used_entry_self = rw slot (
      ap (λ o. elim o [ none ↦ used_elem 0 0 | some e ↦ e ])
        (get_elem?-set_self v.used_ring (v.used_idx % v.num) (used_elem head len) (omega arith)))

  pub used_entry-other :
      (i : ℕ) → i % 256 ≢ v.used_idx % 256 → used_entry (completed v head len) i ≡ used_entry v i
  used_entry-other i ne =
      let apart : v.used_idx % v.num ≢ i % v.num = rw ok.num_256 (λ e. ne (sym e)) in
      rw slot (
        ap (λ o. elim o [ none ↦ used_elem 0 0 | some e ↦ e ])
          (get_elem?-set_ne v.used_ring (used_elem head len) apart))

  -- Behind fewer than 256 older completions, the new one comes last and leaves those as they are.
  published-completed :
      (i n : ℕ)
      → i < 2 ^ 16
      → n < 256
      → add16 i n ≡ v.used_idx
      → published (completed v head len) i (suc n) ≡ published v i n ++ (used_elem head len ∷ [])
  published-completed i zero w h e =
      let now : i ≡ v.used_idx = omega arith in ap (λ x. x ∷ []) (rw now used_entry_self)
  published-completed i (suc n) w h e =
      ap₂ ◌∷◌ (used_entry-other i (omega arith))
        (published-completed (add16 i 1) n (omega arith) (omega arith) (omega arith))

pub heads-completed :
    (v : Vring) (head len i n : ℕ) → heads (completed v head len) i n ≡ heads v i n
heads-completed v head len i zero = refl
heads-completed v head len i (suc n) =
    ap (λ hs. entry v i ∷ hs) (heads-completed v head len (add16 i 1) n)

-- the queue after a completion
abbrev pub returned : VirtQueue → Vring → ℕ → ℕ → VirtQueue
returned q v head len = record q { vring = some (completed v head len) }

-- virt_queue__set_used_elem appends one element to what the device has published since index `i`,
-- behind fewer than 256 others, which it keeps in their order; it moves the used index on by one,
-- takes nothing from the pending requests, and keeps the queue valid.
pub set_used_elem-published :
    {q : VirtQueue} {v : Vring} (head len i n : ℕ)
    → IsValid q v
    → i < 2 ^ 16
    → n < 256
    → add16 i n ≡ v.used_idx
    → (set_used_elem q head len ≡ some (returned q v head len))
      × (published (completed v head len) i (suc n) ≡ published v i n ++ (used_elem head len ∷ []))
      × ((completed v head len).used_idx ≡ add16 i (suc n))
      × (pending (returned q v head len) (completed v head len) ≡ pending q v)
      × IsValid (returned q v head len) (completed v head len)
set_used_elem-published {q} {v} head len i n ok w h e = (
  set_used_elem-completed head len ok.ready,
  published-completed head len ok i n w h e,
  omega arith,
  heads-completed v head len q.last_avail_idx (backlog q v),
  completed-IsValid head len ok,
)
