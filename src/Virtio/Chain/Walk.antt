-- ===== src/Virtio/Chain/Walk.antt =====
-- The loop of virt_queue__get_head_iov against the chains of a descriptor table.
use virtio_disk.Prelude.{
  ℕ, zero, suc, ◌≤◌, ◌<◌, ◌≡◌, refl, ◌⊎◌, true, false, none, some, List, [], ◌∷◌, length, get_elem?,
  arith,
}
use virtio_disk.Prelude.Bits.{test}
use virtio_disk.Virtio.Ring.{Desc, desc_f_next}
use virtio_disk.Virtio.Guest.{Guest}
use virtio_disk.Virtio.Chain.{HeadIov, next_desc, take_desc, walk}

-- A descriptor ends its chain if it says so, or if it leads past the table's end.
abbrev pub Ends : ℕ → Desc → Type 0
Ends max_idx d = (test d.flags desc_f_next ≡ false) ⊎ (max_idx ≤ d.next)

-- `ds` are the descriptors of the chain that starts at an index.
pub data ChainAt (desc : List Desc) (max_idx : ℕ) : ℕ → List Desc → Type 0 where
  last :
      {i : ℕ} {d : Desc}
      → get_elem? desc i ≡ some d
      → Ends max_idx d
      → ChainAt desc max_idx i (d ∷ [])
  link :
      {i j : ℕ} {d : Desc} {ds : List Desc}
      → get_elem? desc i ≡ some d
      → test d.flags desc_f_next ≡ true
      → d.next ≡ j
      → j < max_idx
      → ChainAt desc max_idx j ds
      → ChainAt desc max_idx i (d ∷ ds)

next_desc_end : (d : Desc) (max_idx : ℕ) → Ends max_idx d → next_desc d max_idx ≡ max_idx
unfolding next_desc
next_desc_end d max_idx h = ground arith

next_desc_link :
    (d : Desc) (max_idx : ℕ)
    → test d.flags desc_f_next ≡ true
    → d.next < max_idx
    → next_desc d max_idx ≡ d.next
unfolding next_desc
next_desc_link d max_idx h lt = ground arith

module _ (g : Guest) where
  abbrev pub take_all : HeadIov → List Desc → HeadIov
  take_all w [] = w
  take_all w (d ∷ ds) = take_all (take_desc g w d) ds

  module _ {desc : List Desc} {max_idx : ℕ} where
    pub walk-ChainAt :
        {i : ℕ} {ds : List Desc} (room : ℕ) (w : HeadIov)
        → ChainAt desc max_idx i ds
        → length ds ≤ room
        → walk g room desc max_idx i w ≡ some (take_all w ds)
    unfolding walk
    walk-ChainAt zero w (last e end) h = absurd (omega arith)
    walk-ChainAt zero w (link e f n lt c) h = absurd (omega arith)
    walk-ChainAt (suc room) w (last {d} e end) h = ground (arith, next_desc_end d max_idx end)
    walk-ChainAt (suc room) w (link {d} {ds} e f n lt c) h =
        ground (arith, next_desc_link d max_idx f, walk-ChainAt room (take_desc g w d) c)

  -- Where every descriptor of a set leads on to one of the set, the walk comes to no end: it
  -- fills whatever room it is given and writes past it.
  pub walk_endless {ℓ} :
      (desc : List Desc) (max_idx : ℕ) (P : ℕ → Type ℓ)
      → ((i : ℕ)
          → P i
          → (d : Desc) × (get_elem? desc i ≡ some d)
            × (test d.flags desc_f_next ≡ true)
            × (d.next < max_idx)
            × P d.next)
      → (room i : ℕ) (w : HeadIov) → P i
      → walk g room desc max_idx i w ≡ none
  unfolding walk
  walk_endless desc max_idx P on zero i w p = refl
  walk_endless desc max_idx P on (suc room) i w p =
      let (d, e, f, lt, p') = on i p in
      ground (
        arith,
        next_desc_link d max_idx f lt,
        walk_endless desc max_idx P on room d.next (take_desc g w d) p',
      )
