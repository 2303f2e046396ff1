-- ===== src/Virtio/Chain/Request.antt =====
-- virt_queue__get_head_iov against the chain, direct or indirect, that a head stands for.
use virtio_disk.Prelude.{
  ℕ, suc, ◌+◌, ◌/◌, ◌%◌, ◌^◌, ◌≤◌, ◌<◌, ◌≡◌, sym, ap, ◌∙◌, true, false, none, some, List, [], ◌∷◌,
  ◌++◌, map, append_assoc, append-nil, length, get_elem?, arith, if◌then◌else◌, ◌≢◌,
}
use virtio_disk.Prelude.Bits.{test}
use virtio_disk.Virtio.Ring.{Desc, Vring, VirtQueue, desc_f_write, desc_f_indirect, desc_f_next}
use virtio_disk.Virtio.Guest.{Guest, Iovec, Event, mapped, prot_read}
use virtio_disk.Virtio.Chain.{
  HeadIov, buffer, take_desc, walk, no_walk, max_iov, walk_indirect, get_head_iov, release,
}
use virtio_disk.Virtio.Chain.Walk.{ChainAt, take_all, walk-ChainAt, walk_endless}

-- descriptors that the device reads, and those that it writes
abbrev pub readable : List Desc → ℕ
readable [] = 0
readable (d ∷ ds) = if test d.flags desc_f_write then readable ds else suc (readable ds)

abbrev pub writable : List Desc → ℕ
writable [] = 0
writable (d ∷ ds) = if test d.flags desc_f_write then suc (writable ds) else writable ds

abbrev pub mappings : List Iovec → List Event
mappings = map λ b. mapped b.base b.len

module _ (g : Guest) where
  abbrev pub buffers : List Desc → List Iovec
  buffers = map (buffer g)

  iov-take_all : (w : HeadIov) (ds : List Desc) → (take_all g w ds).iov ≡ w.iov ++ buffers ds
  unfolding take_desc
  iov-take_all w [] = sym (append-nil w.iov)
  iov-take_all w (d ∷ ds) =
      iov-take_all (take_desc g w d) ds ∙ append_assoc w.iov (buffer g d ∷ []) (buffers ds)

  trace-take_all :
      (w : HeadIov) (ds : List Desc) → (take_all g w ds).trace ≡ w.trace ++ mappings (buffers ds)
  unfolding take_desc
  trace-take_all w [] = sym (append-nil w.trace)
  trace-take_all w (d ∷ ds) =
      trace-take_all (take_desc g w d) ds
      ∙ append_assoc w.trace (mappings (buffer g d ∷ [])) (mappings (buffers ds))

  out-take_all :
      (w : HeadIov) (ds : List Desc)
      → w.out + length ds < 2 ^ 16
      → (take_all g w ds).out ≡ w.out + readable ds
  unfolding take_desc
  out-take_all w [] h = omega arith
  out-take_all w (d ∷ ds) h = ground (arith, out-take_all (take_desc g w d) ds)

  in_count-take_all :
      (w : HeadIov) (ds : List Desc)
      → w.in_count + length ds < 2 ^ 16
      → (take_all g w ds).in_count ≡ w.in_count + writable ds
  unfolding take_desc
  in_count-take_all w [] h = omega arith
  in_count-take_all w (d ∷ ds) h = ground (arith, in_count-take_all (take_desc g w d) ds)

  -- where the table of an indirect descriptor is mapped
  abbrev pub table_at : Desc → ℕ
  table_at d = g.map_guest_range d.addr d.len prot_read

  -- `ds` are the descriptors of the request with a given head, whose own descriptor is `d`. The table
  -- of an indirect one can be mapped.
  pub data Request (v : Vring) (head : ℕ) (d : Desc) (ds : List Desc) : Type 0 where
    direct :
        get_elem? v.desc head ≡ some d
        → test d.flags desc_f_indirect ≡ false
        → ChainAt v.desc (v.num % 2 ^ 16) head ds
        → Request v head d ds
    indirect :
        get_elem? v.desc head ≡ some d
        → test d.flags desc_f_indirect ≡ true
        → table_at d ≢ 0
        → ChainAt (g.table (table_at d)) (d.len / 16 % 2 ^ 16) 0 ds
        → Request v head d ds

  -- the calls that map and unmap the table of an indirect descriptor
  abbrev pub opened : Desc → List Event
  opened d = if test d.flags desc_f_indirect then mapped (table_at d) d.len ∷ [] else []

  abbrev pub closed : Desc → List Event
  closed d = if test d.flags desc_f_indirect then release (table_at d) d.len else []

  -- What virt_queue__get_head_iov makes of a request: its buffers in order, their numbers, and
  -- each buffer mapped once, between the mapping and the release of an indirect table.
  pub record Gathered (d : Desc) (ds : List Desc) (w : HeadIov) : Type 0 where
    pub iov : w.iov ≡ buffers ds
    pub out : w.out ≡ readable ds
    pub in_count : w.in_count ≡ writable ds
    pub trace : w.trace ≡ (opened d ++ mappings (buffers ds)) ++ closed d

  walk-max_iov :
      {desc : List Desc} {max_idx i : ℕ} {ds : List Desc} (tr : List Event)
      → ChainAt desc max_idx i ds
      → length ds ≤ 256
      → (w : HeadIov) × (walk g max_iov desc max_idx i (no_walk g tr) ≡ some w)
        × (w.iov ≡ buffers ds)
        × (w.out ≡ readable ds)
        × (w.in_count ≡ writable ds)
        × (w.trace ≡ tr ++ mappings (buffers ds))
  walk-max_iov {ds} tr c h = (
    take_all g (no_walk g tr) ds,
    walk-ChainAt g max_iov (no_walk g tr) c h,
    iov-take_all (no_walk g tr) ds,
    omega (arith, out-take_all (no_walk g tr) ds),
    omega (arith, in_count-take_all (no_walk g tr) ds),
    trace-take_all (no_walk g tr) ds,
  )

  -- On a queue that is set up, virt_queue__get_head_iov succeeds on every request of at most 256
  -- descriptors, direct or indirect, with a table that can be mapped: it yields the buffers in the order of the chain, the numbers
  -- of those to read and to write, and maps each once, between the mapping and the release of an
  -- indirect table.
  pub get_head_iov-Request :
      (q : VirtQueue) (head : ℕ) {v : Vring} {d : Desc} {ds : List Desc}
      → q.vring ≡ some v
      → Request v head d ds
      → length ds ≤ 256
      → (w : HeadIov) × (get_head_iov g q head ≡ some w) × Gathered d ds w
  unfolding get_head_iov walk_indirect
  get_head_iov-Request q head {d} {ds} ready (direct e plain c) h =
      let (w, run, i, o, n, t) = walk-max_iov [] c h in
      (
        w,
        ground arith,
        record {
          iov = i;
          out = o;
          in_count = n;
          trace = rw plain (t ∙ sym (append-nil (mappings (buffers ds))));
        },
      )
  get_head_iov-Request q head {d} {ds} ready (indirect e ind there c) h =
      let (w, run, i, o, n, t) = walk-max_iov (mapped (table_at d) d.len ∷ []) c h in
      (
        record w { trace = w.trace ++ release (table_at d) d.len },
        ground arith,
        record {
          iov = i;
          out = o;
          in_count = n;
          trace = rw ind (ap (λ ev. ev ++ release (table_at d) d.len) t);
        },
      )

  -- A direct chain whose descriptors lead on for ever inside the table, as a loop does, writes past
  -- the 256 entries of `iov[]`: nothing in virt_queue__get_head_iov stops it.
  pub get_head_iov_endless {ℓ} :
      (q : VirtQueue) (head : ℕ) (v : Vring) (d : Desc) (P : ℕ → Type ℓ)
      → q.vring ≡ some v
      → get_elem? v.desc head ≡ some d
      → test d.flags desc_f_indirect ≡ false
      → ((i : ℕ)
          → P i
          → (d : Desc) × (get_elem? v.desc i ≡ some d)
            × (test d.flags desc_f_next ≡ true)
            × (d.next < v.num % 2 ^ 16)
            × P d.next)
      → P head
      → get_head_iov g q head ≡ none
  unfolding get_head_iov
  get_head_iov_endless q head v d P ready e plain on p =
      ground (arith, walk_endless g v.desc (v.num % 2 ^ 16) P on max_iov head (no_walk g []) p)
