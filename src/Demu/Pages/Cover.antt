-- ===== src/Demu/Pages/Cover.antt =====
-- Which pages the ranges of demu.c take.
use virtio_disk.Prelude.{
  ℕ, zero, suc, ◌+◌, ◌-◌, ◌*◌, ◌/◌, ◌%◌, ◌^◌, ◌≤◌, ◌<◌, ◌≡◌, ◌≢◌, refl, sym, ap, ◌∙◌, Bool, true,
  false, some, List, [], ◌∷◌, map, length, get_elem?, ◌==◌, if◌then◌else◌, arith, inl, inr,
  Bool-cases,
}
use virtio_disk.Prelude.Int.{ℤ}
use virtio_disk.Virtio.Guest.{Prot}
use virtio_disk.Demu.Pages.{
  target_page, is_grant, round_up, PageCall, Xen, detect_mappings_model, by_grants, frames_from,
  page_count, map_guest_range, unmap_guest_range,
}

-- The list is, in order, that of the pages from that of the first byte to that of the last byte.
abbrev pub Covers : ℕ → ℕ → List ℕ → Type 0
Covers first size frames =
    (first / target_page + length frames ≡ (first + size - 1) / target_page + 1)
    × ((k : ℕ) → k < length frames → get_elem? frames k ≡ some (first / target_page + k))

abbrev pub frames_of : PageCall → List ℕ
frames_of (PageCall.mapped_frames frames prot ptr) = frames
frames_of (PageCall.mapped_grants frames prot ptr) = frames
frames_of (PageCall.unmapped_frames ptr n) = []
frames_of (PageCall.unmapped_grants ptr n) = []

-- the call that undoes a call
abbrev pub undone : PageCall → PageCall
undone (PageCall.mapped_frames frames prot ptr) = PageCall.unmapped_frames ptr (length frames)
undone (PageCall.mapped_grants frames prot ptr) = PageCall.unmapped_grants ptr (length frames)
undone (PageCall.unmapped_frames ptr n) = PageCall.unmapped_frames ptr n
undone (PageCall.unmapped_grants ptr n) = PageCall.unmapped_grants ptr n

page_count_lem :
    (addr size : ℕ)
    → size ≤ 2 ^ 43
    → page_count addr size ≡ (size + addr % target_page + 4095) / target_page
unfolding page_count round_up
page_count_lem addr size small = omega arith

length-frames_from : (first n : ℕ) → length (frames_from first n) ≡ n
unfolding frames_from
length-frames_from first zero = refl
length-frames_from first (suc n) = ap suc (length-frames_from (suc first) n)

length-map_word : (xs : List ℕ) → length (map (λ f. f % 2 ^ 32) xs) ≡ length xs
length-map_word [] = refl
length-map_word (x ∷ xs) = ap suc (length-map_word xs)

get_elem?-frames_from :
    (first n k : ℕ) → k < n → get_elem? (frames_from first n) k ≡ some (first + k)
unfolding frames_from
get_elem?-frames_from first zero k h = absurd (omega arith)
get_elem?-frames_from first (suc n) zero h = ap some (omega arith)
get_elem?-frames_from first (suc n) (suc k) h =
    get_elem?-frames_from (suc first) n k (omega arith) ∙ ap some (omega arith)

get_elem?-map_word :
    (xs : List ℕ) (k v : ℕ)
    → get_elem? xs k ≡ some v
    → get_elem? (map (λ f. f % 2 ^ 32) xs) k ≡ some (v % 2 ^ 32)
get_elem?-map_word [] k v h = ground arith
get_elem?-map_word (x ∷ xs) zero v h = ground arith
get_elem?-map_word (x ∷ xs) (suc k) v h = get_elem?-map_word xs k v h

-- the number of pages, as the two ends give it
ends :
    (addr size : ℕ)
    → 0 < size
    → addr / target_page + (size + addr % target_page + 4095) / target_page
      ≡ (addr + size - 1) / target_page + 1
ends addr size some_bytes = omega arith

frames-Covers :
    (first size n : ℕ)
    → 0 < size
    → n ≡ (size + first % target_page + 4095) / target_page
    → Covers first size (frames_from (first / target_page) n)
frames-Covers first size n some_bytes e = (
  omega (arith, length-frames_from (first / target_page) n, ends first size some_bytes, e),
  λ k h.
      get_elem?-frames_from (first / target_page) n k
        (omega (arith, length-frames_from (first / target_page) n)),
)

grants-Covers :
    (first size n : ℕ)
    → 0 < size
    → first + size ≤ 2 ^ 44
    → n ≡ (size + first % target_page + 4095) / target_page
    → Covers first size (map (λ f. f % 2 ^ 32) (frames_from (first / target_page) n))
grants-Covers first size n some_bytes small e =
    let xs : List ℕ = frames_from (first / target_page) n in
    let len : length (map (λ f. f % 2 ^ 32) xs) ≡ n =
      length-map_word xs ∙ length-frames_from (first / target_page) n in
    let both = ends first size some_bytes in
    (
      omega (arith, len, both, e),
      λ k h.
          let word : (first / target_page + k) % 2 ^ 32 ≡ first / target_page + k =
            omega (arith, len, both, e, h) in
          get_elem?-map_word xs k (first / target_page + k)
            (get_elem?-frames_from (first / target_page) n k (omega (arith, len, h)))
          ∙ ap some word,
    )

abbrev pub pointer_of : PageCall → ℕ
pointer_of (PageCall.mapped_frames frames prot ptr) = ptr
pointer_of (PageCall.mapped_grants frames prot ptr) = ptr
pointer_of (PageCall.unmapped_frames ptr n) = ptr
pointer_of (PageCall.unmapped_grants ptr n) = ptr

abbrev pub takes_grants : PageCall → Bool
takes_grants (PageCall.mapped_frames frames prot ptr) = false
takes_grants (PageCall.mapped_grants frames prot ptr) = true
takes_grants (PageCall.unmapped_frames ptr n) = false
takes_grants (PageCall.unmapped_grants ptr n) = true

-- What is returned, of the call that was made.
abbrev pub host_address : ℕ → PageCall → ℕ
host_address addr call = if pointer_of call == 0 then 0 else pointer_of call + addr % target_page

module _ (xen : Xen) (use_gnttab : ℤ) (addr size : ℕ) (prot : Prot) where
  the_model : ℤ
  the_model = detect_mappings_model use_gnttab addr

  -- The call that is made, by the kind of the address.
  the_call : Bool → PageCall
  the_call true =
      let grants : List ℕ =
        map (λ f. f % 2 ^ 32) (frames_from (addr % 2 ^ 63 / target_page) (page_count addr size)) in
      PageCall.mapped_grants grants prot (xen.grants_map grants prot)
  the_call false =
      let frames : List ℕ = frames_from (addr / target_page) (page_count addr size) in
      PageCall.mapped_frames frames prot (xen.foreign_map frames prot)

  map_guest_range-call :
      (b : Bool)
      → is_grant addr ≡ b
      → by_grants the_model ≡ b
      → xen.has_memory (page_count addr size) ≡ true
      → map_guest_range xen use_gnttab addr size prot
        ≡ some (the_model, host_address addr (the_call b), the_call b ∷ [])
  unfolding map_guest_range the_model the_call
  map_guest_range-call true kind model memory = rw (kind, model, memory) refl
  map_guest_range-call false kind model memory = rw (kind, model, memory) refl

  -- A range of at least one byte, that lies in the first 2 ^ 43 bytes beside the bit of grants, is
  -- mapped by one call, if malloc succeeds and the address is of the model in use. The call takes
  -- the grants, or the frames, of exactly the pages that the range meets, and the result is the
  -- host address of the first byte, or null if the call fails.
  pub map_guest_range-Covers :
      0 < size
      → addr < 2 ^ 64
      → addr % 2 ^ 63 + size ≤ 2 ^ 43
      → by_grants (detect_mappings_model use_gnttab addr) ≡ is_grant addr
      → ((n : ℕ) → xen.has_memory n ≡ true)
      → (call : PageCall) × (map_guest_range xen use_gnttab addr size prot
          ≡ some (detect_mappings_model use_gnttab addr, host_address addr call, call ∷ []))
        × (takes_grants call ≡ is_grant addr)
        × Covers (addr % 2 ^ 63) size (frames_of call)
  unfolding the_model the_call
  map_guest_range-Covers some_bytes word small model memory =
      let same : addr % 2 ^ 63 % target_page ≡ addr % target_page = omega arith in
      let pages : page_count addr size ≡ (size + addr % 2 ^ 63 % target_page + 4095) / target_page =
        rw same (page_count_lem addr size (omega arith)) in
      elim (Bool-cases (is_grant addr)) [
        | inl e ↦ (
          the_call true,
          map_guest_range-call true e (model ∙ e) (memory _),
          sym e,
          grants-Covers (addr % 2 ^ 63) size (page_count addr size) some_bytes (omega arith) pages,
        )
        | inr e ↦
            let low : addr % 2 ^ 63 ≡ addr = ground arith in
            let count : page_count addr size ≡ (size + addr % target_page + 4095) / target_page =
              page_count_lem addr size (omega arith) in
            (
              the_call false,
              map_guest_range-call false e (model ∙ e) (memory _),
              sym e,
              rw low (frames-Covers addr size (page_count addr size) some_bytes count),
            )
      ]

  -- what a run that made one call says of it
  map_guest_range-ran :
      (b : Bool) (model : ℤ) (host : ℕ) (call : PageCall)
      → by_grants the_model ≡ b
      → map_guest_range xen use_gnttab addr size prot ≡ some (model, host, call ∷ [])
      → (model ≡ the_model) × (call ≡ the_call b) × (host ≡ host_address addr (the_call b))
  unfolding map_guest_range the_model the_call
  map_guest_range-ran true model host call kind ran = ground arith
  map_guest_range-ran false model host call kind ran = ground arith

  page_count-offset :
      (host base : ℕ)
      → host ≡ base + addr % target_page
      → base % target_page ≡ 0
      → (page_count host size ≡ page_count addr size) × (host / target_page * target_page ≡ base)
  unfolding page_count
  page_count-offset host base e aligned =
      let same : host % target_page ≡ addr % target_page = omega arith in
      (rw same refl, omega arith)

  host-base :
      (host : ℕ) (call : PageCall)
      → host ≢ 0
      → host ≡ host_address addr call
      → host ≡ pointer_of call + addr % target_page
  host-base host call mapped e = ground arith

  unmap-call :
      (b : Bool) (host : ℕ)
      → by_grants the_model ≡ b
      → host ≡ pointer_of (the_call b) + addr % target_page
      → pointer_of (the_call b) % target_page ≡ 0
      → unmap_guest_range the_model host size ≡ undone (the_call b) ∷ []
  unfolding unmap_guest_range the_call
  unmap-call true host kind e aligned =
      let (count, base) = page_count-offset host (pointer_of (the_call true)) e aligned in
      let len = length-frames_from (addr % 2 ^ 63 / target_page) (page_count addr size) in
      rw
        (
          kind,
          count,
          base,
          length-map_word (frames_from (addr % 2 ^ 63 / target_page) (page_count addr size)),
          len,
        )
        refl
  unmap-call false host kind e aligned =
      let (count, base) = page_count-offset host (pointer_of (the_call false)) e aligned in
      rw (kind, count, base, length-frames_from (addr / target_page) (page_count addr size)) refl

  -- What was mapped, unless it failed, is unmapped by the call that undoes it: the same pages, from
  -- the same pointer, by the same kind of call. The pointers that the calls return are aligned.
  pub unmap-map_guest_range :
      (model : ℤ) (host : ℕ) (call : PageCall)
      → map_guest_range xen use_gnttab addr size prot ≡ some (model, host, call ∷ [])
      → host ≢ 0
      → pointer_of call % target_page ≡ 0
      → unmap_guest_range model host size ≡ undone call ∷ []
  unmap-map_guest_range model host call ran mapped aligned =
      let b : Bool = by_grants the_model in
      let (m, c, h) = map_guest_range-ran b model host call refl ran in
      let base = host-base host (the_call b) mapped h in
      rw (m, c)
        (unmap-call b host refl base (ap (λ c. pointer_of c % target_page) (sym c) ∙ aligned))
