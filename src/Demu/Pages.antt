-- ===== src/Demu/Pages.antt =====
-- The page arithmetic of demu.c: how a range of guest addresses is mapped, and unmapped.
--
-- Words are native numbers with the wrap-around written out; `& ~TARGET_PAGE_MASK` is the remainder
-- by the page size, `& TARGET_PAGE_MASK` drops it, and `& XEN_GRANT_ADDR_OFF` is bit 63.
pub mod Cover
use virtio_disk.Prelude.{
  ℕ, zero, suc, ◌+◌, ◌-◌, ◌*◌, ◌/◌, ◌%◌, ◌^◌, Bool, true, false, not, Option, none, some, List, [],
  ◌∷◌, map, ◌==◌, if◌then◌else◌,
}
use virtio_disk.Prelude.Int.{ℤ, pos, negsuc, is_neg}
use virtio_disk.Virtio.Guest.{Prot}

-- TARGET_PAGE_SIZE
abbrev pub target_page : ℕ
target_page = 4096

-- `addr & XEN_GRANT_ADDR_OFF`, as a test
abbrev pub is_grant : ℕ → Bool
is_grant addr = addr / 2 ^ 63 % 2 == 1

-- `- x`, of 64 bits
abbrev pub neg64 : ℕ → ℕ
neg64 x = (2 ^ 64 - x) % 2 ^ 64

-- P2ROUNDUP(x, TARGET_PAGE_SIZE)
unfoldable pub round_up : ℕ → ℕ
round_up x = neg64 (neg64 x / target_page * target_page)

-- The calls that map and unmap: of lists of frames or of grants, with the pointer that they return
-- or are given.
pub data PageCall : Type 0 where
  mapped_frames mapped_grants : List ℕ → Prot → ℕ → PageCall
  unmapped_frames unmapped_grants : ℕ → ℕ → PageCall

-- The Xen libraries, and malloc of so many numbers. A null pointer is 0.
pub record Xen : Type 0 where
  pub has_memory : ℕ → Bool
  pub foreign_map : List ℕ → Prot → ℕ
  pub grants_map : List ℕ → Prot → ℕ

-- use_gnttab is -1 until the first range is mapped.
unfoldable pub detect_mappings_model : ℤ → ℕ → ℤ
detect_mappings_model use_gnttab addr =
    if not (is_neg use_gnttab) then use_gnttab else pos (if is_grant addr then 1 else 0)

-- `use_gnttab > 0`
abbrev pub by_grants : ℤ → Bool
by_grants (pos zero) = false
by_grants (pos (suc n)) = true
by_grants (negsuc n) = false

-- `for (i = 0; i < n; i++) pfn[i] = first + i`
unfoldable pub frames_from : ℕ → ℕ → List ℕ
frames_from first zero = []
frames_from first (suc n) = first ∷ frames_from (suc first) n

-- The number of pages: `size += addr & ~TARGET_PAGE_MASK`, rounded up and shifted, an unsigned int.
unfoldable pub page_count : ℕ → ℕ → ℕ
unfolding round_up
page_count addr size = round_up ((size + addr % target_page) % 2 ^ 64) / target_page % 2 ^ 32

module _ (xen : Xen) where
  map_grant_refs : ℕ → ℕ → Prot → ℕ × List PageCall
  unfolding frames_from
  map_grant_refs addr n prot =
      let grants = map (λ f. f % 2 ^ 32) (frames_from (addr % 2 ^ 63 / target_page) n) in
      let ptr = xen.grants_map grants prot in (ptr, mapped_grants grants prot ptr ∷ [])

  map_pages : ℕ → ℕ → Prot → ℕ × List PageCall
  unfolding frames_from
  map_pages addr n prot =
      let frames = frames_from (addr / target_page) n in
      let ptr = xen.foreign_map frames prot in (ptr, mapped_frames frames prot ptr ∷ [])

  -- The new use_gnttab, the host pointer of the range or null, and the calls; `none` is BUG_ON of an
  -- address that is not of the model in use.
  unfoldable pub map_guest_range : ℤ → ℕ → ℕ → Prot → Option (ℤ × ℕ × List PageCall)
  unfolding map_grant_refs map_pages
  map_guest_range use_gnttab addr size prot =
      let n = page_count addr size in
      let model = detect_mappings_model use_gnttab addr in
      let (ptr, calls) =
        if by_grants model then map_grant_refs addr n prot else map_pages addr n prot in
      let result = if ptr == 0 then 0 else ptr + addr % target_page in
      if not (if by_grants model then is_grant addr else not (is_grant addr))
      then none
      else if not (xen.has_memory n)
      then some (model, 0, [])
      else some (model, result, calls)

-- demu_unmap_guest_range
unfoldable pub unmap_guest_range : ℤ → ℕ → ℕ → List PageCall
unfolding page_count
unmap_guest_range use_gnttab ptr size =
    let n = page_count ptr size in
    let first = ptr / target_page * target_page in
    if by_grants use_gnttab then unmapped_grants first n ∷ [] else unmapped_frames first n ∷ []
