-- ===== src/Demu/Spaces/Map.antt =====
-- The memory spaces as a map from addresses to callbacks.
use mathlib.Core.Path.{subst}
use virtio_disk.Prelude.{
  ℕ, ◌+◌, ◌^◌, ◌≤◌, ◌<◌, ◌≡◌, refl, ◌⊎◌, inl, inr, Bool, true, false, ◌&&◌, Option, none, some,
  List, [], ◌∷◌, leb, ◌==◌, if◌then◌else◌, arith, Bool-cases,
}
use virtio_disk.Prelude.Int.{ℤ, pos, is_neg, minus_one}
use virtio_disk.Demu.Spaces.{
  Callback, Space, RangeCall, ranged, unranged, range_end, find_space, is_found, register_space,
  deregister_space, register_memory_space, deregister_memory_space,
}

-- whether the address is in the range
abbrev pub in_range : ℕ → ℕ → ℕ → Bool
in_range start end addr = leb start addr && leb addr end

module _ {W : Type 0} where
  -- The ranges of the two spaces have no address in common.
  abbrev pub Apart : Space W → Space W → Type 0
  Apart a b = (a.end < b.start) ⊎ (b.end < a.start)

  abbrev pub AllApart : Space W → List (Space W) → Type 0
  AllApart a [] = 0 ≤ a.start
  AllApart a (b ∷ spaces) = Apart a b × AllApart a spaces

  -- Every range has `size` addresses, none wraps, and no two meet.
  abbrev pub IsDisjoint : ℕ → List (Space W) → Type 0
  IsDisjoint size [] = 0 < size
  IsDisjoint size (a ∷ spaces) =
      (a.end + 1 ≡ a.start + size) × AllApart a spaces × IsDisjoint size spaces

  -- What serves each address.
  abbrev pub served : List (Space W) → ℕ → Option (Callback W)
  served spaces addr = elim (find_space spaces addr) [
    | none ↦ none
    | some space ↦ some space.mmio_fn
  ]

  outside :
      (space : Space W) (spaces : List (Space W)) (a : ℕ)
      → is_found (find_space (space ∷ spaces) a) ≡ false
      → ((a < space.start) ⊎ (space.end < a)) × (is_found (find_space spaces a) ≡ false)
  unfolding find_space
  outside space spaces a h = ground arith

  Apart-ends :
      (size : ℕ) (new space : Space W)
      → new.end + 1 ≡ new.start + size
      → space.end + 1 ≡ space.start + size
      → (new.start < space.start) ⊎ (space.end < new.start)
      → (new.end < space.start) ⊎ (space.end < new.end)
      → Apart new space
  Apart-ends size new space e e' (inl h) (inl k) = inl k
  Apart-ends size new space e e' (inl h) (inr k) = absurd (omega arith)
  Apart-ends size new space e e' (inr h) k = inr h

  is_found-AllApart :
      (size : ℕ) (spaces : List (Space W)) (new : Space W)
      → IsDisjoint size spaces
      → new.end + 1 ≡ new.start + size
      → is_found (find_space spaces new.start) ≡ false
      → is_found (find_space spaces new.end) ≡ false
      → AllApart new spaces
  unfolding find_space
  is_found-AllApart size [] new ok e at_start at_end = omega arith
  is_found-AllApart size (space ∷ spaces) new ok e at_start at_end =
      let (start_out, start_on) = outside space spaces new.start at_start in
      let (end_out, end_on) = outside space spaces new.end at_end in
      (
        Apart-ends size new space e ok.0 start_out end_out,
        is_found-AllApart size spaces new ok.2 e start_on end_on,
      )

  IsDisjoint-size : (size : ℕ) (spaces : List (Space W)) → IsDisjoint size spaces → 0 < size
  IsDisjoint-size size [] ok = ok
  IsDisjoint-size size (space ∷ spaces) ok = IsDisjoint-size size spaces ok.2

  -- a range that is free is found to be free
  free :
      (spaces : List (Space W)) (a : ℕ)
      → served spaces a ≡ none
      → is_found (find_space spaces a) ≡ false
  free spaces a h = ground arith

  served-cons :
      (new : Space W) (spaces : List (Space W)) (a : ℕ)
      → served (new ∷ spaces) a
        ≡ (if in_range new.start new.end a then some new.mmio_fn else served spaces a)
  unfolding find_space
  served-cons new spaces a = ground arith

  deregister-register :
      (new : Space W) (spaces : List (Space W))
      → deregister_space (new ∷ spaces) new.start ≡ (spaces, some new.end)
  unfolding deregister_space
  deregister-register new spaces = ground arith

  register_space-cases :
      (has_memory : Bool) (spaces : List (Space W)) (start end : ℕ) (fn : Callback W)
      → ((is_found (find_space spaces start) ≡ false)
          × (is_found (find_space spaces end) ≡ false)
          × (register_space has_memory spaces start end fn
              ≡ (record { start = start; end = end; mmio_fn = fn } ∷ spaces, pos 0)))
        ⊎ (register_space has_memory spaces start end fn ≡ (spaces, minus_one))
  unfolding register_space
  register_space-cases has_memory spaces start end fn =
      elim (Bool-cases (is_found (find_space spaces start))) [
        | inl e ↦ inr (ground arith)
        | inr e ↦ elim (Bool-cases (is_found (find_space spaces end))) [
          | inl e' ↦ inr (ground arith)
          | inr e' ↦ elim (Bool-cases has_memory) [
            | inl m ↦ inl (e, e', ground arith)
            | inr m ↦ inr (ground arith)
          ]
        ]
      ]

  -- The new range, and nothing else, is served by the new callback; or nothing is changed.
  abbrev pub Registered :
      List (Space W) → ℕ → ℕ → Callback W → List (Space W) × ℤ × List RangeCall → Type 0
  Registered spaces start size fn (spaces', rc, calls) =
      ((rc ≡ pos 0)
        × (calls ≡ ranged start (range_end start size) ∷ [])
        × IsDisjoint size spaces'
        × ((a : ℕ)
            → served spaces' a
              ≡ (if in_range start (range_end start size) a then some fn else served spaces a)))
      ⊎ ((rc ≡ minus_one) × (spaces' ≡ spaces))

  -- If the spaces are disjoint, and of the size that is registered, as those of virtio-mmio are,
  -- then a registration that returns 0 has mapped the range, which wraps nowhere, to the server, the
  -- spaces are disjoint after it, the new range is served by the new callback and every other
  -- address as before; and one that fails, for whatever reason, returns -1 and changes no space.
  pub register_memory_space-Registered :
      (has_memory : Bool) (map_range : ℕ → ℕ → ℤ) (spaces : List (Space W)) (start size : ℕ)
      (fn : Callback W)
      → IsDisjoint size spaces
      → start + size ≤ 2 ^ 64
      → Registered spaces start size fn
          (register_memory_space has_memory map_range spaces start size fn)
  unfolding register_memory_space
  register_memory_space-Registered has_memory map_range spaces start size fn ok fits =
      let some_bytes = IsDisjoint-size size spaces ok in
      let end : ℕ = range_end start size in
      let whole : end + 1 ≡ start + size = omega arith in
      let new : Space W = record { start = start; end = end; mmio_fn = fn } in
      elim (register_space-cases has_memory spaces start end fn) [
        | inl (e, e', r) ↦ elim (Bool-cases (is_neg (map_range start end))) [
          | inl m ↦ rw (r, m, deregister-register new spaces) (inr (refl, refl))
          | inr m ↦
              rw (r, m)
                (inl (
                  refl,
                  refl,
                  (whole, is_found-AllApart size spaces new ok whole e e', ok),
                  served-cons new spaces,
                ))
        ]
        | inr r ↦ rw r (inr (refl, refl))
      ]

  -- A range of which neither end is served is registered, if malloc and the call of Xen succeed: it is
  -- mapped to the server, whatever spaces there are, and its addresses are served by the new callback
  -- from then on, every other address as before.
  pub register_memory_space_free :
      (map_range : ℕ → ℕ → ℤ) (spaces : List (Space W)) (start size : ℕ) (fn : Callback W)
      → served spaces start ≡ none
      → served spaces (range_end start size) ≡ none
      → is_neg (map_range start (range_end start size)) ≡ false
      → (spaces' : List (Space W)) × (register_memory_space true map_range spaces start size fn
          ≡ (spaces', pos 0, ranged start (range_end start size) ∷ []))
        × ((a : ℕ)
            → served spaces' a
              ≡ (if in_range start (range_end start size) a then some fn else served spaces a))
  unfolding register_memory_space register_space
  register_memory_space_free map_range spaces start size fn at_start at_end mapped =
      let new : Space W = record { start = start; end = range_end start size; mmio_fn = fn } in
      (
        new ∷ spaces,
        rw (free spaces start at_start, free spaces (range_end start size) at_end, mapped) refl,
        served-cons new spaces,
      )

  -- The space that starts at an address is found there.
  abbrev pub Starts : List (Space W) → ℕ → Space W → Type 0
  Starts spaces start space = (find_space spaces start ≡ some space) × (space.start ≡ start)

  AllApart-served :
      (size : ℕ) (space : Space W) (spaces : List (Space W)) (a : ℕ)
      → AllApart space spaces
      → in_range space.start space.end a ≡ true
      → served spaces a ≡ none
  unfolding find_space
  AllApart-served size space [] a apart h = refl
  AllApart-served size space (other ∷ spaces) a apart h =
      let rest = AllApart-served size space spaces a apart.1 h in
      elim apart.0 [ inl lower ↦ ground arith | inr higher ↦ ground arith ]

  AllApart-deregister :
      (space : Space W) (spaces : List (Space W)) (start : ℕ)
      → AllApart space spaces
      → AllApart space (deregister_space spaces start).0
  unfolding deregister_space
  AllApart-deregister space [] start apart = apart
  AllApart-deregister space (other ∷ spaces) start apart =
      elim (Bool-cases (start == other.start)) [
        | inl e ↦ rw e apart.1
        | inr e ↦ rw e (apart.0, AllApart-deregister space spaces start apart.1)
      ]

  -- What is true of the list after a deregistration.
  abbrev pub Deregistered : ℕ → List (Space W) → Space W → List (Space W) → Type 0
  Deregistered size spaces space rest =
      IsDisjoint size rest
      × ((a : ℕ)
          → served rest a ≡ (if in_range space.start space.end a then none else served spaces a))

  find_space-first :
      (size : ℕ) (other space : Space W) (spaces : List (Space W)) (start : ℕ)
      → 0 < size
      → other.end + 1 ≡ other.start + size
      → Starts (other ∷ spaces) start space
      → (start == other.start) ≡ true
      → other ≡ space
  unfolding find_space
  find_space-first size other space spaces start bytes e found first = ground arith

  find_space-later :
      (other space : Space W) (spaces : List (Space W)) (start : ℕ)
      → Starts (other ∷ spaces) start space
      → (start == other.start) ≡ false
      → Starts spaces start space
  unfolding find_space
  find_space-later other space spaces start found later = ground arith

  AllApart-found :
      (other space : Space W) (spaces : List (Space W)) (start : ℕ)
      → AllApart other spaces
      → find_space spaces start ≡ some space
      → Apart other space
  unfolding find_space
  AllApart-found other space [] start apart found = ground arith
  AllApart-found other space (first ∷ spaces) start apart found =
      elim (Bool-cases (in_range first.start first.end start)) [
        | inl e ↦ let same : first ≡ space = ground arith in subst (λ s. Apart other s) same apart.0
        | inr e ↦ AllApart-found other space spaces start apart.1 (ground arith)
      ]

  Apart-in_range :
      (other space : Space W) (a : ℕ)
      → Apart other space
      → in_range other.start other.end a ≡ true
      → in_range space.start space.end a ≡ false
  Apart-in_range other space a (inl h) inside = ground arith
  Apart-in_range other space a (inr h) inside = ground arith

  Deregistered-first :
      (size : ℕ) (space : Space W) (spaces : List (Space W))
      → IsDisjoint size (space ∷ spaces)
      → Deregistered size (space ∷ spaces) space spaces
  unfolding find_space
  Deregistered-first size space spaces ok = (
    ok.2,
    λ a. elim (Bool-cases (in_range space.start space.end a)) [
      | inl e ↦ rw e (AllApart-served size space spaces a ok.1 e)
      | inr e ↦ ground arith
    ],
  )

  Deregistered-later :
      (size : ℕ) (other space : Space W) (spaces rest : List (Space W))
      → IsDisjoint size (other ∷ spaces)
      → Apart other space
      → AllApart other rest
      → Deregistered size spaces space rest
      → Deregistered size (other ∷ spaces) space (other ∷ rest)
  unfolding find_space
  Deregistered-later size other space spaces rest ok apart apart' later = (
    (ok.0, apart', later.0),
    λ a. elim (Bool-cases (in_range other.start other.end a)) [
      | inl e ↦ let out = Apart-in_range other space a apart e in ground arith
      | inr e ↦ let same = later.1 a in ground arith
    ],
  )

  deregister_space-Deregistered :
      (size : ℕ) (spaces : List (Space W)) (start : ℕ) (space : Space W)
      → IsDisjoint size spaces
      → Starts spaces start space
      → Deregistered size spaces space (deregister_space spaces start).0
        × ((deregister_space spaces start).1 ≡ some space.end)
  unfolding deregister_space find_space
  deregister_space-Deregistered size [] start space ok found = ground arith
  deregister_space-Deregistered size (other ∷ spaces) start space ok found =
      elim (Bool-cases (start == other.start)) [
        | inl e ↦
            let bytes = IsDisjoint-size size spaces ok.2 in
            let same = find_space-first size other space spaces start bytes ok.0 found e in
            subst
              (λ s.
                Deregistered size (other ∷ spaces) s (deregister_space (other ∷ spaces) start).0
                × ((deregister_space (other ∷ spaces) start).1 ≡ some s.end))
              same (rw e (Deregistered-first size other spaces ok, refl))
        | inr e ↦
            let found' = find_space-later other space spaces start found e in
            let (later, end) = deregister_space-Deregistered size spaces start space ok.2 found' in
            rw e (
              Deregistered-later size other space spaces (deregister_space spaces start).0 ok
                  (AllApart-found other space spaces start ok.1 found'.0)
                  (AllApart-deregister other spaces start ok.1) later,
              end,
            )
      ]

  -- If the spaces are disjoint and of one size, then deregistering one of them unmaps its range from
  -- the server; the spaces are disjoint after it, its range is not served any more, and every other
  -- address is served as before.
  pub deregister_memory_space-Deregistered :
      (size : ℕ) (spaces : List (Space W)) (start : ℕ) (space : Space W)
      → IsDisjoint size spaces
      → Starts spaces start space
      → Deregistered size spaces space (deregister_memory_space spaces start).0
        × ((deregister_memory_space spaces start).1 ≡ unranged start space.end ∷ [])
  unfolding deregister_memory_space
  deregister_memory_space-Deregistered size spaces start space ok found =
      let (rest, end) = deregister_space-Deregistered size spaces start space ok found in
      (rest, rw (deregister_memory_space, end) refl)
