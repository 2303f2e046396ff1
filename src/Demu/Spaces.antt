-- ===== src/Demu/Spaces.antt =====
-- The memory spaces of demu.c: the ranges of guest addresses whose accesses the program serves.
--
-- `W` is the state that the callbacks work on. A callback is given the address, the eight bytes of
-- the request as a number, the length, and whether it writes; `none` is an abort. Its `ptr` is part
-- of the function. `end` is inclusive.
pub mod Map
use virtio_disk.Prelude.{
  ℕ, zero, suc, ◌+◌, ◌-◌, ◌%◌, ◌^◌, Bool, true, false, ◌&&◌, ◌||◌, Option, none, some, List, [],
  ◌∷◌, leb, ◌==◌, if◌then◌else◌, ◌>>=◌,
}
use virtio_disk.Prelude.Int.{ℤ, pos, negsuc, is_neg, minus_one}

abbrev pub Callback : Type 0 → Type 0
Callback W = W → ℕ → ℕ → ℕ → Bool → Option (W × ℕ)

pub record Space (W : Type 0) : Type 0 where
  pub start : ℕ
  pub end : ℕ
  pub mmio_fn : Callback W

-- xendevicemodel_map_io_range_to_ioreq_server and its reverse, with the two ends of the range
pub data RangeCall : Type 0 where
  ranged unranged : ℕ → ℕ → RangeCall

-- `start + size - 1`
abbrev pub range_end : ℕ → ℕ → ℕ
range_end start size = (start + size + 2 ^ 64 - 1) % 2 ^ 64

module _ {W : Type 0} where
  unfoldable pub find_space : List (Space W) → ℕ → Option (Space W)
  find_space [] addr = none
  find_space (space ∷ spaces) addr =
      if leb space.start addr && leb addr space.end then some space else find_space spaces addr

  abbrev pub is_found : Option (Space W) → Bool
  is_found none = false
  is_found (some space) = true

  -- The result is the new list and the return code. `has_memory` says that malloc succeeds.
  unfoldable pub register_space : Bool → List (Space W) → ℕ → ℕ → Callback W → List (Space W) × ℤ
  unfolding find_space
  register_space has_memory spaces start end mmio_fn =
      let space : Space W = record { start = start; end = end; mmio_fn = mmio_fn } in
      if is_found (find_space spaces start) || is_found (find_space spaces end)
      then (spaces, minus_one)
      else if has_memory
      then (space ∷ spaces, pos 0)
      else (spaces, minus_one)

  -- The list, and what is written to `*end`, if anything is.
  unfoldable pub deregister_space : List (Space W) → ℕ → List (Space W) × Option ℕ
  deregister_space [] start = ([], none)
  deregister_space (space ∷ spaces) start =
      let (rest, end) = deregister_space spaces start in
      if start == space.start then (spaces, some space.end) else (space ∷ rest, end)

  -- `map_range` gives the return code of the call that maps the range to the server.
  unfoldable pub register_memory_space :
      Bool → (ℕ → ℕ → ℤ) → List (Space W) → ℕ → ℕ → Callback W → List (Space W) × ℤ × List RangeCall
  unfolding register_space deregister_space
  register_memory_space has_memory map_range spaces start size mmio_fn =
      let end = range_end start size in
      let (spaces', rc) = register_space has_memory spaces start end mmio_fn in
      let (back, dropped) = deregister_space spaces' start in
      if is_neg rc
      then (spaces', minus_one, [])
      else if is_neg (map_range start end)
      then (back, minus_one, ranged start end ∷ [])
      else (spaces', pos 0, ranged start end ∷ [])

  unfoldable pub deregister_memory_space : List (Space W) → ℕ → List (Space W) × List RangeCall
  unfolding deregister_space
  deregister_memory_space spaces start =
      let (rest, end) = deregister_space spaces start in
      (rest, elim end [ none ↦ unranged start 0 ∷ [] | some e ↦ unranged start e ∷ [] ])
