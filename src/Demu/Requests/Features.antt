-- ===== src/Demu/Requests/Features.antt =====
-- The driver's I/O requests to a modern device: how it reads the feature bits.
use virtio_disk.Prelude.{
  ℕ, ◌+◌, ◌*◌, ◌^◌, ◌≤◌, ◌<◌, ◌≡◌, refl, ap, ◌∙◌, Bool, true, false, Option, some, List, [], ◌∷◌,
  bit_or, ◌>>=◌, arith,
}
use virtio_disk.Virtio.Guest.{Guest}
use virtio_disk.Virtio.Ops.{VirtioOps}
use virtio_disk.Virtio.Mmio.{Machine}
use virtio_disk.Virtio.Mmio.Modern.{transport_features, callback}
use virtio_disk.Virtio.Mmio.Features.{features_at, features_sel_at, selects, callback-features}
use virtio_disk.Demu.Spaces.{Space, find_space}
use virtio_disk.Demu.Requests.{
  Dir, dir_read, dir_write, type_copy, ioreq_inprocess, Ioreq, handle_io, handle_ioreq,
}

-- A request of four bytes that holds its data. A read brings whatever it had in `data` along.
abbrev pub word_req : ℕ → Dir → ℕ → Ioreq
word_req addr dir payload = record {
  addr = addr;
  payload = payload;
  size = 4;
  state = ioreq_inprocess;
  data_is_ptr = false;
  dir = dir;
  type = type_copy;
}

module _ {W : Type 0} where
  -- The requests are handled one after the other; the result is what they hold.
  abbrev pub handle_all : List (Space W) → W → List Ioreq → Option (W × List ℕ)
  handle_all spaces w [] = some (w, [])
  handle_all spaces w (req ∷ reqs) = do
    (w', req') ← handle_ioreq spaces w req
    (w'', payloads) ← handle_all spaces w' reqs
    some (w'', req'.payload ∷ payloads)

  find_space-first :
      (space : Space W) (spaces : List (Space W)) (addr : ℕ)
      → space.start ≤ addr
      → addr ≤ space.end
      → find_space (space ∷ spaces) addr ≡ some space
  unfolding find_space
  find_space-first space spaces addr low high = ground arith

  handle_word :
      (space : Space W) (spaces : List (Space W)) (w w' : W) (addr payload value : ℕ)
      → space.start ≤ addr
      → addr ≤ space.end
      → (space.mmio_fn w addr 0 4 false ≡ some (w', value))
      → handle_ioreq (space ∷ spaces) w (word_req addr dir_read payload)
        ≡ some (w', word_req addr dir_read value)
  unfolding handle_ioreq handle_io
  handle_word space spaces w w' addr payload value low high ran =
      rw (handle_ioreq, handle_io, find_space-first space spaces addr low high, ran) refl

  handle_word_write :
      (space : Space W) (spaces : List (Space W)) (w w' : W) (addr payload value : ℕ)
      → space.start ≤ addr
      → addr ≤ space.end
      → (space.mmio_fn w addr payload 4 true ≡ some (w', value))
      → handle_ioreq (space ∷ spaces) w (word_req addr dir_write payload)
        ≡ some (w', word_req addr dir_write payload)
  unfolding handle_ioreq handle_io
  handle_word_write space spaces w w' addr payload value low high ran =
      rw (handle_ioreq, handle_io, find_space-first space spaces addr low high, ran) refl

module _ {D : Type 0} (ops : VirtioOps D) (g : Guest) where
  -- The four requests: select a word and read it, twice.
  abbrev pub features_reqs : ℕ → ℕ → ℕ → List Ioreq
  features_reqs base p p' =
      word_req (base + features_sel_at) dir_write 0
      ∷ word_req (base + features_at) dir_read p
      ∷ word_req (base + features_sel_at) dir_write 1
      ∷ word_req (base + features_at) dir_read p'
      ∷ []

  -- A modern device whose space is found first, and holds the two registers, answers the four
  -- requests of a driver that selects and reads both words of the features. The two reads return,
  -- whatever they held, words that make up the device's features with those of the transport, if
  -- these are 64 bits.
  pub handle_ioreq-features :
      (m : Machine D) (space : Space (Machine D)) (spaces : List (Space (Machine D))) (p p' : ℕ)
      → space.start ≤ m.addr + features_at
      → m.addr + features_sel_at ≤ space.end
      → space.mmio_fn ≡ callback ops g
      → bit_or transport_features (ops.get_host_features m.dev) < 2 ^ 64
      → (lo hi : ℕ) × (handle_all (space ∷ spaces) m (features_reqs m.addr p p')
          ≡ some (selects ops g m 1, 0 ∷ lo ∷ 1 ∷ hi ∷ []))
        × (lo + 2 ^ 32 * hi ≡ bit_or transport_features (ops.get_host_features m.dev))
  handle_ioreq-features m space spaces p p' low high modern wide =
      let start : Machine D = selects ops g m 0 in
      let last : Machine D = selects ops g m 1 in
      let by = λ (m' : Machine D) (addr value : ℕ) (writes : Bool).
        ap (λ fn. fn m' addr value 4 writes) modern in
      let (lo, hi, r1, r2, r3, r4, whole) = callback-features ops g m 0 (omega arith) wide in
      let in_sel : space.start ≤ m.addr + features_sel_at = omega arith in
      let in_reg : m.addr + features_at ≤ space.end = omega arith in
      let e1 =
        handle_word_write space spaces m start (m.addr + features_sel_at) 0 0 in_sel high
          (by _ _ _ _ ∙ r1) in
      let e2 =
        handle_word space spaces start start (m.addr + features_at) p lo low in_reg
          (by _ _ _ _ ∙ r2) in
      let e3 =
        handle_word_write space spaces start last (m.addr + features_sel_at) 1 1 in_sel high
          (by _ _ _ _ ∙ r3) in
      let e4 =
        handle_word space spaces last last (m.addr + features_at) p' hi low in_reg
          (by _ _ _ _ ∙ r4) in
      (lo, hi, rw (e1, e2, e3, e4) refl, whole)
