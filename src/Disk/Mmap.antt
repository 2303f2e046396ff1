-- ===== src/Disk/Mmap.antt =====
-- disk/raw.c: reads and writes of a private mapping of the image, which is a list of bytes.
--
-- A copy that leaves the mapping is `none`. The buffers of a vector are the lists of their bytes; a
-- read is given their lengths.
use virtio_disk.Prelude.{
  ℕ, ◌+◌, ◌*◌, ◌%◌, ◌^◌, ◌≤◌, ◌<◌, ◌≡◌, refl, sym, ap, ◌∙◌, Option, none, some, List, [], ◌∷◌, ◌++◌,
  append_assoc, append-nil, map, length, length-append, length-take, length-drop, take, drop,
  drop-add, take-append-drop, leb, le→leb, if◌then◌else◌, arith,
}

-- SECTOR_SHIFT, as a factor
abbrev pub sector_bytes : ℕ
sector_bytes = 512

abbrev pub splice : List ℕ → ℕ → List ℕ → List ℕ
splice m offset bytes = take offset m ++ (bytes ++ drop (offset + length bytes) m)

-- `while (iovcount--)`, with what was read before and the total
unfoldable pub read_mmap_loop : List ℕ → ℕ → List ℕ → List (List ℕ) → ℕ → Option (List (List ℕ) × ℕ)
read_mmap_loop m offset [] got total = some (got, total)
read_mmap_loop m offset (len ∷ lens) got total =
    let bytes = take len (drop offset m) in
    let rest =
      read_mmap_loop m ((offset + len) % 2 ^ 64) lens (got ++ (bytes ∷ [])) (total + len) in
    if leb (offset + len) (length m) then rest else none

unfoldable pub write_mmap_loop : List ℕ → ℕ → List (List ℕ) → ℕ → Option (List ℕ × ℕ)
write_mmap_loop m offset [] total = some (m, total)
write_mmap_loop m offset (bytes ∷ iov) total =
    let len = length bytes in
    let rest =
      write_mmap_loop (splice m offset bytes) ((offset + len) % 2 ^ 64) iov (total + len) in
    if leb (offset + len) (length m) then rest else none

-- raw_image__read_mmap and raw_image__write_mmap
unfoldable pub raw_image_read_mmap : List ℕ → ℕ → List ℕ → Option (List (List ℕ) × ℕ)
raw_image_read_mmap m sector lens = read_mmap_loop m (sector * sector_bytes % 2 ^ 64) lens [] 0

unfoldable pub raw_image_write_mmap : List ℕ → ℕ → List (List ℕ) → Option (List ℕ × ℕ)
raw_image_write_mmap m sector iov = write_mmap_loop m (sector * sector_bytes % 2 ^ 64) iov 0

-- the bytes of a vector, one after the other
abbrev pub concat : List (List ℕ) → List ℕ
concat [] = []
concat (bytes ∷ iov) = bytes ++ concat iov

take_length : (xs ys : List ℕ) → take (length xs) (xs ++ ys) ≡ xs
take_length [] ys = refl
take_length (x ∷ xs) ys = ap (λ zs. x ∷ zs) (take_length xs ys)

drop_length : (xs ys : List ℕ) → drop (length xs) (xs ++ ys) ≡ ys
drop_length [] ys = refl
drop_length (x ∷ xs) ys = drop_length xs ys

length-splice :
    (m bytes : List ℕ) (offset : ℕ)
    → offset + length bytes ≤ length m
    → length (splice m offset bytes) ≡ length m
length-splice m bytes offset h = omega (
  arith,
  length-append (take offset m) (bytes ++ drop (offset + length bytes) m),
  length-append bytes (drop (offset + length bytes) m),
  length-take offset m,
  length-drop (offset + length bytes) m,
)

-- the front of a spliced list, and what is behind it
length-front :
    (m bytes : List ℕ) (offset : ℕ)
    → offset + length bytes ≤ length m
    → length (take offset m ++ bytes) ≡ offset + length bytes
length-front m bytes offset h =
    omega (arith, length-append (take offset m) bytes, length-take offset m)

splice-front :
    (m bytes : List ℕ) (offset : ℕ)
    → splice m offset bytes ≡ (take offset m ++ bytes) ++ drop (offset + length bytes) m
splice-front m bytes offset =
    sym (append_assoc (take offset m) bytes (drop (offset + length bytes) m))

take_front : (n : ℕ) (xs ys : List ℕ) → length xs ≡ n → take n (xs ++ ys) ≡ xs
take_front n xs ys e = ap (λ k. take k (xs ++ ys)) (sym e) ∙ take_length xs ys

drop_front : (n : ℕ) (xs ys : List ℕ) → length xs ≡ n → drop n (xs ++ ys) ≡ ys
drop_front n xs ys e = ap (λ k. drop k (xs ++ ys)) (sym e) ∙ drop_length xs ys

take-splice :
    (m bytes : List ℕ) (offset : ℕ)
    → offset + length bytes ≤ length m
    → take (offset + length bytes) (splice m offset bytes) ≡ take offset m ++ bytes
take-splice m bytes offset h =
    ap (take (offset + length bytes)) (splice-front m bytes offset)
    ∙ take_front _ _ _ (length-front m bytes offset h)

drop-splice :
    (m bytes : List ℕ) (offset more : ℕ)
    → offset + length bytes ≤ length m
    → drop (offset + length bytes + more) (splice m offset bytes)
      ≡ drop (offset + length bytes + more) m
drop-splice m bytes offset more h =
    let n : ℕ = offset + length bytes in
    drop-add n more (splice m offset bytes)
    ∙ ap (drop more) (
        ap (drop n) (splice-front m bytes offset)
        ∙ drop_front _ _ _ (length-front m bytes offset h))
    ∙ sym (drop-add n more m)

splice-splice :
    (m bytes later : List ℕ) (offset : ℕ)
    → offset + length bytes ≤ length m
    → splice (splice m offset bytes) (offset + length bytes) later
      ≡ splice m offset (bytes ++ later)
splice-splice m bytes later offset h =
    let m1 : List ℕ = splice m offset bytes in
    let n : ℕ = offset + length bytes + length later in
    let e : n ≡ offset + length (bytes ++ later) = omega (arith, length-append bytes later) in
    ap (λ front. front ++ (later ++ drop n m1)) (take-splice m bytes offset h)
    ∙ ap (λ back. (take offset m ++ bytes) ++ (later ++ back))
        (drop-splice m bytes offset (length later) h)
    ∙ append_assoc (take offset m) bytes (later ++ drop n m)
    ∙ ap (λ back. take offset m ++ back) (sym (append_assoc bytes later (drop n m)))
    ∙ ap (λ k. take offset m ++ ((bytes ++ later) ++ drop k m)) e

write_mmap_loop-splice :
    (iov : List (List ℕ)) (m : List ℕ) (offset total : ℕ)
    → length m < 2 ^ 64
    → offset + length (concat iov) ≤ length m
    → write_mmap_loop m offset iov total
      ≡ some (splice m offset (concat iov), total + length (concat iov))
unfolding write_mmap_loop
write_mmap_loop-splice [] m offset total small fits =
    let e : offset + 0 ≡ offset = omega arith in
    let t : total + 0 ≡ total = omega arith in
    ap (λ m. some (m, total))
      (sym (ap (λ k. take offset m ++ drop k m) e ∙ take-append-drop offset m))
    ∙ ap (λ t. some (splice m offset [], t)) (sym t)
write_mmap_loop-splice (bytes ∷ iov) m offset total small fits =
    let both = length-append bytes (concat iov) in
    let inside : offset + length bytes ≤ length m = omega (arith, both, fits) in
    let word : (offset + length bytes) % 2 ^ 64 ≡ offset + length bytes = omega arith in
    let len = length-splice m bytes offset inside in
    let later =
      write_mmap_loop-splice iov (splice m offset bytes) (offset + length bytes)
        (total + length bytes) (omega (arith, len)) (omega (arith, len, both, fits)) in
    let sum : total + length bytes + length (concat iov) ≡ total + length (bytes ++ concat iov) =
      omega (arith, both) in
    rw (word, le→leb (offset + length bytes) (length m) inside)
      (later
        ∙ ap (λ m. some (m, total + length bytes + length (concat iov)))
            (splice-splice m bytes (concat iov) offset inside)
        ∙ ap (λ t. some (splice m offset (bytes ++ concat iov), t)) sum)

read_mmap_loop-concat :
    (iov : List (List ℕ)) (m rest : List ℕ) (offset : ℕ) (got : List (List ℕ)) (total : ℕ)
    → length m < 2 ^ 64
    → offset + length (concat iov) ≤ length m
    → drop offset m ≡ concat iov ++ rest
    → read_mmap_loop m offset (map length iov) got total
      ≡ some (got ++ iov, total + length (concat iov))
unfolding read_mmap_loop
read_mmap_loop-concat [] m rest offset got total small fits e =
    let t : total ≡ total + 0 = omega arith in
    ap (λ g. some (g, total)) (sym (append-nil got)) ∙ ap (λ t. some (got ++ [], t)) t
read_mmap_loop-concat (bytes ∷ iov) m rest offset got total small fits e =
    let both = length-append bytes (concat iov) in
    let inside : offset + length bytes ≤ length m = omega (arith, both, fits) in
    let word : (offset + length bytes) % 2 ^ 64 ≡ offset + length bytes = omega arith in
    let assoc = append_assoc bytes (concat iov) rest in
    let here : take (length bytes) (drop offset m) ≡ bytes =
      ap (take (length bytes)) (e ∙ assoc) ∙ take_length bytes (concat iov ++ rest) in
    let behind : drop (offset + length bytes) m ≡ concat iov ++ rest =
      drop-add offset (length bytes) m
      ∙ ap (drop (length bytes)) (e ∙ assoc)
      ∙ drop_length bytes (concat iov ++ rest) in
    let later =
      read_mmap_loop-concat iov m rest (offset + length bytes) (got ++ (bytes ∷ []))
        (total + length bytes) small (omega (arith, both, fits)) behind in
    let sum : total + length bytes + length (concat iov) ≡ total + length (bytes ++ concat iov) =
      omega (arith, both) in
    rw (word, le→leb (offset + length bytes) (length m) inside, here)
      (later
        ∙ ap (λ g. some (g, total + length bytes + length (concat iov)))
            (append_assoc got (bytes ∷ []) iov)
        ∙ ap (λ t. some (got ++ (bytes ∷ iov), t)) sum)

-- A write of a vector that fits into the mapping puts its bytes, one buffer after the other, at the
-- sector, and leaves every other byte and the length as they were; a read of buffers of the same
-- lengths then finds them. Both return the number of bytes.
pub raw_image_read_mmap-raw_image_write_mmap :
    (m : List ℕ) (sector : ℕ) (iov : List (List ℕ))
    → length m < 2 ^ 64
    → sector * sector_bytes + length (concat iov) ≤ length m
    → (m' : List ℕ) × (raw_image_write_mmap m sector iov ≡ some (m', length (concat iov)))
      × (m' ≡ splice m (sector * sector_bytes) (concat iov))
      × (length m' ≡ length m)
      × (raw_image_read_mmap m' sector (map length iov) ≡ some (iov, length (concat iov)))
unfolding raw_image_write_mmap raw_image_read_mmap
raw_image_read_mmap-raw_image_write_mmap m sector iov small fits =
    let offset : ℕ = sector * sector_bytes in
    let word : sector * sector_bytes % 2 ^ 64 ≡ sector * sector_bytes = omega arith in
    let m' : List ℕ = splice m offset (concat iov) in
    let total : 0 + length (concat iov) ≡ length (concat iov) = omega arith in
    let len = length-splice m (concat iov) offset fits in
    let found : drop offset m' ≡ concat iov ++ drop (offset + length (concat iov)) m =
      drop_front offset (take offset m) _ (omega (arith, length-take offset m, fits)) in
    (
      m',
      rw word (write_mmap_loop-splice iov m offset 0 small fits ∙ ap (λ t. some (m', t)) total),
      refl,
      len,
      rw word (
          read_mmap_loop-concat iov m' _ offset [] 0 (omega (arith, len)) (omega (arith, len, fits))
            found
          ∙ ap (λ t. some (iov, t)) total),
    )
