-- ===== src/Util/ReadWrite/Reads.antt =====
-- pread_in_full over a file: what one call may return, and what the loop makes of it.
use virtio_disk.Prelude.{
  ℕ, zero, suc, ◌+◌, ◌-◌, ◌^◌, ◌≤◌, ◌<◌, ◌≡◌, refl, sym, ap, ◌∙◌, ◌⊎◌, inl, inr, true, Option, some,
  List, [], ◌∷◌, ◌++◌, length, take, drop, length-take, drop-add, take-split, take-nil, append-nil,
  append_assoc, length-append, arith, ℕ_discrete,
}
use virtio_disk.Util.ReadWrite.{
  Ret, done, failed, Errno, restarts, Sys, restart, xpread, sub64, so_far, full_read, pread_in_full,
}

-- One call of the system, on a state that can restart `budget` times at most: it asks for a
-- restart, or it returns something good.
abbrev pub Calls {ℓ} : {S : Type 0} {A : Type ℓ} → (S → ℕ) → (A → Type 0) → S → S × Ret A → Type ℓ
Calls {A} budget Good s (s', r) =
    ((e : Errno) × (r ≡ failed e) × (restarts e ≡ true) × (budget s' < budget s))
    ⊎ ((a : A) × (r ≡ done a) × (budget s' ≤ budget s) × Good a)

module _ {S : Type 0} (budget : S → ℕ) where
  pub restart-Calls :
      {A : Type 0} (Good : A → Type 0) (call : S → S × Ret A)
      → ((s : S) → Calls budget Good s (call s))
      → (left : ℕ) (s : S) → budget s < left
      → (s' : S) × (a : A) × (restart left call s ≡ some (s', done a))
        × (budget s' ≤ budget s)
        × Good a
  unfolding restart
  restart-Calls Good call each zero s h = absurd (omega arith)
  restart-Calls Good call each (suc left) s h = elim (each s) [
    | inl (e, r, again, fewer) ↦
        let (s', a, run, le, good) = restart-Calls Good call each left (call s).0 (omega arith) in
        (s', a, ground arith, omega arith, good)
    | inr (a, r, le, good) ↦ ((call s).0, a, ground arith, le, good)
  ]

so_far_pos : (xs : List ℕ) → 0 < length xs → so_far xs ≡ some xs
so_far_pos [] h = absurd (omega arith)
so_far_pos (x ∷ xs) h = refl

-- What a transfer of `count` more bytes comes to, if `bytes` are there.
abbrev whole : List ℕ → ℕ → List ℕ → Option (List ℕ)
whole got zero bytes = some got
whole got (suc count) bytes = so_far (got ++ bytes)

whole_pos :
    (got bytes : List ℕ) (count : ℕ) → 0 < count → whole got count bytes ≡ so_far (got ++ bytes)
whole_pos got bytes zero h = absurd (omega arith)
whole_pos got bytes (suc count) h = refl

whole-append :
    (got bytes rest : List ℕ) (count : ℕ)
    → 0 < length bytes
    → whole (got ++ bytes) count (take count rest) ≡ so_far (got ++ (bytes ++ take count rest))
whole-append got bytes rest zero h =
    sym (so_far_pos (got ++ bytes) (omega (arith, length-append got bytes)))
    ∙ ap (λ b. so_far (got ++ b)) (sym (append-nil bytes))
whole-append got bytes rest (suc count) h =
    ap so_far (append_assoc got bytes (take (suc count) rest))

take_empty : (k n : ℕ) (xs : List ℕ) → 0 < k → length (take k xs) ≡ 0 → take n xs ≡ []
take_empty zero n xs h e = absurd (omega arith)
take_empty (suc k) n [] h e = take-nil n
take_empty (suc k) n (x ∷ xs) h e = absurd (omega arith)

two_parts :
    (k n : ℕ) (rest : List ℕ) {bytes : List ℕ}
    → bytes ≡ take k rest
    → k ≤ n
    → bytes ++ take (n - length bytes) (drop (length bytes) rest) ≡ take n rest
two_parts k n rest e h = rw e (sym (take-split k n rest h))

-- After a part of the transfer, the rest of it comes to the same.
whole-drop :
    (got data' : List ℕ) (n k base : ℕ) {bytes : List ℕ}
    → bytes ≡ take k (drop (base + length got) data')
    → k ≤ n
    → 0 < length bytes
    → whole
        (got ++ bytes)
        (n - length bytes)
        (take (n - length bytes) (drop (base + length (got ++ bytes)) data'))
      ≡ so_far (got ++ take n (drop (base + length got) data'))
whole-drop got data' n k base {bytes} e le pos =
    let rest = drop (base + length got) data' in
    let moved : drop (base + length (got ++ bytes)) data' ≡ drop (length bytes) rest =
      ap (λ j. drop j data') (omega (arith, length-append got bytes))
      ∙ drop-add (base + length got) (length bytes) data' in
    ap (λ r. whole (got ++ bytes) (n - length bytes) (take (n - length bytes) r)) moved
    ∙ whole-append got bytes (drop (length bytes) rest) (n - length bytes) pos
    ∙ ap (λ b. so_far (got ++ b)) (two_parts k n rest e le)

module _ {S : Type 0} (budget : S → ℕ) (left : ℕ) (data' : List ℕ) (base : ℕ)
    (call : S → ℕ → ℕ → Option (S × Ret (List ℕ))) where
  -- A restarted call returns a part of what is there, and nothing only at the end.
  abbrev Serves : Type 0
  Serves =
      (s : S) (n total : ℕ)
      → 0 < n
      → budget s < left
      → (s' : S) × (bytes : List ℕ) × (k : ℕ) × (call s n total ≡ some (s', done bytes))
        × (budget s' ≤ budget s)
        × (bytes ≡ take k (drop (base + total) data'))
        × (0 < k)
        × (k ≤ n)

  module _ (rounds : ℕ) (s : S) (got : List ℕ) (c : ℕ) {s1 : S} {bytes : List ℕ}
      (run : call s (suc c) (length got) ≡ some (s1, done bytes)) where
    full_read-end :
        length bytes ≡ 0 → full_read call (suc rounds) s got (suc c) ≡ some (s1, so_far got)
    unfolding full_read
    full_read-end h = ground arith

    full_read-more :
        0 < length bytes
        → full_read call (suc rounds) s got (suc c)
          ≡ full_read call rounds s1 (got ++ bytes) (sub64 (suc c) (length bytes))
    unfolding full_read
    full_read-more h = ground arith

  full_read-whole :
      Serves
      → (rounds : ℕ) (s : S) (got : List ℕ) (count : ℕ) → count < rounds
      → count < 2 ^ 64
      → budget s < left
      → (s' : S) × (full_read call rounds s got count
          ≡ some (s', whole got count (take count (drop (base + length got) data'))))
  unfolding full_read
  full_read-whole serves zero s got count h w b = absurd (omega arith)
  full_read-whole serves (suc rounds) s got zero h w b = (s, refl)
  full_read-whole serves (suc rounds) s got (suc c) h w b =
      let (s1, bytes, k, run, le, e, kpos, kle) = serves s (suc c) (length got) (omega arith) b in
      let rest = drop (base + length got) data' in
      let size = length-take k rest in
      let len = ap length e in
      elim (ℕ_discrete (length bytes) 0) [
        | yes nil ↦ (
          s1,
          full_read-end rounds s got c run nil
              ∙ ap (λ x. some (s1, so_far x))
                  (sym (append-nil got)
                    ∙ ap (λ x. got ++ x) (sym (take_empty k (suc c) rest kpos (sym len ∙ nil)))),
        )
        | no more ↦
            let left_over : sub64 (suc c) (length bytes) ≡ suc c - length bytes = omega arith in
            let (s2, goes) =
              full_read-whole serves rounds s1 (got ++ bytes) (suc c - length bytes) (omega arith)
                (omega arith) (omega arith) in
            (
              s2,
              full_read-more rounds s got c run (omega arith)
                  ∙ ap (full_read call rounds s1 (got ++ bytes)) left_over
                  ∙ goes
                  ∙ ap (λ x. some (s2, x))
                      (whole-drop got data' (suc c) k base e kle (omega arith)),
            )
      ]

-- Nothing was asked for, or something came: the bytes; -1 if something was asked for and the file
-- has nothing there.
abbrev pub file_part : List ℕ → ℕ → ℕ → Option (List ℕ)
file_part data' zero offset = some []
file_part data' (suc count) offset = so_far (take (suc count) (drop offset data'))

whole-file_part :
    (data' : List ℕ) (count offset : ℕ)
    → whole [] count (take count (drop (offset + 0) data')) ≡ file_part data' count offset
whole-file_part data' zero offset = refl
whole-file_part data' (suc count) offset =
    ap (λ o. so_far (take (suc count) (drop o data'))) (omega arith)

module _ {S : Type 0} (sys : Sys S) (budget : S → ℕ) (data' : List ℕ) where
  -- How pread behaves on a file with these bytes: it may ask for a restart, as often as the budget
  -- says; or it returns at least one and at most `n` of the bytes at the offset, or none if there
  -- are none.
  abbrev pub ReadsFile : Type 0
  ReadsFile =
      (s : S) (n offset : ℕ)
      → 0 < n
      → Calls budget (λ bytes. (k : ℕ) × (bytes ≡ take k (drop offset data')) × (0 < k) × (k ≤ n)) s
          (sys.pread s n offset)

  xpread-Serves :
      ReadsFile
      → (left offset : ℕ)
      → Serves budget left data' offset (λ s n total. xpread sys left s n (offset + total))
  unfolding xpread
  xpread-Serves reads left offset s n total pos b =
      let (s', bytes, run, le, (k, e, kpos, kle)) =
        restart-Calls budget
          (λ bytes. (k : ℕ) × (bytes ≡ take k (drop (offset + total) data')) × (0 < k) × (k ≤ n))
          (λ s. sys.pread s n (offset + total)) (λ s. reads s n (offset + total) pos) left s b in
      (s', bytes, k, run, le, e, kpos, kle)

  -- pread_in_full on such a file ends, given more restarts and more rounds than it can need, and
  -- returns what the file has of the range: however the calls divide it, and whatever restarts they
  -- ask for. It fails only if bytes are asked for and the file has none there.
  pub pread_in_full-file_part :
      (left rounds : ℕ) (s : S) (count offset : ℕ)
      → ReadsFile
      → budget s < left
      → count < rounds
      → count < 2 ^ 64
      → (s' : S) × (pread_in_full sys left rounds s count offset
          ≡ some (s', file_part data' count offset))
  unfolding pread_in_full xpread
  pread_in_full-file_part left rounds s count offset reads b r w =
      let (s', run) =
        full_read-whole budget left data' offset (λ s n total. xpread sys left s n (offset + total))
          (xpread-Serves reads left offset) rounds s [] count r w b in
      (s', run ∙ ap (λ x. some (s', x)) (whole-file_part data' count offset))
