-- ===== src/Util/Tests.antt =====
-- Files and calls that meet the hypotheses of the theorems.
use virtio_disk.Prelude.{
  ℕ, zero, suc, ◌≡◌, refl, inl, inr, none, some, List, [], ◌∷◌, take, drop, arith,
}
use virtio_disk.Prelude.Int.{pos, minus_one}
use virtio_disk.Util.Init.{Item, init_list_init, init_list_exit}
use virtio_disk.Util.Init.Order.{
  Added, InLists, add_all, upwards, downwards, until_failure, init_list-order,
}
use virtio_disk.Util.ReadWrite.{Ret, done, failed, eintr, Sys, pread_in_full, preadv_in_full}
use virtio_disk.Util.ReadWrite.Reads.{ReadsFile, file_part, pread_in_full-file_part}
use virtio_disk.Util.ReadWrite.Vectors.{preadv_in_full_endless, preadv_in_full-filled, filled_vec}

abbrev content : List ℕ
content = 10 ∷ 20 ∷ 30 ∷ 40 ∷ []

-- one byte at a time, after as many interruptions as the state says
abbrev slow_pread : ℕ → ℕ → ℕ → ℕ × Ret (List ℕ)
slow_pread zero n offset = (zero, done (take 1 (drop offset content)))
slow_pread (suc s) n offset = (s, failed eintr)

abbrev sys : Sys ℕ
sys = record {
  read = λ s n. (s, done []);
  write = λ s b. (s, done 0);
  pread = slow_pread;
  pwrite = λ s b offset. (s, done 0);
  readv = λ s ls. (s, done []);
  writev = λ s bs. (s, done 0);
  preadv = λ s ls offset. (s, done (10 ∷ 20 ∷ []));
  pwritev = λ s bs offset. (s, done 0);
}

sys-ReadsFile : ReadsFile sys (λ s. s) content
sys-ReadsFile zero n offset h =
    inr (take 1 (drop offset content), refl, omega arith, (1, refl, omega arith, omega arith))
sys-ReadsFile (suc s) n offset h = inl (eintr, refl, refl, omega arith)

pread_in_full-file_part_example :
    (s' : ℕ) × (pread_in_full sys 4 6 3 5 1 ≡ some (s', file_part content 5 1))
pread_in_full-file_part_example =
    pread_in_full-file_part sys (λ s. s) content 4 6 3 5 1 sys-ReadsFile (omega arith) (omega arith)
      (omega arith)

preadv_in_full_endless_example : preadv_in_full sys 1 1000 [] 0 ((0 ∷ 0 ∷ 0 ∷ []) ∷ []) 0 ≡ none
preadv_in_full_endless_example =
    preadv_in_full_endless sys 0 1000 0 (0 ∷ 0 ∷ 0 ∷ []) [] [] 0 (omega arith)
      (λ s. (s, 10 ∷ 20 ∷ [], refl, omega arith, omega arith))

abbrev two_buffers : List (List ℕ)
two_buffers = (0 ∷ []) ∷ (0 ∷ []) ∷ []

preadv_in_full-filled_example :
    preadv_in_full sys 1 2 ((0 ∷ []) ∷ []) 0 two_buffers 0
    ≡ some (
      0,
      filled_vec sys 0 0 0 two_buffers 0 {s' = 0} {bytes = 10 ∷ 20 ∷ []}
          (omega arith)
          (omega arith)
          refl
          refl
          ((0 ∷ []) ∷ []),
      some 2,
    )
preadv_in_full-filled_example =
    preadv_in_full-filled sys 0 0 0 two_buffers 0 {s' = 0} {bytes = 10 ∷ 20 ∷ []} (omega arith)
      (omega arith) refl refl (0 ∷ []) [] (omega arith)

-- a function of priority 6, one of priority 4, and one more of priority 6 that fails
abbrev counted : Item ℕ
counted = λ k. (suc k, pos 0)

abbrev fails : Item ℕ
fails = λ k. (k, minus_one)

abbrev three_items : Added ℕ
three_items = (6, fails) ∷ (4, counted) ∷ (6, counted) ∷ []

three_items-InLists : InLists three_items
three_items-InLists = (omega arith, (omega arith, (omega arith, omega arith)))

init_list-order_example :
    (lists : List (List (Item ℕ))) × (add_all three_items ≡ some lists)
    × ((k : ℕ) → init_list_init lists k ≡ until_failure (upwards 10 0 three_items) k)
    × ((k : ℕ) → init_list_exit lists k ≡ until_failure (downwards 10 three_items) k)
init_list-order_example = init_list-order three_items three_items-InLists
