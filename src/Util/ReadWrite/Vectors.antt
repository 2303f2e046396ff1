-- ===== src/Util/ReadWrite/Vectors.antt =====
-- preadv_in_full: when it fills its buffers, and when it never ends.
use virtio_disk.Prelude.{
  ℕ, zero, suc, ◌+◌, ◌-◌, ◌^◌, ◌≤◌, ◌<◌, ◌≡◌, refl, sym, ap, ◌∙◌, Option, none, some, List, [], ◌∷◌,
  ◌++◌, append-nil, append_assoc, length, take, drop, length-take, length-drop, length-append,
  le→leb, arith,
}
use virtio_disk.Util.ReadWrite.{
  Ret, done, Sys, restart, xpreadv, sub64, get_iov_size, Vec, shift_iovec, scatter, lens, start,
  full_readv, preadv_in_full,
}

length-patch :
    (b bytes : List ℕ) → length (take (length b) bytes ++ drop (length bytes) b) ≡ length b
length-patch b bytes = omega (
  arith,
  length-append (take (length b) bytes) (drop (length bytes) b),
  length-take (length b) bytes,
  length-drop (length bytes) b,
)

lens-scatter : (bytes : List ℕ) (bs : List (List ℕ)) → lens (scatter bytes bs) ≡ lens bs
unfolding scatter
lens-scatter bytes [] = refl
lens-scatter bytes (b ∷ bs) =
    ap (λ n. n ∷ lens (scatter (drop (length b) bytes) bs)) (length-patch b bytes)
    ∙ ap (λ ns. length b ∷ ns) (lens-scatter (drop (length b) bytes) bs)

length-lens : (bs : List (List ℕ)) → length (lens bs) ≡ length bs
length-lens [] = refl
length-lens (b ∷ bs) = ap suc (length-lens bs)

length-scatter : (bytes : List ℕ) (bs : List (List ℕ)) → length (scatter bytes bs) ≡ length bs
length-scatter bytes bs =
    sym (length-lens (scatter bytes bs)) ∙ ap length (lens-scatter bytes bs) ∙ length-lens bs

module _ {ℓ} {A : Type ℓ} where
  take-prefix : (xs ys : List A) → take (length xs) (xs ++ ys) ≡ xs
  take-prefix [] ys = refl
  take-prefix (x ∷ xs) ys = ap (λ l. x ∷ l) (take-prefix xs ys)

  drop-prefix : (xs ys : List A) → drop (length xs) (xs ++ ys) ≡ ys
  drop-prefix [] ys = refl
  drop-prefix (x ∷ xs) ys = drop-prefix xs ys

-- A call that ends inside the first buffer moves no pointer.
shift_iovec-short :
    (b : List ℕ) (bs : List (List ℕ)) (nr : ℕ) (v : Vec)
    → nr < length b
    → shift_iovec (b ∷ bs) nr v ≡ some v
unfolding shift_iovec
shift_iovec-short b bs nr v h = ground arith

module _ {S : Type 0} (call : S → List ℕ → ℕ → Option (S × Ret (List ℕ))) where
  -- the variables after a call that ends inside the first buffer
  abbrev patched : List (List ℕ) → List (List ℕ) → List ℕ → Vec → Vec
  patched f behind bytes v = record v { iov = scatter bytes f ++ behind }

  -- a round whose call returns something
  full_readv-step :
      (rounds : ℕ) (s : S) (v v' : Vec) (f behind : List (List ℕ)) {s' : S} {bytes : List ℕ}
      → take v.iovcnt v.iov ≡ f
      → drop v.iovcnt v.iov ≡ behind
      → 0 < v.count
      → call s (lens f) v.offset ≡ some (s', done bytes)
      → 0 < length bytes
      → shift_iovec (scatter bytes f ++ behind) (length bytes) (patched f behind bytes v) ≡ some v'
      → full_readv call (suc rounds) s v ≡ full_readv call rounds s' v'
  unfolding full_readv
  full_readv-step rounds s v v' f behind front back more run pos goes = ground arith

  module _ (v : Vec) (f behind : List (List ℕ)) (at : v.iov ≡ f ++ behind)
      (cnt : v.iovcnt ≡ length f) where
    front : take v.iovcnt v.iov ≡ f
    front = ap (λ n. take n v.iov) cnt ∙ ap (take (length f)) at ∙ take-prefix f behind

    back : drop v.iovcnt v.iov ≡ behind
    back = ap (λ n. drop n v.iov) cnt ∙ ap (drop (length f)) at ∙ drop-prefix f behind

  -- Calls that always end inside the first buffer, but not at its start.
  abbrev Short : ℕ → List ℕ → ℕ → Type 0
  Short l ls offset =
      (s : S)
      → (s' : S) × (bytes : List ℕ) × (call s (l ∷ ls) offset ≡ some (s', done bytes))
        × (0 < length bytes)
        × (length bytes < l)

  full_readv-endless :
      (rounds : ℕ) (s : S) (v : Vec) (b : List ℕ) (bs behind : List (List ℕ))
      → v.iov ≡ (b ∷ bs) ++ behind
      → v.iovcnt ≡ length (b ∷ bs)
      → 0 < v.count
      → Short (length b) (lens bs) v.offset
      → full_readv call rounds s v ≡ none
  unfolding full_readv scatter
  full_readv-endless zero s v b bs behind at cnt more short = refl
  full_readv-endless (suc rounds) s v b bs behind at cnt more short =
      let (s', bytes, run, pos, lt) = short s in
      let keeps = lens-scatter (drop (length b) bytes) bs in
      let size = length-patch b bytes in
      let v' = patched (b ∷ bs) behind bytes v in
      full_readv-step rounds s v v' (b ∷ bs) behind (front v (b ∷ bs) behind at cnt)
        (back v (b ∷ bs) behind at cnt) more run pos
        (shift_iovec-short _ _ (length bytes) v' (omega (arith, size)))
      ∙ full_readv-endless rounds s' v' (take (length b) bytes ++ drop (length bytes) b)
          (scatter (drop (length b) bytes) bs) behind refl
          (cnt ∙ sym (length-scatter bytes (b ∷ bs))) more (rw (size, keeps) short)

module _ {S : Type 0} (sys : Sys S) where
  -- preadv that returns something and never fills the first buffer, as where the file ends inside
  -- it: nothing moves on from round to round, and preadv_in_full never ends.
  pub preadv_in_full_endless :
      (left rounds : ℕ) (s : S) (b : List ℕ) (bs behind : List (List ℕ)) (offset : ℕ)
      → 0 < get_iov_size (b ∷ bs)
      → ((s : S)
          → (s' : S) × (bytes : List ℕ) × (sys.preadv s (lens (b ∷ bs)) offset ≡ (s', done bytes))
            × (0 < length bytes)
            × (length bytes < length b))
      → preadv_in_full sys (suc left) rounds behind s (b ∷ bs) offset ≡ none
  unfolding preadv_in_full xpreadv restart
  preadv_in_full_endless left rounds s b bs behind offset more short =
      full_readv-endless (xpreadv sys (suc left)) rounds s (start (b ∷ bs) behind offset) b bs
        behind refl refl more
        (λ s. let (s', bytes, run, pos, lt) = short s in (s', bytes, ground arith, pos, lt))

abbrev pub total_len : List (List ℕ) → ℕ
total_len [] = 0
total_len (b ∷ bs) = total_len bs + length b

get_iov_size-total_len :
    (bs : List (List ℕ)) → total_len bs < 2 ^ 64 → get_iov_size bs ≡ total_len bs
get_iov_size-total_len [] h = refl
get_iov_size-total_len (b ∷ bs) h = omega (arith, get_iov_size-total_len bs)

-- the variables after all of `bs`
abbrev pub passed : List (List ℕ) → List (List ℕ) → Vec → Vec
passed bs behind v = record v {
  filled = v.filled ++ bs;
  iov = behind;
  iovcnt = v.iovcnt - length bs;
  total = v.total + total_len bs;
  count = v.count - total_len bs;
  offset = v.offset + total_len bs;
}

-- Where the buffers take just what came, the loop goes on to the entry behind them.
shift_iovec-all :
    (bs behind : List (List ℕ)) (v : Vec)
    → v.count < 2 ^ 64
    → total_len bs ≤ v.count
    → v.iov ≡ bs ++ behind
    → shift_iovec (bs ++ behind) (total_len bs) v ≡ shift_iovec behind 0 (passed bs behind v)
unfolding shift_iovec
shift_iovec-all [] behind v w le at =
    ap (shift_iovec behind 0) (ground (arith, append-nil v.filled))
shift_iovec-all (b ∷ bs) behind v w le at =
    let v1 : Vec = record {
      filled = v.filled ++ (b ∷ []);
      iov = bs ++ behind;
      iovcnt = v.iovcnt - 1;
      total = v.total + length b;
      count = sub64 v.count (length b);
      offset = v.offset + length b;
    } in
    let less : total_len bs + length b - length b ≡ total_len bs = omega arith in
    let same : passed bs behind v1 ≡ passed (b ∷ bs) behind v =
      ground (arith, append_assoc v.filled (b ∷ []) bs) in
    let ih = shift_iovec-all bs behind v1 (omega arith) (omega arith) refl in
    rw (le→leb (length b) (total_len bs + length b) (omega arith), less)
      (ih ∙ ap (shift_iovec behind 0) same)

total_len-lens : (cs bs : List (List ℕ)) → lens cs ≡ lens bs → total_len cs ≡ total_len bs
total_len-lens [] [] e = refl
total_len-lens [] (b ∷ bs) e = cc
total_len-lens (c ∷ cs) [] e = cc
total_len-lens (c ∷ cs) (b ∷ bs) e =
    let heads : length c ≡ length b = cc in
    let tails : lens cs ≡ lens bs = cc in omega (arith, total_len-lens cs bs tails)

full_readv-stop :
    {S : Type 0} (call : S → List ℕ → ℕ → Option (S × Ret (List ℕ))) (rounds : ℕ) (s : S) (v : Vec)
    → v.count ≡ 0
    → full_readv call (suc rounds) s v ≡ some (s, v, some v.total)
unfolding full_readv
full_readv-stop call rounds s v e = ground arith

module _ {S : Type 0} (sys : Sys S) (left rounds : ℕ) (s : S) (iov : List (List ℕ)) (offset : ℕ)
    {s' : S} {bytes : List ℕ} (some_len : 0 < total_len iov) (small : total_len iov < 2 ^ 64)
    (run : sys.preadv s (lens iov) offset ≡ (s', done bytes))
    (full : length bytes ≡ total_len iov) where
  -- the variables when every buffer is filled
  abbrev pub filled_vec : List (List ℕ) → Vec
  filled_vec behind =
      passed (scatter bytes iov) behind
        (record (start iov behind offset) { iov = scatter bytes iov ++ behind })

  shift-filled :
      (c : List ℕ) (behind : List (List ℕ))
      → 0 < length c
      → shift_iovec
          (scatter bytes iov ++ (c ∷ behind))
          (length bytes)
          (record (start iov (c ∷ behind) offset) { iov = scatter bytes iov ++ (c ∷ behind) })
        ≡ some (filled_vec (c ∷ behind))
  shift-filled c behind h =
      let same = total_len-lens (scatter bytes iov) iov (lens-scatter bytes iov) in
      let size = get_iov_size-total_len iov small in
      let v = record (start iov (c ∷ behind) offset) { iov = scatter bytes iov ++ (c ∷ behind) } in
      ap (λ n. shift_iovec (scatter bytes iov ++ (c ∷ behind)) n v) (full ∙ sym same)
      ∙ shift_iovec-all (scatter bytes iov) (c ∷ behind) v (omega arith) (omega arith) refl
      ∙ shift_iovec-short c behind 0 (filled_vec (c ∷ behind)) h

  -- preadv that fills all the buffers with one call, where a buffer with room stands behind them:
  -- preadv_in_full returns their size, and leaves the bytes in them, in order. (The entry behind
  -- the last is read in any case.)
  pub preadv_in_full-filled :
      (c : List ℕ) (behind : List (List ℕ))
      → 0 < length c
      → preadv_in_full sys (suc left) (suc (suc rounds)) (c ∷ behind) s iov offset
        ≡ some (s', filled_vec (c ∷ behind), some (total_len iov))
  unfolding preadv_in_full xpreadv restart
  preadv_in_full-filled c behind h =
      let same = total_len-lens (scatter bytes iov) iov (lens-scatter bytes iov) in
      let all_len : 0 + total_len (scatter bytes iov) ≡ total_len iov = omega arith in
      let size = get_iov_size-total_len iov small in
      let v = start iov (c ∷ behind) offset in
      full_readv-step (xpreadv sys (suc left)) (suc rounds) s v (filled_vec (c ∷ behind)) iov
        (c ∷ behind) (take-prefix iov (c ∷ behind)) (drop-prefix iov (c ∷ behind)) (omega arith)
        (ground arith) (omega arith) (shift-filled c behind h)
      ∙ full_readv-stop (xpreadv sys (suc left)) rounds s' (filled_vec (c ∷ behind)) (omega arith)
      ∙ ap (λ n. some (s', filled_vec (c ∷ behind), some n)) all_len
