-- ===== src/Util/ReadWrite.antt =====
-- util/read-write.c: system calls that are restarted, and transfers in full.
--
-- The system calls are the system's: a record of functions on its state, which holds the open file
-- and its position. A call returns what it transferred or the `errno` of its failure.
-- A restart is a jump back without a bound, so the model recurs on the restarts that are left, and
-- the loops on the rounds that are left; `none` if either runs out.
pub mod Reads
pub mod Vectors
use virtio_disk.Prelude.{
  ℕ, zero, suc, ◌+◌, ◌-◌, ◌%◌, ◌^◌, Bool, true, false, not, ◌||◌, Option, none, some, List, [], ◌∷◌,
  ◌++◌, map, length, take, drop, ltb, leb, ◌==◌, if◌then◌else◌, ◌>>=◌,
}

-- The values of `errno` that the code tests, or sets.
pub data Errno : Type 0 where
  eagain eintr enospc enomem other : Errno

pub data Ret {ℓ} (A : Type ℓ) : Type ℓ where
  done : A → Ret A
  failed : Errno → Ret A

-- `(errno == EAGAIN) || (errno == EINTR)`
abbrev pub restarts : Errno → Bool
restarts eagain = true
restarts eintr = true
restarts enospc = false
restarts enomem = false
restarts other = false

-- A read is given a count and returns the bytes; a write is given the bytes and returns their
-- number. The vectored calls are given, and return, the contents of the buffers one by one.
pub record Sys (S : Type 0) : Type 0 where
  pub read : S → ℕ → S × Ret (List ℕ)
  pub write : S → List ℕ → S × Ret ℕ
  pub pread : S → ℕ → ℕ → S × Ret (List ℕ)
  pub pwrite : S → List ℕ → ℕ → S × Ret ℕ
  pub readv : S → List ℕ → S × Ret (List ℕ)
  pub writev : S → List (List ℕ) → S × Ret ℕ
  pub preadv : S → List ℕ → ℕ → S × Ret (List ℕ)
  pub pwritev : S → List (List ℕ) → ℕ → S × Ret ℕ

module _ {S : Type 0} where
  -- `restart: nr = call(...); if ((nr < 0) && ...) goto restart; return nr;`
  unfoldable pub restart {ℓ} : {A : Type ℓ} → ℕ → (S → S × Ret A) → S → Option (S × Ret A)
  restart zero call s = none
  restart (suc left) call s =
      let (s', r) = call s in
      elim r [
        | done a ↦ some (s', done a)
        | failed e ↦
            let again = restart left call s' in if restarts e then again else some (s', failed e)
      ]

  module _ (sys : Sys S) (left : ℕ) where
    unfoldable pub xread : S → ℕ → Option (S × Ret (List ℕ))
    unfolding restart
    xread s count = restart left (λ s. sys.read s count) s

    unfoldable pub xwrite : S → List ℕ → Option (S × Ret ℕ)
    unfolding restart
    xwrite s buf = restart left (λ s. sys.write s buf) s

    unfoldable pub xpread : S → ℕ → ℕ → Option (S × Ret (List ℕ))
    unfolding restart
    xpread s count offset = restart left (λ s. sys.pread s count offset) s

    unfoldable pub xpwrite : S → List ℕ → ℕ → Option (S × Ret ℕ)
    unfolding restart
    xpwrite s buf offset = restart left (λ s. sys.pwrite s buf offset) s

    unfoldable pub xreadv : S → List ℕ → Option (S × Ret (List ℕ))
    unfolding restart
    xreadv s lens = restart left (λ s. sys.readv s lens) s

    unfoldable pub xwritev : S → List (List ℕ) → Option (S × Ret ℕ)
    unfolding restart
    xwritev s iov = restart left (λ s. sys.writev s iov) s

    unfoldable pub xpreadv : S → List ℕ → ℕ → Option (S × Ret (List ℕ))
    unfolding restart
    xpreadv s lens offset = restart left (λ s. sys.preadv s lens offset) s

    unfoldable pub xpwritev : S → List (List ℕ) → ℕ → Option (S × Ret ℕ)
    unfolding restart
    xpwritev s iov offset = restart left (λ s. sys.pwritev s iov offset) s

-- size_t subtraction
abbrev pub sub64 : ℕ → ℕ → ℕ
sub64 a b = (a + 2 ^ 64 - b) % 2 ^ 64

-- `if (total > 0) return total; return -1;`, where `none` is -1
abbrev pub so_far : List ℕ → Option (List ℕ)
so_far [] = none
so_far (b ∷ bs) = some (b ∷ bs)

module _ {S : Type 0} where
  -- The loop of read_in_full and pread_in_full. `call` is given the count that is left and the
  -- total; the result is what was read, or `none` for -1.
  unfoldable pub full_read :
      (S → ℕ → ℕ → Option (S × Ret (List ℕ))) → ℕ → S → List ℕ → ℕ → Option (S × Option (List ℕ))
  full_read call zero s got count = none
  full_read call (suc rounds) s got count =
      let next = (do
        (s', r) ← call s count (length got)
        elim r [
          | failed e ↦ some (s', so_far got)
          | done bytes ↦
              let rest = full_read call rounds s' (got ++ bytes) (sub64 count (length bytes)) in
              if length bytes == 0 then some (s', so_far got) else rest
        ]) in
      if ltb 0 count then next else some (s, some got)

  -- The loop of write_in_full and pwrite_in_full, over the bytes that are left. The result is the
  -- total, or `none` for -1; the `errno` of a call that writes nothing becomes ENOSPC.
  unfoldable pub full_write :
      (S → List ℕ → ℕ → Option (S × Ret ℕ)) → ℕ → S → List ℕ → ℕ → Option (S × Option ℕ)
  full_write call zero s buf total = none
  full_write call (suc rounds) s buf total =
      let next = (do
        (s', r) ← call s buf total
        elim r [
          | failed e ↦ some (s', none)
          | done nr ↦
              let rest = full_write call rounds s' (drop nr buf) (total + nr) in
              if nr == 0 then some (s', none) else rest
        ]) in
      if ltb 0 (length buf) then next else some (s, some total)

  module _ (sys : Sys S) (left rounds : ℕ) where
    unfoldable pub read_in_full : S → ℕ → Option (S × Option (List ℕ))
    unfolding full_read xread
    read_in_full s count = full_read (λ s n total. xread sys left s n) rounds s [] count

    -- The result, or -1 with `errno` ENOMEM.
    unfoldable pub read_file : S → ℕ → Option (S × Option (List ℕ))
    unfolding read_in_full xread
    read_file s max_size = do
      (s1, ret) ← read_in_full s max_size
      (s2, probe) ← xread sys left s1 1
      some (
        s2,
        elim probe [ failed e ↦ none | done bytes ↦ if length bytes == 0 then ret else none ],
      )

    unfoldable pub write_in_full : S → List ℕ → Option (S × Option ℕ)
    unfolding full_write xwrite
    write_in_full s buf = full_write (λ s b total. xwrite sys left s b) rounds s buf 0

    unfoldable pub pread_in_full : S → ℕ → ℕ → Option (S × Option (List ℕ))
    unfolding full_read xpread
    pread_in_full s count offset =
        full_read (λ s n total. xpread sys left s n (offset + total)) rounds s [] count

    unfoldable pub pwrite_in_full : S → List ℕ → ℕ → Option (S × Option ℕ)
    unfolding full_write xpwrite
    pwrite_in_full s buf offset =
        full_write (λ s b total. xpwrite sys left s b (offset + total)) rounds s buf 0

abbrev pub get_iov_size : List (List ℕ) → ℕ
get_iov_size [] = 0
get_iov_size (b ∷ bs) = (get_iov_size bs + length b) % 2 ^ 64

-- The variables that shift_iovec changes. `iov` has the buffers from the pointer on, also those
-- behind the last one that counts; `filled` has those that the pointer has passed.
pub record Vec : Type 0 where
  pub filled : List (List ℕ)
  pub iov : List (List ℕ)
  pub iovcnt : ℕ
  pub total : ℕ
  pub count : ℕ
  pub offset : ℕ

-- The loop, over the buffers from the pointer on. `none` is a read past what is behind the array.
unfoldable pub shift_iovec : List (List ℕ) → ℕ → Vec → Option Vec
shift_iovec [] nr v = none
shift_iovec (b ∷ bs) nr v =
    let len = length b in
    let rest = shift_iovec bs (nr - len) (record {
      filled = v.filled ++ (b ∷ []);
      iov = bs;
      iovcnt = v.iovcnt - 1;
      total = v.total + len;
      count = sub64 v.count len;
      offset = v.offset + len;
    }) in
    if leb len nr then rest else some v

-- What a vectored read leaves in the buffers: the bytes, from the first buffer on.
unfoldable pub scatter : List ℕ → List (List ℕ) → List (List ℕ)
scatter bytes [] = []
scatter bytes (b ∷ bs) =
    (take (length b) bytes ++ drop (length bytes) b) ∷ scatter (drop (length b) bytes) bs

abbrev pub lens : List (List ℕ) → List ℕ
lens = map length

-- `iovcnt` buffers, and what is behind them in memory
abbrev pub start : List (List ℕ) → List (List ℕ) → ℕ → Vec
start iov behind offset = record {
  filled = [];
  iov = iov ++ behind;
  iovcnt = length iov;
  total = 0;
  count = get_iov_size iov;
  offset = offset;
}

module _ {S : Type 0} where
  -- The loop of readv_in_full and preadv_in_full: the variables at its end, and the result.
  unfoldable pub full_readv :
      (S → List ℕ → ℕ → Option (S × Ret (List ℕ))) → ℕ → S → Vec → Option (S × Vec × Option ℕ)
  unfolding shift_iovec scatter
  full_readv call zero s v = none
  full_readv call (suc rounds) s v =
      let stop = if ltb 0 v.total then some v.total else none in
      let next = (do
        (s', r) ← call s (lens (take v.iovcnt v.iov)) v.offset
        elim r [
          | failed e ↦ some (s', v, stop)
          | done bytes ↦
              let placed = record v {
                iov = scatter bytes (take v.iovcnt v.iov) ++ drop v.iovcnt v.iov;
              } in
              let rest =
                shift_iovec placed.iov (length bytes) placed >>= full_readv call rounds s' in
              if length bytes == 0 then some (s', v, stop) else rest
        ]) in
      if ltb 0 v.count then next else some (s, v, some v.total)

  unfoldable pub full_writev :
      (S → List (List ℕ) → ℕ → Option (S × Ret ℕ)) → ℕ → S → Vec → Option (S × Vec × Option ℕ)
  unfolding shift_iovec
  full_writev call zero s v = none
  full_writev call (suc rounds) s v =
      let next = (do
        (s', r) ← call s (take v.iovcnt v.iov) v.offset
        elim r [
          | failed e ↦ some (s', v, none)
          | done nr ↦
              let rest = shift_iovec v.iov nr v >>= full_writev call rounds s' in
              if nr == 0 then some (s', v, none) else rest
        ]) in
      if ltb 0 v.count then next else some (s, v, some v.total)

  module _ (sys : Sys S) (left rounds : ℕ) (behind : List (List ℕ)) where
    unfoldable pub readv_in_full : S → List (List ℕ) → Option (S × Vec × Option ℕ)
    unfolding full_readv xreadv
    readv_in_full s iov =
        full_readv (λ s ls offset. xreadv sys left s ls) rounds s (start iov behind 0)

    unfoldable pub writev_in_full : S → List (List ℕ) → Option (S × Vec × Option ℕ)
    unfolding full_writev xwritev
    writev_in_full s iov =
        full_writev (λ s bs offset. xwritev sys left s bs) rounds s (start iov behind 0)

    unfoldable pub preadv_in_full : S → List (List ℕ) → ℕ → Option (S × Vec × Option ℕ)
    unfolding full_readv xpreadv
    preadv_in_full s iov offset = full_readv (xpreadv sys left) rounds s (start iov behind offset)

    unfoldable pub pwritev_in_full : S → List (List ℕ) → ℕ → Option (S × Vec × Option ℕ)
    unfolding full_writev xpwritev
    pwritev_in_full s iov offset =
        full_writev (xpwritev sys left) rounds s (start iov behind offset)
