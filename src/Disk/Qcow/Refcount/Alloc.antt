-- ===== src/Disk/Qcow/Refcount/Alloc.antt =====
-- The clusters that qcow_alloc_clusters finds are free.
use mathlib.Core.Path.{subst}
use virtio_disk.Prelude.{
  ℕ, zero, suc, ◌+◌, ◌-◌, ◌%◌, ◌^◌, ◌≤◌, ◌<◌, ◌≡◌, ◌≢◌, sym, ap, ◌∙◌, Option, some, ltb,
  if◌then◌else◌, arith, lt→ltb, ℕ_discrete, dec_lt,
}
use virtio_disk.Disk.Qcow.{Qcow, File, shr}
use virtio_disk.Disk.Qcow.Cache.{RbTree}
use virtio_disk.Disk.Qcow.Refcount.{find_run, u16_max, qcow_get_refcount, alloc_run}

-- The counts of `n` clusters from one on are zero.
abbrev pub AllFree : (ℕ → ℕ) → ℕ → ℕ → Type 0
AllFree refs first n = (j : ℕ) → j < n → refs (first + j) ≡ 0

module _ {S : Type 0} (get : S → Qcow → ℕ → Option (S × Qcow × ℕ)) (refs : ℕ → ℕ)
    (P : S → Qcow → Type 0) where
  -- In the states of `P`, which reading keeps to, the count of each cluster below the bound is read
  -- without an error, as the search asks for it: when free_clust_idx is the number behind it.
  abbrev pub Reads : ℕ → Type 0
  Reads bound =
      (s : S) (q : Qcow) (idx : ℕ)
      → P s q
      → idx < bound
      → (s' : S) × (q' : Qcow) × (get s (record q { free_clust_idx = idx + 1 }) idx
          ≡ some (s', q', refs idx))
        × (q'.free_clust_idx ≡ idx + 1)
        × P s' q'

  AllFree-suc :
      (first i idx : ℕ)
      → AllFree refs first i
      → first + i ≡ idx
      → refs idx ≡ 0
      → AllFree refs first (i + 1)
  AllFree-suc first i idx all at e j h = elim (ℕ_discrete j i) [
    | yes same ↦ ap (λ k. refs (first + k)) same ∙ ap refs at ∙ e
    | no other ↦ all j (omega arith)
  ]

  module _ (rounds : ℕ) (s : S) (q : Qcow) (num i idx : ℕ) {s1 : S} {q1 : Qcow} {count : ℕ}
      (more : i < num)
      (run : get s (record q { free_clust_idx = q.free_clust_idx + 1 }) (q.free_clust_idx % 2 ^ 32)
        ≡ some (s1, q1, count))
      (fine : count ≢ u16_max) where
    find_run-step :
        find_run get (suc rounds) s q num i idx
        ≡ find_run get rounds s1 q1 num
            (if ltb 0 count then 0 else i + 1)
            (q.free_clust_idx % 2 ^ 32)
    unfolding find_run
    find_run-step = ground arith

  find_run-done :
      (rounds : ℕ) (s : S) (q : Qcow) (num i idx : ℕ)
      → num ≤ i
      → find_run get (suc rounds) s q num i idx ≡ some (s, q, some idx)
  unfolding find_run
  find_run-done rounds s q num i idx h = ground arith

  -- A run of `num` free clusters that ends at `last`, at or before `k`, where the next search goes
  -- on behind it.
  pub record FreeRun (num k last : ℕ) (q' : Qcow) : Type 0 where
    pub fits : num ≤ last + 1
    pub before : last + 1 - num ≤ k
    pub next : q'.free_clust_idx ≡ last + 1
    pub free : AllFree refs (last + 1 - num) num

  -- A cluster in use, before the end of a free run, stands before the run.
  before_run : {k num f : ℕ} → AllFree refs k num → refs f ≢ 0 → f < k + num → f < k
  before_run {k} {num} {f} there used lt = elim (dec_lt f k) [
    | yes h ↦ h
    | no h ↦
        let at : f ≡ k + (f - k) = omega arith in
        absurd (used (ap refs at ∙ there (f - k) (omega arith)))
  ]

  -- The search with `i` free clusters behind it.
  find_run-FreeRun :
      (num k : ℕ)
      → 0 < num
      → Reads (k + num)
      → AllFree refs k num
      → ((j : ℕ) → j < k + num → refs j ≢ u16_max)
      → k + num < 2 ^ 32
      → (rounds : ℕ) (s : S) (q : Qcow) (i idx : ℕ) → i ≤ num
      → P s q
      → i ≤ q.free_clust_idx
      → q.free_clust_idx ≤ k + i
      → AllFree refs (q.free_clust_idx - i) i
      → (0 < i → idx + 1 ≡ q.free_clust_idx)
      → k + num < q.free_clust_idx + rounds
      → (s' : S) × (q' : Qcow) × (last : ℕ) × (find_run get rounds s q num i idx
          ≡ some (s', q', some last))
        × FreeRun num k last q'
        × P s' q'
  find_run-FreeRun num k pos reads there sane word zero s q i idx le inv at near run cur fuel =
      absurd (omega arith)
  find_run-FreeRun num k pos reads there sane word (suc rounds) s q i idx le inv at near run cur
        fuel =
      elim (dec_lt i num) [
        | no full ↦
            let now : i ≡ num = omega arith in
            let last_at = cur (omega arith) in
            (
              s,
              q,
              idx,
              find_run-done rounds s q num i idx (omega arith),
              record {
                fits = omega arith;
                before = omega arith;
                next = sym last_at;
                free = rw (last_at, ← now) run;
              },
              inv,
            )
        | yes more ↦
            let f = q.free_clust_idx in
            let small : f % 2 ^ 32 ≡ f = omega arith in
            let (s1, q1, got, same, inv1) = reads s q f inv (omega arith) in
            let asked : get s (record q { free_clust_idx = f + 1 }) (f % 2 ^ 32)
                ≡ some (s1, q1, refs f) =
              subst (λ j. get s (record q { free_clust_idx = f + 1 }) j ≡ some (s1, q1, refs f))
                (sym small) got in
            let step = find_run-step rounds s q num i idx more asked (sane f (omega arith)) in
            elim (ℕ_discrete (refs f) 0) [
              | yes e ↦
                  let choice : (if ltb 0 (refs f) then 0 else i + 1) ≡ i + 1 = rw e in
                  let behind : q1.free_clust_idx - (i + 1) ≡ f - i = omega arith in
                  let (s2, q2, last, goes, found, inv2) =
                    find_run-FreeRun num k pos reads there sane word rounds s1 q1 (i + 1)
                      (f % 2 ^ 32) (omega arith) inv1 (omega arith) (omega arith)
                      (rw behind (AllFree-suc (f - i) i f run (omega arith) e)) (λ h. omega arith)
                      (omega arith) in
                  (
                    s2,
                    q2,
                    last,
                    step ∙ ap (λ j. find_run get rounds s1 q1 num j (f % 2 ^ 32)) choice ∙ goes,
                    found,
                    inv2,
                  )
              | no e ↦
                  let choice : (if ltb 0 (refs f) then 0 else i + 1) ≡ 0 =
                    rw (lt→ltb 0 (refs f) (omega arith)) in
                  let ahead : f < k = before_run there e (omega arith) in
                  let (s2, q2, last, goes, found, inv2) =
                    find_run-FreeRun num k pos reads there sane word rounds s1 q1 0 (f % 2 ^ 32)
                      (omega arith) inv1 (omega arith) (omega arith) (λ j h. absurd (omega arith))
                      (λ h. absurd (omega arith)) (omega arith) in
                  (
                    s2,
                    q2,
                    last,
                    step ∙ ap (λ j. find_run get rounds s1 q1 num j (f % 2 ^ 32)) choice ∙ goes,
                    found,
                    inv2,
                  )
            ]
      ]

-- the clusters that an allocation of so many bytes takes
abbrev clusters_of : Qcow → ℕ → ℕ
clusters_of q size = shr (size + (q.cluster_size - 1)) q.header.cluster_bits

module _ {S : Type 0} (file : File S) (rb : RbTree) (rounds size last : ℕ) (s s' : S) (q q' : Qcow)
    (word : last + 1 < 2 ^ 32) where
  -- what the search for `n` clusters finds, and what alloc_run makes of it
  abbrev FoundBy : ℕ → Type 0
  FoundBy n =
      find_run (qcow_get_refcount file rb) rounds s q n 0 0 ≡ some (s', q', some last)
      → n ≤ last + 1
      → alloc_run file rb rounds s q size ≡ some (s', q', some (last + 1 - n + 2 ^ 64, n))

  found_all : FoundBy (clusters_of q size)
  unfolding alloc_run
  found_all ran fits =
      let n : ℕ = clusters_of q size in
      let place : (last + 1) % 2 ^ 32 + 2 ^ 64 - n ≡ last + 1 - n + 2 ^ 64 = omega arith in
      rw (alloc_run, ran) (ap (λ p. some (s', q', some (p, n))) place)

  alloc_run-found : (num : ℕ) → clusters_of q size ≡ num → FoundBy num
  alloc_run-found num asked = subst FoundBy asked found_all

-- In states in which qcow_get_refcount reads the count of each cluster as far as the run below, and
-- meets no error, and which it leaves for no others: if free clusters in a row, as many as are asked
-- for, stand at `k`, at or behind the place where the search begins, and there are rounds enough to
-- come to their end, then the search of qcow_alloc_clusters ends. It finds as many free clusters in a
-- row, not behind `k`, whose first is returned (modulo 2 ^ 64), and leaves off behind them.
pub alloc_run_first_fit :
    {S : Type 0} (file : File S) (rb : RbTree) (refs : ℕ → ℕ) (P : S → Qcow → Type 0)
    (num k size rounds : ℕ) (s : S) (q : Qcow)
    → Reads (qcow_get_refcount file rb) refs P (k + num)
    → P s q
    → shr (size + (q.cluster_size - 1)) q.header.cluster_bits ≡ num
    → 0 < num
    → q.free_clust_idx ≤ k
    → AllFree refs k num
    → ((j : ℕ) → j < k + num → refs j ≢ u16_max)
    → k + num < 2 ^ 32
    → k + num < q.free_clust_idx + rounds
    → (s' : S) × (q' : Qcow) × (first : ℕ) × (alloc_run file rb rounds s q size
        ≡ some (s', q', some (first + 2 ^ 64, num)))
      × (first ≤ k)
      × (q'.free_clust_idx ≡ first + num)
      × AllFree refs first num
      × P s' q'
alloc_run_first_fit file rb refs P num k size rounds s q reads inv asked pos le there sane word
      fuel =
    let (s', q', last, ran, found, inv') =
      find_run-FreeRun (qcow_get_refcount file rb) refs P num k pos reads there sane word rounds s q
        0 0 (omega arith) inv (omega arith) (omega arith) (λ j h. absurd (omega arith))
        (λ h. absurd (omega arith)) fuel in
    let fits = found.fits in
    let near = found.before in
    let on = found.next in
    (
      s',
      q',
      last + 1 - num,
      alloc_run-found file rb rounds size last s s' q q' (omega arith) num asked ran fits,
      near,
      omega arith,
      found.free,
      inv',
    )
