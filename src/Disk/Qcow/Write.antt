-- ===== src/Disk/Qcow/Write.antt =====
-- Writing clusters: get_cluster_table, qcow_write_cluster and qcow_write_sector.
--
-- disk/core.c opens every QCOW image read-only, so that these functions are not called. They are
-- modelled as they stand: both tests of an allocation have the wrong sense.
use virtio_disk.Prelude.{
  ℕ, zero, suc, ◌+◌, ◌-◌, ◌*◌, ◌/◌, ◌%◌, ◌^◌, min, Bool, true, false, ◌||◌, Option, none, some,
  List, [], ◌∷◌, length, take, drop, replicate, get_elem?, set, ltb, leb, ◌==◌, if◌then◌else◌,
  ◌>>=◌,
}
use virtio_disk.Disk.Qcow.{
  shift_int, Qcow, File, low_bits, get_l1_index, get_l2_index, get_cluster_offset,
}
use virtio_disk.Disk.Qcow.Cache.{RbTree, new_node, node_at, put_node, cache_node, free_node}
use virtio_disk.Disk.Qcow.Read.{has_bit, qcow_read_l2_table, qcow2_read_cluster}
use virtio_disk.Disk.Qcow.Refcount.{
  pwrite_off, qcow_l2_cache_write, qcow_write_l1_table, qcow_alloc_clusters, qcow_free_clusters,
}

-- (u64)-1
abbrev pub no_offset : ℕ
no_offset = 2 ^ 64 - 1

abbrev pub listed : ℕ → List ℕ → Bool
listed n [] = false
listed n (m ∷ ms) = (n == m) || listed n ms

module _ {S : Type 0} (rb : RbTree) (file : File S) (inflate : List ℕ → ℕ → Option (List ℕ))
    (rounds calls : ℕ) where
  abbrev pub alloc : S → Qcow → ℕ → Option (S × Qcow × Option ℕ)
  alloc s q size = qcow_alloc_clusters file rb rounds calls s q size true

  abbrev pub free_at : S → Qcow → ℕ → ℕ → Option (S × Qcow × Bool)
  free_at s q start size = qcow_free_clusters file rb rounds calls s q start size

  -- The labels free_cache and free_cluster of get_cluster_table, where the allocation has failed.
  unfoldable pub give_up : S → Qcow → Option ℕ → Option (S × Qcow × Option ℕ)
  unfolding free_node qcow_free_clusters
  give_up s q l2t = do
    let q' : Qcow = elim l2t [ none ↦ q | some n ↦ record q { l2_cache = free_node q.l2_cache n } ]
    (s1, q1, _) ← free_at s q' no_offset q.cluster_size
    some (s1, q1, none)

  -- The part of get_cluster_table behind a failed allocation, with the node of the table that is
  -- written. A node that is in the list already would be linked a second time.
  unfoldable pub install_table : S → Qcow → ℕ → ℕ → ℕ → Option (S × Qcow × Option ℕ)
  unfolding node_at put_node cache_node qcow_l2_cache_write qcow_write_l1_table give_up
      qcow_free_clusters
  install_table s q n l1t_idx l2t_offset = do
    t ← node_at q.l2_cache n
    (s1, q1, written) ←
        qcow_l2_cache_write file s
          (record q { l2_cache = put_node q.l2_cache n (record t { dirty = true }) }) n
    let install : Option (S × Qcow × Option ℕ) = (do
      c ← (if listed n q1.l2_cache.lru_list then none else cache_node rb q1.l2_cache (t.offset, n))
      let q2 = record q1 { l2_cache = c; l1_table = set q1.l1_table l1t_idx no_offset }
      (s3, saved) ← qcow_write_l1_table file s1 q2
      let finish : Option (S × Qcow × Option ℕ) = (do
        (s4, q4, _) ← free_at s3 q2 l2t_offset q2.cluster_size
        some (s4, q4, some n))
      if saved then finish else give_up s3 q2 (some n))
    if written then install else give_up s1 q1 (some n)

  -- The entry `l2t_offset` of the level-1 table is the address of a table that is not shared: the
  -- table is used. Otherwise a new one is asked for.
  unfoldable pub table_for : S → Qcow → ℕ → ℕ → Option (S × Qcow × Option ℕ)
  unfolding qcow_read_l2_table qcow_alloc_clusters new_node install_table give_up shift_int
  table_for s q l1t_idx l2t_offset = do
    l2t_size ← shift_int q.header.l2_bits
    let fresh : Option (S × Qcow × Option ℕ) = (do
      (s1, q1, r) ← alloc s q (l2t_size * 8)
      elim r [
        | some l2t_new_offset ↦ some (s1, q1, none)
        | none ↦ do
          let (n, c1) =
              new_node q1.l2_cache
                (record { offset = no_offset; dirty = false; table = replicate l2t_size 0 })
          let q2 = record q1 { l2_cache = c1 }
          if l2t_offset == 0 then install_table s1 q2 n l1t_idx l2t_offset else (do
            (s3, q3, old) ← qcow_read_l2_table rb file inflate s1 q2 l2t_offset
            elim old [
              | none ↦ give_up s3 q3 none
              | some m ↦ install_table s3 q3 m l1t_idx l2t_offset
            ])
      ])
    let own = qcow_read_l2_table rb file inflate s q (low_bits l2t_offset 63)
    if has_bit 63 l2t_offset then own else fresh

  -- The node of the table and the index in it, or `none` for -1.
  unfoldable pub get_cluster_table : S → Qcow → ℕ → Option (S × Qcow × Option (ℕ × ℕ))
  unfolding get_l1_index get_l2_index table_for shift_int
  get_cluster_table s q offset = do
    l2t_size ← shift_int q.header.l2_bits
    l1t_idx ← get_l1_index q offset
    l2t_idx ← get_l2_index q offset
    let go : Option (S × Qcow × Option (ℕ × ℕ)) = (do
      l2t_offset ← get_elem? q.l1_table l1t_idx
      (s1, q1, r) ← table_for s q l1t_idx l2t_offset
      some (s1, q1, elim r [ none ↦ none | some n ↦ some (n, l2t_idx) ]))
    if leb q.table_size l1t_idx || leb l2t_size l2t_idx then some (s, q, none) else go

  -- The number of bytes written, or `none` for -1. A new cluster is only ever at `no_offset`, where
  -- the write fails.
  unfoldable pub qcow_write_cluster : S → Qcow → ℕ → List ℕ → Option (S × Qcow × Option ℕ)
  unfolding get_cluster_offset get_cluster_table node_at qcow_alloc_clusters qcow_free_clusters
      pwrite_off qcow2_read_cluster
  qcow_write_cluster s q offset src = do
    clust_off ← get_cluster_offset q offset
    let len = min (q.cluster_size - clust_off) (length src)
    let go : Option (S × Qcow × Option ℕ) = (do
      (s1, q1, r) ← get_cluster_table s q offset
      elim r [
        | none ↦ some (s1, q1, none)
        | some (n, l2t_idx) ↦ do
          t ← node_at q1.l2_cache n
          entry ← get_elem? t.table l2t_idx
          let clust_start = low_bits entry 62
          let in_place : Option (S × Qcow × Option ℕ) = (do
            (s2, w) ← pwrite_off file s1 (take len src) (clust_start + clust_off)
            some (s2, q1, elim w [ none ↦ none | some _ ↦ some len ]))
          let fail = λ (s : S) (q : Qcow).
              (free_at s q no_offset q.cluster_size >>= λ r. some (r.0, r.1, none))
          let copy : Option (S × Qcow × Option ℕ) = (do
            (s2, q2, a) ← alloc s1 q1 q1.cluster_size
            elim a [
              | some clust_new_start ↦ some (s2, q2, none)
              | none ↦ if clust_start == 0 then fail s2 q2 else (do
                (s3, q3, _) ←
                    qcow2_read_cluster rb file inflate s2 q2 (offset - offset % q2.cluster_size)
                      q2.cluster_size
                fail s3 q3)
            ])
          if has_bit 63 entry then in_place else copy
      ])
    if leb q.cluster_size clust_off then some (s, q, none) else go

  -- The loop of qcow_write_sector_single with the rounds that are left.
  unfoldable pub write_loop : ℕ → S → Qcow → ℕ → List ℕ → ℕ → Option (S × Qcow × Option ℕ)
  unfolding qcow_write_cluster
  write_loop zero s q offset buf nr_written = none
  write_loop (suc left) s q offset buf nr_written =
      let next : Option (S × Qcow × Option ℕ) = (do
        (s1, q1, r) ← qcow_write_cluster s q offset buf
        elim r [
          | none ↦ some (s1, q1, none)
          | some nr ↦ write_loop left s1 q1 (offset + nr) (drop nr buf) (nr_written + nr)
        ]) in
      if ltb 0 (length buf)
      then (if leb q.header.size offset then some (s, q, none) else next)
      else some (s, q, some nr_written)

  unfoldable pub qcow_write_sector_single : ℕ → S → Qcow → ℕ → List ℕ → Option (S × Qcow × Option ℕ)
  unfolding write_loop
  qcow_write_sector_single left s q sector src = write_loop left s q (sector * 512 % 2 ^ 64) src 0

  unfoldable pub qcow_write_sector :
      ℕ → S → Qcow → ℕ → List (List ℕ) → ℕ → Option (S × Qcow × Option ℕ)
  unfolding qcow_write_sector_single
  qcow_write_sector left s q sector [] total = some (s, q, some total)
  qcow_write_sector left s q sector (src ∷ iov) total = do
    (s1, q1, r) ← qcow_write_sector_single left s q sector src
    elim r [
      | none ↦ some (s1, q1, none)
      | some nr ↦ qcow_write_sector left s1 q1 (sector + length src / 512) iov (total + nr)
    ]
