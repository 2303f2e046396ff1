-- ===== src/Disk/Qcow/Refcount.antt =====
-- Reference counts of clusters, allocation, and the tables that are written back.
--
-- update_cluster_refcount and qcow_grow_refcount_block call each other: the model recurs on the
-- calls that are left, and the search for free clusters on the rounds that are left.
pub mod Alloc
use virtio_disk.Prelude.{
  ℕ, zero, suc, ◌+◌, ◌-◌, ◌*◌, ◌/◌, ◌%◌, ◌^◌, Bool, true, false, not, ◌&&◌, ◌||◌, Option, none,
  some, List, [], ◌∷◌, ◌++◌, length, take, drop, replicate, get_elem?, set, ltb, leb, ◌==◌,
  if◌then◌else◌, ◌>>=◌,
}
use virtio_disk.Disk.Qcow.{Qcow, QcowHeader, File, over, entries, shr, low_bits}
use virtio_disk.Disk.Qcow.Cache.{
  RbTree, NodeCache, RefcountBlock, L2Table, search_node, new_node, node_at, put_node, cache_node,
  free_node,
}

-- The big-endian bytes of a table.
unfoldable pub be_bytes : ℕ → ℕ → List ℕ
be_bytes zero n = []
be_bytes (suc w) n = (n / 256 ^ w % 256) ∷ be_bytes w n

unfoldable pub table_bytes : ℕ → List ℕ → List ℕ
unfolding be_bytes
table_bytes width [] = []
table_bytes width (n ∷ ns) = be_bytes width n ++ table_bytes width ns

-- A node, ERR_PTR(-ENOSPC), or a null pointer.
pub data Block : Type 0 where
  block : ℕ → Block
  no_space : Block
  null : Block

-- QCOW_REFCOUNT_BLOCK_SHIFT
abbrev pub rft_index : Qcow → ℕ → ℕ
rft_index q clust_idx = shr clust_idx (q.header.cluster_bits - 1)

abbrev pub rfb_index : Qcow → ℕ → ℕ
rfb_index q clust_idx = low_bits clust_idx (q.header.cluster_bits - 1)

-- (u16)-1, which stands for an error in place of a count
abbrev pub u16_max : ℕ
u16_max = 2 ^ 16 - 1

module _ {S : Type 0} where
  -- The search of qcow_alloc_clusters with the clusters that are left to find: the last of a run
  -- of free clusters, or `none` for -1. `get` is qcow_get_refcount.
  unfoldable pub find_run :
      (S → Qcow → ℕ → Option (S × Qcow × ℕ))
      → ℕ
      → S
      → Qcow
      → ℕ
      → ℕ
      → ℕ
      → Option (S × Qcow × Option ℕ)
  find_run get zero s q clust_num i clust_idx = none
  find_run get (suc rounds) s q clust_num i clust_idx =
      let idx = q.free_clust_idx % 2 ^ 32 in
      let next = (do
        (s1, q1, count) ← get s (record q { free_clust_idx = q.free_clust_idx + 1 }) idx
        let rest = find_run get rounds s1 q1 clust_num (if ltb 0 count then 0 else i + 1) idx
        if count == u16_max then some (s1, q1, none) else rest) in
      if ltb i clust_num then next else some (s, q, some clust_idx)

  module _ (file : File S) where
    -- A write before the start of the file, at an off_t below zero, fails.
    unfoldable pub pwrite_off : S → List ℕ → ℕ → Option (S × Option ℕ)
    pwrite_off s bytes offset =
        if ltb offset (2 ^ 63) then file.pwrite s bytes offset else some (s, none)

    unfoldable pub qcow_pwrite_sync : S → List ℕ → ℕ → Option (S × Bool)
    unfolding pwrite_off
    qcow_pwrite_sync s bytes offset = do
      (s1, r) ← pwrite_off s bytes offset
      elim r [ none ↦ some (s1, false) | some n ↦ some (file.fdatasync s1) ]

    unfoldable pub qcow_write_l1_table : S → Qcow → Option (S × Bool)
    unfolding qcow_pwrite_sync table_bytes
    qcow_write_l1_table s q = qcow_pwrite_sync s (table_bytes 8 q.l1_table) q.header.l1_table_offset

    unfoldable pub qcow_write_refcount_table : S → Qcow → Option (S × Bool)
    unfolding qcow_pwrite_sync table_bytes
    qcow_write_refcount_table s q =
        qcow_pwrite_sync s (table_bytes 8 q.rf_table) q.header.refcount_table_offset

    unfoldable pub qcow_l2_cache_write : S → Qcow → ℕ → Option (S × Qcow × Bool)
    unfolding qcow_pwrite_sync table_bytes node_at put_node
    qcow_l2_cache_write s q n = do
      t ← node_at q.l2_cache n
      if t.dirty
          then (do
            (s1, done) ← qcow_pwrite_sync s (table_bytes 8 t.table) t.offset
            some (
              s1,
              (if done
                  then record q { l2_cache = put_node q.l2_cache n (record t { dirty = false }) }
                  else q),
              done,
            ))
          else some (s, q, true)

    unfoldable pub write_refcount_block : S → Qcow → ℕ → Option (S × Qcow × Bool)
    unfolding qcow_pwrite_sync table_bytes node_at put_node
    write_refcount_block s q n = do
      b ← node_at q.rf_cache n
      if b.dirty
          then (do
            (s1, done) ← qcow_pwrite_sync s (table_bytes 2 b.entries) b.offset
            some (
              s1,
              (if done
                  then record q { rf_cache = put_node q.rf_cache n (record b { dirty = false }) }
                  else q),
              done,
            ))
          else some (s, q, true)

    -- The loops of qcow_disk_flush, whose test of qcow_write_l1_table is the address of the
    -- function and never negative: the level-1 table is not written.
    unfoldable pub flush_nodes :
        (S → Qcow → ℕ → Option (S × Qcow × Bool)) → S → Qcow → List ℕ → Option (S × Qcow × Bool)
    flush_nodes write s q [] = some (s, q, true)
    flush_nodes write s q (n ∷ ns) = do
      (s1, q1, done) ← write s q n
      let rest = flush_nodes write s1 q1 ns
      if done then rest else some (s1, q1, false)

    unfoldable pub qcow_disk_flush : S → Qcow → Option (S × Qcow × Bool)
    unfolding flush_nodes write_refcount_block qcow_l2_cache_write
    qcow_disk_flush s q = do
      (s1, q1, one) ← flush_nodes write_refcount_block s q q.rf_cache.lru_list
      if one
          then (do
            (s2, q2, two) ← flush_nodes qcow_l2_cache_write s1 q1 q1.l2_cache.lru_list
            some (
                if two
                then (let (s3, done) = file.fsync s2 in (s3, q2, done))
                else (s2, q2, false)))
          else some (s1, q1, false)

    module _ (rb : RbTree) where
      -- What malloc leaves in a new block is not modelled: the block is read over zeros.
      unfoldable pub qcow_read_refcount_block : S → Qcow → ℕ → Option (S × Qcow × Block)
      unfolding search_node new_node put_node cache_node free_node entries
      qcow_read_refcount_block s q clust_idx =
          let go : Option (S × Qcow × Block) = (do
            rfb_offset ← get_elem? q.rf_table (rft_index q clust_idx)
            let size = q.cluster_size / 2
            let blank : RefcountBlock = record {
              offset = rfb_offset;
              size = size;
              dirty = false;
              entries = replicate size 0;
            }
            let (n, c1) = new_node q.rf_cache blank
            let read : Option (S × Qcow × Block) = (do
              (s1, r) ← file.pread s (size * 2) rfb_offset
              elim r [
                | none ↦ some (s1, record q { rf_cache = free_node c1 n }, null)
                | some bytes ↦ do
                  let b = record blank {
                    entries = entries 2 size (over bytes (replicate (size * 2) 0));
                  }
                  c2 ← cache_node rb (put_node c1 n b) (rfb_offset, n)
                  some (s1, record q { rf_cache = c2 }, block n)
              ])
            if rfb_offset == 0
                then some (s, q, no_space)
                else elim (search_node q.rf_cache rfb_offset) [
                  | some (m, c) ↦ some (s, record q { rf_cache = c }, block m)
                  | none ↦ read
                ]) in
          if leb q.rf_size (rft_index q clust_idx) then some (s, q, no_space) else go

      unfoldable pub qcow_get_refcount : S → Qcow → ℕ → Option (S × Qcow × ℕ)
      unfolding qcow_read_refcount_block node_at
      qcow_get_refcount s q clust_idx = do
        (s1, q1, r) ← qcow_read_refcount_block s q clust_idx
        elim r [
          | no_space ↦ some (s1, q1, 0)
          | null ↦ some (s1, q1, u16_max)
          | block n ↦ do
            b ← node_at q1.rf_cache n
            if leb b.size (rfb_index q clust_idx)
                then some (s1, q1, u16_max)
                else do count ← get_elem? b.entries (rfb_index q clust_idx); some (s1, q1, count)
        ]

      module _ (rounds : ℕ) where
        -- qcow_alloc_clusters without the update of the counts: the offset of the run.
        unfoldable pub alloc_run : S → Qcow → ℕ → Option (S × Qcow × Option (ℕ × ℕ))
        unfolding find_run qcow_get_refcount
        alloc_run s q size = do
          let clust_num = shr (size + (q.cluster_size - 1)) q.header.cluster_bits
          (s1, q1, r) ← find_run qcow_get_refcount rounds s q clust_num 0 0
          some (
            s1,
            q1,
            elim r [
              | none ↦ none
              | some last ↦ some ((last + 1) % 2 ^ 32 + 2 ^ 64 - clust_num, clust_num)
            ],
          )

        -- qcow_grow_refcount_block, given update_cluster_refcount
        unfoldable pub grow :
            (S → Qcow → ℕ → ℕ → Option (S × Qcow × Bool))
            → S
            → Qcow
            → ℕ
            → Option (S × Qcow × Option ℕ)
        unfolding alloc_run new_node write_refcount_block cache_node free_node
            qcow_write_refcount_table
        grow update s q clust_idx =
            let rft_idx = rft_index q clust_idx in
            let go = (do
              (s1, q1, r) ← alloc_run s q q.cluster_size
              elim r [
                | none ↦ some (s1, q1, none)
                | some (first, _) ↦ do
                  let offset = first * 2 ^ q.header.cluster_bits % 2 ^ 64
                  let size = q.cluster_size / 2
                  let (n, c1) = new_node q1.rf_cache (record {
                    offset = offset;
                    size = size;
                    dirty = true;
                    entries = replicate size 0;
                  })
                  (s2, q2, written) ← write_refcount_block s1 (record q1 { rf_cache = c1 }) n
                  let failed = λ (q : Qcow). record q { rf_cache = free_node q.rf_cache n }
                  if written
                      then (do
                        c2 ← cache_node rb q2.rf_cache (offset, n)
                        let q3 = record q2 {
                          rf_cache = c2;
                          rf_table = set q2.rf_table rft_idx offset;
                        }
                        let recover =
                            λ (q : Qcow). failed (record q { rf_table = set q.rf_table rft_idx 0 })
                        (s4, q4, counted) ← update s2 q3 (shr offset q.header.cluster_bits) 1
                        if counted
                            then (do
                              (s5, saved) ← qcow_write_refcount_table s4 q4
                              some (if saved then (s5, q4, some n) else (s5, recover q4, none)))
                            else some (s4, recover q4, none))
                      else some (s2, failed q2, none)
              ]) in
            if leb q.rf_size rft_idx then some (s, q, none) else go

        -- the end of update_cluster_refcount, with its block
        unfoldable pub add_to_refcount : S → Qcow → ℕ → ℕ → ℕ → Option (S × Qcow × Bool)
        unfolding node_at put_node write_refcount_block
        add_to_refcount s q n clust_idx append = do
          b ← node_at q.rf_cache n
          let i = rfb_index q clust_idx
          let go = (do
            old ← get_elem? b.entries i
            let refcount = (old + append) % 2 ^ 16
            let c =
                put_node q.rf_cache n
                  (record b { entries = set b.entries i refcount; dirty = true })
            (s1, q1, written) ← write_refcount_block s (record q { rf_cache = c }) n
            some (
              s1,
              (if written && (refcount == 0) && ltb clust_idx q1.free_clust_idx
                  then record q1 { free_clust_idx = clust_idx }
                  else q1),
              written,
            ))
          if leb b.size i then some (s, q, false) else go

        -- `calls` bounds how deep update_cluster_refcount and qcow_grow_refcount_block call each
        -- other.
        unfoldable pub update_cluster_refcount : ℕ → S → Qcow → ℕ → ℕ → Option (S × Qcow × Bool)
        unfolding qcow_read_refcount_block add_to_refcount grow
        update_cluster_refcount zero s q clust_idx append = none
        update_cluster_refcount (suc calls) s q clust_idx append = do
          (s1, q1, r) ← qcow_read_refcount_block s q clust_idx
          elim r [
            | block n ↦ add_to_refcount s1 q1 n clust_idx append
            | null ↦ some (s1, q1, false)
            | no_space ↦ do
              (s2, q2, grown) ← grow (update_cluster_refcount calls) s1 q1 clust_idx
              elim grown [
                | none ↦ some (s2, q2, false)
                | some n ↦ add_to_refcount s2 q2 n clust_idx append
              ]
          ]

        -- `left` clusters from an index on, each by `append`: whether all succeeded. The loop of
        -- qcow_alloc_clusters stops at a failure, that of qcow_free_clusters does not.
        unfoldable pub count_all : Bool → ℕ → ℕ → S → Qcow → ℕ → ℕ → Option (S × Qcow × Bool)
        unfolding update_cluster_refcount
        count_all stop calls zero s q clust_idx append = some (s, q, true)
        count_all stop calls (suc left) s q clust_idx append = do
          (s1, q1, done) ← update_cluster_refcount calls s q clust_idx append
          let rest = count_all stop calls left s1 q1 (clust_idx + 1) append
          if stop && not done then some (s1, q1, false) else rest

        unfoldable pub qcow_free_clusters : ℕ → S → Qcow → ℕ → ℕ → Option (S × Qcow × Bool)
        unfolding count_all
        qcow_free_clusters calls s q clust_start size =
            let first = shr clust_start q.header.cluster_bits in
            let last = shr ((clust_start + size - 1) % 2 ^ 64) q.header.cluster_bits in
            count_all false calls (last + 1 - first) s q first u16_max

        unfoldable pub qcow_alloc_clusters : ℕ → S → Qcow → ℕ → Bool → Option (S × Qcow × Option ℕ)
        unfolding alloc_run count_all
        qcow_alloc_clusters calls s q size update_ref = do
          (s1, q1, r) ← alloc_run s q size
          elim r [
            | none ↦ some (s1, q1, none)
            | some (first, clust_num) ↦ do
              let offset = first * 2 ^ q.header.cluster_bits % 2 ^ 64
              if update_ref
                  then (do
                    (s2, q2, done) ← count_all true calls clust_num s1 q1 (first % 2 ^ 64) 1
                    some (s2, q2, if done then some offset else none))
                  else some (s1, q1, some offset)
          ]
