-- ===== src/Disk/Qcow/Read.antt =====
-- Reading clusters: qcow_read_l2_table, qcow1_read_cluster and qcow2_read_cluster.

use virtio_disk.Prelude.{
  ℕ, ◌+◌, ◌-◌, ◌*◌, ◌%◌, ◌^◌, min, bit_and, Bool, false, Option, none, some, List, length, take,
  drop, replicate, get_elem?, ltb, leb, ◌==◌, if◌then◌else◌, ◌>>=◌,
}
use virtio_disk.Prelude.Int.{ℤ, pos, negsuc}
use virtio_disk.Disk.Qcow.{
  shift_int, Qcow, File, over, entries, shr, low_bits, get_l1_index, get_l2_index,
  get_cluster_offset,
}
use virtio_disk.Disk.Qcow.Cache.{
  RbTree, L2Table, search_node, new_node, node_at, put_node, cache_node, free_node,
}

-- (int)x
abbrev pub to_int : ℕ → ℤ
to_int x = let w = x % 2 ^ 32 in if ltb w (2 ^ 31) then pos w else negsuc (2 ^ 32 - 1 - w)

-- bit k of a word
abbrev pub has_bit : ℕ → ℕ → Bool
has_bit k x = shr x k % 2 == 1

-- What a read of a cluster leaves: the number that it returns, and the bytes that it wrote to the
-- start of the buffer, which are fewer where the file ends.
pub record Chunk : Type 0 where
  pub length : ℕ
  pub bytes : List ℕ

-- `inflate input room` is what inflateInit2 and inflate of zlib do with the input: what they put
-- out, if the stream ended or the room was used up. `none` is any other result.
module _ {S : Type 0} (rb : RbTree) (file : File S) (inflate : List ℕ → ℕ → Option (List ℕ)) where
  unfoldable pub decompress_buffer : ℕ → List ℕ → Option (List ℕ)
  decompress_buffer out_size buf = elim (inflate buf out_size) [
    | none ↦ none
    | some out ↦ if length out == out_size then some out else none
  ]

  -- A read at an offset that is an int: before the start of the file it fails.
  abbrev pub pread_int : S → ℕ → ℤ → Option (S × Option (List ℕ))
  pread_int s count (pos offset) = file.pread s count offset
  pread_int s count (negsuc n) = some (s, none)

  -- The node of a table, or `none` for a null pointer.
  unfoldable pub qcow_read_l2_table : S → Qcow → ℕ → Option (S × Qcow × Option ℕ)
  unfolding search_node new_node node_at put_node cache_node free_node entries shift_int
  qcow_read_l2_table s q offset = do
    size ← shift_int q.header.l2_bits
    elim (search_node q.l2_cache offset) [
      | some (n, c) ↦ some (s, record q { l2_cache = c }, some n)
      | none ↦ do
        let blank : L2Table = record { offset = offset; dirty = false; table = replicate size 0 }
        let (n, c1) = new_node q.l2_cache blank
        (s1, r) ← file.pread s (size * 8) offset
        elim r [
          | none ↦ some (s1, record q { l2_cache = free_node c1 n }, none)
          | some bytes ↦ do
            let t = record blank { table = entries 8 size (over bytes (replicate (size * 8) 0)) }
            c2 ← cache_node rb (put_node c1 n t) (offset, n)
            some (s1, record q { l2_cache = c2 }, some n)
        ]
    ]

  -- What both formats do with a compressed cluster. The buffers for it have `cluster_size` bytes,
  -- and more than that is written past their end. Where the file ends in the cluster, what an
  -- earlier read left in the buffer behind the bytes is not followed.
  unfoldable pub read_compressed : S → Qcow → ℕ → ℕ → ℕ → ℤ → ℕ → ℕ → Option (S × Option Chunk)
  unfolding decompress_buffer
  read_compressed s q clust_offset len count coffset skip csize = do
    (s1, r) ← pread_int s count coffset
    elim r [
      | none ↦ some (s1, none)
      | some bytes ↦
          if ltb q.cluster_size (length bytes)
          then none
          else some (
            s1,
            elim (decompress_buffer q.cluster_size (take csize (drop skip bytes))) [
              | none ↦ none
              | some out ↦ some (record { length = len; bytes = take len (drop clust_offset out) })
            ],
          )
    ]

  unfoldable pub read_plain : S → ℕ → ℕ → Option (S × Option Chunk)
  read_plain s len offset = do
    (s1, r) ← file.pread s len offset
    some (s1, elim r [ none ↦ none | some bytes ↦ some (record { length = len; bytes = bytes }) ])

  abbrev pub zero_chunk : ℕ → Chunk
  zero_chunk len = record { length = len; bytes = replicate len 0 }

  -- the end of qcow1_read_cluster, with the entry `clust_start`
  unfoldable pub qcow1_read_entry : S → Qcow → ℕ → ℕ → ℕ → Option (S × Option Chunk)
  unfolding read_compressed read_plain
  qcow1_read_entry s q clust_offset len clust_start =
      if has_bit 63 clust_start
      then (let csize = shr clust_start (63 - q.header.cluster_bits) % q.cluster_size in
          read_compressed s q clust_offset len csize
            (to_int (bit_and clust_start q.cluster_offset_mask)) 0 csize)
      else if clust_start == 0
      then some (s, some (zero_chunk len))
      else read_plain s len (clust_start + clust_offset)

  -- the end of qcow2_read_cluster; `coffset` is rounded down to its sector
  unfoldable pub qcow2_read_entry : S → Qcow → ℕ → ℕ → ℕ → Option (S × Option Chunk)
  unfolding read_compressed read_plain
  qcow2_read_entry s q clust_offset len entry =
      if has_bit 62 entry
      then (let coffset = bit_and entry q.cluster_offset_mask in
          let nb_csectors = bit_and (shr entry q.csize_shift) q.csize_mask + 1 in
          let sector_offset = coffset % 512 in
          read_compressed s q clust_offset len (nb_csectors * 512)
            (to_int (coffset - sector_offset)) sector_offset (nb_csectors * 512 - sector_offset))
      else (let clust_start = low_bits entry 62 in
          if clust_start == 0
          then some (s, some (zero_chunk len))
          else read_plain s len (clust_start + clust_offset))

  -- `address` takes the level-2 offset from the entry of the level-1 table.
  unfoldable pub read_cluster :
      (ℕ → ℕ)
      → (S → Qcow → ℕ → ℕ → ℕ → Option (S × Option Chunk))
      → S
      → Qcow
      → ℕ
      → ℕ
      → Option (S × Qcow × Option Chunk)
  unfolding get_l1_index get_l2_index get_cluster_offset qcow_read_l2_table shift_int
  read_cluster address read_entry s q offset dst_len = do
    l1_idx ← get_l1_index q offset
    let listed = (do
      clust_offset ← get_cluster_offset q offset
      let len = min (q.cluster_size - clust_offset) dst_len
      let go = (do
        entry1 ← get_elem? q.l1_table l1_idx
        let l2t_offset = address entry1
        let read = (do
          l2t_size ← shift_int q.header.l2_bits
          (s1, q1, l2t) ← qcow_read_l2_table s q l2t_offset
          elim l2t [
            | none ↦ some (s1, q1, none)
            | some n ↦ do
              l2_idx ← get_l2_index q offset
              if leb l2t_size l2_idx then some (s1, q1, none) else (do
                t ← node_at q1.l2_cache n
                entry2 ← get_elem? t.table l2_idx
                (s2, r) ← read_entry s1 q1 clust_offset len entry2
                some (s2, q1, r))
          ])
        if l2t_offset == 0 then some (s, q, some (zero_chunk len)) else read)
      if leb q.cluster_size clust_offset then some (s, q, none) else go)
    if leb q.table_size l1_idx then some (s, q, none) else listed

  unfoldable pub qcow1_read_cluster : S → Qcow → ℕ → ℕ → Option (S × Qcow × Option Chunk)
  unfolding read_cluster qcow1_read_entry
  qcow1_read_cluster = read_cluster (λ e. e) qcow1_read_entry

  unfoldable pub qcow2_read_cluster : S → Qcow → ℕ → ℕ → Option (S × Qcow × Option Chunk)
  unfolding read_cluster qcow2_read_entry
  qcow2_read_cluster = read_cluster (λ e. low_bits e 63) qcow2_read_entry
