-- ===== src/Disk/Qcow/Sectors.antt =====
-- Reading sectors: qcow_read_sector_single and qcow_read_sector.
pub mod Failed
use virtio_disk.Prelude.{
  ℕ, zero, suc, ◌+◌, ◌-◌, ◌*◌, ◌/◌, ◌%◌, ◌^◌, Bool, Option, none, some, List, [], ◌∷◌, ◌++◌, length,
  take, drop, ltb, leb, ◌==◌, if◌then◌else◌, ◌>>=◌,
}
use virtio_disk.Disk.Qcow.{Qcow, File, qcow1_version}
use virtio_disk.Disk.Qcow.Cache.{RbTree}
use virtio_disk.Disk.Qcow.Read.{Chunk, qcow1_read_cluster, qcow2_read_cluster}

-- Bytes written to a buffer at a distance from its start; `none` if they reach past its end.
unfoldable pub write_at : List ℕ → ℕ → List ℕ → Option (List ℕ)
write_at dst at bytes =
    if leb (at + length bytes) (length dst)
    then some (take at dst ++ (bytes ++ drop (at + length bytes) dst))
    else none

-- A chunk, or -1, as the u32 that `nr` is
abbrev pub nr_of : Option Chunk → ℕ
nr_of none = 2 ^ 32 - 1
nr_of (some c) = c.length % 2 ^ 32

abbrev pub bytes_of : Option Chunk → List ℕ
bytes_of none = []
bytes_of (some c) = c.bytes

-- The variables of qcow_read_sector_single, with the buffer; `buf` is its distance from `dst`.
pub record Progress : Type 0 where
  pub sector : ℕ
  pub nr_read : ℕ
  pub buf : ℕ
  pub dst : List ℕ

-- `read_cluster` is the function of the image's version.
module _ {S : Type 0} (read_cluster : S → Qcow → ℕ → ℕ → Option (S × Qcow × Option Chunk)) where
  -- The loop with the rounds that are left. The result is `dst_len`, or `none` for -1.
  unfoldable pub read_loop : ℕ → S → Qcow → Progress → Option (S × Qcow × List ℕ × Option ℕ)
  read_loop zero s q p = none
  read_loop (suc rounds) s q p =
      let dst_len = length p.dst in
      let offset = p.sector * 512 % 2 ^ 64 in
      let next = (do
        (s1, q1, r) ← read_cluster s q offset (dst_len - p.nr_read)
        dst ← write_at p.dst p.buf (bytes_of r)
        let nr = nr_of r
        let rest = read_loop rounds s1 q1 (record {
          sector = p.sector + nr / 512;
          nr_read = (p.nr_read + nr) % 2 ^ 32;
          buf = p.buf + nr;
          dst = dst;
        })
        if nr == 0 then some (s1, q1, dst, none) else rest) in
      if ltb p.nr_read dst_len
      then (if leb q.header.size offset then some (s, q, p.dst, none) else next)
      else some (s, q, p.dst, some dst_len)

  unfoldable pub qcow_read_sector_single :
      ℕ → S → Qcow → ℕ → List ℕ → Option (S × Qcow × List ℕ × Option ℕ)
  unfolding read_loop
  qcow_read_sector_single rounds s q sector dst =
      read_loop rounds s q (record { sector = sector; nr_read = 0; buf = 0; dst = dst })

  -- Over the buffers: their contents after it, and the total, or `none` for -1.
  unfoldable pub read_buffers :
      ℕ → S → Qcow → ℕ → List (List ℕ) → ℕ → Option (S × Qcow × List (List ℕ) × Option ℕ)
  unfolding qcow_read_sector_single
  read_buffers rounds s q sector [] total = some (s, q, [], some total)
  read_buffers rounds s q sector (dst ∷ iov) total = do
    (s1, q1, dst', r) ← qcow_read_sector_single rounds s q sector dst
    elim r [
      | none ↦ some (s1, q1, dst' ∷ iov, none)
      | some nr ↦ do
        (s2, q2, rest, r') ← read_buffers rounds s1 q1 (sector + length dst / 512) iov (total + nr)
        some (s2, q2, dst' ∷ rest, r')
    ]

module _ {S : Type 0} (rb : RbTree) (file : File S) (inflate : List ℕ → ℕ → Option (List ℕ)) where
  abbrev pub cluster_reader : Qcow → S → Qcow → ℕ → ℕ → Option (S × Qcow × Option Chunk)
  cluster_reader q =
      if q.version == qcow1_version
      then qcow1_read_cluster rb file inflate
      else qcow2_read_cluster rb file inflate

  unfoldable pub qcow_read_sector :
      ℕ → S → Qcow → ℕ → List (List ℕ) → Option (S × Qcow × List (List ℕ) × Option ℕ)
  unfolding read_buffers
  qcow_read_sector rounds s q sector iov = read_buffers (cluster_reader q) rounds s q sector iov 0
