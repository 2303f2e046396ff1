-- ===== src/Disk/Qcow.antt =====
-- disk/qcow.c and include/kvm/qcow.h: images in the formats QCOW 1 and 2.
--
-- Tables that the source keeps in the byte order of the file are lists of the numbers that they
-- stand for. The locks are left out: one thread reads at a time.
pub mod Cache
pub mod Header
pub mod Read
pub mod Sectors
pub mod Refcount
pub mod Write
use virtio_disk.Prelude.{
  ℕ, zero, suc, ◌+◌, ◌-◌, ◌*◌, ◌/◌, ◌%◌, ◌^◌, Bool, true, false, Option, none, some, List, [], ◌∷◌,
  ◌++◌, length, take, drop, replicate, ltb, if◌then◌else◌, ◌>>=◌,
}
use virtio_disk.Disk.Qcow.Cache.{NodeCache, L2Table, RefcountBlock}

-- QCOW1_VERSION and QCOW2_VERSION
abbrev pub qcow1_version : ℕ
qcow1_version = 1

abbrev pub qcow2_version : ℕ
qcow2_version = 2

pub record QcowHeader : Type 0 where
  pub size : ℕ
  pub l1_table_offset : ℕ
  pub l1_size : ℕ
  pub cluster_bits : ℕ
  pub l2_bits : ℕ
  pub refcount_table_offset : ℕ
  pub refcount_table_size : ℕ

-- struct qcow with the tables in it; `cluster_cache`, `cluster_data` and `copy_buff` are buffers
-- of `cluster_size` bytes, which no function leaves anything in for another.
pub record Qcow : Type 0 where
  pub header : QcowHeader
  pub table_size : ℕ
  pub l1_table : List ℕ
  pub l2_cache : NodeCache L2Table
  pub rf_size : ℕ
  pub rf_table : List ℕ
  pub rf_cache : NodeCache RefcountBlock
  pub csize_shift : ℕ
  pub csize_mask : ℕ
  pub version : ℕ
  pub cluster_size : ℕ
  pub cluster_offset_mask : ℕ
  pub free_clust_idx : ℕ

-- What the code uses of util/read-write.c and of the system, on the state of the open file. A read
-- returns the bytes, fewer than asked for at the end of the file; `none` inside is -1.
pub record File (S : Type 0) : Type 0 where
  pub pread : S → ℕ → ℕ → Option (S × Option (List ℕ))
  pub pwrite : S → List ℕ → ℕ → Option (S × Option ℕ)
  pub fdatasync : S → S × Bool
  pub fsync : S → S × Bool

-- A buffer with bytes written over its start.
abbrev pub over : List ℕ → List ℕ → List ℕ
over bytes buf = bytes ++ drop (length bytes) buf

-- The big-endian number of some bytes, and the numbers of a table with entries of `width` bytes.
abbrev pub be : ℕ → List ℕ → ℕ
be acc [] = acc
be acc (b ∷ bs) = be (acc * 256 + b) bs

unfoldable pub entries : ℕ → ℕ → List ℕ → List ℕ
entries width zero bytes = []
entries width (suc n) bytes = be 0 (take width bytes) ∷ entries width n (drop width bytes)

-- x >> k, x & ((1 << k) - 1), and the bit k of x
abbrev pub shr : ℕ → ℕ → ℕ
shr x k = x / 2 ^ k

abbrev pub low_bits : ℕ → ℕ → ℕ
low_bits x k = x % 2 ^ k

-- `1 << k` of an int, and `x >> k` of a u64: `none` where C gives them no meaning.
unfoldable pub shift_int : ℕ → Option ℕ
shift_int k = if ltb k 31 then some (2 ^ k) else none

unfoldable pub shift_down : ℕ → ℕ → Option ℕ
shift_down x k = if ltb k 64 then some (shr x k) else none

-- `x & (m - 1)`, for a power m of two
abbrev pub masked : ℕ → ℕ → ℕ
masked x m = x % m

module _ (q : Qcow) where
  unfoldable pub get_l1_index : ℕ → Option ℕ
  unfolding shift_down
  get_l1_index offset = shift_down offset (q.header.l2_bits + q.header.cluster_bits)

  unfoldable pub get_l2_index : ℕ → Option ℕ
  unfolding shift_down shift_int
  get_l2_index offset = do
    high ← shift_down offset q.header.cluster_bits
    size ← shift_int q.header.l2_bits
    some (masked high size)

  unfoldable pub get_cluster_offset : ℕ → Option ℕ
  unfolding shift_int
  get_cluster_offset offset = do size ← shift_int q.header.cluster_bits; some (masked offset size)
