-- ===== src/Disk/Qcow/Header.antt =====
-- The header of an image: which format it is, and what is read of it.
pub mod Parse
pub mod Tail
use virtio_disk.Prelude.{
  ℕ, zero, suc, ◌+◌, ◌-◌, ◌*◌, ◌/◌, ◌%◌, ◌^◌, ◌≡◌, ◌<◌, Bool, true, false, not, ◌&&◌, ◌||◌, Option,
  none, some, List, [], ◌∷◌, ◌++◌, length, take, drop, replicate, ltb, ◌==◌, if◌then◌else◌, ◌>>=◌,
}
use virtio_disk.Disk.Qcow.{
  shift_int, Qcow, QcowHeader, File, be, over, entries, qcow1_version, qcow2_version,
}
use virtio_disk.Disk.Qcow.Cache.{NodeCache, leaf, L2Table, RefcountBlock}

-- QCOW_MAGIC
abbrev pub qcow_magic : ℕ
qcow_magic = 0x514649fb

-- The big-endian field of `width` bytes at an offset of the header.
abbrev pub field : List ℕ → ℕ → ℕ → ℕ
field bytes offset width = be 0 (take width (drop offset bytes))

-- sizeof(struct qcow1_header_disk) and sizeof(struct qcow2_header_disk)
abbrev pub qcow1_header_size : ℕ
qcow1_header_size = 48

abbrev pub qcow2_header_size : ℕ
qcow2_header_size = 72

-- x / y, where a division by zero stops the program
abbrev pub div : ℕ → ℕ → Option ℕ
div x y = if y == 0 then none else some (x / y)

-- The header that qcow1_read_header makes of the fields. The product is one of ints: `none` where it
-- overflows.
unfoldable pub qcow1_header : ℕ → ℕ → ℕ → ℕ → Option QcowHeader
unfolding shift_int
qcow1_header size l1_table_offset cluster_bits l2_bits = do
  l2_size ← shift_int l2_bits
  cluster_size ← shift_int cluster_bits
  let product = l2_size * cluster_size
  l1_size ← (if ltb product (2 ^ 31) then div size product else none)
  some (record {
    size = size;
    l1_table_offset = l1_table_offset;
    l1_size = l1_size % 2 ^ 32;
    cluster_bits = cluster_bits;
    l2_bits = l2_bits;
    refcount_table_offset = 0;
    refcount_table_size = 0;
  })

module _ {S : Type 0} (file : File S) where
  -- What pread_in_full leaves in a header on the stack. `junk` is what was there before; it shows
  -- where the file is shorter than the header.
  unfoldable pub read_header : S → List ℕ → ℕ → Option (S × Option (List ℕ))
  read_header s junk size = do
    (s', r) ← file.pread s size 0
    some (s', elim r [ none ↦ none | some bytes ↦ some (over bytes junk) ])

  unfoldable pub check_image : ℕ → S → List ℕ → ℕ → Option (S × Bool)
  unfolding read_header
  check_image version s junk size = do
    (s', r) ← read_header s junk size
    some (
      s',
      elim r [ none ↦ false | some h ↦ (field h 0 4 == qcow_magic) && (field h 4 4 == version) ],
    )

  unfoldable pub qcow1_check_image : S → List ℕ → Option (S × Bool)
  unfolding check_image
  qcow1_check_image s junk = check_image qcow1_version s junk qcow1_header_size

  unfoldable pub qcow2_check_image : S → List ℕ → Option (S × Bool)
  unfolding check_image
  qcow2_check_image s junk = check_image qcow2_version s junk qcow2_header_size

  -- The fields of struct qcow1_header_disk lie at 24 (size), 32, 33 and 40, with the padding that
  -- the compiler adds behind the two bytes.
  unfoldable pub qcow1_read_header : S → List ℕ → Option (S × Option QcowHeader)
  unfolding read_header qcow1_header
  qcow1_read_header s junk = do
    (s', r) ← read_header s junk qcow1_header_size
    elim r [
      | none ↦ some (s', none)
      | some h ↦ do
        header ← qcow1_header (field h 24 8) (field h 40 8) (field h 32 1) (field h 33 1)
        some (s', some header)
    ]

  -- The two numbers of bits are bytes.
  unfoldable pub qcow2_read_header : S → List ℕ → Option (S × Option QcowHeader)
  unfolding read_header
  qcow2_read_header s junk = do
    (s', r) ← read_header s junk qcow2_header_size
    some (
      s',
      elim r [
        | none ↦ none
        | some h ↦ some (record {
          size = field h 24 8;
          l1_table_offset = field h 40 8;
          l1_size = field h 36 4;
          cluster_bits = field h 20 4 % 2 ^ 8;
          l2_bits = (field h 20 4 + 2 ^ 32 - 3) % 2 ^ 8;
          refcount_table_offset = field h 48 8;
          refcount_table_size = field h 56 4;
        })
      ],
    )

  -- A table of `n` entries that calloc cleared, with what the file has of it.
  unfoldable pub read_table : S → ℕ → ℕ → Option (S × Option (List ℕ))
  unfolding entries
  read_table s n offset = do
    (s', r) ← file.pread s (8 * n) offset
    some (
      s',
      elim r [ none ↦ none | some bytes ↦ some (entries 8 n (over bytes (replicate (8 * n) 0))) ],
    )

  unfoldable pub qcow_read_l1_table : S → Qcow → Option (S × Option Qcow)
  unfolding read_table
  qcow_read_l1_table s q = do
    (s', r) ← read_table s q.header.l1_size q.header.l1_table_offset
    some (
      s',
      elim r [
        | none ↦ none
        | some t ↦ some (record q { table_size = q.header.l1_size; l1_table = t })
      ],
    )

  unfoldable pub qcow_read_refcount_table : S → Qcow → Option (S × Option Qcow)
  unfolding read_table
  qcow_read_refcount_table s q = do
    let rf_size = q.header.refcount_table_size * q.cluster_size / 8 % 2 ^ 32
    (s', r) ← read_table s rf_size q.header.refcount_table_offset
    some (s', elim r [ none ↦ none | some t ↦ some (record q { rf_size = rf_size; rf_table = t }) ])

  abbrev pub fresh : {A : Type 0} → NodeCache A
  fresh = record { cells = []; root = leaf; lru_list = []; nr_cached = 0 }

  -- struct qcow after calloc, with its header
  abbrev pub blank : QcowHeader → Qcow
  blank header = record {
    header = header;
    table_size = 0;
    l1_table = [];
    l2_cache = fresh;
    rf_size = 0;
    rf_table = [];
    rf_cache = fresh;
    csize_shift = 0;
    csize_mask = 0;
    version = 0;
    cluster_size = 0;
    cluster_offset_mask = 0;
    free_clust_idx = 0;
  }

  -- Memory is assumed to suffice, so that a failure is one of reading the tables.
  unfoldable pub qcow1_probe : S → List ℕ → Option (S × Option Qcow)
  unfolding qcow1_read_header qcow_read_l1_table shift_int
  qcow1_probe s junk = do
    (s1, r) ← qcow1_read_header s junk
    elim r [
      | none ↦ some (s1, none)
      | some h ↦ do
        cluster_size ← shift_int h.cluster_bits
        qcow_read_l1_table s1 (record (blank h) {
          version = qcow1_version;
          cluster_size = cluster_size;
          cluster_offset_mask = 2 ^ (63 - h.cluster_bits) - 1;
        })
    ]

  unfoldable pub qcow2_probe : S → List ℕ → Option (S × Option Qcow)
  unfolding qcow2_read_header qcow_read_l1_table qcow_read_refcount_table shift_int
  qcow2_probe s junk = do
    (s1, r) ← qcow2_read_header s junk
    elim r [
      | none ↦ some (s1, none)
      | some h ↦ do
        let shift = 62 + 8 - h.cluster_bits
        sectors ← (if ltb h.cluster_bits 8 then none else shift_int (h.cluster_bits - 8))
        cluster_size ← shift_int h.cluster_bits
        (s2, l1) ← qcow_read_l1_table s1 (record (blank h) {
          version = qcow2_version;
          csize_shift = shift;
          csize_mask = sectors - 1;
          cluster_offset_mask = 2 ^ shift - 1;
          cluster_size = cluster_size;
        })
        elim l1 [ none ↦ some (s2, none) | some q ↦ qcow_read_refcount_table s2 q ]
    ]

  -- `junk` stands for what the stack holds at each of the calls.
  unfoldable pub qcow_probe : S → List ℕ → Option (S × Option Qcow)
  unfolding qcow1_check_image qcow2_check_image qcow1_probe qcow2_probe
  qcow_probe s junk = do
    (s1, one) ← qcow1_check_image s junk
    if one then qcow1_probe s1 junk else do
      (s2, two) ← qcow2_check_image s1 junk
      if two then qcow2_probe s2 junk else some (s2, none)
