-- ===== src/Disk/Tests.antt =====
-- Small images and trees that meet the hypotheses of the theorems.
use virtio_disk.Prelude.{
  replicate, ◌++◌, ℕ, zero, suc, ◌≤◌, ◌+◌, ◌-◌, ◌*◌, ◌^◌, ◌<◌, ◌≡◌, ◌≢◌, refl, ap, true, false,
  Option, none, some, List, [], ◌∷◌, length, take, drop, ltb, ◌==◌, if◌then◌else◌, arith,
}
use virtio_disk.Disk.Mmap.{
  sector_bytes, splice, raw_image_read_mmap, raw_image_write_mmap,
  raw_image_read_mmap-raw_image_write_mmap,
}
use virtio_disk.Disk.Open.{
  Ops, Image, Os, Fds, image_new, raw_image_probe, qcow_opened, file_probe, file_opened,
  blkdev_probe, open_found, with_stat, image_open, image_close,
}
use virtio_disk.Disk.Open.Balance.{image_close-image_open}
use virtio_disk.Disk.Qcow.{Qcow, File}
use virtio_disk.Disk.Qcow.Cache.{
  Node, Tree, leaf, node, inorder, without, RbTree, lookup, insert, NodeCache,
}
use virtio_disk.Disk.Qcow.Cache.Search.{Rising, lookup-insert}
use virtio_disk.Disk.Qcow.Header.{
  qcow1_probe, qcow1_check_image, qcow2_check_image, qcow2_read_header,
}
use virtio_disk.Disk.Qcow.Header.Parse.{
  HeaderDisk, header_bytes, parsed, qcow2_read_header-header_bytes,
}
use virtio_disk.Disk.Qcow.Header.Tail.{qcow1_read_cluster-qcow1_probe}
use virtio_disk.Disk.Qcow.Read.{Chunk, qcow1_read_cluster}
use virtio_disk.Disk.Qcow.Sectors.{qcow_read_sector_single}
use virtio_disk.Disk.Qcow.Sectors.Failed.{qcow_read_sector_single_failed}
use virtio_disk.Disk.Qcow.Refcount.{qcow_get_refcount, alloc_run, u16_max}
use virtio_disk.Disk.Qcow.Refcount.Alloc.{AllFree, Reads, alloc_run_first_fit}

-- A tree that is never balanced, and is built anew when a node goes.
abbrev spine : List Node → Tree
spine [] = leaf
spine (x ∷ xs) = node leaf x (spine xs)

inorder-spine : (xs : List Node) → inorder (spine xs) ≡ xs
inorder-spine [] = refl
inorder-spine (x ∷ xs) = ap (λ ys. x ∷ ys) (inorder-spine xs)

abbrev rb : RbTree
rb = record {
  rb_insert_color = λ t. t;
  rb_erase = λ n t. spine (without n (inorder t));
  inorder-insert_color = λ t. refl;
  inorder-erase = λ n t. inorder-spine (without n (inorder t));
}

abbrev small_tree : Tree
small_tree = node (node leaf (512, 0) leaf) (1024, 1) leaf

missing_768 : lookup small_tree 768 ≡ none
unfolding lookup
missing_768 = refl

lookup-insert_example :
    Rising 0 (inorder (insert rb small_tree (768, 2)))
    × ((k : ℕ)
        → lookup (insert rb small_tree (768, 2)) k
          ≡ (if 768 == k then some 2 else lookup small_tree k))
lookup-insert_example = lookup-insert rb small_tree (768, 2) (omega arith) missing_768

abbrev fresh : {A : Type 0} → NodeCache A
fresh = record { cells = []; root = leaf; lru_list = []; nr_cached = 0 }

abbrev qcow : Qcow
qcow = record {
  header = record {
    size = 4096;
    l1_table_offset = 512;
    l1_size = 1;
    cluster_bits = 9;
    l2_bits = 6;
    refcount_table_offset = 1024;
    refcount_table_size = 1;
  };
  table_size = 1;
  l1_table = 0 ∷ [];
  l2_cache = fresh;
  rf_size = 1;
  rf_table = 2048 ∷ [];
  rf_cache = fresh;
  csize_shift = 61;
  csize_mask = 1;
  version = 2;
  cluster_size = 512;
  cluster_offset_mask = 2 ^ 61 - 1;
  free_clust_idx = 0;
}

abbrev header : HeaderDisk
header = record {
  backing_file_offset = 0;
  backing_file_size = 0;
  cluster_bits = 16;
  size = 2 ^ 30;
  crypt_method = 0;
  l1_size = 2;
  l1_table_offset = 196608;
  refcount_table_offset = 65536;
  refcount_table_clusters = 1;
  nb_snapshots = 0;
  snapshots_offset = 0;
}

abbrev image : List ℕ
image = header_bytes header

abbrev file : File ℕ
file = record {
  pread = λ s n offset. some (s, some (take n (drop offset image)));
  pwrite = λ s bytes offset. some (s, some (length bytes));
  fdatasync = λ s. (s, true);
  fsync = λ s. (s, true);
}

qcow2_read_header-header_bytes_example :
    (qcow1_check_image file 0 [] ≡ some (0, false))
    × (qcow2_check_image file 0 [] ≡ some (0, true))
    × (qcow2_read_header file 0 [] ≡ some (0, some (parsed header)))
qcow2_read_header-header_bytes_example =
    qcow2_read_header-header_bytes file 0 0 header [] [] (omega arith) refl refl

-- A cluster that cannot be read.
abbrev broken : ℕ → Qcow → ℕ → ℕ → Option (ℕ × Qcow × Option Chunk)
broken s q offset n = some (s, q, none)

qcow_read_sector_single_failed_example :
    qcow_read_sector_single broken 2 0 qcow 0 (7 ∷ 7 ∷ []) ≡ some (0, qcow, 7 ∷ 7 ∷ [], some 2)
qcow_read_sector_single_failed_example =
    qcow_read_sector_single_failed broken 0 (7 ∷ 7 ∷ []) refl (omega arith) (omega arith) 0
      (omega arith)

-- A cached block of counts: the clusters 0 and 1 are used, the others are free.
abbrev refs : ℕ → ℕ
refs i = if ltb i 2 then 1 else 0

abbrev counted : ℕ → Qcow
counted f = record qcow {
  rf_cache = record {
    cells =
        some
          (record { offset = 2048; size = 256; dirty = false; entries = 1 ∷ 1 ∷ replicate 254 0 })
        ∷ [];
    root = node leaf (2048, 0) leaf;
    lru_list = 0 ∷ [];
    nr_cached = 1;
  };
  free_clust_idx = f;
}

refs-AllFree : AllFree refs 2 3
refs-AllFree j h = ground arith

refs-sane : (j : ℕ) → j < 2 + 3 → refs j ≢ u16_max
refs-sane j h = ground arith

counted-read :
    (s f idx : ℕ)
    → idx < 5
    → qcow_get_refcount file rb s (counted f) idx ≡ some (s, counted f, refs idx)
unfolding qcow_get_refcount
counted-read s f zero h = refl
counted-read s f (suc zero) h = refl
counted-read s f (suc (suc zero)) h = refl
counted-read s f (suc (suc (suc zero))) h = refl
counted-read s f (suc (suc (suc (suc zero)))) h = refl
counted-read s f (suc (suc (suc (suc (suc idx))))) h = absurd (omega arith)

-- an image with this block, whatever its free_clust_idx
abbrev IsCounted : ℕ → Qcow → Type 0
IsCounted s q = (f : ℕ) × (q ≡ counted f)

IsCounted-Reads : Reads (qcow_get_refcount file rb) refs IsCounted 5
IsCounted-Reads s q idx (f, e) h =
    (s, counted (idx + 1), rw e (counted-read s (idx + 1) idx h), refl, (idx + 1, refl))

alloc_run_first_fit_example :
    (s' : ℕ) × (q' : Qcow) × (first : ℕ) × (alloc_run file rb 9 0 (counted 0) 1536
      ≡ some (s', q', some (first + 2 ^ 64, 3)))
    × (first ≤ 2)
    × (q'.free_clust_idx ≡ first + 3)
    × AllFree refs first 3
    × IsCounted s' q'
alloc_run_first_fit_example =
    alloc_run_first_fit file rb refs IsCounted 3 2 1536 9 0 (counted 0) IsCounted-Reads (0, refl)
      refl (omega arith) (omega arith) refs-AllFree refs-sane (omega arith) (omega arith)

raw_image_read_mmap-raw_image_write_mmap_example :
    (m : List ℕ) × (raw_image_write_mmap (replicate 1024 0) 1 ((7 ∷ 8 ∷ []) ∷ (9 ∷ []) ∷ [])
      ≡ some (m, 3))
    × (m ≡ splice (replicate 1024 0) (1 * sector_bytes) (7 ∷ 8 ∷ 9 ∷ []))
    × (length m ≡ 1024)
    × (raw_image_read_mmap m 1 (2 ∷ 1 ∷ []) ≡ some ((7 ∷ 8 ∷ []) ∷ (9 ∷ []) ∷ [], 3))
raw_image_read_mmap-raw_image_write_mmap_example =
    raw_image_read_mmap-raw_image_write_mmap (replicate 1024 0) 1 ((7 ∷ 8 ∷ []) ∷ (9 ∷ []) ∷ [])
      (omega arith) (omega arith)

-- a file of 1024 bytes that is no QCOW image
abbrev os : Os
os = record {
  stat = λ f. some (false, 1024);
  mounted = λ f. false;
  open_file = λ f readonly direct. some 5;
  blkgetsize = λ fd. none;
  has_memory = λ fd ops. true;
  maps = λ fd. true;
  probe_qcow = λ fd. none;
}

abbrev two_open : Fds
two_open = record { opened = 4 ∷ 3 ∷ []; mappings = [] }

abbrev mapped_image : Image
mapped_image = record { fd = 5; size = 1024; ops = Ops.mapped; readonly = true; addr = 0; irq = 0 }

abbrev one_mapped : Fds
one_mapped = record { opened = 5 ∷ 4 ∷ 3 ∷ []; mappings = 5 ∷ [] }

image_opened : image_open os two_open 1 true false ≡ some (one_mapped, some mapped_image)
unfolding image_open with_stat open_found blkdev_probe file_opened file_probe qcow_opened
    raw_image_probe image_new
image_opened = refl

image_close-image_open_example :
    image_close one_mapped mapped_image ≡ record { opened = 5 ∷ 4 ∷ 3 ∷ []; mappings = [] }
image_close-image_open_example =
    image_close-image_open os two_open one_mapped 1 true false mapped_image (λ fd. refl)
      image_opened

-- A header of the format 1, of a disk of one byte less than 2 ^ 16, whose level-2 tables cover 2 ^ 15,
-- and its image, which ends in the level-1 table.
abbrev header1_image : List ℕ
header1_image =
    0x51 ∷ 0x46 ∷ 0x49 ∷ 0xfb ∷ 0 ∷ 0 ∷ 0 ∷ 1 ∷ replicate 16 0
    ++ (0
        ∷ 0
        ∷ 0
        ∷ 0
        ∷ 0
        ∷ 0
        ∷ 0xff
        ∷ 0xff
        ∷ 9
        ∷ 6
        ∷ 0
        ∷ 0
        ∷ 0
        ∷ 0
        ∷ 0
        ∷ 0
        ∷ (0 ∷ 0 ∷ 0 ∷ 0 ∷ 0 ∷ 0 ∷ 0 ∷ 48 ∷ replicate 8 1))

abbrev file1 : File ℕ
file1 = record file { pread = λ s n offset. some (s, some (take n (drop offset header1_image))) }

abbrev small1 : Qcow
small1 = record qcow {
  header = record {
    size = 0xffff;
    l1_table_offset = 48;
    l1_size = 1;
    cluster_bits = 9;
    l2_bits = 6;
    refcount_table_offset = 0;
    refcount_table_size = 0;
  };
  table_size = 1;
  l1_table = 0x0101_0101_0101_0101 ∷ [];
  rf_size = 0;
  rf_table = [];
  csize_shift = 0;
  csize_mask = 0;
  version = 1;
  cluster_offset_mask = 2 ^ 54 - 1;
}

probe-small1 : qcow1_probe file1 0 [] ≡ some (0, some small1)
unfolding qcow1_probe
probe-small1 = refl

qcow1_read_cluster-qcow1_probe_example :
    qcow1_read_cluster rb file1 (λ buf room. none) 0 small1 0xfffe 1 ≡ some (0, small1, none)
qcow1_read_cluster-qcow1_probe_example =
    qcow1_read_cluster-qcow1_probe file1 rb (λ buf room. none) 0 0 [] 0xfffe 1 probe-small1
      (omega arith) (omega arith)
