-- ===== src/Disk/Qcow/Header/Parse.antt =====
-- Reading back the header of an image of the format QCOW 2.
use virtio_disk.Prelude.{
  ℕ, ◌-◌, ◌/◌, ◌%◌, ◌^◌, ◌<◌, ◌≤◌, ◌≡◌, true, false, some, List, [], ◌∷◌, ◌++◌, take, arith,
}
use virtio_disk.Disk.Qcow.{QcowHeader, File, qcow2_version}
use virtio_disk.Disk.Qcow.Header.{
  qcow_magic, qcow1_header_size, qcow2_header_size, qcow1_check_image, qcow2_check_image,
  qcow2_read_header,
}

-- The bytes of a number in the order of the file.
abbrev pub be32 : ℕ → List ℕ
be32 n = (n / 2 ^ 24) ∷ (n / 2 ^ 16 % 256) ∷ (n / 2 ^ 8 % 256) ∷ (n % 256) ∷ []

abbrev pub be64 : ℕ → List ℕ
be64 n = be32 (n / 2 ^ 32) ++ be32 (n % 2 ^ 32)

-- An image's struct qcow2_header_disk: the fields that the program reads, and the others.
pub record HeaderDisk : Type 0 where
  pub backing_file_offset : ℕ
  pub backing_file_size : ℕ
  pub cluster_bits : ℕ
  pub size : ℕ
  pub crypt_method : ℕ
  pub l1_size : ℕ
  pub l1_table_offset : ℕ
  pub refcount_table_offset : ℕ
  pub refcount_table_clusters : ℕ
  pub nb_snapshots : ℕ
  pub snapshots_offset : ℕ

abbrev pub header_bytes : HeaderDisk → List ℕ
header_bytes h =
    be32 qcow_magic
    ++ be32 qcow2_version
    ++ be64 h.backing_file_offset
    ++ be32 h.backing_file_size
    ++ be32 h.cluster_bits
    ++ be64 h.size
    ++ be32 h.crypt_method
    ++ be32 h.l1_size
    ++ be64 h.l1_table_offset
    ++ be64 h.refcount_table_offset
    ++ be32 h.refcount_table_clusters
    ++ be32 h.nb_snapshots
    ++ be64 h.snapshots_offset

abbrev pub parsed : HeaderDisk → QcowHeader
parsed h = record {
  size = h.size;
  l1_table_offset = h.l1_table_offset;
  l1_size = h.l1_size;
  cluster_bits = h.cluster_bits;
  l2_bits = h.cluster_bits - 3;
  refcount_table_offset = h.refcount_table_offset;
  refcount_table_size = h.refcount_table_clusters;
}

-- The fields that the program reads fit their words, and the clusters have a size that it can use.
pub record Fits (h : HeaderDisk) : Type 0 where
  pub bits : 3 ≤ h.cluster_bits
  pub bits_byte : h.cluster_bits < 2 ^ 8
  pub size_word : h.size < 2 ^ 64
  pub l1_word : h.l1_size < 2 ^ 32
  pub l1_table_word : h.l1_table_offset < 2 ^ 64
  pub refcount_word : h.refcount_table_offset < 2 ^ 64
  pub clusters_word : h.refcount_table_clusters < 2 ^ 32

module _ {S : Type 0} (file : File S) where
  -- A file that starts with the header of an image is not taken for one of the format 1, is taken
  -- for one of the format 2, and its fields are read back, whatever the stack held before.
  pub qcow2_read_header-header_bytes :
      (s s1 : S) (h : HeaderDisk) (junk1 junk2 : List ℕ)
      → Fits h
      → file.pread s qcow1_header_size 0 ≡ some (s1, some (take qcow1_header_size (header_bytes h)))
      → file.pread s qcow2_header_size 0 ≡ some (s1, some (header_bytes h))
      → (qcow1_check_image file s junk1 ≡ some (s1, false))
        × (qcow2_check_image file s junk2 ≡ some (s1, true))
        × (qcow2_read_header file s junk2 ≡ some (s1, some (parsed h)))
  unfolding qcow1_check_image qcow2_check_image qcow2_read_header
  qcow2_read_header-header_bytes s s1 h junk1 junk2 fits one two =
      (rw one (ground arith), rw two (ground arith), rw two (ground arith))
