-- ===== src/Disk/Open.antt =====
-- disk/core.c, disk/raw.c and disk/blk.c: opening and closing of images.
--
-- The file system, the mappings and qcow_probe are a record of what they return; the descriptors
-- that are open, and the descriptors whose files are mapped, are lists. A file is named by a number.
-- `none` in place of a result is a write through an error pointer.
pub mod Balance
use virtio_disk.Prelude.{
  ℕ, zero, suc, ◌+◌, ◌%◌, Bool, true, false, not, ◌&&◌, ◌||◌, Option, none, some, List, [], ◌∷◌,
  ◌++◌, ltb, length, take, replicate, ◌==◌, if◌then◌else◌, ◌>>=◌,
}
use virtio_disk.Prelude.Int.{ℤ, pos, is_neg}

-- The tables of operations: those of regular raw images, of the two kinds of read-only ones, of block
-- devices and of QCOW images.
pub data Ops : Type 0 where
  regular mapped no_write block qcow : Ops

-- whether the table has a `close`
abbrev pub has_close : Ops → Bool
has_close regular = false
has_close mapped = true
has_close no_write = false
has_close block = false
has_close qcow = true

-- MAX_DISK_IMAGES
abbrev pub max_disk_images : ℕ
max_disk_images = 4

-- struct disk_image, and disk_image_params: without a file name and with a port name (`wwpn`) an
-- image has no file.
pub record Image : Type 0 where
  pub fd : ℕ
  pub size : ℕ
  pub ops : Ops
  pub readonly : Bool
  pub addr : ℕ
  pub irq : ℕ

pub record Params : Type 0 where
  pub filename : Option ℕ
  pub wwpn : Option ℕ
  pub readonly : Bool
  pub direct : Bool
  pub addr : ℕ
  pub irq : ℕ

-- `stat` gives whether the file is a block device, and its size. `has_memory` is malloc for an image,
-- by the descriptor and its table, `maps` the mapping of a file, `blkgetsize` the ioctl, and
-- `probe_qcow` what qcow_probe finds of a QCOW image, if it can be set up: whether it is of the
-- format 1, and its size.
pub record Os : Type 0 where
  pub stat : ℕ → Option (Bool × ℕ)
  pub mounted : ℕ → Bool
  pub open_file : ℕ → Bool → Bool → Option ℕ
  pub blkgetsize : ℕ → Option ℕ
  pub has_memory : ℕ → Ops → Bool
  pub maps : ℕ → Bool
  pub probe_qcow : ℕ → Option (Bool × ℕ)

-- the descriptors that are open, and those whose files are mapped
pub record Fds : Type 0 where
  pub opened : List ℕ
  pub mappings : List ℕ

abbrev pub without : ℕ → List ℕ → List ℕ
without fd [] = []
without fd (n ∷ fds) = if n == fd then fds else n ∷ without fd fds

abbrev pub close_fd : Fds → ℕ → Fds
close_fd fds fd = record fds { opened = without fd fds.opened }

abbrev pub is_mmap : Ops → Bool
is_mmap regular = false
is_mmap mapped = true
is_mmap no_write = false
is_mmap block = false
is_mmap qcow = false

-- `if (!IS_ERR_OR_NULL(disk)) return disk;`, and what comes after it
abbrev pub or_else : Fds × Option Image → (Fds → Fds × Option Image) → Fds × Option Image
or_else (fds, none) next = next fds
or_else (fds, some image) next = (fds, some image)

abbrev pub or_try :
    Fds × Option Image → (Fds → Option (Fds × Option Image)) → Option (Fds × Option Image)
or_try (fds, none) next = next fds
or_try (fds, some image) next = some (fds, some image)

-- `disk->readonly = readonly`
abbrev pub marked : Bool → Fds × Option Image → Fds × Option Image
marked readonly (fds, none) = (fds, none)
marked readonly (fds, some image) = (fds, some (record image { readonly = readonly }))

module _ (os : Os) where
  -- disk_image__new; only the mapped table is used with DISK_IMAGE_MMAP. disk_aio_setup does nothing.
  unfoldable pub image_new : Fds → ℕ → ℕ → Ops → Fds × Option Image
  image_new fds fd size ops =
      let image : Image = record {
        fd = fd;
        size = size;
        ops = ops;
        readonly = false;
        addr = 0;
        irq = 0;
      } in
      if not (os.has_memory fd ops)
      then (fds, none)
      else if not (is_mmap ops)
      then (fds, some image)
      else if os.maps fd
      then (record fds { mappings = fd ∷ fds.mappings }, some image)
      else (fds, none)

  -- the size of the device, if the ioctl gave it
  unfoldable pub block_sized : Fds → ℕ → Option ℕ → Fds × Option Image
  block_sized fds fd none = (close_fd fds fd, none)
  block_sized fds fd (some size) = image_new fds fd size block

  -- the descriptor that open returned, if it did
  unfoldable pub block_opened : Fds → Option ℕ → Fds × Option Image
  block_opened fds none = (fds, none)
  block_opened fds (some fd) =
      block_sized (record fds { opened = fd ∷ fds.opened }) fd (os.blkgetsize fd)

  unfoldable pub blkdev_probe : Fds → ℕ → Bool → Bool → Bool → Fds × Option Image
  blkdev_probe fds filename readonly direct is_block =
      if not is_block || os.mounted filename
      then (fds, none)
      else block_opened fds (os.open_file filename readonly direct)

  unfoldable pub raw_image_probe : Fds → ℕ → ℕ → Bool → Fds × Option Image
  raw_image_probe fds fd size true =
      or_else (image_new fds fd size mapped) (λ fds. image_new fds fd size no_write)
  raw_image_probe fds fd size false = image_new fds fd size regular

  -- The end of qcow1_probe and of qcow2_probe. That of the format 1 takes the error pointer that
  -- disk_image__new returns where malloc fails for an image, and writes through it.
  unfoldable pub qcow_opened : Fds → ℕ → Option (Bool × ℕ) → Option (Fds × Option Image)
  qcow_opened fds fd none = some (fds, none)
  qcow_opened fds fd (some (is_first, size)) =
      if is_first && not (os.has_memory fd qcow) then none else some (image_new fds fd size qcow)

  -- The probes of a regular file that is open: first QCOW, which is read-only, then raw.
  unfoldable pub file_probe : Fds → ℕ → ℕ → Bool → Option (Fds × Option Image)
  file_probe fds fd size readonly = do
    probed ← qcow_opened fds fd (os.probe_qcow fd)
    some (
        or_else (marked true probed) (λ fds.
          or_else (marked readonly (raw_image_probe fds fd size readonly))
            (λ fds. (close_fd fds fd, none))))

  unfoldable pub file_opened : Fds → Option ℕ → ℕ → Bool → Option (Fds × Option Image)
  file_opened fds none size readonly = some (fds, none)
  file_opened fds (some fd) size readonly =
      file_probe (record fds { opened = fd ∷ fds.opened }) fd size readonly

  -- a file that stat found
  unfoldable pub open_found : Fds → ℕ → Bool → Bool → Bool → ℕ → Option (Fds × Option Image)
  open_found fds filename readonly direct is_block size =
      or_try (marked readonly (blkdev_probe fds filename readonly direct is_block))
        (λ fds. file_opened fds (os.open_file filename readonly direct) size readonly)

  unfoldable pub with_stat : Fds → ℕ → Bool → Bool → Option (Bool × ℕ) → Option (Fds × Option Image)
  with_stat fds filename readonly direct none = some (fds, none)
  with_stat fds filename readonly direct (some (is_block, size)) =
      open_found fds filename readonly direct is_block size

  unfoldable pub image_open : Fds → ℕ → Bool → Bool → Option (Fds × Option Image)
  image_open fds filename readonly direct =
      with_stat fds filename readonly direct (os.stat filename)

-- disk_image__close: a table with a `close` has its own, which unmaps a mapped image, frees the tables
-- of a QCOW image, and is all that is done.
unfoldable pub image_close : Fds → Image → Fds
image_close fds image =
    if has_close image.ops
    then (if is_mmap image.ops
        then record fds { mappings = without image.fd fds.mappings }
        else fds)
    else close_fd fds image.fd

-- disk_image__close_all, for the images in the order of their numbers: from the last one. A null
-- pointer is `none`.
unfoldable pub close_all : Fds → List (Option Image) → Fds
close_all fds [] = fds
close_all fds (none ∷ images) = close_all fds images
close_all fds (some image ∷ images) = image_close (close_all fds images) image

module _ (os : Os) where
  -- One image of disk_image__open_all: `none` is a failure. An image with a port name has no file,
  -- and is a null pointer here, as one without a name.
  unfoldable pub open_one : Fds → Params → Option (Fds × Option (Option Image))
  open_one fds params = elim params.wwpn [
    | some wwpn ↦ some (fds, some none)
    | none ↦ elim params.filename [
      | none ↦ some (fds, some none)
      | some filename ↦ do
        (fds', image) ← image_open os fds filename params.readonly params.direct
        elim image [
          | none ↦ some (fds', none)
          | some i ↦ some (fds', some (some (record i { addr = params.addr; irq = params.irq })))
        ]
    ]
  ]

  -- The loop, with the images opened before, the last one first, as they are returned too; a failure
  -- closes them all, from the first one.
  unfoldable pub open_each :
      Fds → List Params → List (Option Image) → Option (Fds × Option (List (Option Image)))
  open_each fds [] images = some (fds, some images)
  open_each fds (params ∷ later) images = do
    (fds', image) ← open_one fds params
    elim image [
      | none ↦ some (close_all fds' images, none)
      | some i ↦ open_each fds' later (i ∷ images)
    ]

  -- `none` inside stands for -EINVAL, -ENOSPC and the failures of an image; calloc is assumed to
  -- succeed.
  unfoldable pub open_all : Fds → List Params → Option (Fds × Option (List (Option Image)))
  open_all fds params =
      if length params == 0 || ltb max_disk_images (length params)
      then some (fds, none)
      else open_each fds params []

  -- disk_image__init: no image is no failure
  unfoldable pub images_init : Fds → List Params → Option (Fds × Option (List (Option Image)))
  images_init fds params = if length params == 0 then some (fds, some []) else open_all fds params
