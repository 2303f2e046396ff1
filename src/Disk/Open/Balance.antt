-- ===== src/Disk/Open/Balance.antt =====
-- The descriptors and the mappings that an image holds, from its opening to its closing.
use mathlib.Core.Path.{subst}
use virtio_disk.Prelude.{
  ℕ, ◌≡◌, refl, sym, ap, ◌∙◌, ◌⊎◌, inl, inr, Bool, true, false, not, ◌||◌, Option, none, some, ◌∷◌,
  ◌==◌, if◌then◌else◌, Bool-cases, arith,
}
use virtio_disk.Disk.Open.{
  Ops, regular, mapped, no_write, block, qcow, has_close, is_mmap, Image, Os, Fds, close_fd,
  or_else, or_try, marked, qcow_opened, image_new, block_opened, blkdev_probe, raw_image_probe,
  file_probe, file_opened, open_found, block_sized, with_stat, image_open, image_close,
}

-- with the descriptor, and with the mapping of an image of this table
abbrev pub holding : Fds → ℕ → Ops → Fds
holding fds fd ops = record {
  opened = fd ∷ fds.opened;
  mappings = if is_mmap ops then fd ∷ fds.mappings else fds.mappings;
}

abbrev pub is_qcow : Ops → Bool
is_qcow regular = false
is_qcow mapped = false
is_qcow no_write = false
is_qcow block = false
is_qcow qcow = true

-- Nothing was opened; or an image that holds its descriptor, and its mapping if it has one.
abbrev pub Opened : Fds → Bool → Fds × Option Image → Type 0
Opened fds readonly r =
    (r ≡ (fds, none))
    ⊎ ((image : Image) × (r ≡ (holding fds image.fd image.ops, some image))
        × (image.readonly ≡ (readonly || is_qcow image.ops)))

abbrev with_fd : Fds → ℕ → Fds
with_fd fds fd = record fds { opened = fd ∷ fds.opened }

same_fd : (n : ℕ) → (n == n) ≡ true
same_fd n = ground arith

close-with_fd : (fds : Fds) (fd : ℕ) → close_fd (with_fd fds fd) fd ≡ fds
close-with_fd fds fd = rw (same_fd fd) refl

module _ (os : Os) where
  -- what disk_image__new makes of an open descriptor
  abbrev Made : Fds → ℕ → Ops → Fds × Option Image → Type 0
  Made fds fd ops r =
      (r ≡ (with_fd fds fd, none))
      ⊎ ((image : Image) × (r ≡ (holding fds fd ops, some image))
          × (image.fd ≡ fd)
          × (image.ops ≡ ops))

  image_new-Made :
      (fds : Fds) (fd size : ℕ) (ops : Ops)
      → Made fds fd ops (image_new os (with_fd fds fd) fd size ops)
  unfolding image_new
  image_new-Made fds fd size ops =
      let image : Image = record {
        fd = fd;
        size = size;
        ops = ops;
        readonly = false;
        addr = 0;
        irq = 0;
      } in
      elim (Bool-cases (os.has_memory fd ops)) [
        | inr h ↦ rw h (inl refl)
        | inl h ↦ elim (Bool-cases (is_mmap ops)) [
          | inr k ↦ rw (h, k) (inr (image, refl, refl, refl))
          | inl k ↦ elim (Bool-cases (os.maps fd)) [
            | inl l ↦ rw (h, k, l) (inr (image, refl, refl, refl))
            | inr l ↦ rw (h, k, l) (inl refl)
          ]
        ]
      ]

  -- what the probes of a raw image make of it
  abbrev Raw : Fds → ℕ → Fds × Option Image → Type 0
  Raw fds fd r =
      (r ≡ (with_fd fds fd, none))
      ⊎ ((image : Image) × (r ≡ (holding fds fd image.ops, some image))
          × (image.fd ≡ fd)
          × (is_qcow image.ops ≡ false))

  Made-Raw :
      (fds : Fds) (fd : ℕ) (ops : Ops) (r : Fds × Option Image)
      → is_qcow ops ≡ false
      → Made fds fd ops r
      → Raw fds fd r
  Made-Raw fds fd ops r plain (inl e) = inl e
  Made-Raw fds fd ops r plain (inr (image, e, same, table)) = inr (
    image,
    e ∙ ap (λ o. (holding fds fd o, some image)) (sym table),
    same,
    ap is_qcow table ∙ plain,
  )

  raw_image_probe-Raw :
      (fds : Fds) (fd size : ℕ) (readonly : Bool)
      → Raw fds fd (raw_image_probe os (with_fd fds fd) fd size readonly)
  unfolding raw_image_probe
  raw_image_probe-Raw fds fd size false =
      Made-Raw fds fd regular _ refl (image_new-Made fds fd size regular)
  raw_image_probe-Raw fds fd size true = elim (image_new-Made fds fd size mapped) [
    | inl e ↦
        subst (λ r. Raw fds fd (or_else r (λ fds. image_new os fds fd size no_write))) (sym e)
          (Made-Raw fds fd no_write _ refl (image_new-Made fds fd size no_write))
    | inr (image, e, same, table) ↦
        subst (λ r. Raw fds fd (or_else r (λ fds. image_new os fds fd size no_write))) (sym e)
          (Made-Raw fds fd mapped _ refl (inr (image, refl, same, table)))
  ]

  -- an image with a new mark
  marked-Opened :
      (fds : Fds) (fd : ℕ) (image : Image) (readonly mark : Bool)
      → mark ≡ (readonly || is_qcow image.ops)
      → image.fd ≡ fd
      → Opened fds readonly (holding fds fd image.ops, some (record image { readonly = mark }))
  marked-Opened fds fd image readonly mark right same = inr (
    record image { readonly = mark },
    ap (λ n. (holding fds n image.ops, some (record image { readonly = mark }))) (sym same),
    right,
  )

  or_false : (b c : Bool) → c ≡ false → b ≡ (b || c)
  or_false b c e = ground arith

  or_true : (b c : Bool) → c ≡ true → true ≡ (b || c)
  or_true b c e = ground arith

  -- after the probe of QCOW
  Raw-Opened :
      (fds : Fds) (fd : ℕ) (readonly : Bool) (r : Fds × Option Image)
      → Raw fds fd r
      → Opened fds readonly (or_else (marked readonly r) (λ fds. (close_fd fds fd, none)))
  Raw-Opened fds fd readonly r (inl e) = inl (
      ap (λ r. or_else (marked readonly r) (λ fds. (close_fd fds fd, none))) e
      ∙ ap (λ fds. (fds, none)) (close-with_fd fds fd))
  Raw-Opened fds fd readonly r (inr (image, e, same, plain)) =
      subst
        (λ r. Opened fds readonly (or_else (marked readonly r) (λ fds. (close_fd fds fd, none))))
        (sym e) (marked-Opened fds fd image readonly readonly (or_false readonly _ plain) same)

  -- An image of the format 1 for which malloc fails.
  abbrev pub CannotHold : Type 0
  CannotHold =
      (fd : ℕ) × (size : ℕ) × (os.probe_qcow fd ≡ some (true, size))
      × (os.has_memory fd qcow ≡ false)

  qcow_opened-Made :
      (fds : Fds) (fd : ℕ) (found : Option (Bool × ℕ))
      → os.probe_qcow fd ≡ found
      → ((qcow_opened os (with_fd fds fd) fd found ≡ none) × CannotHold)
        ⊎ ((r : Fds × Option Image) × (qcow_opened os (with_fd fds fd) fd found ≡ some r)
            × Made fds fd qcow r)
  unfolding qcow_opened
  qcow_opened-Made fds fd none e = inr ((with_fd fds fd, none), refl, inl refl)
  qcow_opened-Made fds fd (some (false, size)) e =
      inr (image_new os (with_fd fds fd) fd size qcow, refl, image_new-Made fds fd size qcow)
  qcow_opened-Made fds fd (some (true, size)) e = elim (Bool-cases (os.has_memory fd qcow)) [
    | inr h ↦ inl (rw h refl, (fd, size, e, h))
    | inl h ↦
        inr (image_new os (with_fd fds fd) fd size qcow, rw h refl, image_new-Made fds fd size qcow)
  ]

  -- A crash over an image of the format 1 for which malloc fails, or a result.
  abbrev pub Tried : Fds → Bool → Option (Fds × Option Image) → Type 0
  Tried fds readonly o =
      ((o ≡ none) × CannotHold) ⊎ ((r : Fds × Option Image) × (o ≡ some r) × Opened fds readonly r)

  file_probe-Tried :
      (fds : Fds) (fd size : ℕ) (readonly : Bool)
      → Tried fds readonly (file_probe os (with_fd fds fd) fd size readonly)
  unfolding file_probe
  file_probe-Tried fds fd size readonly =
      let next : Fds → Fds × Option Image = λ fds.
        or_else (marked readonly (raw_image_probe os fds fd size readonly))
          (λ fds. (close_fd fds fd, none)) in
      elim (qcow_opened-Made fds fd (os.probe_qcow fd) refl) [
        | inl (e, bad) ↦ inl (rw (file_probe, e) refl, bad)
        | inr (r, ran, made) ↦ inr (
          or_else (marked true r) next,
          rw (file_probe, ran) refl,
          elim made [
            | inl e ↦
                subst (λ r. Opened fds readonly (or_else (marked true r) next)) (sym e)
                  (Raw-Opened fds fd readonly _ (raw_image_probe-Raw fds fd size readonly))
            | inr (image, e, same, table) ↦
                subst (λ r. Opened fds readonly (or_else (marked true r) next)) (sym e)
                  (subst
                    (λ o.
                      Opened fds readonly
                        (holding fds fd o, some (record image { readonly = true })))
                    table
                    (marked-Opened fds fd image readonly true
                      (or_true readonly _ (ap is_qcow table)) same))
          ],
        )
      ]

  file_opened-Tried :
      (fds : Fds) (o : Option ℕ) (size : ℕ) (readonly : Bool)
      → Tried fds readonly (file_opened os fds o size readonly)
  unfolding file_opened
  file_opened-Tried fds none size readonly = inr ((fds, none), refl, inl refl)
  file_opened-Tried fds (some fd) size readonly = file_probe-Tried fds fd size readonly

  module _ (memory : (fd : ℕ) → os.has_memory fd block ≡ true) where
    -- a block device that is open, or nothing
    abbrev Block : Fds → Fds × Option Image → Type 0
    Block fds r =
        (r ≡ (fds, none))
        ⊎ ((image : Image) × (r ≡ (holding fds image.fd block, some image)) × (image.ops ≡ block))

    sized-Block :
        (fds : Fds) (fd : ℕ) (size : Option ℕ) → Block fds (block_sized os (with_fd fds fd) fd size)
    unfolding block_sized image_new
    sized-Block fds fd none = inl (ap (λ f. (f, none)) (close-with_fd fds fd))
    sized-Block fds fd (some size) =
        let image : Image = record {
          fd = fd;
          size = size;
          ops = block;
          readonly = false;
          addr = 0;
          irq = 0;
        } in
        rw (memory fd) (inr (image, refl, refl))

    block_opened-Block : (fds : Fds) (o : Option ℕ) → Block fds (block_opened os fds o)
    unfolding block_opened
    block_opened-Block fds none = inl refl
    block_opened-Block fds (some fd) = sized-Block fds fd (os.blkgetsize fd)

    blkdev_probe-Block :
        (fds : Fds) (filename : ℕ) (readonly direct is_block : Bool)
        → Block fds (blkdev_probe os fds filename readonly direct is_block)
    unfolding blkdev_probe
    blkdev_probe-Block fds filename readonly direct is_block =
        elim (Bool-cases (not is_block || os.mounted filename)) [
          | inl e ↦ rw e (inl refl)
          | inr e ↦ rw e (block_opened-Block fds (os.open_file filename readonly direct))
        ]

    found-Tried :
        (fds : Fds) (readonly : Bool) (r : Fds × Option Image)
        (next : Fds → Option (Fds × Option Image))
        → Block fds r
        → ((fds : Fds) → Tried fds readonly (next fds))
        → Tried fds readonly (or_try (marked readonly r) next)
    found-Tried fds readonly r next (inl e) later =
        subst (λ r. Tried fds readonly (or_try (marked readonly r) next)) (sym e) (later fds)
    found-Tried fds readonly r next (inr (image, e, table)) later =
        subst (λ r. Tried fds readonly (or_try (marked readonly r) next)) (sym e)
          (inr (
            (holding fds image.fd block, some (record image { readonly = readonly })),
            refl,
            subst
                (λ o.
                  Opened fds readonly
                    (holding fds image.fd o, some (record image { readonly = readonly })))
                table
                (marked-Opened fds image.fd image readonly readonly
                  (or_false readonly _ (ap is_qcow table)) refl),
          ))

    stat-Tried :
        (fds : Fds) (filename : ℕ) (readonly direct : Bool) (o : Option (Bool × ℕ))
        → Tried fds readonly (with_stat os fds filename readonly direct o)
    unfolding with_stat open_found
    stat-Tried fds filename readonly direct none = inr ((fds, none), refl, inl refl)
    stat-Tried fds filename readonly direct (some (is_block, size)) =
        found-Tried fds readonly _ _ (blkdev_probe-Block fds filename readonly direct is_block)
          (λ fds. file_opened-Tried fds (os.open_file filename readonly direct) size readonly)

    pub image_open-Opened :
        (fds : Fds) (filename : ℕ) (readonly direct : Bool)
        → ((image_open os fds filename readonly direct ≡ none) × CannotHold)
          ⊎ ((r : Fds × Option Image) × (image_open os fds filename readonly direct ≡ some r)
              × Opened fds readonly r)
    unfolding image_open
    image_open-Opened fds filename readonly direct =
        stat-Tried fds filename readonly direct (os.stat filename)

close-holding :
    (fds : Fds) (image : Image) (ops : Ops)
    → image.ops ≡ ops
    → image_close (holding fds image.fd image.ops) image
      ≡ (if has_close image.ops then record fds { opened = image.fd ∷ fds.opened } else fds)
unfolding image_close
close-holding fds image regular e = rw (e, same_fd image.fd) refl
close-holding fds image mapped e = rw (e, same_fd image.fd) refl
close-holding fds image no_write e = rw (e, same_fd image.fd) refl
close-holding fds image block e = rw (e, same_fd image.fd) refl
close-holding fds image qcow e = rw e refl

-- what closing leaves of a result
abbrev Closed : Fds → Fds × Option Image → Type 0
Closed fds (fds', none) = fds' ≡ fds
Closed fds (fds', some image) =
    image_close fds' image
    ≡ (if has_close image.ops then record fds { opened = image.fd ∷ fds.opened } else fds)

Opened-Closed :
    (fds : Fds) (readonly : Bool) (r : Fds × Option Image) → Opened fds readonly r → Closed fds r
Opened-Closed fds readonly r (inl e) = subst (Closed fds) (sym e) refl
Opened-Closed fds readonly r (inr (image, e, right)) =
    subst (Closed fds) (sym e) (close-holding fds image image.ops refl)

-- Closing an image that was opened unmaps it, if it is mapped, and closes its descriptor, unless its
-- table of operations has a `close` of its own: then the descriptor stays open for good.
pub image_close-image_open :
    (os : Os) (fds fds' : Fds) (filename : ℕ) (readonly direct : Bool) (image : Image)
    → ((fd : ℕ) → os.has_memory fd block ≡ true)
    → image_open os fds filename readonly direct ≡ some (fds', some image)
    → image_close fds' image
      ≡ (if has_close image.ops then record fds { opened = image.fd ∷ fds.opened } else fds)
image_close-image_open os fds fds' filename readonly direct image memory ran =
    elim (image_open-Opened os memory fds filename readonly direct) [
      | inl (e, bad) ↦ cc
      | inr (r, e, opened) ↦
          let same : r ≡ (fds', some image) = cc in
          subst (Closed fds) same (Opened-Closed fds readonly r opened)
    ]
