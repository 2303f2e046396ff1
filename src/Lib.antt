-- ===== src/Lib.antt =====
-- virtio-disk, the virtio-mmio block device of a Xen guest: its queues, its register files and its
-- requests, modelled and verified.
--
-- The parts of the program and the files that model them:
--
--   virtio/core.c, include/kvm/virtio.h: the split virtqueue. Virtio/Ring holds `VirtQueue`
--     (struct virt_queue) with what guest memory says of the rings, and pop, available,
--     used_idx_advance, set_used_elem, should_signal (virt_queue__pop, virt_queue__available,
--     virt_queue__used_idx_advance, virt_queue__set_used_elem, virtio_queue__should_signal). Avail,
--     Used and Signal below it see the rings as a queue of heads, as a log of completions, and as
--     the interrupts of the guest.
--   virtio/core.c: descriptor chains. Virtio/Chain has next_desc, walk and get_head_iov
--     (virt_queue__get_head_iov); Walk and Request compare them with the chains of a table. Guest
--     memory is Virtio/Guest: the calls of demu_map_guest_range and what is found behind them.
--   virtio/core.c: the device-independent part. Virtio/Device sets queues up and takes them down
--     (virtio_init_device_vq, virtio_exit_vq); Virtio/Ops is struct virtio_ops with the functions
--     that go through it: features, status (virtio_notify_status) and configuration.
--   virtio/mmio.c, virtio/mmio-legacy.c, virtio/mmio-modern.c, include/kvm/virtio-mmio.h: the
--     transport. Virtio/Mmio has the machine (struct virtio_mmio), interrupts and reset; Regs the
--     header and the registers; Legacy and Modern the two register files. `callback` is one access
--     of the guest.
--   virtio/blk.c: the block device. Virtio/Blk has the requests (virtio_blk_do_io_request), their
--     completion (virtio_blk_complete) and the loop of the I/O thread (virtio_blk_do_io); Device
--     is its table blk_dev_virtio_ops. Complete, Serve with Loop, and Lost are about what becomes of
--     a request, over the disks of Reliable and for the requests of Servable.
--   util/read-write.c: Util/ReadWrite has the restarted calls (xread and the others) and the loops
--     of the _in_full functions over the system calls, which are parameters; Reads and Vectors are
--     about them.
--   util/init.c, include/kvm/util-init.h: Util/Init has the lists of initializers and finalizers and
--     the runs over them; Order is about the order.
--   disk/qcow.c, include/kvm/qcow.h: Disk/Qcow has struct qcow and the division of offsets;
--     Cache the tree and the list of cached tables (Search is about the tree); Header the headers
--     and the probe (Parse and Tail are about them); Read and Sectors the reads; Refcount the
--     reference counts, the allocation and what is written back; Write the writes. util/rbtree.c and zlib are parameters.
--   disk/core.c: Disk/Image has disk_image__read, disk_image__write and disk_image__flush over the
--     operations of a kind of image. Disk/Open opens and closes images, with disk/raw.c and
--     disk/blk.c (Balance is about the descriptors); Disk/Mmap is the reading and writing of a
--     mapping in disk/raw.c.
--   xs_dev.c, xs_dev.h: Xs has the connection to a frontend by way of xenstore, with libxenstore as
--     a record of functions (Connect is about xenstore_connect_dom and its error path);
--     Xs/Frontend chooses the frontend and reads the watches (Once is about the choice).
--   demu.c, demu.h: Demu/Pages is the arithmetic of demu_map_guest_range and demu_unmap_guest_range
--     (Cover compares it with the pages that a range meets); Demu/Spaces the list of memory spaces
--     with its registration, lookup and deregistration (Map sees it as a map from addresses to
--     callbacks); Demu/Requests the slots of the shared page, demu_handle_ioreq and
--     demu_poll_iopages (Poll, Features); Demu/Sequence demu_initialize and demu_teardown over the
--     numbers of demu_seq_t, with a log of what is acquired and released (Balance, Start, Stop).
--     The Xen libraries, malloc, device_initialize and xenstore_connect_dom are parameters there.
--
-- How they meet: the transport calls a device through `VirtioOps`, which Blk/Device fills; the
-- I/O loop takes heads from the ring, gathers their buffers, hands them to the disk, and completes
-- them on the used ring.
--
-- State is passed explicitly. `none` stands for a run that leaves the memory that the program owns,
-- that goes through a null pointer or an error pointer, that meets a failed BUG_ON, or that computes
-- what has no meaning in C. Numbers are natural, with the wrap-around of the source's words
-- written out; `Prelude.Int` has the signed results. The layout of rings and vring_need_event come
-- from linux/virtio_ring.h, which is not part of the repository: they are parameters.
--
-- Bounds: a walk over a chain recurs on the 256 entries of iov[], past which the source writes
-- outside the array. The I/O loop recurs on fuel; more fuel than there are pending requests is
-- enough, as long as the guest adds none meanwhile. The restarts and the loops of util/read-write.c
-- recur on fuel too: more than the interruptions there can be, and more rounds than bytes, are
-- enough. The wait for a state of the backend takes a round for each event of xenstore. The search
-- for free clusters takes a round for each cluster that it looks at;
-- update_cluster_refcount has fuel for its calls of itself. A shift of an int by a number of bits
-- from an image's header is `none` where it has no meaning in C. Null pointers are told apart where
-- the program goes through the pointer of a buffer or of an indirect table; the three parts of a
-- ring are taken to be mapped.
--
-- Not modelled: virt_queue__get_inout_iov, virtio_init and PCI fields; the thread that waits for
-- notifications and the list of devices in virtio/blk.c; the serial number of an image, images with
-- a port name, and the two functions of disk/raw.c that only call preadv_in_full and
-- pwritev_in_full; of demu.c the loop of main, the signal handler, the reading of the configuration
-- and the variant of MAP_IN_ADVANCE, which is not built; device.c; util/util.c; disk/aio.c, which is
-- not built; and the copies of Linux code (util/rbtree.c, include/linux). Memory barriers, mutexes
-- and threads are left out: the theorems are about one thread at a time.
pub mod Prelude
pub mod Virtio
pub mod Demu
pub mod Xs
pub mod Disk
pub mod Util
