-- ===== src/Virtio/Tests.antt =====
-- A small guest, queue and disk, and what the theorems say of them.
use virtio_disk.Prelude.{
  ℕ, ◌+◌, ◌-◌, ◌*◌, bit_or, ◌%◌, ◌^◌, ◌≤◌, ◌<◌, ◌≡◌, refl, ◌⊎◌, inl, Bool, true, false, none, some,
  List, [], ◌∷◌, ◌++◌, map, get_elem?, replicate, ltb, ◌==◌, ◌||◌, ◌&&◌, ◌>>=◌, if◌then◌else◌,
  arith,
}
use virtio_disk.Prelude.Bits.{test, bit}
use virtio_disk.Prelude.Int.{pos}
use virtio_disk.Virtio.Guest.{Guest, Iovec, Event, mapped}
use virtio_disk.Virtio.Ring.{
  Desc, Vring, VirtQueue, IsValid, add16, available, pop, set_used_elem, should_signal, desc_f_next,
}
use virtio_disk.Virtio.Ring.Avail.{pending, announced, pop-pending}
use virtio_disk.Virtio.Ring.Used.{
  completed, returned, used_elem, published, set_used_elem-published,
}
use virtio_disk.Virtio.Ring.Signal.{Crossed, Documented, signalled, should_signal-Crossed}
use virtio_disk.Virtio.Device.{VirtioDevice, zero_addr, init_device_vq, unmap_vq}
use virtio_disk.Disk.Image.{DiskImage}
use virtio_disk.Virtio.Chain.{HeadIov, next_desc, take_desc, walk, get_head_iov}
use virtio_disk.Virtio.Chain.Walk.{last, link}
use virtio_disk.Virtio.Chain.Request.{
  Request, direct, Gathered, get_head_iov-Request, get_head_iov_endless,
}
use virtio_disk.Virtio.Device.Setup.{undo, has_feature, unmap_vq-init_device_vq, use_event_idx_lem}
use virtio_disk.Virtio.Ops.Config.{read_config-write_config}
use virtio_disk.Virtio.Blk.Device.{BlkDev, blk_ops, get_host_features}
use virtio_disk.Virtio.Mmio.{Machine}
use virtio_disk.Virtio.Mmio.Modern.{transport_features, callback}
use virtio_disk.Virtio.Mmio.Features.{selects, callback-features}
use virtio_disk.Demu.Spaces.{Space}
use virtio_disk.Demu.Requests.Features.{handle_all, features_reqs, handle_ioreq-features}
use virtio_disk.Virtio.Ops.{
  VirtioOps, put_low, read_config, write_config, notify_status, next_status, ext_status,
}
use virtio_disk.Virtio.Ops.Status.{phase, advance, notify_status-advance}
use virtio_disk.Virtio.Blk.{Env, Io, Req, complete, do_io_request}
use virtio_disk.Virtio.Blk.Complete.{Completed, complete-Completed}
use virtio_disk.Virtio.Blk.Lost.{Unanswered, IsHopeless, unknown, do_io_request-Unanswered}

-- a chain of two descriptors: a request header and a status byte
abbrev header_desc : Desc
header_desc = record { addr = 16; len = 16; flags = 1; next = 1 }

abbrev status_desc : Desc
status_desc = record { addr = 64; len = 1; flags = 2; next = 0 }

-- one request is pending, and none is answered
abbrev ring : Vring
ring = record {
  num = 256;
  desc_at = 4096;
  avail_at = 8192;
  used_at = 12288;
  desc = header_desc ∷ status_desc ∷ [];
  avail_flags = 0;
  avail_idx = 1;
  avail_ring = replicate 256 0;
  used_event = 0;
  used_idx = 0;
  used_ring = replicate 256 (record { id = 7; len = 7 });
  avail_event = 0;
}

abbrev queue : VirtQueue
queue = record {
  vring = some ring;
  vring_addr = zero_addr;
  last_avail_idx = 0;
  last_used_signalled = 0;
  endian = 1;
  use_event_idx = true;
  enabled = true;
}

queue-IsValid : IsValid queue ring
queue-IsValid = record {
  ready = refl;
  num_256 = refl;
  avail_len = refl;
  used_len = refl;
  avail_word = omega arith;
  used_word = omega arith;
  last_word = omega arith;
}

pop-pending_example :
    (((available queue).0 ≡ false) × (pending queue ring ≡ []))
    ⊎ ((h : ℕ) × (q' : VirtQueue) × ((available queue).0 ≡ true)
        × (pop (available queue).1 ≡ some (h, q'))
        × (pending queue ring ≡ h ∷ pending q' (announced queue ring))
        × IsValid q' (announced queue ring))
pop-pending_example = pop-pending queue-IsValid

set_used_elem-published_example :
    (set_used_elem queue 0 512 ≡ some (returned queue ring 0 512))
    × (published (completed ring 0 512) 0 1 ≡ published ring 0 0 ++ (used_elem 0 512 ∷ []))
    × ((completed ring 0 512).used_idx ≡ add16 0 1)
    × (pending (returned queue ring 0 512) (completed ring 0 512) ≡ pending queue ring)
    × IsValid (returned queue ring 0 512) (completed ring 0 512)
set_used_elem-published_example =
    set_used_elem-published 0 512 0 0 queue-IsValid (omega arith) (omega arith) refl

-- the specification's vring_need_event
abbrev need_event : ℕ → ℕ → ℕ → Bool
need_event event new old =
    ltb ((new + 2 ^ 16 + 2 ^ 16 - event - 1) % 2 ^ 16) ((new + 2 ^ 16 - old) % 2 ^ 16)

need_event-Documented : Documented need_event
need_event-Documented event new old he hn ho = refl

should_signal-Crossed_example :
    ((queue.use_event_idx ≡ false)
      × (should_signal need_event queue ≡ some (bit 0 ring.avail_flags == 0, queue)))
    ⊎ ((queue.use_event_idx ≡ true)
        × Crossed ring.used_event ring.used_idx queue.last_used_signalled
        × (should_signal need_event queue ≡ some (true, signalled queue ring)))
    ⊎ ((queue.use_event_idx ≡ true)
        × (¬ Crossed ring.used_event ring.used_idx queue.last_used_signalled)
        × (should_signal need_event queue ≡ some (false, queue)))
should_signal-Crossed_example =
    should_signal-Crossed need_event queue ring need_event-Documented refl (omega arith)
      (omega arith) (omega arith)

abbrev guest : Guest
guest = record {
  map_guest_range = λ addr len prot. addr + 65536;
  table = λ p. header_desc ∷ status_desc ∷ [];
  ring_at = λ nr desc avail used. ring;
  vring_size = λ nr align. 12288;
  avail_offset = λ nr align. 4096;
  used_offset = λ nr align. 8192;
}

abbrev chain : List Desc
chain = header_desc ∷ status_desc ∷ []

request : Request guest ring 0 header_desc chain
request = direct refl refl (link refl refl refl (omega arith) (last refl (inl refl)))

abbrev gathered : HeadIov
gathered = record {
  iov = record { base = 65552; len = 16 } ∷ record { base = 65600; len = 1 } ∷ [];
  out = 1;
  in_count = 1;
  trace = mapped 65552 16 ∷ mapped 65600 1 ∷ [];
}

get_head_iov-Request_example :
    (w : HeadIov) × (get_head_iov guest queue 0 ≡ some w) × Gathered guest header_desc chain w
get_head_iov-Request_example = get_head_iov-Request guest queue 0 refl request (omega arith)

get_head_iov-gathered : get_head_iov guest queue 0 ≡ some gathered
unfolding get_head_iov walk next_desc take_desc
get_head_iov-gathered = refl

-- a descriptor that leads to itself
abbrev loop_desc : Desc
loop_desc = record { addr = 16; len = 16; flags = 1; next = 0 }

abbrev loop_ring : Vring
loop_ring = record ring { desc = loop_desc ∷ [] }

abbrev loop_queue : VirtQueue
loop_queue = record queue { vring = some loop_ring }

loop_on :
    (i : ℕ)
    → i ≡ 0
    → (d : Desc) × (get_elem? loop_ring.desc i ≡ some d)
      × (test d.flags desc_f_next ≡ true)
      × (d.next < loop_ring.num % 2 ^ 16)
      × (d.next ≡ 0)
loop_on i e = (loop_desc, rw e, refl, omega arith, refl)

get_head_iov_endless_example : get_head_iov guest loop_queue 0 ≡ none
get_head_iov_endless_example =
    get_head_iov_endless guest loop_queue 0 loop_ring loop_desc (λ i. i ≡ 0) refl refl refl loop_on
      refl

abbrev vdev : VirtioDevice
vdev = record { legacy = false; endian = 1; features = 2 ^ 29; status = 0 }

abbrev set_up : VirtQueue × List Event
set_up = (
  record queue {
    vring = some (record ring { desc_at = 65536; avail_at = 65536; used_at = 65536 });
    use_event_idx = false;
  },
  mapped 65536 4096 ∷ mapped 65536 4096 ∷ mapped 65536 4096 ∷ [],
)

init_device_vq-set_up : init_device_vq guest vdev queue 256 ≡ some set_up
unfolding init_device_vq
init_device_vq-set_up = refl

unmap_vq-init_device_vq_example : unmap_vq guest set_up.0 ≡ map undo set_up.1
unmap_vq-init_device_vq_example = unmap_vq-init_device_vq guest vdev queue 256 init_device_vq-set_up

use_event_idx_lem_example :
    false ≡ (has_feature 0 vdev || has_feature 2 vdev || has_feature 3 vdev || has_feature 4 vdev)
use_event_idx_lem_example = use_event_idx_lem guest vdev queue 256 init_device_vq-set_up

abbrev env : Env
env = record {
  guest = guest;
  header = λ p. record { kind = 4; sector = 0 };
  need_event = need_event;
  serial_len = some 20;
}

-- a disk that counts its requests
abbrev disk : DiskImage ℕ
disk = record {
  state = 0;
  read = some (λ s sector iov. (s + 1, pos 512));
  write = some (λ s sector iov. (s + 1, pos 512));
  flush = none;
  fsync = λ s. (s + 1, pos 0);
  async = false;
  has_callback = true;
}

abbrev io : Io ℕ
io = record { vq = queue; disk = disk; io_done = false; statuses = []; events = []; signals = 0 }

abbrev req : Req
req = record { head = 0; gathered = gathered }

abbrev status_byte : Iovec
status_byte = record { base = 65600; len = 1 }

complete-Completed_example :
    (io' : Io ℕ) × (complete env io req (pos 0) ≡ some io')
    × Completed io ring req (pos 0) status_byte io'
complete-Completed_example =
    complete-Completed env io req (pos 0) queue-IsValid (omega arith) refl (omega arith)

abbrev header_buffer : Iovec
header_buffer = record { base = 65552; len = 16 }

abbrev strange_env : Env
strange_env = record env { header = λ p. record { kind = 3; sector = 0 } }

strange-IsHopeless : IsHopeless strange_env io req header_buffer
strange-IsHopeless = unknown (omega arith) (omega arith) (omega arith) (omega arith)

do_io_request-Unanswered_example :
    (io' : Io ℕ) × (do_io_request strange_env io req ≡ some io') × Unanswered io io'
do_io_request-Unanswered_example =
    do_io_request-Unanswered strange_env io req refl (omega arith) strange-IsHopeless

-- the status registers of a blank device whose driver is ready, and nothing to reset
abbrev blank_ops : VirtioOps ℕ
blank_ops = record {
  get_config = λ dev. [];
  set_config = λ dev bytes. dev;
  get_host_features = λ dev. 0;
  get_vq_count = λ dev. 0;
  init_vq = λ vdev dev vq. some (dev, []);
  exit_vq = λ dev vq. dev;
  notify_vq = λ dev vq. dev;
  get_vq = λ dev vq. none;
  put_vq = λ dev vq q. dev;
  get_size_vq = λ dev vq. 0;
  set_size_vq = λ dev vq size. dev;
  notify_status = λ vdev dev status. status;
}

abbrev ready_vdev : VirtioDevice
ready_vdev = record vdev { status = next_status 0 4 }

notify_status-advance_example :
    (phase ready_vdev.status ≡ advance (phase vdev.status) 4)
    × (notify_status blank_ops (λ dev. some (dev, [])) vdev 0 4
        ≡ ◌>>=◌ {A = ℕ × List Event}
            (if (4 == 0) && (phase vdev.status).started then some (0, []) else some (0, []))
            (λ r. some (ready_vdev, blank_ops.notify_status ready_vdev r.0 (ext_status 0 4), r.1)))
notify_status-advance_example =
    notify_status-advance blank_ops (λ dev. some (dev, [])) vdev 0 4 (omega arith)

abbrev blk_dev : BlkDev
blk_dev = record {
  blk_config = replicate 60 0;
  vqs = queue ∷ [];
  readonly = false;
  io_efd = 0;
  io_thread = true;
  io_done = false;
}

read_config-write_config_example :
    (dev' : BlkDev) × (write_config (blk_ops guest) blk_dev 8 0x1234 2 ≡ some (true, dev'))
    × (read_config (blk_ops guest) dev' 8 0 2 ≡ some (true, put_low 0 2 (0x1234 % 256 ^ 2)))
    × ((j : ℕ)
        → (j < 8) ⊎ (8 + 2 ≤ j)
        → get_elem? dev'.blk_config j ≡ get_elem? blk_dev.blk_config j)
read_config-write_config_example =
    read_config-write_config (blk_ops guest) blk_dev 8 2 0x1234 0 (λ dev bytes. refl) refl
      (omega arith)

abbrev machine : Machine BlkDev
machine = record {
  vdev = vdev;
  addr = 0x200_0000;
  irq = 33;
  hdr = record {
    magic = 0x7472_6976;
    version = 2;
    device_id = 2;
    vendor_id = 0x4d56_4b4c;
    host_features_sel = 0;
    guest_features_sel = 0;
    guest_page_size = 0;
    queue_sel = 0;
    queue_num_max = 256;
    queue_num = 0;
    interrupt_state = 0;
    status = 0;
  };
  dev = blk_dev;
  irqs = [];
  events = [];
}

abbrev ops : VirtioOps BlkDev
ops = blk_ops guest

features-wide : bit_or transport_features (ops.get_host_features blk_dev) < 2 ^ 64
unfolding get_host_features
features-wide = omega arith

callback-features_example :
    (lo hi : ℕ) × (callback ops guest machine (machine.addr + 0x14) 0 4 true
      ≡ some (selects ops guest machine 0, 0))
    × (callback ops guest (selects ops guest machine 0) (machine.addr + 0x10) 0 4 false
        ≡ some (selects ops guest machine 0, lo))
    × (callback ops guest (selects ops guest machine 0) (machine.addr + 0x14) 1 4 true
        ≡ some (selects ops guest machine 1, 1))
    × (callback ops guest (selects ops guest machine 1) (machine.addr + 0x10) 0 4 false
        ≡ some (selects ops guest machine 1, hi))
    × (lo + 2 ^ 32 * hi ≡ bit_or transport_features (ops.get_host_features blk_dev))
callback-features_example = callback-features ops guest machine 0 (omega arith) features-wide

abbrev device_space : Space (Machine BlkDev)
device_space = record { start = 0x200_0000; end = 0x200_01ff; mmio_fn = callback ops guest }

handle_ioreq-features_example :
    (lo hi : ℕ) × (handle_all (device_space ∷ []) machine (features_reqs ops guest machine.addr 5 6)
      ≡ some (selects ops guest machine 1, 0 ∷ lo ∷ 1 ∷ hi ∷ []))
    × (lo + 2 ^ 32 * hi ≡ bit_or transport_features (ops.get_host_features blk_dev))
handle_ioreq-features_example =
    handle_ioreq-features ops guest machine device_space [] 5 6 (omega arith) (omega arith) refl
      features-wide
