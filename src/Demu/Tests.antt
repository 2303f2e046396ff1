-- ===== src/Demu/Tests.antt =====
-- A small machine with two virtual CPUs, and what the theorems say of it.
use virtio_disk.Prelude.{
  ℕ, zero, suc, ◌+◌, ◌%◌, ◌^◌, ◌≡◌, ◌≢◌, refl, true, false, some, List, [], ◌∷◌, get_elem?, ◌==◌,
  if◌then◌else◌, arith,
}
use virtio_disk.Prelude.Int.{ℤ, pos, minus_one}
use virtio_disk.Virtio.Guest.{prot_read_write}
use virtio_disk.Demu.Pages.{
  PageCall, Xen, unmapped_frames, is_grant, map_guest_range, unmap_guest_range,
  detect_mappings_model, page_count, round_up, frames_from,
}
use virtio_disk.Demu.Pages.Cover.{
  Covers, frames_of, takes_grants, host_address, map_guest_range-Covers, unmap-map_guest_range,
}
use virtio_disk.Demu.Spaces.{
  Callback, Space, ranged, unranged, find_space, register_memory_space, deregister_memory_space,
}
use virtio_disk.Demu.Spaces.Map.{
  in_range, served, IsDisjoint, Registered, Deregistered, register_memory_space-Registered,
  register_memory_space_free, deregister_memory_space-Deregistered,
}
use virtio_disk.Demu.Sequence.{State, Calls, initialize, teardown}
use virtio_disk.Demu.Sequence.Balance.{nothing, replay, Started}
use virtio_disk.Demu.Sequence.Start.{initialize-Started}
use virtio_disk.Demu.Sequence.Stop.{teardown-initialize}
use virtio_disk.Demu.Requests.{
  Ioreq, Server, dir_read, type_copy, ioreq_ready, ioreq_none, ioreq_inprocess, unmasked, notified,
  handle_ioreq, handle_io, poll_iopages,
}
use virtio_disk.Demu.Requests.Poll.{answered, poll_iopages-answered}

abbrev xen : Xen
xen = record {
  has_memory = λ n. true;
  foreign_map = λ frames prot. 65536;
  grants_map = λ grants prot. 131072;
}

-- the last 96 bytes of one page and the first 104 of the next
map_guest_range-Covers_example :
    (call : PageCall) × (map_guest_range xen minus_one 4000 200 prot_read_write
      ≡ some (detect_mappings_model minus_one 4000, host_address 4000 call, call ∷ []))
    × (takes_grants call ≡ is_grant 4000)
    × Covers (4000 % 2 ^ 63) 200 (frames_of call)
unfolding detect_mappings_model
map_guest_range-Covers_example =
    map_guest_range-Covers xen minus_one 4000 200 prot_read_write (omega arith) (omega arith)
      (omega arith) refl (λ n. refl)

abbrev the_call : PageCall
the_call = PageCall.mapped_frames (0 ∷ 1 ∷ []) prot_read_write 65536

mapped_range :
    map_guest_range xen minus_one 4000 200 prot_read_write ≡ some (pos 0, 69536, the_call ∷ [])
unfolding map_guest_range detect_mappings_model page_count round_up frames_from
mapped_range = refl

unmap-map_guest_range_example : unmap_guest_range (pos 0) 69536 200 ≡ unmapped_frames 65536 2 ∷ []
unmap-map_guest_range_example =
    unmap-map_guest_range xen minus_one 4000 200 prot_read_write (pos 0) 69536 the_call mapped_range
      (omega arith) refl

-- the state of the device counts the accesses
abbrev counts : Callback ℕ
counts = λ w addr value len is_write. some (suc w, 99)

abbrev first_space : Space ℕ
first_space = record { start = 0x1000; end = 0x11ff; mmio_fn = counts }

first_space-IsDisjoint : IsDisjoint 0x200 (first_space ∷ [])
first_space-IsDisjoint = (refl, omega arith, omega arith)

register_memory_space-Registered_example :
    Registered
      (first_space ∷ [])
      0x1200
      0x200
      counts
      (register_memory_space true (λ a b. pos 0) (first_space ∷ []) 0x1200 0x200 counts)
register_memory_space-Registered_example =
    register_memory_space-Registered true (λ a b. pos 0) (first_space ∷ []) 0x1200 0x200 counts
      first_space-IsDisjoint (omega arith)

register_memory_space_free_example :
    (spaces' : List (Space ℕ)) × (register_memory_space true (λ a b. pos 0) [] 0x1200 0x200 counts
      ≡ (spaces', pos 0, ranged 0x1200 0x13ff ∷ []))
    × ((a : ℕ) → served spaces' a ≡ (if in_range 0x1200 0x13ff a then some counts else served [] a))
unfolding find_space
register_memory_space_free_example =
    register_memory_space_free (λ a b. pos 0) [] 0x1200 0x200 counts refl refl refl

first_space-found : find_space (first_space ∷ []) 0x1000 ≡ some first_space
unfolding find_space
first_space-found = refl

deregister_memory_space-Deregistered_example :
    Deregistered 0x200
      (first_space ∷ [])
      first_space
      (deregister_memory_space (first_space ∷ []) 0x1000).0
    × ((deregister_memory_space (first_space ∷ []) 0x1000).1 ≡ unranged 0x1000 0x11ff ∷ [])
deregister_memory_space-Deregistered_example =
    deregister_memory_space-Deregistered 0x200 (first_space ∷ []) 0x1000 first_space
      first_space-IsDisjoint (first_space-found, refl)

abbrev read_req : Ioreq
read_req = record {
  addr = 0x1010;
  payload = 0;
  size = 4;
  state = ioreq_ready;
  data_is_ptr = false;
  dir = dir_read;
  type = type_copy;
}

abbrev two_cpus : Server ℕ
two_cpus = record {
  seq = 12;
  vcpus = 2;
  memory = first_space ∷ [];
  vcpu_ioreq = record read_req { state = ioreq_none } ∷ read_req ∷ [];
  ioreq_local_port = 7 ∷ 8 ∷ [];
}

abbrev read_done : Ioreq
read_done = record read_req { state = ioreq_inprocess; payload = 99 }

read_handled :
    handle_ioreq (first_space ∷ []) 0 (record read_req { state = ioreq_inprocess })
    ≡ some (1, read_done)
unfolding handle_ioreq handle_io find_space
read_handled = refl

other_port : (j : ℕ) → j ≢ 1 → get_elem? two_cpus.ioreq_local_port j ≢ some 8
other_port zero h e = ground arith
other_port (suc zero) h e = absurd (h refl)
other_port (suc (suc j)) h e = ground arith

poll_iopages-answered_example :
    poll_iopages (pos 8) two_cpus 0
    ≡ some (answered two_cpus 0 8 1 read_done, 1, unmasked 8 ∷ notified 8 ∷ [])
poll_iopages-answered_example =
    poll_iopages-answered two_cpus 0 8 (pos 8) 1 read_req 1 read_done refl refl refl refl other_port
      refl refl read_handled

abbrev fresh : State
fresh = record {
  seq = 0;
  use_gnttab = minus_one;
  vcpus = 0;
  local_port = [];
  filenames = [];
  log = [];
}

-- the port of the second CPU cannot be bound
abbrev one_port : Calls
one_port = record {
  connect_dom = (pos 0, some 5 ∷ []);
  evtchn_open = 1;
  foreignmemory_open = 2;
  devicemodel_open = 3;
  gnttab_open = 4;
  nr_vcpus = (pos 0, 2);
  create_server = pos 0;
  map_resource = 5;
  set_server_state = pos 0;
  malloc_ports = λ n. 6;
  vp_eport = λ i. i + 20;
  bind_interdomain = λ port. if port == 20 then pos 7 else minus_one;
  device_initialize = pos 0;
}

none_held : replay nothing [] ≡ some nothing
unfolding replay
none_held = refl

initialize-Started_example : Started (initialize one_port fresh)
initialize-Started_example = initialize-Started one_port fresh refl none_held

teardown-initialize_example :
    (rc : ℤ) × (s' : State) × (initialize one_port fresh ≡ some (rc, s'))
    × ((teardown s').seq ≡ 0)
    × (replay nothing (teardown s').log ≡ some nothing)
teardown-initialize_example = teardown-initialize one_port fresh refl none_held
