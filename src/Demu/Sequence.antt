-- ===== src/Demu/Sequence.antt =====
-- The sequence of demu.c: what demu_initialize acquires, and demu_teardown releases.
--
-- The calls of other files and of the Xen libraries are a record of what they return; a pointer is a
-- number, null is 0. What was acquired and released is a log.
pub mod Balance
pub mod Start
pub mod Stop
use virtio_disk.Prelude.{
  ℕ, zero, suc, ◌+◌, ◌-◌, ◌%◌, ◌^◌, Bool, true, false, not, ◌&&◌, Option, none, some, List, [], ◌∷◌,
  ◌++◌, map, replicate, set, take, ltb, leb, ◌==◌, if◌then◌else◌, ◌>>=◌,
}
use virtio_disk.Prelude.Int.{ℤ, pos, negsuc, is_neg, minus_one, to_u32}

-- demu_seq_t, without MAP_IN_ADVANCE
abbrev pub seq_uninitialized : ℕ
seq_uninitialized = 0

abbrev pub seq_xenstore_attached : ℕ
seq_xenstore_attached = 1

abbrev pub seq_xenevtchn_open : ℕ
seq_xenevtchn_open = 2

abbrev pub seq_xenforeignmemory_open : ℕ
seq_xenforeignmemory_open = 3

abbrev pub seq_xendevicemodel_open : ℕ
seq_xendevicemodel_open = 4

abbrev pub seq_xengnttab_open : ℕ
seq_xengnttab_open = 5

abbrev pub seq_server_registered : ℕ
seq_server_registered = 6

abbrev pub seq_resource_mapped : ℕ
seq_resource_mapped = 7

abbrev pub seq_server_enabled : ℕ
seq_server_enabled = 8

abbrev pub seq_port_array_allocated : ℕ
seq_port_array_allocated = 9

abbrev pub seq_ports_bound : ℕ
seq_ports_bound = 10

abbrev pub seq_device_initialized : ℕ
seq_device_initialized = 11

abbrev pub seq_initialized : ℕ
seq_initialized = 12

-- What is acquired: `enabled` is the state of the ioreq server, `device` what device_initialize sets
-- up, `attached` the connection of xenstore.
pub data Res : Type 0 where
  attached evtchn foreignmemory devicemodel gnttab server resource enabled port_array device : Res

pub data Act : Type 0 where
  acquired released : Res → Act
  bound unbound : ℕ → Act

-- demu_state, and the names of the disk images
pub record State : Type 0 where
  pub seq : ℕ
  pub use_gnttab : ℤ
  pub vcpus : ℕ
  pub local_port : List ℕ
  pub filenames : List (Option ℕ)
  pub log : List Act

-- `connect_dom` also gives the names that demu_read_xenstore_config found.
pub record Calls : Type 0 where
  pub connect_dom : ℤ × List (Option ℕ)
  pub evtchn_open : ℕ
  pub foreignmemory_open : ℕ
  pub devicemodel_open : ℕ
  pub gnttab_open : ℕ
  pub nr_vcpus : ℤ × ℕ
  pub create_server : ℤ
  pub map_resource : ℕ
  pub set_server_state : ℤ
  pub malloc_ports : ℕ → ℕ
  pub vp_eport : ℕ → ℕ
  pub bind_interdomain : ℕ → ℤ
  pub device_initialize : ℤ

-- rc == 0
abbrev pub is_zero : ℤ → Bool
is_zero (pos zero) = true
is_zero (pos (suc n)) = false
is_zero (negsuc n) = false

-- (evtchn_port_t)-1
abbrev pub no_port : ℕ
no_port = 2 ^ 32 - 1

abbrev pub logged : State → List Act → State
logged s acts = record s { log = s.log ++ acts }

-- `none` is the failed assertion.
unfoldable pub seq_next : State → Option State
seq_next s = if ltb s.seq seq_initialized then some (record s { seq = suc s.seq }) else none

-- If the call succeeded, log it, go to the next number and go on; else return -1.
abbrev pub acquire : Bool → List Act → (State → Option (ℤ × State)) → State → Option (ℤ × State)
acquire ok acts next s =
    if ok then (do s' ← seq_next (logged s acts); next s') else some (minus_one, s)

module _ (calls : Calls) where
  -- `for (; i < vcpus; i++)` with `left` rounds to go; whether no call failed
  unfoldable pub bind_ports : ℕ → ℕ → State → Bool × State
  bind_ports i zero s = (true, s)
  bind_ports i (suc left) s =
      let rc = calls.bind_interdomain (calls.vp_eport i) in
      let port = to_u32 rc in
      let s' = record (logged s (bound port ∷ [])) { local_port = set s.local_port i port } in
      let rest = bind_ports (suc i) left s' in if is_neg rc then (false, s) else rest

  unfoldable pub start_device : State → Option (ℤ × State)
  start_device =
      acquire (not (is_neg calls.device_initialize)) (acquired device ∷ [])
        (λ s. do s' ← seq_next s; if s'.seq == seq_initialized then some (pos 0, s') else none)

  unfoldable pub start_ports : State → Option (ℤ × State)
  start_ports s = let (ok, s') = bind_ports 0 s.vcpus s in acquire ok [] start_device s'

  unfoldable pub start_array : State → Option (ℤ × State)
  start_array s =
      acquire (not (calls.malloc_ports s.vcpus == 0)) (acquired port_array ∷ []) start_ports (
        if calls.malloc_ports s.vcpus == 0
        then s
        else record s { local_port = replicate s.vcpus no_port })

  unfoldable pub start_server : State → Option (ℤ × State)
  start_server = acquire (not (is_neg calls.create_server)) (acquired server ∷ []) (
      acquire (not (calls.map_resource == 0)) (acquired resource ∷ [])
        (acquire (is_zero calls.set_server_state) (acquired enabled ∷ []) start_array))

  unfoldable pub start_vcpus : State → Option (ℤ × State)
  start_vcpus s =
      let (rc, n) = calls.nr_vcpus in
      if is_neg rc
      then some (minus_one, record s { vcpus = n })
      else start_server (record s { vcpus = n })

  unfoldable pub start_gnttab : State → Option (ℤ × State)
  start_gnttab s =
      acquire (not (calls.gnttab_open == 0)) (acquired gnttab ∷ []) start_vcpus
        (record s { use_gnttab = minus_one })

  -- demu_initialize
  unfoldable pub initialize : State → Option (ℤ × State)
  initialize s =
      let (rc, names) = calls.connect_dom in
      acquire (not (is_neg rc)) (acquired attached ∷ [])
        (acquire (not (calls.evtchn_open == 0)) (acquired evtchn ∷ []) (
          acquire (not (calls.foreignmemory_open == 0)) (acquired foreignmemory ∷ [])
            (acquire (not (calls.devicemodel_open == 0)) (acquired devicemodel ∷ []) start_gnttab)))
        (record s { filenames = names })

-- `port >= 0` always holds, since `port` is unsigned.
abbrev pub unbinds : List ℕ → List Act
unbinds [] = []
unbinds (port ∷ ports) = if leb 0 port then unbound port ∷ unbinds ports else unbinds ports

-- One `if` of demu_teardown: release, and go back to the number before.
abbrev pub leave : (ℕ → Bool) → List Act → ℕ → State → State
leave test acts seq s = if test s.seq then record (logged s acts) { seq = seq } else s

abbrev pub leave_ports : State → State
leave_ports s =
    leave (λ q. leb seq_port_array_allocated q)
      (unbinds (take s.vcpus s.local_port) ++ (released port_array ∷ [])) seq_server_enabled s

abbrev pub forget_names : State → State
forget_names s =
    if leb seq_xenstore_attached s.seq
    then record s { filenames = map (λ f. none) s.filenames }
    else s

-- demu_teardown, from the end of the sequence to the ports, and from there
unfoldable pub teardown_device : State → State
teardown_device s =
    leave (λ q. leb seq_ports_bound q) [] seq_port_array_allocated
      (leave (λ q. q == seq_device_initialized) (released device ∷ []) seq_ports_bound
        (leave (λ q. q == seq_initialized) [] seq_device_initialized s))

unfoldable pub teardown_server : State → State
teardown_server s =
    leave (λ q. leb seq_server_registered q) (released server ∷ []) seq_xengnttab_open
      (leave (λ q. leb seq_resource_mapped q) (released resource ∷ []) seq_server_registered
        (leave (λ q. q == seq_server_enabled) (released enabled ∷ []) seq_resource_mapped s))

unfoldable pub teardown_handles : State → State
teardown_handles s =
    leave (λ q. leb seq_xenevtchn_open q) (released evtchn ∷ []) seq_xenstore_attached
      (leave (λ q. leb seq_xenforeignmemory_open q) (released foreignmemory ∷ []) seq_xenevtchn_open
        (leave (λ q. leb seq_xendevicemodel_open q) (released devicemodel ∷ [])
          seq_xenforeignmemory_open
          (leave (λ q. leb seq_xengnttab_open q) (released gnttab ∷ []) seq_xendevicemodel_open s)))

unfoldable pub teardown : State → State
unfolding teardown_device teardown_server teardown_handles
teardown s =
    leave (λ q. leb seq_xenstore_attached q) (released attached ∷ []) seq_uninitialized
      (forget_names (teardown_handles (teardown_server (leave_ports (teardown_device s)))))
