-- ===== src/Demu/Requests.antt =====
-- The I/O requests of demu.c: one slot of the shared page for each virtual CPU.
--
-- The values of the fields are those of xen/hvm/ioreq.h. `W` is the state of the devices.
pub mod Poll
pub mod Features
use virtio_disk.Prelude.{
  ℕ, zero, suc, ◌+◌, ◌%◌, ◌^◌, Bool, true, false, not, Option, none, some, List, [], ◌∷◌, ◌++◌, set,
  get_elem?, ltb, ◌==◌, if◌then◌else◌, ◌>>=◌,
}
use virtio_disk.Prelude.Int.{ℤ, to_u32}
use virtio_disk.Demu.Spaces.{Space, find_space}
use virtio_disk.Demu.Sequence.{seq_initialized}

pub data Dir : Type 0 where
  dir_read dir_write : Dir

pub data ReqType : Type 0 where
  type_copy type_invalidate type_other : ReqType

pub data ReqState : Type 0 where
  ioreq_none ioreq_ready ioreq_inprocess ioresp_ready : ReqState

-- `payload` is the field `data`.
pub record Ioreq : Type 0 where
  pub addr : ℕ
  pub payload : ℕ
  pub size : ℕ
  pub state : ReqState
  pub data_is_ptr : Bool
  pub dir : Dir
  pub type : ReqType

-- The part of demu_state that serves requests: `vcpu_ioreq` is that of the shared page.
pub record Server (W : Type 0) : Type 0 where
  pub seq : ℕ
  pub vcpus : ℕ
  pub memory : List (Space W)
  pub vcpu_ioreq : List Ioreq
  pub ioreq_local_port : List ℕ

-- xenevtchn_unmask and xenevtchn_notify
pub data PortCall : Type 0 where
  unmasked notified : ℕ → PortCall

module _ {W : Type 0} where
  -- `none` is a failed assertion.
  access : Space W → W → Ioreq → Dir → Bool → Option (W × Ioreq)
  access space w req dir_read false = do
    (w', value) ← space.mmio_fn w req.addr 0 req.size false
    some (w', record req { payload = value })
  access space w req dir_write false = do
    (w', value) ← space.mmio_fn w req.addr req.payload req.size true
    some (w', req)
  access space w req dir true = none

  unfoldable pub handle_io : List (Space W) → W → Ioreq → Option (W × Ioreq)
  unfolding access
  handle_io spaces w req = elim (find_space spaces req.addr) [
    | none ↦ some (w, req)
    | some space ↦ access space w req req.dir req.data_is_ptr
  ]

  unfoldable pub handle_ioreq : List (Space W) → W → Ioreq → Option (W × Ioreq)
  handle_ioreq spaces w req = elim req.type [
    | type_copy ↦ handle_io spaces w req
    | type_invalidate ↦ some (w, req)
    | type_other ↦ some (w, req)
  ]

  -- A slot or a port that the server does not have is `none`.
  serve : Server W → W → ℕ → Ioreq → ReqState → Option (Server W × W × List PortCall)
  serve server w i req ioreq_ready = do
    (w', req') ← handle_ioreq server.memory w (record req { state = ioreq_inprocess })
    port ← get_elem? server.ioreq_local_port i
    let page = set server.vcpu_ioreq i (record req' { state = ioresp_ready })
    some (record server { vcpu_ioreq = page }, w', notified port ∷ [])
  serve server w i req _ = some (server, w, [])

  unfoldable pub poll_shared_iopage : Server W → W → ℕ → Option (Server W × W × List PortCall)
  unfolding serve
  poll_shared_iopage server w i =
      let next = (do req ← get_elem? server.vcpu_ioreq i; serve server w i req req.state) in
      if not (server.seq == seq_initialized) then some (server, w, []) else next

  -- `for (; i < vcpus; i++)`, with `left` rounds to go
  unfoldable pub poll_vcpus : ℕ → ℕ → ℕ → Server W → W → Option (Server W × W × List PortCall)
  poll_vcpus port i zero server w = some (server, w, [])
  poll_vcpus port i (suc left) server w = do
    local ← get_elem? server.ioreq_local_port i
    let polled = poll_shared_iopage server w i
    (server', w', calls) ←
        (if port == local
          then (do (s, w', calls) ← polled; some (s, w', unmasked port ∷ calls))
          else some (server, w, []))
    (server'', w'', later) ← poll_vcpus port (suc i) left server' w'
    some (server'', w'', calls ++ later)

  -- `pending` is what xenevtchn_pending returns; `port` is unsigned, so that `port < 0` never holds.
  unfoldable pub poll_iopages : ℤ → Server W → W → Option (Server W × W × List PortCall)
  poll_iopages pending server w =
      let port = to_u32 pending in
      let polled = poll_vcpus port 0 server.vcpus server w in
      if not (server.seq == seq_initialized)
      then some (server, w, [])
      else if ltb port 0
      then some (server, w, [])
      else polled
