-- ===== src/Demu/Requests/Poll.antt =====
-- Which slot of the shared page a pending event channel serves.
use virtio_disk.Prelude.{
  ℕ, zero, suc, ◌+◌, ◌<◌, ◌≤◌, ◌≡◌, ◌≢◌, refl, sym, ap, ◌∙◌, true, false, some, List, [], ◌∷◌,
  length, set, get_elem?, get_elem?-lt, ◌==◌, ne→==, le→ltb, ℕ_discrete, arith,
}
use virtio_disk.Prelude.Int.{ℤ, to_u32}
use virtio_disk.Demu.Sequence.{seq_initialized}
use virtio_disk.Demu.Requests.{
  Ioreq, ioreq_ready, ioreq_inprocess, ioresp_ready, Server, unmasked, notified, handle_ioreq,
  poll_shared_iopage, poll_vcpus, poll_iopages,
}

==_self : (a : ℕ) → (a == a) ≡ true
==_self a = ground arith

get_elem?-some : (xs : List ℕ) (i v : ℕ) → get_elem? xs i ≡ some v → i < length xs
get_elem?-some [] i v h = ground arith
get_elem?-some (x ∷ xs) zero v h = omega arith
get_elem?-some (x ∷ xs) (suc i) v h = omega (arith, get_elem?-some xs i v h)

module _ {W : Type 0} (server : Server W) (w : W) (port : ℕ) where
  -- the slot answered
  abbrev pub answered : ℕ → Ioreq → Server W
  answered i req = record server {
    vcpu_ioreq = set server.vcpu_ioreq i (record req { state = ioresp_ready });
  }

  shared_iopage_lem :
      (i : ℕ) (req : Ioreq) (w' : W) (req' : Ioreq)
      → server.seq ≡ seq_initialized
      → get_elem? server.vcpu_ioreq i ≡ some req
      → req.state ≡ ioreq_ready
      → get_elem? server.ioreq_local_port i ≡ some port
      → handle_ioreq server.memory w (record req { state = ioreq_inprocess }) ≡ some (w', req')
      → poll_shared_iopage server w i ≡ some (answered i req', w', notified port ∷ [])
  unfolding poll_shared_iopage
  shared_iopage_lem i req w' req' running slot ready local handled =
      rw (running, slot, ready, handled, local) refl

  -- the slots of other ports are passed over
  poll_vcpus-others :
      (server : Server W) (w : W) (left i : ℕ)
      → i + left ≤ length server.ioreq_local_port
      → ((j : ℕ) → i ≤ j → get_elem? server.ioreq_local_port j ≢ some port)
      → poll_vcpus port i left server w ≡ some (server, w, [])
  unfolding poll_vcpus
  poll_vcpus-others server w zero i fits others = refl
  poll_vcpus-others server w (suc left) i fits others =
      let (local, e) = get_elem?-lt server.ioreq_local_port i (omega arith) in
      let differs : (port == local) ≡ false =
        ne→== port local (λ same. others i (omega arith) (e ∙ ap some (sym same))) in
      let rest =
        poll_vcpus-others server w left (suc i) (omega arith) (λ j h. others j (omega arith)) in
      rw (e, differs, rest) refl

  poll_vcpus-one :
      (i : ℕ) (req : Ioreq) (w' : W) (req' : Ioreq)
      → server.seq ≡ seq_initialized
      → get_elem? server.vcpu_ioreq i ≡ some req
      → req.state ≡ ioreq_ready
      → get_elem? server.ioreq_local_port i ≡ some port
      → ((j : ℕ) → j ≢ i → get_elem? server.ioreq_local_port j ≢ some port)
      → handle_ioreq server.memory w (record req { state = ioreq_inprocess }) ≡ some (w', req')
      → (left k : ℕ) → k ≤ i
      → i < k + left
      → k + left ≤ length server.ioreq_local_port
      → poll_vcpus port k left server w
        ≡ some (answered i req', w', unmasked port ∷ notified port ∷ [])
  unfolding poll_vcpus
  poll_vcpus-one i req w' req' running slot ready local others handled zero k from to fits =
      absurd (omega arith)
  poll_vcpus-one i req w' req' running slot ready local others handled (suc left) k from to fits =
      elim (ℕ_discrete i k) [
        | yes same ↦
            let mine : get_elem? server.ioreq_local_port k ≡ some port = rw (sym same) local in
            let polled : poll_shared_iopage server w k
                ≡ some (answered i req', w', notified port ∷ []) =
              rw (sym same) (shared_iopage_lem i req w' req' running slot ready local handled) in
            let rest =
              poll_vcpus-others (answered i req') w' left (suc k) (omega arith)
                (λ j h. others j (omega arith)) in
            rw (mine, ==_self port, polled, rest) refl
        | no differs ↦
            let (mine, e) = get_elem?-lt server.ioreq_local_port k (omega arith) in
            let passed : (port == mine) ≡ false =
              ne→== port mine (λ eq. others k (λ c. differs (sym c)) (e ∙ ap some (sym eq))) in
            let rest =
              poll_vcpus-one i req w' req' running slot ready local others handled left (suc k)
                (omega arith) (omega arith) (omega arith) in
            rw (e, passed, rest) refl
      ]

  -- A server that runs, has a local port for every virtual CPU, and meets a pending port that is
  -- that of one of them only, whose request is ready, hands this request over, in the state
  -- STATE_IOREQ_INPROCESS, to demu_handle_ioreq; its slot then holds the result, in the state
  -- STATE_IORESP_READY, every other slot is as it was, and the port is unmasked and notified once.
  pub poll_iopages-answered :
      (pending : ℤ) (i : ℕ) (req : Ioreq) (w' : W) (req' : Ioreq)
      → to_u32 pending ≡ port
      → server.seq ≡ seq_initialized
      → length server.ioreq_local_port ≡ server.vcpus
      → get_elem? server.ioreq_local_port i ≡ some port
      → ((j : ℕ) → j ≢ i → get_elem? server.ioreq_local_port j ≢ some port)
      → get_elem? server.vcpu_ioreq i ≡ some req
      → req.state ≡ ioreq_ready
      → handle_ioreq server.memory w (record req { state = ioreq_inprocess }) ≡ some (w', req')
      → poll_iopages pending server w
        ≡ some (answered i req', w', unmasked port ∷ notified port ∷ [])
  unfolding poll_iopages
  poll_iopages-answered pending i req w' req' raised running ports local others slot ready handled =
      let bound = get_elem?-some server.ioreq_local_port i port local in
      let polled =
        poll_vcpus-one i req w' req' running slot ready local others handled server.vcpus 0
          (omega arith) (omega arith) (omega arith) in
      rw (raised, polled, running, le→ltb port 0 (omega arith)) refl

  -- A port that is none of the server's is passed over: so is the error of xenevtchn_pending, as
  -- long as no local port has that number.
  pub poll_iopages-others :
      (pending : ℤ)
      → to_u32 pending ≡ port
      → length server.ioreq_local_port ≡ server.vcpus
      → ((j : ℕ) → get_elem? server.ioreq_local_port j ≢ some port)
      → poll_iopages pending server w ≡ some (server, w, [])
  unfolding poll_iopages
  poll_iopages-others pending raised ports others =
      let polled = poll_vcpus-others server w server.vcpus 0 (omega arith) (λ j h. others j) in
      rw (raised, polled, le→ltb port 0 (omega arith)) (ground arith)
