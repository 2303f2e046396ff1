-- ===== src/Demu/Sequence/Start.antt =====
-- demu_initialize: where a start can end.
use virtio_disk.Prelude.{
  append-nil, ℕ, suc, ◌<◌, ◌≡◌, refl, ap, ◌∙◌, inl, inr, none, some, List, [], ◌∷◌, ◌++◌, replicate,
  if◌then◌else◌, ◌>>=◌, ◌==◌, arith, Bool-cases,
}
use virtio_disk.Prelude.Int.{pos, is_neg, minus_one}
use virtio_disk.Demu.Sequence.{
  seq_initialized, attached, evtchn, foreignmemory, devicemodel, gnttab, server, resource, enabled,
  port_array, device, acquired, State, Calls, no_port, logged, seq_next, bind_ports, start_device,
  start_ports, start_array, start_server, start_vcpus, start_gnttab, initialize,
}
use virtio_disk.Demu.Sequence.Balance.{
  nothing, replay, owned, At, Started, Binding, replay-append, seq_next_lem, acquire-Started,
  acquire_resource-Started, Binding-At, bind_ports-Binding,
}

module _ (calls : Calls) where
  -- the last two numbers
  At-device :
      (s : State) → At 10 s → At 11 (record (logged s (acquired device ∷ [])) { seq = suc s.seq })
  unfolding replay
  At-device s (e, ports, held, (none_yet, later)) = (
    ap suc e,
    ports,
    replay-append nothing _ s.log (acquired device ∷ []) held,
    (λ h. absurd (omega arith), λ h. later (omega arith)),
  )

  seq_next-Started :
      (s : State)
      → At 11 s
      → Started ((do s' ← seq_next s; if s'.seq == seq_initialized then some (pos 0, s') else none))
  seq_next-Started s (e, ports, held, (none_yet, later)) = (
    pos 0,
    record s { seq = suc s.seq },
    12,
    rw (seq_next_lem s (omega (arith, e)), e) refl,
    (ap suc e, ports, held, (λ h. absurd (omega arith), λ h. later (omega arith))),
    inl (refl, refl),
  )

  device-Started : (s : State) → At 10 s → Started (start_device calls s)
  unfolding start_device
  device-Started s here =
      acquire-Started 10 _ _ _ s here (omega arith) (λ ok. At-device s here)
        (λ s' there e. seq_next-Started s' there)

  At-ports : (s : State) → At 9 s → At 10 (record (logged s []) { seq = suc s.seq })
  At-ports s (e, ports, held, (none_yet, later)) = (
    ap suc e,
    ports,
    rw (append-nil s.log) held,
    (λ h. absurd (omega arith), λ h. later (omega arith)),
  )

  ports-Started : (s : State) → Binding 0 s.vcpus s → Started (start_ports calls s)
  unfolding start_ports
  ports-Started s binding =
      let (j, rest, there) = bind_ports-Binding calls s.vcpus 0 s binding in
      let s' : State = (bind_ports calls 0 s.vcpus s).1 in
      acquire-Started 9 _ _ _ s' (Binding-At j rest s' there) (omega arith)
        (λ ok. At-ports s' (Binding-At j rest s' there)) (λ s'' later e. device-Started s'' later)

  array-Binding :
      (s : State) (array : List ℕ)
      → At 8 s
      → array ≡ replicate s.vcpus no_port
      → Binding 0 s.vcpus (record s {
        seq = suc s.seq;
        local_port = array;
        log = s.log ++ (acquired port_array ∷ []);
      })
  unfolding replay
  array-Binding s array (e, ports, held, (none_yet, later)) filled = (
    ap suc e,
    [],
    replay-append nothing _ s.log (acquired port_array ∷ []) held
        ∙ ap (λ ps. some (record { resources = owned 9; ports = ps })) (none_yet (omega arith)),
    refl,
    filled,
    omega arith,
  )

  array-Started : (s : State) → At 8 s → Started (start_array calls s)
  unfolding start_array
  array-Started s here = elim (Bool-cases (calls.malloc_ports s.vcpus == 0)) [
    | inl e ↦ rw e (minus_one, s, 8, refl, here, inr (refl, omega arith))
    | inr e ↦
        let s1 : State = record (logged s (acquired port_array ∷ [])) {
          local_port = replicate s.vcpus no_port;
        } in
        rw (e, seq_next_lem s1 (omega (arith, here.0)))
          (ports-Started (record s1 { seq = suc s1.seq })
            (array-Binding s (replicate s.vcpus no_port) here refl))
  ]

  server-Started : (s : State) → At 5 s → Started (start_server calls s)
  unfolding start_server
  server-Started s here = acquire_resource-Started 5 server _ _ s here (omega arith) refl (λ s h.
      acquire_resource-Started 6 resource _ _ s h (omega arith) refl
        (λ s h. acquire_resource-Started 7 enabled _ _ s h (omega arith) refl array-Started))

  vcpus-At : (k n : ℕ) (s : State) → k < 9 → At k s → At k (record s { vcpus = n })
  vcpus-At k n s few (e, ports, held, (none_yet, later)) =
      (e, ports, held, (none_yet, λ h. absurd (omega arith)))

  vcpus-Started : (s : State) → At 5 s → Started (start_vcpus calls s)
  unfolding start_vcpus
  vcpus-Started s here =
      let there = vcpus-At 5 calls.nr_vcpus.1 s (omega arith) here in
      elim (Bool-cases (is_neg calls.nr_vcpus.0)) [
        | inl e ↦ rw e (
          minus_one,
          record s { vcpus = calls.nr_vcpus.1 },
          5,
          refl,
          there,
          inr (refl, omega arith),
        )
        | inr e ↦ rw e (server-Started (record s { vcpus = calls.nr_vcpus.1 }) there)
      ]

  gnttab-Started : (s : State) → At 4 s → Started (start_gnttab calls s)
  unfolding start_gnttab
  gnttab-Started s here =
      acquire_resource-Started 4 gnttab _ _ (record s { use_gnttab = minus_one }) here (omega arith)
        refl vcpus-Started

  -- A start from the first number, with nothing held, never meets a failed assertion, whatever the
  -- calls return: it returns 0 at the last number, or -1 at a number before the device's. It then
  -- holds what belongs to the number at which it is, and the ports of the channels that were bound,
  -- which stand first in the array, the rest of it being -1.
  pub initialize-Started :
      (s : State) → s.seq ≡ 0 → replay nothing s.log ≡ some nothing → Started (initialize calls s)
  unfolding initialize
  initialize-Started s fresh empty =
      let here : At 0 (record s { filenames = calls.connect_dom.1 }) =
        (fresh, [], empty, ((λ h. refl), λ h. absurd (omega arith))) in
      acquire_resource-Started 0 attached _ _ _ here (omega arith) refl (λ s h.
        acquire_resource-Started 1 evtchn _ _ s h (omega arith) refl (λ s h.
          acquire_resource-Started 2 foreignmemory _ _ s h (omega arith) refl (λ s h.
            acquire_resource-Started 3 devicemodel _ _ s h (omega arith) refl gnttab-Started)))
