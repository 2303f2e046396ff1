-- ===== src/Demu/Sequence/Stop.antt =====
-- demu_teardown, after a start that ended anywhere.
use mathlib.Core.Path.{subst}
use virtio_disk.Prelude.{
  ℕ, zero, suc, ◌≤◌, ◌<◌, ◌≡◌, refl, ap, ◌∙◌, inl, inr, Bool, true, false, some, List, [], ◌∷◌,
  ◌++◌, replicate, take, ◌==◌, leb, append-nil, arith, ℕ_discrete, le→leb, Bool-cases,
}
use virtio_disk.Prelude.Int.{ℤ}
use virtio_disk.Demu.Sequence.{
  Res, device, port_array, Act, released, State, Calls, no_port, logged, initialize, unbinds, leave,
  leave_ports, forget_names, teardown_device, teardown_server, teardown_handles, teardown,
}
use virtio_disk.Demu.Sequence.Balance.{nothing, replay, gain, owned, code, At, replay-append}
use virtio_disk.Demu.Sequence.Start.{initialize-Started}

-- the number is at most `k`
data Below (k : ℕ) (s : State) : Type 0 where
  at_most : (j : ℕ) → j ≤ k → At j s → Below k s

-- one `if` of the teardown
leave-Below :
    (k : ℕ) (test : ℕ → Bool) (acts : List Act) (s : State)
    → test (suc k) ≡ true
    → ((j : ℕ) → j ≤ k → test j ≡ false)
    → ((s : State) → At (suc k) s → At k (record (logged s acts) { seq = k }))
    → Below (suc k) s
    → Below k (leave test acts k s)
leave-Below k test acts s at_next below step (at_most j le here) = elim (ℕ_discrete j (suc k)) [
  | yes same ↦
      let taken : test s.seq ≡ true = ap test (here.0 ∙ same) ∙ at_next in
      rw taken (at_most k (omega arith) (step s (subst (λ n. At n s) same here)))
  | no differs ↦
      let passed : test s.seq ≡ false = ap test here.0 ∙ below j (omega arith) in
      rw passed (at_most j (omega arith) here)
]

==_self : (a : ℕ) → (a == a) ≡ true
==_self a = ground arith

At-released :
    (k : ℕ) (r : Res) (s : State)
    → gain k ≡ r ∷ []
    → k < 8
    → At (suc k) s
    → At k (record (logged s (released r ∷ [])) { seq = k })
unfolding replay
At-released k r s gained few (e, ports, held, (none_yet, later)) =
    let held' : replay nothing s.log ≡ some (record { resources = r ∷ owned k; ports = [] }) =
      held ∙ rw (gained, none_yet (omega arith)) refl in
    (
      refl,
      [],
      replay-append nothing _ s.log (released r ∷ []) held' ∙ rw (==_self (code r)) refl,
      ((λ h. refl), λ h. absurd (omega arith)),
    )

replay-device :
    (ports : List ℕ)
    → replay (record { resources = owned 11; ports = ports }) (released device ∷ [])
      ≡ some (record { resources = owned 10; ports = ports })
unfolding replay
replay-device [] = refl
replay-device (p ∷ ports) = refl

At-device : (s : State) → At 11 s → At 10 (record (logged s (released device ∷ [])) { seq = 10 })
unfolding replay
At-device s (e, ports, held, (none_yet, later)) = (
  refl,
  ports,
  replay-append nothing _ s.log (released device ∷ []) held ∙ replay-device ports,
  ((λ h. absurd (omega arith)), λ h. later (omega arith)),
)

-- the two that release nothing
At-quiet :
    (k : ℕ) (s : State)
    → gain k ≡ []
    → 9 ≤ k
    → At (suc k) s
    → At k (record (logged s []) { seq = k })
At-quiet k s gained many (e, ports, held, (none_yet, later)) = (
  refl,
  ports,
  ap (replay nothing) (append-nil s.log) ∙ held ∙ rw gained refl,
  ((λ h. absurd (omega arith)), λ h. later (omega arith)),
)

replay-unbinds :
    (ports : List ℕ) (n : ℕ) (held : List Res) (acts : List Act)
    → replay
        (record { resources = held; ports = ports })
        (unbinds (ports ++ replicate n no_port) ++ acts)
      ≡ replay (record { resources = held; ports = [] }) acts
unfolding replay
replay-unbinds [] zero held acts = refl
replay-unbinds [] (suc n) held acts = replay-unbinds [] n held acts
replay-unbinds (p ∷ ports) n held acts =
    rw (le→leb 0 p (omega arith), ==_self p) (replay-unbinds ports n held acts)

At-ports :
    (s : State)
    → At 9 s
    → At 8 (record (logged s (unbinds (take s.vcpus s.local_port) ++ (released port_array ∷ []))) {
      seq = 8;
    })
unfolding replay
At-ports s (e, ports, held, (none_yet, later)) =
    let (n, array) = later (omega arith) in
    (
      refl,
      [],
      replay-append nothing _ s.log _ held
          ∙ ap
              (λ xs.
                replay (record { resources = owned 9; ports = ports })
                  (unbinds xs ++ (released port_array ∷ [])))
              array
          ∙ replay-unbinds ports n (owned 9) (released port_array ∷ []),
      ((λ h. refl), λ h. absurd (omega arith)),
    )

eq_at : (k : ℕ) (j : ℕ) → j < k → (j == k) ≡ false
eq_at k j h = ground arith

at_least : (k : ℕ) (j : ℕ) → j < k → leb k j ≡ false
at_least k j h = ground arith

device-Below : (s : State) → Below 12 s → Below 9 (teardown_device s)
unfolding teardown_device
device-Below s here =
    leave-Below 9 _ _ _ refl (λ j h. at_least 10 j (omega arith))
      (λ s. At-quiet 9 s refl (omega arith))
      (leave-Below 10 _ _ _ refl (λ j h. eq_at 11 j (omega arith)) At-device
        (leave-Below 11 _ _ _ refl (λ j h. eq_at 12 j (omega arith))
          (λ s. At-quiet 11 s refl (omega arith)) here))

server-Below : (s : State) → Below 8 s → Below 5 (teardown_server s)
unfolding teardown_server
server-Below s here =
    leave-Below 5 _ _ _ refl (λ j h. at_least 6 j (omega arith))
      (λ s. At-released 5 _ s refl (omega arith))
      (leave-Below 6 _ _ _ refl (λ j h. at_least 7 j (omega arith))
        (λ s. At-released 6 _ s refl (omega arith))
        (leave-Below 7 _ _ _ refl (λ j h. eq_at 8 j (omega arith))
          (λ s. At-released 7 _ s refl (omega arith)) here))

handles-Below : (s : State) → Below 5 s → Below 1 (teardown_handles s)
unfolding teardown_handles
handles-Below s here =
    leave-Below 1 _ _ _ refl (λ j h. at_least 2 j (omega arith))
      (λ s. At-released 1 _ s refl (omega arith))
      (leave-Below 2 _ _ _ refl (λ j h. at_least 3 j (omega arith))
        (λ s. At-released 2 _ s refl (omega arith))
        (leave-Below 3 _ _ _ refl (λ j h. at_least 4 j (omega arith))
          (λ s. At-released 3 _ s refl (omega arith))
          (leave-Below 4 _ _ _ refl (λ j h. at_least 5 j (omega arith))
            (λ s. At-released 4 _ s refl (omega arith)) here)))

forget-Below : (s : State) → Below 1 s → Below 1 (forget_names s)
forget-Below s (at_most j le here) = elim (Bool-cases (leb 1 s.seq)) [
  | inl e ↦ rw e (at_most j le here)
  | inr e ↦ rw e (at_most j le here)
]

ports-Below : (s : State) → Below 9 s → Below 8 (leave_ports s)
ports-Below s (at_most j le here) = elim (ℕ_discrete j 9) [
  | yes same ↦
      let taken : leb 9 s.seq ≡ true = ap (leb 9) (here.0 ∙ same) in
      rw taken (at_most 8 (omega arith) (At-ports s (subst (λ n. At n s) same here)))
  | no differs ↦
      let passed : leb 9 s.seq ≡ false = ap (leb 9) here.0 ∙ at_least 9 j (omega arith) in
      rw passed (at_most j (omega arith) here)
]

teardown-Below : (s : State) → Below 12 s → Below 0 (teardown s)
unfolding teardown
teardown-Below s here =
    let ports = ports-Below (teardown_device s) (device-Below s here) in
    let handles = handles-Below _ (server-Below _ ports) in
    leave-Below 0 _ _ _ refl (λ j h. at_least 1 j (omega arith))
      (λ s. At-released 0 _ s refl (omega arith)) (forget-Below _ handles)

Below-nothing : (s : State) → Below 0 s → (s.seq ≡ 0) × (replay nothing s.log ≡ some nothing)
Below-nothing s (at_most zero le (e, ports, held, (none_yet, later))) =
    (e, held ∙ ap (λ ps. some (record { resources = []; ports = ps })) (none_yet (omega arith)))
Below-nothing s (at_most (suc j) le here) = absurd (omega arith)

-- After a start from the first number, with nothing held, that ended anywhere, for whatever its calls
-- returned, a teardown is at the first number again, and nothing is held: every resource that was
-- acquired has been released, once, the last one first, and the array of the ports only when each
-- port that had been bound was unbound.
pub teardown-initialize :
    (calls : Calls) (s : State)
    → s.seq ≡ 0
    → replay nothing s.log ≡ some nothing
    → (rc : ℤ) × (s' : State) × (initialize calls s ≡ some (rc, s'))
      × ((teardown s').seq ≡ 0)
      × (replay nothing (teardown s').log ≡ some nothing)
teardown-initialize calls s fresh empty =
    let (rc, s', k, ran, here, ended) = initialize-Started calls s fresh empty in
    let few : k ≤ 12 = elim ended [ inl (r, e) ↦ omega arith | inr (r, le) ↦ omega arith ] in
    let (first, empty') = Below-nothing (teardown s') (teardown-Below s' (at_most k few here)) in
    (rc, s', ran, first, empty')
