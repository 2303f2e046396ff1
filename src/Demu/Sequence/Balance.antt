-- ===== src/Demu/Sequence/Balance.antt =====
-- What is held after a start, and after a teardown.
use virtio_disk.Prelude.{
  ℕ, zero, suc, ◌+◌, ◌≤◌, ◌<◌, ◌≡◌, refl, sym, ap, ◌∙◌, ◌⊎◌, inl, inr, Bool, true, false, not, ◌&&◌,
  Option, none, some, List, [], ◌∷◌, ◌++◌, length, length-append, take-all, replicate, set, take,
  get_elem?, ◌==◌, if◌then◌else◌, ◌>>=◌, arith, Bool-cases,
}
use virtio_disk.Prelude.Int.{ℤ, pos, is_neg, minus_one, to_u32}
use virtio_disk.Demu.Sequence.{
  seq_initialized, Res, attached, evtchn, foreignmemory, devicemodel, gnttab, server, resource,
  enabled, port_array, device, Act, acquired, released, bound, unbound, State, Calls, no_port,
  logged, seq_next, acquire, bind_ports,
}

-- What is held: the resources, the last one first, and the ports that are bound.
pub record Held : Type 0 where
  pub resources : List Res
  pub ports : List ℕ

abbrev pub nothing : Held
nothing = record { resources = []; ports = [] }

abbrev pub code : Res → ℕ
code attached = 0
code evtchn = 1
code foreignmemory = 2
code devicemodel = 3
code gnttab = 4
code server = 5
code resource = 6
code enabled = 7
code port_array = 8
code device = 9

abbrev pub remove : ℕ → List ℕ → List ℕ
remove p [] = []
remove p (q ∷ ports) = if p == q then ports else q ∷ remove p ports

-- a resource may be released if it is the last one, and the array of ports only when none is bound
abbrev pub release : Res → List Res → List ℕ → Option Held
release r [] ports = none
release r (last ∷ held) [] =
    if code r == code last then some (record { resources = held; ports = [] }) else none
release r (last ∷ held) (p ∷ ports) =
    if (code r == code last) && not (code r == code port_array)
    then some (record { resources = held; ports = p ∷ ports })
    else none

abbrev pub replay_act : Held → Act → Option Held
replay_act held (acquired r) = some (record held { resources = r ∷ held.resources })
replay_act held (released r) = release r held.resources held.ports
replay_act held (bound p) = some (record held { ports = held.ports ++ (p ∷ []) })
replay_act held (unbound p) = some (record held { ports = remove p held.ports })

-- What is held after a log; `none` if something was released that was not held, or out of order.
unfoldable pub replay : Held → List Act → Option Held
replay held [] = some held
replay held (act ∷ acts) = do held' ← replay_act held act; replay held' acts

-- what each number of the sequence adds
abbrev pub steps : List (List Res)
steps =
    (attached ∷ [])
    ∷ (evtchn ∷ [])
    ∷ (foreignmemory ∷ [])
    ∷ (devicemodel ∷ [])
    ∷ (gnttab ∷ [])
    ∷ (server ∷ [])
    ∷ (resource ∷ [])
    ∷ (enabled ∷ [])
    ∷ (port_array ∷ [])
    ∷ []
    ∷ (device ∷ [])
    ∷ []
    ∷ []

abbrev pub gain : ℕ → List Res
gain k = elim (get_elem? steps k) [ none ↦ [] | some held ↦ held ]

-- the resources held at each number
abbrev pub owned : ℕ → List Res
owned zero = []
owned (suc k) = gain k ++ owned k

replay-bind :
    (o : Option Held) (held' : Held) (xs ys : List Act)
    → ((h : Held) → replay h xs ≡ some held' → replay h (xs ++ ys) ≡ replay held' ys)
    → (o >>= (λ h. replay h xs)) ≡ some held'
    → (o >>= (λ h. replay h (xs ++ ys))) ≡ replay held' ys
replay-bind none held' xs ys later h = ground arith
replay-bind (some a) held' xs ys later h = later a h

pub replay-append :
    (held held' : Held) (xs ys : List Act)
    → replay held xs ≡ some held'
    → replay held (xs ++ ys) ≡ replay held' ys
unfolding replay
replay-append held held' [] ys h = ground arith
replay-append held held' (act ∷ xs) ys h =
    replay-bind (replay_act held act) held' xs ys (λ h. replay-append h held' xs ys) h

-- What is known at number `k`: what is held, and which ports are bound.
abbrev pub Ports : ℕ → List ℕ → State → Type 0
Ports k ports s =
    (k < 9 → ports ≡ [])
    × (9 ≤ k → (n : ℕ) × (take s.vcpus s.local_port ≡ ports ++ replicate n no_port))

abbrev pub At : ℕ → State → Type 0
At k s =
    (s.seq ≡ k)
    × (ports : List ℕ) × (replay nothing s.log
        ≡ some (record { resources = owned k; ports = ports }))
    × Ports k ports s

-- one resource more
pub At-acquired :
    (k : ℕ) (r : Res) (s : State)
    → At k s
    → k < 8
    → gain k ≡ r ∷ []
    → At (suc k) (record (logged s (acquired r ∷ [])) { seq = suc s.seq })
unfolding replay
At-acquired k r s (e, ports, held, (none_yet, later)) few gained = (
  ap suc e,
  ports,
  replay-append nothing (record { resources = owned k; ports = ports }) s.log (acquired r ∷ []) held
      ∙ rw gained refl,
  (λ h. none_yet (omega arith), λ h. absurd (omega arith)),
)

-- a start ends at some number: at the last one if it returns 0, and before the device if it fails
abbrev pub Started : Option (ℤ × State) → Type 0
Started o =
    (rc : ℤ) × (s : State) × (k : ℕ) × (o ≡ some (rc, s))
    × At k s
    × (((rc ≡ pos 0) × (k ≡ seq_initialized)) ⊎ ((rc ≡ minus_one) × (k ≤ 10)))

pub seq_next_lem :
    (s : State) → s.seq < seq_initialized → seq_next s ≡ some (record s { seq = suc s.seq })
unfolding seq_next
seq_next_lem s h = ground arith

pub acquire-Started :
    (k : ℕ) (ok : Bool) (acts : List Act) (next : State → Option (ℤ × State)) (s : State)
    → At k s
    → k ≤ 10
    → (ok ≡ true → At (suc k) (record (logged s acts) { seq = suc s.seq }))
    → ((s' : State) → At (suc k) s' → s'.vcpus ≡ s.vcpus → Started (next s'))
    → Started (acquire ok acts next s)
acquire-Started k false acts next s here few there later =
    (minus_one, s, k, refl, here, inr (refl, few))
acquire-Started k true acts next s here few there later =
    let moved = seq_next_lem (logged s acts) (omega (arith, here.0)) in
    rw moved (later (record (logged s acts) { seq = suc s.seq }) (there refl) refl)

pub acquire_resource-Started :
    (k : ℕ) (r : Res) (ok : Bool) (next : State → Option (ℤ × State)) (s : State)
    → At k s
    → k < 8
    → gain k ≡ r ∷ []
    → ((s' : State) → At (suc k) s' → Started (next s'))
    → Started (acquire ok (acquired r ∷ []) next s)
acquire_resource-Started k r ok next s here few gained later =
    acquire-Started k ok (acquired r ∷ []) next s here (omega arith)
      (λ e. At-acquired k r s here few gained) (λ s' there e. later s' there)

pub length-replicate : (n : ℕ) → length (replicate n no_port) ≡ n
length-replicate zero = refl
length-replicate (suc n) = ap suc (length-replicate n)

-- while the ports are bound: `left` of the array are not
abbrev pub Binding : ℕ → ℕ → State → Type 0
Binding i left s =
    (s.seq ≡ 9)
    × (ports : List ℕ) × (replay nothing s.log
        ≡ some (record { resources = owned 9; ports = ports }))
    × (length ports ≡ i)
    × (s.local_port ≡ ports ++ replicate left no_port)
    × (s.vcpus ≡ i + left)

set-append :
    (xs : List ℕ) (left v : ℕ)
    → set (xs ++ replicate (suc left) no_port) (length xs) v
      ≡ (xs ++ (v ∷ [])) ++ replicate left no_port
set-append [] left v = refl
set-append (x ∷ xs) left v = ap (λ ys. x ∷ ys) (set-append xs left v)

module _ (calls : Calls) where
  pub bind_ports-Binding :
      (left i : ℕ) (s : State)
      → Binding i left s
      → (j : ℕ) × (rest : ℕ) × Binding j rest (bind_ports calls i left s).1
  unfolding bind_ports replay
  bind_ports-Binding zero i s here = (i, 0, here)
  bind_ports-Binding (suc left) i s (e, ports, held, len, array, all) =
      let port : ℕ = to_u32 (calls.bind_interdomain (calls.vp_eport i)) in
      let s' : State = record (logged s (bound port ∷ [])) {
        local_port = set s.local_port i port;
      } in
      let here : Binding (suc i) left s' = (
        e,
        ports ++ (port ∷ []),
        replay-append nothing _ s.log (bound port ∷ []) held,
        length-append ports (port ∷ []) ∙ omega (arith, len),
        ap (λ xs. set xs i port) array
            ∙ ap (λ n. set (ports ++ replicate (suc left) no_port) n port) (sym len)
            ∙ set-append ports left port,
        omega arith,
      ) in
      elim (Bool-cases (is_neg (calls.bind_interdomain (calls.vp_eport i)))) [
        | inl failed ↦ rw failed (i, suc left, (e, ports, held, len, array, all))
        | inr ok ↦ rw ok (bind_ports-Binding left (suc i) s' here)
      ]

pub Binding-At : (i left : ℕ) (s : State) → Binding i left s → At 9 s
Binding-At i left s (e, ports, held, len, array, all) = (
  e,
  ports,
  held,
  (
    λ h. absurd (omega arith),
    λ h. (
      left,
      ap (take s.vcpus) array
          ∙ take-all s.vcpus (ports ++ replicate left no_port)
              (omega (arith, length-append ports (replicate left no_port), length-replicate left)),
    ),
  ),
)
