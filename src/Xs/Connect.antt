-- ===== src/Xs/Connect.antt =====
-- xenstore_connect_dom: what is held when it succeeds, and when it fails.
use Prim.Native.String.{String}
use text.Mathlib.Text.{◌==◌ as str_eq}
use text.Mathlib.TextEquality.{eq_iff}
use virtio_disk.Prelude.{
  ℕ, zero, suc, ◌+◌, ◌/◌, ◌%◌, ◌^◌, ◌≤◌, ◌<◌, ◌≡◌, refl, sym, ap, ◌∙◌, ◌⊎◌, inl, inr, Bool, true,
  false, Option, none, some, List, [], ◌∷◌, ltb, lt→ltb, ◌==◌, ◌>>=◌, arith, Bool-cases,
  Option-cases,
}
use virtio_disk.Prelude.Int.{ℤ, pos, is_neg, minus_one}
use virtio_disk.Xs.{
  Store, Libc, XsDev, Xs, state_unknown, state_init_wait, state_closed, node_path, be_path,
  is_state, drop_text, read_str, read_int, write_str, write_int, set_be_state, wait_be_state, watch,
  unwatch, drop_fe, disconnect_dom, then_ok, be_read, connect_be, fe_read, connect_fe, watch_fe,
  connect_watch, call_back, connect_wait, ended, waited, connect_dom,
}

str_eq_self : (s : String) → str_eq s s ≡ true
str_eq_self s = (eq_iff s s).1 refl

drop_text_self : (s : String) (texts : List String) → drop_text s (s ∷ texts) ≡ texts
unfolding drop_text
drop_text_self s texts = rw (str_eq_self s) refl

drop_text-nil : (s : String) → drop_text s [] ≡ []
unfolding drop_text
drop_text-nil s = refl

module _ {X : Type 0} (lib : Store X) (libc : Libc) where
  -- What no step of a connection changes. Its frontend is another matter.
  abbrev Same : Xs X → Xs X → Type 0
  Same xs xs' =
      (xs'.watched ≡ xs.watched)
      × (xs'.dev.be ≡ xs.dev.be)
      × (xs'.dev.be_domid ≡ xs.dev.be_domid)
      × (xs'.dev.fe_domid ≡ xs.dev.fe_domid)

  -- What is held while connecting: nothing, the watch of the backend, or both watches.
  data Held (xs : Xs X) : Type 0 where
    no_watch : xs.watched ≡ [] → Held xs
    be_watch : xs.watched ≡ xs.dev.be ∷ [] → Held xs
    both : (fe : String) → xs.dev.fe ≡ some fe → xs.watched ≡ fe ∷ xs.dev.be ∷ [] → Held xs

  -- after xenstore_disconnect_dom
  abbrev pub Disconnected : Xs X → Type 0
  Disconnected xs = (xs.watched ≡ []) × (xs.dev.fe ≡ none) × (xs.dev.fe_domid ≡ 0)

  set_be_state-watched :
      (xs : Xs X) (state : ℕ)
      → ((set_be_state lib libc xs state).0.watched ≡ xs.watched)
        × ((set_be_state lib libc xs state).0.dev.be ≡ xs.dev.be)
        × ((set_be_state lib libc xs state).0.dev.fe ≡ xs.dev.fe)
        × ((set_be_state lib libc xs state).0.dev.be_domid ≡ xs.dev.be_domid)
        × ((set_be_state lib libc xs state).0.dev.fe_domid ≡ xs.dev.fe_domid)
  unfolding set_be_state write_int write_str
  set_be_state-watched xs state =
      elim (Bool-cases (is_neg (write_int lib libc xs xs.dev.be "state" (pos state)).1)) [
        | inl e ↦ rw e (refl, refl, refl, refl, refl)
        | inr e ↦ rw e (refl, refl, refl, refl, refl)
      ]

  -- the watches that a disconnection drops
  abbrev left_watches : Option String → String → List String → List String
  left_watches none be watched = drop_text be watched
  left_watches (some fe) be watched = drop_text be (drop_text fe watched)

  left_watches-nil : (fe : Option String) (be : String) → left_watches fe be [] ≡ []
  unfolding drop_text
  left_watches-nil none be = refl
  left_watches-nil (some fe) be = refl

  left_watches_be : (fe : Option String) (be : String) → left_watches fe be (be ∷ []) ≡ []
  unfolding drop_text
  left_watches_be none be = drop_text_self be []
  left_watches_be (some fe) be = elim (Bool-cases (str_eq fe be)) [
    | inl e ↦ rw (drop_text, e) refl
    | inr e ↦ rw (drop_text, e, str_eq_self be) refl
  ]

  left_watches-Held : (xs : Xs X) → Held xs → left_watches xs.dev.fe xs.dev.be xs.watched ≡ []
  left_watches-Held xs (no_watch e) =
      ap (left_watches xs.dev.fe xs.dev.be) e ∙ left_watches-nil xs.dev.fe xs.dev.be
  left_watches-Held xs (be_watch e) =
      ap (left_watches xs.dev.fe xs.dev.be) e ∙ left_watches_be xs.dev.fe xs.dev.be
  left_watches-Held xs (both fe f e) =
      ap (λ fe. left_watches fe xs.dev.be xs.watched) f
      ∙ ap (λ w. drop_text xs.dev.be (drop_text fe w)) e
      ∙ ap (drop_text xs.dev.be) (drop_text_self fe (xs.dev.be ∷ []))
      ∙ drop_text_self xs.dev.be []

  drop_fe-watched :
      (xs : Xs X) (fe : Option String)
      → xs.dev.fe ≡ fe
      → ((drop_fe lib libc xs fe).dev.fe ≡ none)
        × ((drop_fe lib libc xs fe).dev.be ≡ xs.dev.be)
        × (drop_text xs.dev.be (drop_fe lib libc xs fe).watched
            ≡ left_watches fe xs.dev.be xs.watched)
  unfolding drop_fe unwatch
  drop_fe-watched xs none e = (e, refl, refl)
  drop_fe-watched xs (some fe) e = (refl, refl, refl)

  disconnect_dom-Disconnected : (xs : Xs X) → Held xs → Disconnected (disconnect_dom lib libc xs)
  unfolding disconnect_dom unwatch
  disconnect_dom-Disconnected xs held =
      let (watched, be, fe, b, f) = set_be_state-watched xs state_closed in
      let xs1 : Xs X = (set_be_state lib libc xs state_closed).0 in
      let (gone, kept, left) = drop_fe-watched xs1 xs1.dev.fe refl in
      (
        ap (λ be. drop_text be (drop_fe lib libc xs1 xs1.dev.fe).watched) kept
            ∙ left
            ∙ rw (watched, be, fe) (left_watches-Held xs held),
        gone,
        refl,
      )

  -- A step fails, or succeeds; what is true then.
  abbrev Step : (Xs X → Type 0) → (Xs X → Type 0) → Xs X × Bool → Type 0
  Step bad good r = ((r.1 ≡ false) × bad r.0) ⊎ ((r.1 ≡ true) × good r.0)

  then_ok-Step :
      (bad mid good : Xs X → Type 0) (r : Xs X × Bool) (next : Xs X → Xs X × Bool)
      → Step bad mid r
      → ((xs : Xs X) → mid xs → Step bad good (next xs))
      → Step bad good (then_ok lib libc r next)
  unfolding then_ok
  then_ok-Step bad mid good (xs, ok) next (inl (e, h)) later = rw e (inl (refl, h))
  then_ok-Step bad mid good (xs, ok) next (inr (e, h)) later = rw e (later xs h)

  -- the callback did not fail
  abbrev pub Called : Option (Xs X → X × ℤ) → Xs X → Type 0
  Called cb xs =
      (cb ≡ none)
      ⊎ ((fn : Xs X → X × ℤ) × (y : Xs X) × (cb ≡ some fn)
          × (is_neg (fn y).1 ≡ false)
          × (xs.store ≡ (fn y).0))

  -- both watches are held, and the domains are set
  abbrev pub Connected : ℕ → ℕ → Option (Xs X → X × ℤ) → Xs X → Type 0
  Connected b f cb xs =
      (fe : String) × (xs.dev.fe ≡ some fe)
      × (xs.watched ≡ fe ∷ xs.dev.be ∷ [])
      × (xs.dev.be_domid ≡ b)
      × (xs.dev.fe_domid ≡ f)
      × Called cb xs

  module _ (events : X → ℕ) (b f : ℕ) (path : String) where
    -- the domains and the backend's path, and how many events there can be
    abbrev Known : ℕ → Xs X → Type 0
    Known n xs =
        ((xs.dev.be_domid ≡ b) × (xs.dev.be ≡ path)) × (xs.dev.fe_domid ≡ f) × (events xs.store ≤ n)

    abbrev Idle : ℕ → Xs X → Type 0
    Idle n xs = (xs.watched ≡ []) × Known n xs

    abbrev Found : ℕ → Xs X → Type 0
    Found n xs = (fe : String) × (xs.dev.fe ≡ some fe) × Idle n xs

    abbrev Watching : ℕ → Xs X → Type 0
    Watching n xs =
        (fe : String) × (xs.dev.fe ≡ some fe) × (xs.watched ≡ fe ∷ xs.dev.be ∷ []) × Known n xs

    module _ (read_le : (x : X) (p : String) → events (lib.read x p).0 ≤ events x)
        (write_le : (x : X) (p v : String) → events (lib.write x p v).0 ≤ events x + 1)
        (watch_le : (x : X) (p : String) → events (lib.watch x p p).0 ≤ events x + 1) where
      set_be_state-events :
          (xs : Xs X) (state : ℕ)
          → events (set_be_state lib libc xs state).0.store ≤ events xs.store + 1
      unfolding set_be_state write_int write_str
      set_be_state-events xs state =
          let node : String = node_path xs.dev.be "state" in
          let le = write_le xs.store node (libc.print_int (pos state)) in
          elim (Bool-cases (is_neg (write_int lib libc xs xs.dev.be "state" (pos state)).1)) [
            | inl e ↦ rw e le
            | inr e ↦ rw e le
          ]

      set_be_state-Idle :
          (n state : ℕ) (xs : Xs X) → Idle n xs → Idle (n + 1) (set_be_state lib libc xs state).0
      set_be_state-Idle n state xs (idle, (domid, domid', few)) =
          let (watched, be, fe, bd, fd) = set_be_state-watched xs state in
          let le = set_be_state-events xs state in
          (watched ∙ idle, ((bd ∙ domid.0, be ∙ domid.1), fd ∙ domid', omega arith))

      be_read-Step :
          (n : ℕ) (xs : Xs X) (r : Option ℤ)
          → Idle n xs
          → Step Held (Idle (n + 1)) (be_read lib libc xs r)
      unfolding be_read
      be_read-Step n xs none (idle, known) = inl (refl, no_watch idle)
      be_read-Step n xs (some state) (idle, known) =
          let xs' : Xs X = record xs { dev = record xs.dev { be_state = state } } in
          elim (Bool-cases (is_state state 1)) [
            | inl h ↦ rw h (inr (refl, set_be_state-Idle n state_init_wait xs' (idle, known)))
            | inr h ↦ rw h (inl (refl, no_watch idle))
          ]

      connect_be-Step :
          (n : ℕ) (xs : Xs X) → Idle n xs → Step Held (Idle (n + 1)) (connect_be lib libc xs)
      unfolding connect_be read_int read_str
      connect_be-Step n xs (idle, (domid, domid', few)) =
          let node : String = node_path xs.dev.be "state" in
          let le = read_le xs.store node in
          be_read-Step n (read_int lib libc xs xs.dev.be "state").0 _
            (idle, (domid, domid', omega arith))

      fe_read-Step :
          (n : ℕ) (xs : Xs X) (r : Option String)
          → Idle n xs
          → Step Held (Found n) (fe_read lib libc xs r)
      unfolding fe_read read_int read_str
      fe_read-Step n xs none (idle, known) = inl (refl, no_watch idle)
      fe_read-Step n xs (some fe) (idle, (domid, domid', few)) =
          let xs1 : Xs X = record xs { dev = record xs.dev { fe = some fe } } in
          let le = read_le xs.store (node_path fe "state") in
          elim (Bool-cases (fe_read lib libc xs (some fe)).1) [
            | inl h ↦ inr (h, (fe, refl, (idle, (domid, domid', omega arith))))
            | inr h ↦ inl (h, no_watch idle)
          ]

      connect_fe-Step :
          (n : ℕ) (xs : Xs X) → Idle n xs → Step Held (Found n) (connect_fe lib libc xs)
      unfolding connect_fe read_str
      connect_fe-Step n xs (idle, (domid, domid', few)) =
          let le = read_le xs.store (node_path xs.dev.be "frontend") in
          fe_read-Step n (read_str lib libc xs xs.dev.be "frontend").0 _
            (idle, (domid, domid', omega arith))

      -- after the first watch
      abbrev Half : ℕ → Xs X → Type 0
      Half n xs = (fe : String) × (xs.dev.fe ≡ some fe) × (xs.watched ≡ xs.dev.be ∷ []) × Known n xs

      watch_be-Step :
          (n : ℕ) (xs : Xs X) → Found n xs → Step Held (Half (n + 1)) (watch lib libc xs xs.dev.be)
      unfolding watch
      watch_be-Step n xs (fe, e, (idle, (domid, domid', few))) =
          let le = watch_le xs.store xs.dev.be in
          elim (Bool-cases (lib.watch xs.store xs.dev.be xs.dev.be).1) [
            | inl h ↦
                rw h (
                  inr (refl, (fe, e, ap (λ ws. xs.dev.be ∷ ws) idle, (domid, domid', omega arith))))
            | inr h ↦ rw h (inl (refl, no_watch idle))
          ]

      watch_fe-Step :
          (n : ℕ) (xs : Xs X) (o : Option String)
          → xs.dev.fe ≡ o
          → Half n xs
          → Step Held (Watching (n + 1)) (watch_fe lib libc xs o)
      unfolding watch watch_fe
      watch_fe-Step n xs none same (fe, e, w, known) = inl (refl, be_watch w)
      watch_fe-Step n xs (some fe) same (fe', e, w, (domid, domid', few)) =
          let le = watch_le xs.store fe in
          elim (Bool-cases (lib.watch xs.store fe fe).1) [
            | inl h ↦
                rw h (inr (refl, (fe, same, ap (λ ws. fe ∷ ws) w, (domid, domid', omega arith))))
            | inr h ↦ rw h (inl (refl, be_watch w))
          ]

      connect_watch-Step :
          (n : ℕ) (xs : Xs X)
          → Found n xs
          → Step Held (Watching (n + 1 + 1)) (connect_watch lib libc xs)
      unfolding connect_watch
      connect_watch-Step n xs found =
          then_ok-Step Held (Half (n + 1)) (Watching (n + 1 + 1)) _ _ (watch_be-Step n xs found)
            (λ xs half. watch_fe-Step (n + 1) xs xs.dev.fe refl half)

      module _
          (read_watch_lt : (x : X) (e : String × String)
            → (lib.read_watch x).1 ≡ some e
            → events (lib.read_watch x).0 < events x) where
        -- the states that a node has are numbers of enum xenbus_state
        abbrev pub States : Type 0
        States =
            (x : X) (s : String) (v : ℤ)
            → (lib.read x (node_path path "state")).1 ≡ some s
            → libc.scan_int s ≡ some v
            → (k : ℕ) × (k < 32) × (v ≡ pos k)

        wait_be_state-total :
            (left awaited : ℕ) (xs : Xs X)
            → States
            → xs.dev.be ≡ path
            → events xs.store < left
            → (x : X) × (r : ℤ) × (wait_be_state lib libc left xs awaited
                ≡ some (record xs { store = x }, r))
        unfolding wait_be_state read_int read_str
        wait_be_state-total zero awaited xs states here few = absurd (omega arith)
        wait_be_state-total (suc left) awaited xs states here few =
            let node : String = node_path xs.dev.be "state" in
            let x1 : X = (lib.read xs.store node).0 in
            let x2 : X = (lib.read_watch x1).0 in
            let le = read_le xs.store node in
            elim (Option-cases (lib.read xs.store node).1) [
              | inl e ↦ (x1, minus_one, rw (wait_be_state, e) refl)
              | inr (s, e) ↦ elim (Option-cases (libc.scan_int s)) [
                | inl e' ↦ (x1, minus_one, rw (wait_be_state, e, e') refl)
                | inr (v, e') ↦
                    let (k, small, same) =
                      states xs.store s v
                        (ap (λ p. (lib.read xs.store (node_path p "state")).1) (sym here) ∙ e) e' in
                    let shift : ltb k 32 ≡ true = lt→ltb k 32 small in
                    elim (Bool-cases (awaited / 2 ^ k % 2 == 1)) [
                      | inl h ↦ (x1, pos k, rw (wait_be_state, e, e', same, shift, h) refl)
                      | inr h ↦ elim (Option-cases (lib.read_watch x1).1) [
                        | inl w ↦ (x2, minus_one, rw (wait_be_state, e, e', same, shift, h, w) refl)
                        | inr (ev, w) ↦
                            let lt = read_watch_lt x1 ev w in
                            let (x, r, rest) =
                              wait_be_state-total left awaited (record xs { store = x2 }) states
                                here (omega arith) in
                            (x, r, rw (wait_be_state, e, e', same, shift, h, w) rest)
                      ]
                    ]
              ]
            ]

        call_back-Step :
            (n : ℕ) (cb : Option (Xs X → X × ℤ)) (xs : Xs X)
            → Watching n xs
            → Step Held (Connected b f cb) (call_back lib libc cb xs)
        unfolding call_back
        call_back-Step n none xs (fe, e, w, (domid, domid', few)) =
            inr (refl, (fe, e, w, domid.0, domid', inl refl))
        call_back-Step n (some fn) xs (fe, e, w, (domid, domid', few)) =
            elim (Bool-cases (is_neg (fn xs).1)) [
              | inl h ↦ rw h (inl (refl, both fe e w))
              | inr h ↦ rw h (inr (refl, (fe, e, w, domid.0, domid', inr (fn, xs, refl, h, refl))))
            ]

        connect_wait-Step :
            (n left : ℕ) (cb : Option (Xs X → X × ℤ)) (xs : Xs X)
            → States
            → n < left
            → Watching n xs
            → (r : Xs X × Bool) × (connect_wait lib libc left cb xs ≡ some r)
              × Step Held (Connected b f cb) r
        unfolding connect_wait call_back
        connect_wait-Step n left cb xs states fuel (fe, e, w, (domid, domid', few)) =
            let mask : ℕ = 2 ^ state_init_wait + 2 ^ state_unknown in
            let (x, r, ran) = wait_be_state-total left mask xs states domid.1 (omega arith) in
            let xs' : Xs X = record xs { store = x } in
            elim (Bool-cases (is_state r state_init_wait)) [
              | inl h ↦ (
                call_back lib libc cb xs',
                rw (connect_wait, ran, h) refl,
                call_back-Step (events x) cb xs' (fe, e, w, (domid, domid', omega arith)),
              )
              | inr h ↦ ((xs', false), rw (connect_wait, ran, h) refl, inl (refl, both fe e w))
            ]

        ended-Step :
            (cb : Option (Xs X → X × ℤ)) (r : Xs X × Bool)
            → Step Held (Connected b f cb) r
            → (xs' : Xs X) × (rc : ℤ) × (ended lib libc r ≡ (xs', rc))
              × (((rc ≡ pos 0) × Connected b f cb xs') ⊎ ((rc ≡ minus_one) × Disconnected xs'))
        unfolding ended
        ended-Step cb (xs, ok) (inl (e, held)) = (
          disconnect_dom lib libc xs,
          minus_one,
          rw e refl,
          inr (refl, disconnect_dom-Disconnected xs held),
        )
        ended-Step cb (xs, ok) (inr (e, connected)) = (xs, pos 0, rw e refl, inl (refl, connected))

        waited-Step :
            (n left : ℕ) (cb : Option (Xs X → X × ℤ)) (r : Xs X × Bool)
            → States
            → n < left
            → Step Held (Watching n) r
            → (r' : Xs X × Bool) × (waited lib libc left cb r ≡ some r')
              × Step Held (Connected b f cb) r'
        unfolding waited
        waited-Step n left cb (xs, ok) states fuel (inl (e, held)) =
            ((xs, false), rw e refl, inl (refl, held))
        waited-Step n left cb (xs, ok) states fuel (inr (e, watching)) =
            let (r', ran, step) = connect_wait-Step n left cb xs states fuel watching in
            (r', rw e ran, step)

-- A connection that starts with no watch ends, if the events that can come are fewer than the rounds
-- by more than three: reading raises no event, a write or a watch at most one, an event is one less,
-- and a backend's state is a number that an int can be shifted by. It returns 0 with the watches of
-- the frontend and of the backend, the domains set and the callback, if there is one, not failed; or
-- it returns -1 with no watch, no frontend and no frontend's domain.
pub connect_dom-Connected :
    {X : Type 0} (lib : Store X) (libc : Libc) (events : X → ℕ) (left : ℕ)
    (cb : Option (Xs X → X × ℤ)) (xs : Xs X) (b f : ℕ)
    → ((x : X) (p : String) → events (lib.read x p).0 ≤ events x)
    → ((x : X) (p v : String) → events (lib.write x p v).0 ≤ events x + 1)
    → ((x : X) (p : String) → events (lib.watch x p p).0 ≤ events x + 1)
    → ((x : X) (e : String × String)
        → (lib.read_watch x).1 ≡ some e
        → events (lib.read_watch x).0 < events x)
    → ((x : X) (s : String) (v : ℤ)
        → (lib.read x (node_path (be_path libc xs.dev f) "state")).1 ≡ some s
        → libc.scan_int s ≡ some v
        → (k : ℕ) × (k < 32) × (v ≡ pos k))
    → xs.watched ≡ []
    → events xs.store + 3 < left
    → (xs' : Xs X) × (rc : ℤ) × (connect_dom lib libc left cb xs b f ≡ some (xs', rc))
      × (((rc ≡ pos 0) × Connected lib libc b f cb xs')
          ⊎ ((rc ≡ minus_one) × Disconnected lib libc xs'))
unfolding connect_dom
connect_dom-Connected {X} lib libc events left cb xs b f read_le write_le watch_le lt states idle
      fuel =
    let path : String = be_path libc xs.dev f in
    let dev : XsDev = record xs.dev { be_domid = b; fe_domid = f; be = path } in
    let xs0 : Xs X = record xs { dev = dev } in
    let n : ℕ = events xs.store in
    let bad : Xs X → Type 0 = Held lib libc in
    let one : Xs X → Type 0 = Idle lib libc events b f path (n + 1) in
    let two : Xs X → Type 0 = Found lib libc events b f path (n + 1) in
    let three : Xs X → Type 0 = Watching lib libc events b f path (n + 1 + 1 + 1) in
    let be : Xs X × Bool = connect_be lib libc xs0 in
    let fe : Xs X × Bool = then_ok lib libc be (connect_fe lib libc) in
    let s1 =
      connect_be-Step lib libc events b f path read_le write_le watch_le n xs0
        (idle, ((refl, refl), refl, omega arith)) in
    let s2 =
      then_ok-Step lib libc bad one two be (connect_fe lib libc) s1
        (connect_fe-Step lib libc events b f path read_le write_le watch_le (n + 1)) in
    let s3 =
      then_ok-Step lib libc bad two three fe (connect_watch lib libc) s2
        (connect_watch-Step lib libc events b f path read_le write_le watch_le (n + 1)) in
    let (r, ran, step) =
      waited-Step lib libc events b f path read_le write_le watch_le lt (n + 1 + 1 + 1) left cb
        (then_ok lib libc fe (connect_watch lib libc)) states (omega arith) s3 in
    let (xs', rc, same, ends) =
      ended-Step lib libc events b f path read_le write_le watch_le lt cb r step in
    (xs', rc, ap (λ o. o >>= (λ r. some (ended lib libc r))) ran ∙ ap some same, ends)
