-- ===== src/Xs/Frontend/Once.antt =====
-- A frontend is found at most once.
use Prim.Native.String.{String, ◌++◌ as cat}
use mathlib.Core.Path.{subst}
use virtio_disk.Prelude.{
  ℕ, zero, suc, ◌≤◌, ◌<◌, ◌≡◌, ◌≢◌, refl, sym, ap, ◌∙◌, ◌⊎◌, inl, inr, Bool, false, Option, none,
  some, List, [], ◌∷◌, ltb, ltb→lt, ltb→le, lt→ltb, le→ltb, length, replicate, if◌then◌else◌, ◌>>=◌,
  arith, Bool-cases, Option-cases,
}
use virtio_disk.Prelude.Int.{ℤ, pos, negsuc, minus_one}
use virtio_disk.Xs.{Store, Libc, Xs, bounded, to_domid}
use virtio_disk.Xs.Frontend.{
  find_devid, choose_devid, fe_device, with_devid, check_devids, check_fe_exists, greatest,
  fe_domid_of, get_fe_domid,
}

-- The positive results are above `c`, and rise.
abbrev pub Rising : ℕ → List ℤ → Type 0
Rising c [] = 0 ≤ c
Rising c (negsuc n ∷ rcs) = Rising c rcs
Rising c (pos zero ∷ rcs) = Rising c rcs
Rising c (pos (suc d) ∷ rcs) = (c < suc d) × Rising (suc d) rcs

Rising-le : (c c' : ℕ) (rcs : List ℤ) → c ≤ c' → Rising c' rcs → Rising c rcs
Rising-le c c' [] le rising = omega arith
Rising-le c c' (negsuc n ∷ rcs) le rising = Rising-le c c' rcs le rising
Rising-le c c' (pos zero ∷ rcs) le rising = Rising-le c c' rcs le rising
Rising-le c c' (pos (suc d) ∷ rcs) le (h, rising) = (omega arith, rising)

Rising-above : (c d : ℕ) (rcs : List ℤ) → c < d → Rising d rcs → Rising c (pos d ∷ rcs)
Rising-above c zero rcs h rising = absurd (omega arith)
Rising-above c (suc d) rcs h rising = (h, rising)

Rising-cons :
    (c c' : ℕ) (rc : ℤ) (rcs : List ℤ)
    → c ≤ c'
    → ((rc ≡ pos c') × (c < c')) ⊎ ((rc ≡ pos 0) ⊎ (rc ≡ minus_one))
    → Rising c' rcs
    → Rising c (rc ∷ rcs)
Rising-cons c c' rc rcs le (inl (e, less)) rising = rw e (Rising-above c c' rcs less rising)
Rising-cons c c' rc rcs le (inr (inl e)) rising = rw e (Rising-le c c' rcs le rising)
Rising-cons c c' rc rcs le (inr (inr e)) rising = rw e (Rising-le c c' rcs le rising)

module _ {X : Type 0} (lib : Store X) (libc : Libc) where
  greatest-le : (domains : List String) (curr : ℕ) → curr ≤ greatest lib libc domains curr
  unfolding greatest
  greatest-le [] curr = omega arith
  greatest-le (domain ∷ domains) curr =
      let d : ℕ = to_domid (libc.atoi domain) in
      elim (Bool-cases (ltb curr d)) [
        | inl h ↦ rw h (omega (arith, greatest-le domains d, ltb→lt curr d h))
        | inr h ↦ rw h (greatest-le domains curr)
      ]

  -- nothing greater among the same domains
  greatest-fixed :
      (domains : List String) (curr c : ℕ)
      → greatest lib libc domains curr ≤ c
      → greatest lib libc domains c ≡ c
  unfolding greatest
  greatest-fixed [] curr c h = refl
  greatest-fixed (domain ∷ domains) curr c h =
      let d : ℕ = to_domid (libc.atoi domain) in
      let m : ℕ = if ltb curr d then d else curr in
      let le = greatest-le domains m in
      let bound : d ≤ m = elim (Bool-cases (ltb curr d)) [
        | inl e ↦ rw e (omega arith)
        | inr e ↦ rw e (ltb→le curr d e)
      ] in
      rw (le→ltb c d (omega arith)) (greatest-fixed domains m c h)

  fe_device-curr :
      (xs : Xs X) (domid : ℕ) (devid : ℤ)
      → (fe_device lib libc xs domid devid).0.curr_domid ≡ xs.curr_domid
  unfolding fe_device
  fe_device-curr xs domid devid = ground arith

  with_devid-curr :
      (xs : Xs X) (domid : ℕ) (o : Option ℤ)
      → (with_devid lib libc xs domid o).0.curr_domid ≡ xs.curr_domid
  unfolding with_devid
  with_devid-curr xs domid none = refl
  with_devid-curr xs domid (some devid) = fe_device-curr xs domid devid

  choose_devid-some :
      (devid : String) (devids : List String) (asked : Option String)
      → (o : Option ℤ) × (choose_devid lib libc (devid ∷ devids) asked ≡ some o)
  unfolding choose_devid
  choose_devid-some devid devids none = (some (libc.atoi devid), refl)
  choose_devid-some devid devids (some asked) = (find_devid lib libc (devid ∷ devids) asked, refl)

  -- Every directory that is listed has an entry.
  abbrev pub Listed : Type 0
  Listed = (x : X) (p : String) → (lib.directory x p).1 ≢ some []

  check_devids-curr :
      (xs : Xs X) (domid : ℕ) (devids : Option (List String))
      → devids ≢ some []
      → (xs' : Xs X) × (b : Bool) × (check_devids lib libc xs domid devids ≡ some (xs', b))
        × (xs'.curr_domid ≡ xs.curr_domid)
  unfolding check_devids
  check_devids-curr xs domid none listed = (xs, false, refl, refl)
  check_devids-curr xs domid (some []) listed = absurd (listed refl)
  check_devids-curr xs domid (some (devid ∷ devids)) listed =
      let (o, e) = choose_devid-some devid devids xs.dev.devid_str in
      let r : Xs X × Bool = with_devid lib libc xs domid o in
      (
        r.0,
        r.1,
        ap (λ c. c >>= (λ found. some (with_devid lib libc xs domid found))) e,
        with_devid-curr xs domid o,
      )

  check_fe_exists-curr :
      (xs : Xs X) (domid : ℕ)
      → Listed
      → (xs' : Xs X) × (b : Bool) × (check_fe_exists lib libc xs domid ≡ some (xs', b))
        × (xs'.curr_domid ≡ xs.curr_domid)
  unfolding check_fe_exists
  check_fe_exists-curr xs domid listed = check_devids-curr _ domid _ (listed _ _)

  -- The result of a call: the greatest number is kept, and is returned only if it is new.
  abbrev pub Fresh : Xs X → List String → Xs X × ℤ → Type 0
  Fresh xs domains (xs', rc) =
      (xs'.curr_domid ≡ greatest lib libc domains xs.curr_domid)
      × (((rc ≡ pos xs'.curr_domid) × (xs.curr_domid < xs'.curr_domid)) ⊎ (rc ≡ pos 0))

  fe_domid_of-Fresh :
      (xs : Xs X) (domains : List String)
      → Listed
      → (r : Xs X × ℤ) × (fe_domid_of lib libc xs (some domains) ≡ some r) × Fresh xs domains r
  unfolding fe_domid_of
  fe_domid_of-Fresh xs domains listed =
      let curr : ℕ = greatest lib libc domains xs.curr_domid in
      let xs1 : Xs X = record xs { curr_domid = curr } in
      let (xs', b, ran, kept) = check_fe_exists-curr xs1 curr listed in
      elim (Bool-cases (ltb xs.curr_domid curr)) [
        | inr e ↦ ((xs1, pos 0), rw e refl, (refl, inr refl))
        | inl e ↦
            let less = ltb→lt xs.curr_domid curr e in
            elim (Bool-cases b) [
              | inl h ↦ (
                (xs', pos curr),
                rw (e, ran, h) refl,
                (kept, inl (ap pos (sym kept), omega arith)),
              )
              | inr h ↦ ((xs', pos 0), rw (e, ran, h) refl, (kept, inr refl))
            ]
      ]

  -- Calls one after the other; before each of them the store is what others have made of it.
  abbrev pub calls : List X → Xs X → Option (Xs X × List ℤ)
  calls [] xs = some (xs, [])
  calls (x ∷ later) xs = do
    (xs', rc) ← get_fe_domid lib libc (record xs { store = x })
    (xs'', rcs) ← calls later xs'
    some (xs'', rc ∷ rcs)

  get_fe_domid-cases :
      (xs : Xs X)
      → Listed
      → (xs' : Xs X) × (rc : ℤ) × (get_fe_domid lib libc xs ≡ some (xs', rc))
        × (xs.curr_domid ≤ xs'.curr_domid)
        × (((rc ≡ pos xs'.curr_domid) × (xs.curr_domid < xs'.curr_domid))
            ⊎ ((rc ≡ pos 0) ⊎ (rc ≡ minus_one)))
  unfolding get_fe_domid fe_domid_of
  get_fe_domid-cases xs listed =
      let (x, o) = lib.directory xs.store xs.dev.path in
      elim (Option-cases (lib.directory xs.store xs.dev.path).1) [
        | inl e ↦ (record xs { store = x }, minus_one, rw e refl, omega arith, inr (inr refl))
        | inr (domains, e) ↦
            let ((xs', rc), ran, (kept, ends)) =
              fe_domid_of-Fresh (record xs { store = x }) domains listed in
            let le = greatest-le domains xs.curr_domid in
            (
              xs',
              rc,
              rw e ran,
              omega arith,
              elim ends [ inl new ↦ inl new | inr old ↦ inr (inl old) ],
            )
      ]

  -- However often xenstore_get_fe_domid is called, and whatever others make of the store, if no
  -- directory that is listed is empty, every call returns, and the domains that the calls report are
  -- greater and greater: none is reported twice.
  pub calls-Rising :
      (stores : List X) (xs : Xs X)
      → Listed
      → (xs' : Xs X) × (rcs : List ℤ) × (calls stores xs ≡ some (xs', rcs))
        × Rising xs.curr_domid rcs
  calls-Rising [] xs listed = (xs, [], refl, omega arith)
  calls-Rising (x ∷ later) xs listed =
      let (xs1, rc, ran, le, ends) = get_fe_domid-cases (record xs { store = x }) listed in
      let (xs2, rcs, ran', rising) = calls-Rising later xs1 listed in
      (
        xs2,
        rc ∷ rcs,
        rw (ran, ran') refl,
        Rising-cons xs.curr_domid xs1.curr_domid rc rcs le ends rising,
      )

  fe_device-path :
      (xs : Xs X) (domid : ℕ) (devid : ℤ)
      → (fe_device lib libc xs domid devid).0.dev.path ≡ xs.dev.path
  unfolding fe_device
  fe_device-path xs domid devid = ground arith

  with_devid-path :
      (xs : Xs X) (domid : ℕ) (o : Option ℤ)
      → (with_devid lib libc xs domid o).0.dev.path ≡ xs.dev.path
  unfolding with_devid
  with_devid-path xs domid none = refl
  with_devid-path xs domid (some devid) = fe_device-path xs domid devid

  -- the path of the backends and the greatest domain seen, in what a check returns
  abbrev seen_of : Option (Xs X × Bool) → String × ℕ → String × ℕ
  seen_of none old = old
  seen_of (some (xs', found)) old = (xs'.dev.path, xs'.curr_domid)

  chosen-seen :
      (xs : Xs X) (domid : ℕ) (o : Option (Option ℤ))
      → seen_of
          (o >>= (λ found. some (with_devid lib libc xs domid found)))
          (xs.dev.path, xs.curr_domid)
        ≡ (xs.dev.path, xs.curr_domid)
  chosen-seen xs domid none = refl
  chosen-seen xs domid (some found) =
      ground (arith, with_devid-path xs domid found, with_devid-curr xs domid found)

  check_devids-seen :
      (xs : Xs X) (domid : ℕ) (devids : Option (List String))
      → seen_of (check_devids lib libc xs domid devids) (xs.dev.path, xs.curr_domid)
        ≡ (xs.dev.path, xs.curr_domid)
  unfolding check_devids
  check_devids-seen xs domid none = refl
  check_devids-seen xs domid (some devids) =
      chosen-seen xs domid (choose_devid lib libc devids xs.dev.devid_str)

  check_fe_exists-seen :
      (xs : Xs X) (domid : ℕ)
      → seen_of (check_fe_exists lib libc xs domid) (xs.dev.path, xs.curr_domid)
        ≡ (xs.dev.path, xs.curr_domid)
  unfolding check_fe_exists
  check_fe_exists-seen xs domid =
      let path = cat "backend/" (cat xs.dev.type (cat "/" (libc.print_int (pos domid)))) in
      let r = lib.directory xs.store (bounded path) in
      check_devids-seen (record xs { store = r.0 }) domid r.1

  -- The backend's directory lists these domains in each of the stores.
  abbrev pub AllList : List String → String → List X → Type 0
  AllList domains path [] = Unit
  AllList domains path (x ∷ xs) =
      ((lib.directory x path).1 ≡ some domains) × AllList domains path xs

  -- A call reports nothing where the directory lists nothing greater than what was seen.
  get_fe_domid_old :
      (xs : Xs X) (domains : List String)
      → (lib.directory xs.store xs.dev.path).1 ≡ some domains
      → greatest lib libc domains xs.curr_domid ≡ xs.curr_domid
      → get_fe_domid lib libc xs
        ≡ some (record xs { store = (lib.directory xs.store xs.dev.path).0 }, pos 0)
  unfolding get_fe_domid fe_domid_of
  get_fe_domid_old xs domains e same =
      rw (get_fe_domid, e, fe_domid_of, same, le→ltb xs.curr_domid xs.curr_domid (omega arith)) refl

  calls_old :
      (stores : List X) (xs : Xs X) (domains : List String)
      → AllList domains xs.dev.path stores
      → greatest lib libc domains xs.curr_domid ≡ xs.curr_domid
      → (xs' : Xs X) × (calls stores xs ≡ some (xs', replicate (length stores) (pos 0)))
  calls_old [] xs domains all same = (xs, refl)
  calls_old (x ∷ later) xs domains all same =
      let now = get_fe_domid_old (record xs { store = x }) domains all.0 same in
      let (xs', rest) =
        calls_old later (record xs { store = (lib.directory x xs.dev.path).0 }) domains all.1
          same in
      (xs', rw (now, rest) refl)

  -- A call at which the backend's directory lists a new greatest domain, for which the device is not
  -- found, reports nothing; and however many calls follow, none of them reports anything, as long as
  -- the directory lists the same domains, whatever else becomes of the store: if the frontend's node
  -- is there by then, too.
  pub get_fe_domid_lost :
      (xs : Xs X) (domains : List String) (xs' : Xs X) (stores : List X)
      → (lib.directory xs.store xs.dev.path).1 ≡ some domains
      → xs.curr_domid < greatest lib libc domains xs.curr_domid
      → check_fe_exists lib libc
          (record xs {
            store = (lib.directory xs.store xs.dev.path).0;
            curr_domid = greatest lib libc domains xs.curr_domid;
          })
          (greatest lib libc domains xs.curr_domid)
        ≡ some (xs', false)
      → AllList domains xs.dev.path stores
      → (get_fe_domid lib libc xs ≡ some (xs', pos 0))
        × ((xs'' : Xs X) × (calls stores xs' ≡ some (xs'', replicate (length stores) (pos 0))))
  unfolding get_fe_domid fe_domid_of
  get_fe_domid_lost xs domains xs' stores e new lost all =
      let c : ℕ = greatest lib libc domains xs.curr_domid in
      let xs1 : Xs X = record xs {
        store = (lib.directory xs.store xs.dev.path).0;
        curr_domid = c;
      } in
      let seen : (xs'.dev.path, xs'.curr_domid) ≡ (xs.dev.path, c) =
        ap (λ o. seen_of o (xs.dev.path, c)) (sym lost) ∙ check_fe_exists-seen xs1 c in
      let curr : xs'.curr_domid ≡ c = ap (λ r. r.1) seen in
      let fixed : greatest lib libc domains xs'.curr_domid ≡ xs'.curr_domid =
        greatest-fixed domains xs.curr_domid xs'.curr_domid (omega (arith, curr)) in
      (
        rw (get_fe_domid, e, fe_domid_of, lt→ltb xs.curr_domid c new, lost) refl,
        calls_old stores xs' domains
            (subst (λ p. AllList domains p stores) (sym (ap (λ r. r.0) seen)) all) fixed,
      )
