-- ===== src/Xs/Frontend.antt =====
-- xs_dev.c: which frontend is connected to, and what its watches say while it is.
pub mod Once
use Prim.Native.String.{String, ◌++◌ as cat}
use text.Mathlib.Text.{◌==◌ as str_eq}
use virtio_disk.Prelude.{
  ℕ, zero, suc, ◌+◌, ◌*◌, ◌%◌, ◌^◌, Bool, true, false, not, ◌&&◌, Option, none, some, List, [], ◌∷◌,
  ltb, if◌then◌else◌, ◌>>=◌,
}
use virtio_disk.Prelude.Int.{ℤ, pos, is_neg, minus_one}
use virtio_disk.Xs.{
  Store, Libc, XsDev, Xs, state_unknown, state_initialising, bounded, to_domid, is_state, read_int,
  watch, unwatch,
}

-- 0 < rc
abbrev pub is_pos : ℤ → Bool
is_pos rc = not (is_neg rc) && not (is_state rc 0)

module _ {X : Type 0} (lib : Store X) (libc : Libc) where
  -- xenstore_create, after calloc: `none` is NULL, if `opened` says that xs_open failed.
  unfoldable pub create : Bool → X → String → Option String → Option (Xs X)
  create opened x type devid_str =
      if opened
      then some (record {
        dev = record {
          be_domid = 0;
          fe_domid = 0;
          type = type;
          devid_str = devid_str;
          devid = pos 0;
          be = "";
          path = bounded (cat "backend/" type);
          fe = none;
          be_state = pos 0;
        };
        store = x;
        watched = [];
        curr_domid = 0;
      })
      else none

  unfoldable pub get_be_domid : Xs X → Xs X × ℤ
  get_be_domid xs =
      let (x, val) = lib.read xs.store "domid" in
      (
        record xs { store = x },
        elim val [
          | none ↦ pos 0
          | some s ↦ let (domid, whole) = libc.strtol s in if whole then domid else minus_one
        ],
      )

  unfoldable pub get_dom_mem : Xs X → ℕ → Xs X × ℕ
  get_dom_mem xs domid =
      let path = cat "/local/domain/" (cat (libc.print_int (pos domid)) "/memory/static-max") in
      let (x, val) = lib.read xs.store (bounded path) in
      (record xs { store = x }, elim val [ none ↦ 0 | some s ↦ libc.strtoull s * 1024 % 2 ^ 64 ])

  -- The device that is asked for, among those there are.
  unfoldable pub find_devid : List String → String → Option ℤ
  find_devid [] devid_str = none
  find_devid (devid ∷ devids) devid_str =
      if str_eq devid devid_str then some (libc.atoi devid) else find_devid devids devid_str

  -- Without a device that is asked for it is the first; an empty directory has no first (`none`).
  unfoldable pub choose_devid : List String → Option String → Option (Option ℤ)
  choose_devid devids (some devid_str) = some (find_devid devids devid_str)
  choose_devid [] none = none
  choose_devid (devid ∷ devids) none = some (some (libc.atoi devid))

  -- whether the frontend has a node for the device
  unfoldable pub fe_device : Xs X → ℕ → ℤ → Xs X × Bool
  fe_device xs domid devid =
      let domain = cat "/local/domain/" (libc.print_int (pos domid)) in
      let device = cat "/device/" (cat xs.dev.type (cat "/" (libc.print_int devid))) in
      let (x, val) = lib.read xs.store (bounded (cat domain device)) in
      elim val [
        | some s ↦ (record xs { store = x; dev = record xs.dev { devid = devid } }, true)
        | none ↦ (record xs { store = x; dev = record xs.dev { devid = pos 0 } }, false)
      ]

  unfoldable pub with_devid : Xs X → ℕ → Option ℤ → Xs X × Bool
  with_devid xs domid none = (xs, false)
  with_devid xs domid (some devid) = fe_device xs domid devid

  unfoldable pub check_devids : Xs X → ℕ → Option (List String) → Option (Xs X × Bool)
  check_devids xs domid none = some (xs, false)
  check_devids xs domid (some devids) = do
    found ← choose_devid devids xs.dev.devid_str
    some (with_devid xs domid found)

  unfoldable pub check_fe_exists : Xs X → ℕ → Option (Xs X × Bool)
  check_fe_exists xs domid =
      let path = cat "backend/" (cat xs.dev.type (cat "/" (libc.print_int (pos domid)))) in
      let (x, devids) = lib.directory xs.store (bounded path) in
      check_devids (record xs { store = x }) domid devids

  -- `for (i = 0; i < num; i++) ... if (domid > curr_domid) curr_domid = domid;`
  unfoldable pub greatest : List String → ℕ → ℕ
  greatest [] curr = curr
  greatest (domain ∷ domains) curr =
      let domid = to_domid (libc.atoi domain) in
      greatest domains (if ltb curr domid then domid else curr)

  unfoldable pub fe_domid_of : Xs X → Option (List String) → Option (Xs X × ℤ)
  fe_domid_of xs none = some (xs, minus_one)
  fe_domid_of xs (some domains) =
      let curr = greatest domains xs.curr_domid in
      let xs' = record xs { curr_domid = curr } in
      let checked = (do
        (xs'', exists) ← check_fe_exists xs' curr
        some (xs'', if exists then pos curr else pos 0)) in
      if ltb xs.curr_domid curr then checked else some (xs', pos 0)

  -- The greatest number of a domain seen so far is static, and is kept.
  unfoldable pub get_fe_domid : Xs X → Option (Xs X × ℤ)
  get_fe_domid xs =
      let (x, domains) = lib.directory xs.store xs.dev.path in
      fe_domid_of (record xs { store = x }) domains

  unfoldable pub poll_be_watch : Xs X → Option (Xs X × ℤ)
  poll_be_watch xs =
      let (x, event) = lib.read_watch xs.store in
      let xs' = record xs { store = x } in
      elim event [
        | none ↦ some (xs', minus_one)
        | some (path, token) ↦
            if str_eq path xs.dev.path then get_fe_domid xs' else some (xs', pos 0)
      ]

  -- The loop; `none` also if the rounds run out.
  unfoldable pub wait_rounds : ℕ → Xs X → Option (Xs X × ℤ)
  wait_rounds zero xs = none
  wait_rounds (suc left) xs =
      let (x, rc, input) = lib.poll xs.store in
      let xs' = record xs { store = x } in
      let served = is_pos rc && input in
      let round = if served then poll_be_watch xs' else some (xs', rc) in
      round >>= (λ (xs'', rc').
        let rest = wait_rounds left xs'' in
        if served && is_pos rc'
        then some (xs'', rc')
        else if is_neg rc' && not (lib.interrupted xs''.store)
        then some (xs'', minus_one)
        else rest)

  unfoldable pub wait_fe_domid : ℕ → Xs X → Option (Xs X × ℤ)
  wait_fe_domid left xs =
      let (xs1, ok) = watch lib libc xs xs.dev.path in
      let waited = (do
        (xs2, domid) ← wait_rounds left xs1
        some (unwatch lib libc xs2 xs2.dev.path, domid)) in
      if ok then waited else some (xs1, minus_one)

  -- `none` is BUG_ON of a state of the frontend that is not expected.
  unfoldable pub fe_state_changed : Xs X → String → Option (Xs X × ℤ)
  fe_state_changed xs fe =
      let (xs', r) = read_int lib libc xs fe "state" in
      elim r [
        | none ↦ some (xs', minus_one)
        | some state ↦
            if is_state state state_unknown
            then some (xs', minus_one)
            else if is_state state state_initialising
            then some (xs', pos 0)
            else none
      ]

  unfoldable pub be_state_changed : Xs X → Xs X × ℤ
  be_state_changed xs =
      let (xs', r) = read_int lib libc xs xs.dev.be "state" in
      elim r [
        | none ↦ (xs', minus_one)
        | some state ↦ (xs', if is_state state state_unknown then minus_one else pos 0)
      ]

  -- A comparison with no frontend's path is `none`.
  unfoldable pub watch_event : Xs X → String → Option (Xs X × ℤ)
  watch_event xs token =
      let (xs', rc) = if str_eq token xs.dev.be then be_state_changed xs else (xs, pos 0) in
      elim xs'.dev.fe [
        | none ↦ none
        | some fe ↦ if str_eq token fe then fe_state_changed xs' fe else some (xs', rc)
      ]

  unfoldable pub poll_watches : Xs X → Option (Xs X × ℤ)
  poll_watches xs =
      let (x, event) = lib.read_watch xs.store in
      let xs' = record xs { store = x } in
      elim event [ none ↦ some (xs', minus_one) | some (path, token) ↦ watch_event xs' token ]
