-- ===== src/Xs.antt =====
-- xs_dev.c and xs_dev.h: the connection to a frontend by way of xenstore.
--
-- libxenstore is a record of functions on the state `X` of the store and of its connection; the
-- texts of the store are those of the native library. libc's conversions of texts are parameters
-- too. `strdup` is assumed to find memory. What the connection watches is a list.
pub mod Connect
pub mod Frontend
mod Tests
use Prim.Native.String.{String, slice, ◌++◌ as cat}
use text.Mathlib.Text.{◌==◌ as str_eq}
use virtio_disk.Prelude.{
  ℕ, zero, suc, ◌+◌, ◌-◌, ◌*◌, ◌/◌, ◌%◌, ◌^◌, Bool, true, false, not, ◌&&◌, Option, none, some,
  List, [], ◌∷◌, length, ltb, ◌==◌, if◌then◌else◌, ◌>>=◌,
}
use virtio_disk.Prelude.Int.{ℤ, pos, negsuc, is_neg, minus_one}

-- `read_watch` gives the path and the token of an event. `poll` gives the result and whether there
-- is input, `interrupted` whether errno is EINTR.
pub record Store (X : Type 0) : Type 0 where
  pub read : X → String → X × Option String
  pub write : X → String → String → X × Bool
  pub rm : X → String → X
  pub watch : X → String → String → X × Bool
  pub unwatch : X → String → String → X
  pub directory : X → String → X × Option (List String)
  pub read_watch : X → X × Option (String × String)
  pub poll : X → X × ℤ × Bool
  pub interrupted : X → Bool

-- sscanf and snprintf of "%d", atoi, strtol (with the test of `*end`) and strtoull
pub record Libc : Type 0 where
  pub scan_int : String → Option ℤ
  pub print_int : ℤ → String
  pub atoi : String → ℤ
  pub strtol : String → ℤ × Bool
  pub strtoull : String → ℕ

-- struct xs_dev; `devid_str` is null if no device was asked for, `fe` while there is no frontend.
pub record XsDev : Type 0 where
  pub be_domid : ℕ
  pub fe_domid : ℕ
  pub type : String
  pub devid_str : Option String
  pub devid : ℤ
  pub be : String
  pub path : String
  pub fe : Option String
  pub be_state : ℤ

-- The device, the store, the paths that are watched, and the static curr_domid.
pub record Xs (X : Type 0) : Type 0 where
  pub dev : XsDev
  pub store : X
  pub watched : List String
  pub curr_domid : ℕ

-- enum xenbus_state of xen/io/xenbus.h
abbrev pub state_unknown : ℕ
state_unknown = 0

abbrev pub state_initialising : ℕ
state_initialising = 1

abbrev pub state_init_wait : ℕ
state_init_wait = 2

abbrev pub state_closed : ℕ
state_closed = 6

-- what fits into XEN_BUFSIZE bytes
abbrev pub bounded : String → String
bounded s = slice s 0 1023

-- (domid_t)n
abbrev pub to_domid : ℤ → ℕ
to_domid (pos n) = n % 2 ^ 16
to_domid (negsuc n) = 2 ^ 16 - 1 - n % 2 ^ 16

abbrev pub is_state : ℤ → ℕ → Bool
is_state (pos n) state = n == state
is_state (negsuc n) state = false

-- `(1 << state) & awaited`; a shift by more than an int has is `none`.
abbrev pub is_awaited : ℤ → ℕ → Option Bool
is_awaited (negsuc n) awaited = none
is_awaited (pos n) awaited = if ltb n 32 then some (awaited / 2 ^ n % 2 == 1) else none

-- the formats "%s/%s" and "backend/%s/%d/%d"
abbrev pub node_path : String → String → String
node_path base node = bounded (cat base (cat "/" node))

abbrev pub be_path : Libc → XsDev → ℕ → String
be_path libc dev fe_domid =
    let domid = libc.print_int (pos fe_domid) in
    let devid = libc.print_int dev.devid in
    bounded (cat "backend/" (cat dev.type (cat "/" (cat domid (cat "/" devid)))))

-- without the first of these texts, if there is one
unfoldable pub drop_text : String → List String → List String
drop_text t [] = []
drop_text t (u ∷ texts) = if str_eq t u then texts else u ∷ drop_text t texts

module _ {X : Type 0} (lib : Store X) (libc : Libc) where
  unfoldable pub read_str : Xs X → String → String → Xs X × Option String
  read_str xs base node =
      let (x, val) = lib.read xs.store (node_path base node) in (record xs { store = x }, val)

  unfoldable pub write_str : Xs X → String → String → String → Xs X × ℤ
  write_str xs base node val =
      let (x, ok) = lib.write xs.store (node_path base node) val in
      (record xs { store = x }, if ok then pos 0 else minus_one)

  -- `none` is -1.
  unfoldable pub read_int : Xs X → String → String → Xs X × Option ℤ
  read_int xs base node =
      let (xs', val) = read_str xs base node in
      (xs', elim val [ none ↦ none | some s ↦ libc.scan_int s ])

  unfoldable pub write_int : Xs X → String → String → ℤ → Xs X × ℤ
  write_int xs base node ival = write_str xs base node (libc.print_int ival)

  unfoldable pub set_be_state : Xs X → ℕ → Xs X × ℤ
  set_be_state xs state =
      let (xs', rc) = write_int xs xs.dev.be "state" (pos state) in
      if is_neg rc
      then (xs', rc)
      else (record xs' { dev = record xs'.dev { be_state = pos state } }, pos 0)

  -- The rounds that are left bound the loop. The result is -1 if the state cannot be read or the
  -- connection is lost.
  unfoldable pub wait_be_state : ℕ → Xs X → ℕ → Option (Xs X × ℤ)
  wait_be_state zero xs awaited = none
  wait_be_state (suc left) xs awaited =
      let (xs', r) = read_int xs xs.dev.be "state" in
      elim r [
        | none ↦ some (xs', minus_one)
        | some state ↦
            let (x, event) = lib.read_watch xs'.store in
            let xs'' = record xs' { store = x } in
            let rest = wait_be_state left xs'' awaited in
            let missed : Option (Xs X × ℤ) = elim event [
              | none ↦ some (xs'', minus_one)
              | some e ↦ rest
            ] in
            is_awaited state awaited >>= (λ found. if found then some (xs', state) else missed)
      ]

  unfoldable pub watch : Xs X → String → Xs X × Bool
  watch xs path =
      let (x, ok) = lib.watch xs.store path path in
      if ok
      then (record xs { store = x; watched = path ∷ xs.watched }, true)
      else (record xs { store = x }, false)

  unfoldable pub unwatch : Xs X → String → Xs X
  unfolding drop_text
  unwatch xs path = record xs {
    store = lib.unwatch xs.store path path;
    watched = drop_text path xs.watched;
  }

  unfoldable pub drop_fe : Xs X → Option String → Xs X
  drop_fe xs none = xs
  drop_fe xs (some fe) =
      let xs' = unwatch xs fe in record xs' { dev = record xs'.dev { fe = none } }

  unfoldable pub disconnect_dom : Xs X → Xs X
  disconnect_dom xs =
      let xs1 = (set_be_state xs state_closed).0 in
      let xs2 = drop_fe xs1 xs1.dev.fe in
      let xs3 = unwatch xs2 xs2.dev.be in
      record xs3 { store = lib.rm xs3.store xs3.dev.be; dev = record xs3.dev { fe_domid = 0 } }

  -- The steps of xenstore_connect_dom up to the first that fails; `false` is the jump to `err`.
  unfoldable pub then_ok : Xs X × Bool → (Xs X → Xs X × Bool) → Xs X × Bool
  then_ok (xs, ok) next = if ok then next xs else (xs, false)

  -- the backend must be Initialising, and is set to InitWait
  unfoldable pub be_read : Xs X → Option ℤ → Xs X × Bool
  be_read xs none = (xs, false)
  be_read xs (some state) =
      let xs' = record xs { dev = record xs.dev { be_state = state } } in
      if is_state state state_initialising
      then ((set_be_state xs' state_init_wait).0, true)
      else (xs', false)

  unfoldable pub connect_be : Xs X → Xs X × Bool
  connect_be xs = let (xs', r) = read_int xs xs.dev.be "state" in be_read xs' r

  -- the path of the frontend is read, and its state, which must be Initialising
  unfoldable pub fe_read : Xs X → Option String → Xs X × Bool
  fe_read xs none = (record xs { dev = record xs.dev { fe = none } }, false)
  fe_read xs (some fe) =
      let (xs', s) = read_int (record xs { dev = record xs.dev { fe = some fe } }) fe "state" in
      (xs', elim s [ none ↦ false | some state ↦ is_state state state_initialising ])

  unfoldable pub connect_fe : Xs X → Xs X × Bool
  connect_fe xs = let (xs', r) = read_str xs xs.dev.be "frontend" in fe_read xs' r

  -- the call that watches the frontend, which is not null by then
  unfoldable pub watch_fe : Xs X → Option String → Xs X × Bool
  watch_fe xs none = (xs, false)
  watch_fe xs (some fe) = watch xs fe

  unfoldable pub connect_watch : Xs X → Xs X × Bool
  connect_watch xs = then_ok (watch xs xs.dev.be) (λ xs'. watch_fe xs' xs'.dev.fe)

  -- The callback, if there is one, reads the store.
  unfoldable pub call_back : Option (Xs X → X × ℤ) → Xs X → Xs X × Bool
  call_back none xs = (xs, true)
  call_back (some f) xs = let (x, rc) = f xs in (record xs { store = x }, not (is_neg rc))

  unfoldable pub connect_wait : ℕ → Option (Xs X → X × ℤ) → Xs X → Option (Xs X × Bool)
  connect_wait left cb xs = do
    (xs', state) ← wait_be_state left xs (2 ^ state_init_wait + 2 ^ state_unknown)
    some (if is_state state state_init_wait then call_back cb xs' else (xs', false))

  -- success, or the error path
  unfoldable pub ended : Xs X × Bool → Xs X × ℤ
  ended (xs, ok) = if ok then (xs, pos 0) else (disconnect_dom xs, minus_one)

  -- the rest of the steps, if those before succeeded
  unfoldable pub waited : ℕ → Option (Xs X → X × ℤ) → Xs X × Bool → Option (Xs X × Bool)
  waited left cb (xs, ok) = if ok then connect_wait left cb xs else some (xs, false)

  -- `cb` is the callback, `left` bounds the rounds of the wait.
  unfoldable pub connect_dom : ℕ → Option (Xs X → X × ℤ) → Xs X → ℕ → ℕ → Option (Xs X × ℤ)
  connect_dom left cb xs be_domid fe_domid =
      let dev = record xs.dev {
        be_domid = be_domid;
        fe_domid = fe_domid;
        be = be_path libc xs.dev fe_domid;
      } in
      let be = connect_be (record xs { dev = dev }) in
      let both = then_ok (then_ok be connect_fe) connect_watch in
      do r ← waited left cb both; some (ended r)
