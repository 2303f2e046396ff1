-- ===== src/Xs/Tests.antt =====
-- A small store, and what the theorems say of it.
use Prim.Native.String.{String}
use text.Mathlib.Text.{◌==◌ as str_eq}
use virtio_disk.Prelude.{
  ℕ, ◌<◌, ◌≡◌, refl, ◌⊎◌, Bool, true, false, none, some, List, [], ◌∷◌, if◌then◌else◌, arith,
}
use virtio_disk.Prelude.Int.{ℤ, pos, minus_one}
use virtio_disk.Xs.{Store, Libc, Xs, node_path, be_path, connect_dom}
use virtio_disk.Xs.Connect.{Connected, Disconnected, connect_dom-Connected}
use virtio_disk.Xs.Frontend.{
  choose_devid, fe_device, with_devid, check_devids, check_fe_exists, greatest, get_fe_domid,
}
use virtio_disk.Xs.Frontend.Once.{Listed, Rising, calls, calls-Rising, get_fe_domid_lost}

-- The state is whether the backend's state was set. No event comes.
abbrev store : Store Bool
store = record {
  read = λ x p. (
    x,
    some (
        if str_eq p "backend/virtio_disk/7/7/frontend"
        then "fe"
        else if str_eq p "fe/state"
        then "1"
        else if x
        then "2"
        else "1"),
  );
  write = λ x p v. (true, true);
  rm = λ x p. x;
  watch = λ x p t. (x, true);
  unwatch = λ x p t. x;
  directory = λ x p. (x, some ("7" ∷ []));
  read_watch = λ x. (x, none);
  poll = λ x. (x, pos 0, false);
  interrupted = λ x. false;
}

abbrev libc : Libc
libc = record {
  scan_int = λ s. some (pos (if str_eq s "2" then 2 else 1));
  print_int = λ n. "7";
  atoi = λ s. pos 7;
  strtol = λ s. (pos 7, true);
  strtoull = λ s. 7;
}

abbrev idle : Xs Bool
idle = record {
  dev = record {
    be_domid = 0;
    fe_domid = 0;
    type = "virtio_disk";
    devid_str = none;
    devid = pos 7;
    be = "";
    path = "backend/virtio_disk";
    fe = none;
    be_state = pos 0;
  };
  store = false;
  watched = [];
  curr_domid = 0;
}

known_state :
    (x : Bool) (s : String) (v : ℤ)
    → (store.read x (node_path (be_path libc idle.dev 7) "state")).1 ≡ some s
    → libc.scan_int s ≡ some v
    → (k : ℕ) × (k < 32) × (v ≡ pos k)
known_state x s v e h = (if str_eq s "2" then 2 else 1, ground arith, ground arith)

connect_dom-Connected_example :
    (xs' : Xs Bool) × (rc : ℤ) × (connect_dom store libc 4 none idle 0 7 ≡ some (xs', rc))
    × (((rc ≡ pos 0) × Connected store libc 0 7 none xs')
        ⊎ ((rc ≡ minus_one) × Disconnected store libc xs'))
connect_dom-Connected_example =
    connect_dom-Connected store libc (λ x. 0) 4 none idle 0 7 (λ x p. omega arith)
      (λ x p v. omega arith) (λ x p. omega arith) (λ x e h. ground arith) known_state refl
      (omega arith)

store-Listed : Listed store libc
store-Listed x p e = ground arith

calls-Rising_example :
    (xs' : Xs Bool) × (rcs : List ℤ) × (calls store libc (true ∷ false ∷ []) idle ≡ some (xs', rcs))
    × Rising 0 rcs
calls-Rising_example = calls-Rising store libc (true ∷ false ∷ []) idle store-Listed

-- the frontend has no node before the second call
abbrev late : Store Bool
late = record store { read = λ x p. (x, if x then some "1" else none) }

abbrev not_yet : Xs Bool
not_yet = record idle { curr_domid = 7; dev = record idle.dev { devid = pos 0 } }

lost_7 : check_fe_exists late libc (record idle { curr_domid = 7 }) 7 ≡ some (not_yet, false)
unfolding check_fe_exists check_devids with_devid fe_device choose_devid
lost_7 = refl

one_new : 0 < greatest late libc ("7" ∷ []) 0
unfolding greatest
one_new = omega arith

get_fe_domid_lost_example :
    (get_fe_domid late libc idle ≡ some (not_yet, pos 0))
    × ((xs : Xs Bool) × (calls late libc (true ∷ true ∷ []) not_yet
          ≡ some (xs, pos 0 ∷ pos 0 ∷ [])))
unfolding greatest
get_fe_domid_lost_example =
    get_fe_domid_lost late libc idle ("7" ∷ []) not_yet (true ∷ true ∷ []) refl one_new lost_7
      (refl, (refl, tt))
