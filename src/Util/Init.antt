-- ===== src/Util/Init.antt =====
-- util/init.c and include/kvm/util-init.h: initializers and finalizers, in the order of priorities.
--
-- `K` is the state that they work on (struct kvm and what it reaches). An item is its function,
-- which returns a negative number if it fails.
pub mod Order
use virtio_disk.Prelude.{
  ℕ, zero, suc, ◌+◌, Bool, true, false, Option, none, some, List, [], ◌∷◌, replicate, set,
  get_elem?, if◌then◌else◌, ◌>>=◌,
}
use virtio_disk.Prelude.Int.{ℤ, pos, is_neg}

abbrev pub Item : Type 0 → Type 0
Item K = K → K × ℤ

abbrev pub priority_lists : ℕ
priority_lists = 10

module _ {K : Type 0} where
  -- init_lists and exit_lists before anything is added
  abbrev pub no_items : List (List (Item K))
  no_items = replicate priority_lists []

  -- init_list_add and exit_list_add; a priority that has no list is `none`.
  unfoldable pub list_add : List (List (Item K)) → Item K → ℕ → Option (List (List (Item K)))
  list_add lists item priority = do
    items ← get_elem? lists priority
    some (set lists priority (item ∷ items))

  -- hlist_for_each_entry; `true` is the jump to `fail`.
  unfoldable pub run_items : List (Item K) → K → ℤ → K × ℤ × Bool
  run_items [] k r = (k, r, false)
  run_items (item ∷ items) k r =
      let (k', r') = item k in
      let rest = run_items items k' r' in if is_neg r' then (k', r', true) else rest

  -- one list, and on with `next` unless it failed
  abbrev pub then_next : List (Item K) → (K → ℤ → K × ℤ) → K → ℤ → K × ℤ
  then_next items next k r =
      let (k', r', failed) = run_items items k r in if failed then (k', r') else next k' r'

  unfoldable pub run_up : List (List (Item K)) → K → ℤ → K × ℤ
  run_up [] k r = (k, r)
  run_up (items ∷ lists) k r = then_next items (run_up lists) k r

  -- `for (i = ...; i >= 0; i--)`, from the list before `left`
  unfoldable pub run_down : List (List (Item K)) → ℕ → K → ℤ → K × ℤ
  run_down lists zero k r = (k, r)
  run_down lists (suc left) k r = elim (get_elem? lists left) [
    | none ↦ (k, r)
    | some items ↦ then_next items (run_down lists left) k r
  ]

  unfoldable pub init_list_init : List (List (Item K)) → K → K × ℤ
  init_list_init lists k = run_up lists k (pos 0)

  unfoldable pub init_list_exit : List (List (Item K)) → K → K × ℤ
  init_list_exit lists k = run_down lists priority_lists k (pos 0)
