-- ===== src/Util/Init/Order.antt =====
-- The order of initializers and finalizers.
use mathlib.Core.Path.{fun_ext, subst}
use virtio_disk.Prelude.{
  ℕ, zero, suc, ◌+◌, ◌≤◌, ◌<◌, ◌≡◌, refl, sym, ap, ◌∙◌, Bool, true, false, Option, some, List, [],
  ◌∷◌, ◌++◌, set, get_elem?, ◌==◌, if◌then◌else◌, ◌>>=◌, arith, inl, inr, Bool-cases,
}
use virtio_disk.Prelude.Int.{ℤ, pos, is_neg}
use virtio_disk.Util.Init.{
  Item, priority_lists, no_items, list_add, run_items, then_next, run_up, run_down, init_list_init,
  init_list_exit,
}

-- what was added, the last one first
abbrev pub Added : Type 0 → Type 0
Added K = List (ℕ × Item K)

module _ {K : Type 0} where
  abbrev pub add_all : Added K → Option (List (List (Item K)))
  add_all [] = some no_items
  add_all ((priority, item) ∷ older) = do lists ← add_all older; list_add lists item priority

  -- the items of one priority, the last one first
  abbrev pub of_priority : ℕ → Added K → List (Item K)
  of_priority p [] = []
  of_priority p ((priority, item) ∷ older) =
      if priority == p then item ∷ of_priority p older else of_priority p older

  -- those of `n` priorities from `p` on: upwards, and downwards
  abbrev pub upwards : ℕ → ℕ → Added K → List (Item K)
  upwards zero p added = []
  upwards (suc n) p added = of_priority p added ++ upwards n (suc p) added

  abbrev pub downwards : ℕ → Added K → List (Item K)
  downwards zero added = []
  downwards (suc p) added = of_priority p added ++ downwards p added

  -- What the calls of a sequence of items return, each called on what the one before left, as far as
  -- the first that fails.
  abbrev pub called : List (Item K) → K → List (K × ℤ)
  called [] k = []
  called (item ∷ items) k = item k ∷ (if is_neg (item k).1 then [] else called items (item k).0)

  -- what the last of the calls returned, if there was one
  abbrev pub last_of : List (K × ℤ) → K → ℤ → K × ℤ
  last_of [] k r = (k, r)
  last_of ((k', r') ∷ rest) k r = last_of rest k' r'

  abbrev pub until_failure : List (Item K) → K → K × ℤ
  until_failure items k = last_of (called items k) k (pos 0)

  -- the lists from priority `p` on
  table : ℕ → ℕ → Added K → List (List (Item K))
  table zero p added = []
  table (suc n) p added = of_priority p added ∷ table n (suc p) added

  get_elem?-table :
      (n p i q : ℕ) (added : Added K)
      → i < n
      → p + i ≡ q
      → get_elem? (table n p added) i ≡ some (of_priority q added)
  unfolding table
  get_elem?-table zero p i q added h e = absurd (omega arith)
  get_elem?-table (suc n) p zero q added h e = ap (λ q. some (of_priority q added)) (omega arith)
  get_elem?-table (suc n) p (suc i) q added h e =
      get_elem?-table n (suc p) i q added (omega arith) (omega arith)

  of_priority-other :
      (p q : ℕ) (item : Item K) (added : Added K)
      → (q == p) ≡ false
      → of_priority p ((q, item) ∷ added) ≡ of_priority p added
  of_priority-other p q item added h = rw h refl

  table-other :
      (n p q : ℕ) (item : Item K) (added : Added K)
      → q < p
      → table n p ((q, item) ∷ added) ≡ table n p added
  unfolding table
  table-other zero p q item added h = refl
  table-other (suc n) p q item added h =
      let differs : (q == p) ≡ false = ground arith in
      rw differs
        (ap (λ ls. of_priority p added ∷ ls) (table-other n (suc p) q item added (omega arith)))

  set-table_first :
      (n p : ℕ) (item : Item K) (added : Added K)
      → set (table (suc n) p added) 0 (item ∷ of_priority p added)
        ≡ table (suc n) p ((p, item) ∷ added)
  unfolding table
  set-table_first n p item added =
      let test : (p == p) ≡ true = ground arith in
      rw test (
        ap (λ ls. (item ∷ of_priority p added) ∷ ls)
          (sym (table-other n (suc p) p item added (omega arith))))

  set-table :
      (n p i q : ℕ) (item : Item K) (added : Added K)
      → i < n
      → p + i ≡ q
      → set (table n p added) i (item ∷ of_priority q added) ≡ table n p ((q, item) ∷ added)
  unfolding table
  set-table zero p i q item added h e = absurd (omega arith)
  set-table (suc n) p zero q item added h e =
      let same : p ≡ q = omega arith in
      subst
        (λ q.
          set (table (suc n) p added) 0 (item ∷ of_priority q added)
          ≡ table (suc n) p ((q, item) ∷ added))
        same (set-table_first n p item added)
  set-table (suc n) p (suc i) q item added h e =
      let differs : (q == p) ≡ false = ground arith in
      rw differs (
        ap (λ ls. of_priority p added ∷ ls)
          (set-table n (suc p) i q item added (omega arith) (omega arith)))

  -- every priority has a list
  abbrev pub InLists : Added K → Type 0
  InLists [] = 0 < priority_lists
  InLists ((q, item) ∷ older) = (q < priority_lists) × InLists older

  list_add-table :
      (n q : ℕ) (item : Item K) (older : Added K)
      → q < n
      → list_add (table n 0 older) item q ≡ some (table n 0 ((q, item) ∷ older))
  unfolding list_add
  list_add-table n q item older h =
      rw (get_elem?-table n 0 q q older h (omega arith))
        (ap some (set-table n 0 q q item older h (omega arith)))

  add_all-table :
      (added : Added K) → InLists added → add_all added ≡ some (table priority_lists 0 added)
  unfolding table
  add_all-table [] h = refl
  add_all-table ((q, item) ∷ older) (h, hs) =
      ap (λ o. o >>= (λ lists. list_add lists item q)) (add_all-table older hs)
      ∙ list_add-table priority_lists q item older h

  dropped : K × ℤ × Bool → K × ℤ
  dropped (k, r, failed) = (k, r)

  run_items-append :
      (xs ys : List (Item K)) (k : K) (r : ℤ)
      → dropped (run_items (xs ++ ys) k r) ≡ then_next xs (λ k r. dropped (run_items ys k r)) k r
  unfolding run_items dropped
  run_items-append [] ys k r = refl
  run_items-append (item ∷ xs) ys k r = elim (Bool-cases (is_neg (item k).1)) [
    | inl e ↦ rw e refl
    | inr e ↦ rw e (run_items-append xs ys (item k).0 (item k).1)
  ]

  run_items-called :
      (items : List (Item K)) (k : K) (r : ℤ)
      → dropped (run_items items k r) ≡ last_of (called items k) k r
  unfolding run_items dropped
  run_items-called [] k r = refl
  run_items-called (item ∷ items) k r = elim (Bool-cases (is_neg (item k).1)) [
    | inl e ↦ rw e refl
    | inr e ↦ rw e (run_items-called items (item k).0 (item k).1)
  ]

  run_up-upwards :
      (n p : ℕ) (added : Added K) (k : K) (r : ℤ)
      → run_up (table n p added) k r ≡ dropped (run_items (upwards n p added) k r)
  unfolding run_up run_items table dropped
  run_up-upwards zero p added k r = refl
  run_up-upwards (suc n) p added k r =
      ap (λ next. then_next (of_priority p added) next k r)
        (fun_ext (λ k. fun_ext (λ r. run_up-upwards n (suc p) added k r)))
      ∙ sym (run_items-append (of_priority p added) (upwards n (suc p) added) k r)

  run_down-downwards :
      (n left : ℕ) (added : Added K) (k : K) (r : ℤ)
      → left ≤ n
      → run_down (table n 0 added) left k r ≡ dropped (run_items (downwards left added) k r)
  unfolding run_down run_items dropped
  run_down-downwards n zero added k r h = refl
  run_down-downwards n (suc left) added k r h =
      rw (run_down, get_elem?-table n 0 left left added (omega arith) (omega arith))
        (ap (λ next. then_next (of_priority left added) next k r)
            (fun_ext (λ k. fun_ext (λ r. run_down-downwards n left added k r (omega arith))))
          ∙ sym (run_items-append (of_priority left added) (downwards left added) k r))

  -- Functions added at priorities below ten, in any order, are called by init_list__init from the
  -- lowest priority to the highest, and by init_list__exit from the highest to the lowest, within a
  -- priority the last one added first, each until one of them fails; the result is what the last
  -- function called returned, or 0.
  pub init_list-order :
      (added : Added K)
      → InLists added
      → (lists : List (List (Item K))) × (add_all added ≡ some lists)
        × ((k : K) → init_list_init lists k ≡ until_failure (upwards priority_lists 0 added) k)
        × ((k : K) → init_list_exit lists k ≡ until_failure (downwards priority_lists added) k)
  unfolding init_list_init init_list_exit
  init_list-order added h = (
    table priority_lists 0 added,
    add_all-table added h,
    λ k.
        run_up-upwards priority_lists 0 added k (pos 0)
        ∙ run_items-called (upwards priority_lists 0 added) k (pos 0),
    λ k.
        run_down-downwards priority_lists priority_lists added k (pos 0) (omega arith)
        ∙ run_items-called (downwards priority_lists added) k (pos 0),
  )
