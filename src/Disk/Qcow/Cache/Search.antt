-- ===== src/Disk/Qcow/Cache/Search.antt =====
-- The search of the tree against the nodes in order.
use virtio_disk.Prelude.{
  ℕ, suc, ◌≤◌, ◌<◌, ◌≡◌, refl, sym, ap, ◌∙◌, inl, inr, Option, none, some, List, [], ◌∷◌, ◌++◌, ltb,
  ◌==◌, if◌then◌else◌, arith, dec_lt, Option-cases, lt→ltb, le→ltb,
}
use virtio_disk.Disk.Qcow.Cache.{Node, Tree, leaf, node, inorder, RbTree, lookup, link_node, insert}

-- Offsets that rise from a number on.
abbrev pub Rising : ℕ → List Node → Type 0
Rising lo [] = Unit {0}
Rising lo (x ∷ xs) = (lo ≤ x.0) × Rising (suc x.0) xs

abbrev pub Below : ℕ → List Node → Type 0
Below hi [] = Unit {0}
Below hi (x ∷ xs) = (x.0 < hi) × Below hi xs

-- The node with an offset, in a list.
abbrev pub find : ℕ → List Node → Option ℕ
find k [] = none
find k (x ∷ xs) = if x.0 == k then some x.1 else find k xs

module _ (x : Node) (ys : List Node) where
  Rising-append :
      (lo : ℕ) (xs : List Node)
      → Rising lo (xs ++ (x ∷ ys))
      → Rising lo xs × Below x.0 xs × (lo ≤ x.0) × Rising (suc x.0) ys
  Rising-append lo [] r = (tt, tt, r.0, r.1)
  Rising-append lo (z ∷ zs) r =
      let (a, b, c, d) = Rising-append (suc z.0) zs r.1 in
      ((r.0, a), (omega arith, b), omega arith, d)

find-Rising : (k lo : ℕ) (xs : List Node) → Rising lo xs → k < lo → find k xs ≡ none
find-Rising k lo [] r h = refl
find-Rising k lo (x ∷ xs) r h = ground (arith, find-Rising k (suc x.0) xs r.1)

find-Below : (k hi : ℕ) (xs ys : List Node) → Below hi xs → hi ≤ k → find k (xs ++ ys) ≡ find k ys
find-Below k hi [] ys b h = refl
find-Below k hi (x ∷ xs) ys b h = ground (arith, find-Below k hi xs ys b.1)

find-append : (k : ℕ) (xs ys : List Node) → find k ys ≡ none → find k (xs ++ ys) ≡ find k xs
find-append k [] ys e = e
find-append k (x ∷ xs) ys e = ground (arith, find-append k xs ys e)

-- l2_table_lookup and refcount_block_lookup find in a search tree just what is in it.
pub lookup-find : (t : Tree) (lo k : ℕ) → Rising lo (inorder t) → lookup t k ≡ find k (inorder t)
unfolding lookup
lookup-find leaf lo k r = refl
lookup-find (node l x t) lo k r =
    let (left, below, at, right) = Rising-append x (inorder t) lo (inorder l) r in
    elim (dec_lt k x.0) [
      | yes h ↦ ground (
        arith,
        lookup-find l lo k left,
        find-append k (inorder l) (x ∷ inorder t),
        find-Rising k (suc x.0) (inorder t) right,
      )
      | no h ↦ ground (
        arith,
        lookup-find t (suc x.0) k right,
        find-Below k x.0 (inorder l) (x ∷ inorder t) below,
      )
    ]

-- A node put into its place in a list.
abbrev pub put : Node → List Node → List Node
put new [] = new ∷ []
put new (x ∷ xs) = if ltb new.0 x.0 then new ∷ x ∷ xs else x ∷ put new xs

put-Below :
    (new : Node) (hi : ℕ) (xs ys : List Node)
    → Below hi xs
    → hi ≤ new.0
    → put new (xs ++ ys) ≡ xs ++ put new ys
put-Below new hi [] ys b h = refl
put-Below new hi (x ∷ xs) ys b h = ground (arith, put-Below new hi xs ys b.1)

put-append :
    (new x : Node) (xs ys : List Node)
    → new.0 < x.0
    → put new (xs ++ (x ∷ ys)) ≡ put new xs ++ (x ∷ ys)
put-append new x [] ys h = ground arith
put-append new x (z ∷ zs) ys h = ground (arith, put-append new x zs ys)

-- The node is linked in its place.
inorder-link_node :
    (t : Tree) (lo : ℕ) (new : Node) {t' : Tree}
    → Rising lo (inorder t)
    → link_node t new ≡ some t'
    → inorder t' ≡ put new (inorder t)
unfolding link_node
inorder-link_node leaf lo new r e = ground arith
inorder-link_node (node l x t) lo new {t'} r e =
    let (left, below, at, right) = Rising-append x (inorder t) lo (inorder l) r in
    elim (dec_lt new.0 x.0) [
      | yes h ↦ elim (Option-cases (link_node l new)) [
        | inl missing ↦ absurd (ground arith)
        | inr (l', run) ↦
            let same : node l' x t ≡ t' = ground arith in
            ap inorder (sym same)
            ∙ ap (λ xs. xs ++ (x ∷ inorder t)) (inorder-link_node l lo new left run)
            ∙ sym (put-append new x (inorder l) (inorder t) h)
      ]
      | no h ↦ elim (Option-cases (link_node t new)) [
        | inl missing ↦ absurd (ground arith)
        | inr (r', run) ↦
            let after : x.0 < new.0 = ground arith in
            let same : node l x r' ≡ t' = ground arith in
            let here : put new (x ∷ inorder t) ≡ x ∷ put new (inorder t) =
              rw (le→ltb new.0 x.0 (omega arith)) in
            ap inorder (sym same)
            ∙ ap (λ xs. inorder l ++ (x ∷ xs)) (inorder-link_node t (suc x.0) new right run)
            ∙ sym (
                put-Below new x.0 (inorder l) (x ∷ inorder t) below (omega arith)
                ∙ ap (λ xs. inorder l ++ xs) here)
      ]
    ]

find-put :
    (k : ℕ) (new : Node) (lo : ℕ) (xs : List Node)
    → Rising lo xs
    → find new.0 xs ≡ none
    → find k (put new xs) ≡ (if new.0 == k then some new.1 else find k xs)
find-put k new lo [] r e = refl
find-put k new lo (x ∷ xs) r e =
    ground (arith, find-put k new (suc x.0) xs r.1, find-Rising k (suc x.0) xs r.1)

Rising-put :
    (new : Node) (lo : ℕ) (xs : List Node)
    → Rising lo xs
    → lo ≤ new.0
    → find new.0 xs ≡ none
    → Rising lo (put new xs)
Rising-put new lo [] r h e = (h, tt)
Rising-put new lo (x ∷ xs) r h e = elim (dec_lt new.0 x.0) [
  | yes lt ↦ rw (lt→ltb new.0 x.0 lt) (h, (omega arith, r.1))
  | no ge ↦
      let after : x.0 < new.0 = ground arith in
      rw (le→ltb new.0 x.0 (omega arith))
        (r.0, Rising-put new (suc x.0) xs r.1 after (ground arith))
]

link_node-some :
    (t : Tree) (new : Node) → lookup t new.0 ≡ none → (t' : Tree) × (link_node t new ≡ some t')
unfolding lookup link_node
link_node-some leaf new e = (node leaf new leaf, refl)
link_node-some (node l x t) new e = elim (dec_lt new.0 x.0) [
  | yes h ↦
      let (l', run) = link_node-some l new (ground arith) in
      (node l' x t, rw (lt→ltb new.0 x.0 h, run))
  | no h ↦
      let after : x.0 < new.0 = ground arith in
      let (r', run) = link_node-some t new (ground arith) in
      (node l x r', rw (le→ltb new.0 x.0 (omega arith), lt→ltb x.0 new.0 after, run))
]

insert-link_node :
    (rb : RbTree) (root : Tree) (new : Node) {t' : Tree}
    → link_node root new ≡ some t'
    → insert rb root new ≡ rb.rb_insert_color t'
unfolding insert
insert-link_node rb root new e = ground arith

-- A node with an offset that is not in a search tree is found after its insertion, the others are
-- found as before, and the tree stays a search tree: l2_table_insert and refcount_block_insert
-- against l2_table_lookup and refcount_block_lookup.
pub lookup-insert :
    (rb : RbTree) (root : Tree) (new : Node)
    → Rising 0 (inorder root)
    → lookup root new.0 ≡ none
    → Rising 0 (inorder (insert rb root new))
      × ((k : ℕ)
          → lookup (insert rb root new) k ≡ (if new.0 == k then some new.1 else lookup root k))
lookup-insert rb root new r absent =
    let (t', run) = link_node-some root new absent in
    let missing = sym (lookup-find root 0 new.0 r) ∙ absent in
    let order : inorder (rb.rb_insert_color t') ≡ put new (inorder root) =
      rb.inorder-insert_color t' ∙ inorder-link_node root 0 new r run in
    let rises : Rising 0 (inorder (rb.rb_insert_color t')) =
      rw order (Rising-put new 0 (inorder root) r (omega arith) missing) in
    rw (insert-link_node rb root new run) (
      rises,
      λ k.
          lookup-find (rb.rb_insert_color t') 0 k rises
          ∙ ap (find k) order
          ∙ find-put k new 0 (inorder root) r missing
          ∙ ap (λ o. if new.0 == k then some new.1 else o) (sym (lookup-find root 0 k r)),
    )
