-- ===== src/Disk/Qcow/Cache.antt =====
-- The caches of disk/qcow.c: a red-black tree of nodes for searching, and a list of the same nodes
-- with the least recently used one first. The functions on level-2 tables and those on refcount
-- blocks are the same but for the type of the nodes.
--
-- A node is the number of its cell; `none` in a cell is a node that was freed. The red-black tree is
-- that of util/rbtree.c, a copy of another library: `RbTree` has the calls that the code makes, and
-- the search that the code does itself goes over a binary tree of nodes with their offsets, which
-- never change. An inserted node hangs at the leaf where the search ended until the tree is
-- balanced.
pub mod Search
use virtio_disk.Prelude.{
  ℕ, zero, suc, ◌+◌, ◌-◌, Bool, true, false, not, Option, none, some, List, [], ◌∷◌, ◌++◌, length,
  get_elem?, set, ltb, ◌==◌, if◌then◌else◌, ◌>>=◌, ◌≡◌,
}

pub record L2Table : Type 0 where
  pub offset : ℕ
  pub dirty : Bool
  pub table : List ℕ

pub record RefcountBlock : Type 0 where
  pub offset : ℕ
  pub size : ℕ
  pub dirty : Bool
  pub entries : List ℕ

-- The offset and the number of a node.
abbrev pub Node : Type 0
Node = ℕ × ℕ

pub data Tree : Type 0 where
  leaf : Tree
  node : Tree → Node → Tree → Tree

abbrev pub inorder : Tree → List Node
inorder leaf = []
inorder (node l x r) = inorder l ++ (x ∷ inorder r)

-- the nodes but for one
abbrev pub without : ℕ → List Node → List Node
without n [] = []
without n (x ∷ xs) = if x.1 == n then without n xs else x ∷ without n xs

-- rb_insert_color and rb_erase keep the nodes in order.
pub record RbTree : Type 0 where
  pub rb_insert_color : Tree → Tree
  pub rb_erase : ℕ → Tree → Tree
  pub inorder-insert_color : (t : Tree) → inorder (rb_insert_color t) ≡ inorder t
  pub inorder-erase : (n : ℕ) (t : Tree) → inorder (rb_erase n t) ≡ without n (inorder t)

pub record NodeCache (A : Type 0) : Type 0 where
  pub cells : List (Option A)
  pub root : Tree
  pub lru_list : List ℕ
  pub nr_cached : ℕ

abbrev pub max_cache_nodes : ℕ
max_cache_nodes = 32

-- The loop of l2_table_lookup and refcount_block_lookup
unfoldable pub lookup : Tree → ℕ → Option ℕ
lookup leaf offset = none
lookup (node l t r) offset =
    let left = lookup l offset in
    let right = lookup r offset in
    if ltb offset t.0 then left else if ltb t.0 offset then right else some t.1

-- The loop of l2_table_insert and refcount_block_insert, and rb_link_node: the tree with the new
-- node, or `none` if the offset is there already.
unfoldable pub link_node : Tree → Node → Option Tree
link_node leaf new = some (node leaf new leaf)
link_node (node l t r) new =
    let left = (do l' ← link_node l new; some (node l' t r)) in
    let right = (do r' ← link_node r new; some (node l t r')) in
    if ltb new.0 t.0 then left else if ltb t.0 new.0 then right else none

-- list_del, of the entry for one node
abbrev pub list_del : ℕ → List ℕ → List ℕ
list_del n [] = []
list_del n (m ∷ ms) = if m == n then ms else m ∷ list_del n ms

module _ (rb : RbTree) where
  -- An offset that is there already leaves the tree as it is; the result is 0 in any case.
  unfoldable pub insert : Tree → Node → Tree
  unfolding link_node
  insert root new = elim (link_node root new) [ none ↦ root | some t ↦ rb.rb_insert_color t ]

  module _ {A : Type 0} where
    -- cache_table and cache_refcount_block: the least recently used node goes if the cache is full.
    unfoldable pub cache_node : NodeCache A → Node → Option (NodeCache A)
    unfolding insert
    cache_node c new =
        let add = λ (c : NodeCache A). record c {
          root = insert c.root new;
          lru_list = c.lru_list ++ (new.1 ∷ []);
          nr_cached = c.nr_cached + 1;
        } in
        if c.nr_cached == max_cache_nodes
        then elim c.lru_list [
          | [] ↦ none
          | lru ∷ rest ↦ some (
              add (record c {
                cells = set c.cells lru none;
                root = rb.rb_erase lru c.root;
                lru_list = rest;
                nr_cached = c.nr_cached - 1;
              }))
        ]
        else some (add c)

module _ {A : Type 0} where
  -- l2_table_search and refcount_block_search: a node that is found becomes the most recent one.
  unfoldable pub search_node : NodeCache A → ℕ → Option (ℕ × NodeCache A)
  unfolding lookup
  search_node c offset = do
    n ← lookup c.root offset
    some (n, record c { lru_list = list_del n c.lru_list ++ (n ∷ []) })

  -- new_cache_table and new_refcount_block; memory is assumed to suffice.
  unfoldable pub new_node : NodeCache A → A → ℕ × NodeCache A
  new_node c a = (length c.cells, record c { cells = c.cells ++ (some a ∷ []) })

  unfoldable pub node_at : NodeCache A → ℕ → Option A
  node_at c n = do cell ← get_elem? c.cells n; cell

  unfoldable pub put_node : NodeCache A → ℕ → A → NodeCache A
  put_node c n a = record c { cells = set c.cells n (some a) }

  unfoldable pub free_node : NodeCache A → ℕ → NodeCache A
  free_node c n = record c { cells = set c.cells n none }

  -- l1_table_free_cache and refcount_table_free_cache
  unfoldable pub free_cache : RbTree → List ℕ → NodeCache A → NodeCache A
  unfolding free_node
  free_cache rb [] c = c
  free_cache rb (n ∷ ns) c =
      free_cache rb ns
        (free_node (record c { root = rb.rb_erase n c.root; lru_list = list_del n c.lru_list }) n)
