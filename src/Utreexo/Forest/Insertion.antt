-- ===== src/Utreexo/Forest/Insertion.antt =====
-- Insertion appends a leaf to the roots, and `delete_transient` takes it back.
use native.Mathlib.Nat.{add-zero, zero-add}
use zioncoin_poc.Prelude.{
  ℕ, suc, ◌+◌, ◌≡◌, ◌≢◌, refl, sym, ap, ◌∙◌, subst, Bool-cases, inl, inr, none, some, List, [], ◌∷◌,
  ◌++◌, arith, ◌&&◌, ◌==◌, length, All,
}
use zioncoin_poc.Prelude.Result.{ok, >>=-eq-ok, ok-injective}
use zioncoin_poc.Prelude.Bytes.{bytes_eq, bytes_eq→eq, bytes_eq_refl}
use zioncoin_poc.External.{Merlin}
use zioncoin_poc.Merkle.{MerkleItem}
use zioncoin_poc.Utreexo.Path.{Hash}
use zioncoin_poc.Utreexo.Nodes.{NodeIndex, Node, Heap, node_at, allocate, leaf}
use zioncoin_poc.Utreexo.Nodes.Heaps.{
  allocated, grown, allocate-eq_ok, node_at-grown, node_at-grown_self,
}
use zioncoin_poc.Utreexo.Forest.{
  WorkForest, nodes_at, insert, delete_transient, find_transient, remove_at,
}

-- Nodes that are there stay, and one more is read after them.
nodes_at-append :
    (heap : Heap) (new_node : Node) (is : List NodeIndex) (i : NodeIndex) {nodes : List Node}
    → nodes_at heap is ≡ ok nodes
    → node_at (grown heap new_node) i ≡ ok new_node
    → nodes_at (grown heap new_node) (is ++ i ∷ []) ≡ ok (nodes ++ new_node ∷ [])
unfolding nodes_at
nodes_at-append heap new_node [] i {nodes} e h =
    let none_before : [] ≡ nodes = cc e in rw (h, ← none_before)
nodes_at-append heap new_node (j ∷ is) i {nodes} e h =
    let (node, here, e1) = >>=-eq-ok (node_at heap j) _ e in
    let (rest, there, e2) = >>=-eq-ok (nodes_at heap is) _ e1 in
    let whole : (node ∷ rest) ≡ nodes = cc e2 in
    rw (node_at-grown heap new_node j here, nodes_at-append heap new_node is i there h, ← whole)

-- No leaf among the nodes has this hash.
abbrev pub NoLeaf : Hash → List Node → Type 0
NoLeaf hash = All (λ (node : Node). node.level ≡ 0 → node.hash ≢ hash)

find_transient-append :
    (i : ℕ) (hash : Hash) (nodes : List Node) (new_node : Node)
    → NoLeaf hash nodes
    → new_node.level ≡ 0
    → new_node.hash ≡ hash
    → find_transient i hash (nodes ++ new_node ∷ []) ≡ some (i + length nodes, new_node)
unfolding find_transient
find_transient-append i hash [] new_node fresh level same =
    rw (level, same, bytes_eq_refl hash, add-zero i)
find_transient-append i hash (node ∷ nodes) new_node fresh level same =
    elim (Bool-cases ((node.level == 0) && bytes_eq node.hash hash)) [
      | inl hit ↦ absurd (ground (arith, fresh.0, bytes_eq→eq node.hash hash))
      | inr miss ↦
          rw (miss, find_transient-append (i + 1) hash nodes new_node fresh.1 level same)
            (ap (λ n. some (n, new_node)) (omega arith))
    ]

remove_at-append : (is : List NodeIndex) (i : NodeIndex) → remove_at (length is) (is ++ i ∷ []) ≡ is
unfolding remove_at
remove_at-append [] i = refl
remove_at-append (j ∷ is) i = ap (λ x. j ∷ x) (remove_at-append is i)

length-nodes_at :
    (heap : Heap) (is : List NodeIndex) {nodes : List Node}
    → nodes_at heap is ≡ ok nodes
    → length nodes ≡ length is
unfolding nodes_at
length-nodes_at heap [] {nodes} e = let nothing : [] ≡ nodes = cc e in rw (← nothing)
length-nodes_at heap (j ∷ is) {nodes} e =
    let (node, here, e1) = >>=-eq-ok (node_at heap j) _ e in
    let (rest, there, e2) = >>=-eq-ok (nodes_at heap is) _ e1 in
    let whole : (node ∷ rest) ≡ nodes = cc e2 in
    rw (← whole) (ap suc (length-nodes_at heap is there))

module _ ⦃merlin : Merlin⦄ {M : Type 0} ⦃item : MerkleItem merlin.Transcript M⦄ where
  -- The node that `insert` makes
  abbrev pub new_leaf : WorkForest → M → Node
  new_leaf f x = allocated f.heap (leaf f.hasher x) 0 none

  -- The forest with it
  abbrev inserted : WorkForest → M → WorkForest
  inserted f x = record f {
    roots = f.roots ++ (new_leaf f x).index ∷ [];
    heap = grown f.heap (new_leaf f x);
  }

  insert-eq_ok : (f : WorkForest) (x : M) {f' : WorkForest} → insert f x ≡ ok f' → inserted f x ≡ f'
  unfolding insert
  insert-eq_ok f x {f'} e =
      let (a, ea, e1) = >>=-eq-ok (allocate f.heap (leaf f.hasher x) 0 none) _ e in
      let made = allocate-eq_ok f.heap (leaf f.hasher x) 0 none ea in
      ap (λ (p : Node × Heap). record f { roots = f.roots ++ p.0.index ∷ []; heap = p.1 })
        (sym made)
      ∙ ok-injective e1

  nodes_at-inserted :
      (f : WorkForest) (x : M) (nodes : List Node)
      → nodes_at f.heap f.roots ≡ ok nodes
      → nodes_at (inserted f x).heap (inserted f x).roots ≡ ok (nodes ++ new_leaf f x ∷ [])
  nodes_at-inserted f x nodes e =
      nodes_at-append f.heap (new_leaf f x) f.roots (new_leaf f x).index e
        (node_at-grown_self f.heap (new_leaf f x) refl (omega arith) tt)

  delete_transient-inserted :
      (f : WorkForest) (x : M) (nodes : List Node)
      → nodes_at f.heap f.roots ≡ ok nodes
      → NoLeaf (leaf f.hasher x) nodes
      → delete_transient (inserted f x) x ≡ ok (record (inserted f x) { roots = f.roots })
  unfolding delete_transient
  delete_transient-inserted f x nodes e fresh = rw (
    nodes_at-inserted f x nodes e,
    find_transient-append 0 (leaf f.hasher x) nodes (new_leaf f x) fresh refl refl,
    zero-add,
    length-nodes_at f.heap f.roots e,
    remove_at-append f.roots (new_leaf f x).index,
  )

  -- `insert` keeps the roots that are there, with their nodes, and appends a leaf with the hash of
  -- the item, which is not marked as modified.
  pub nodes_at-insert :
      (f : WorkForest) (x : M) (nodes : List Node) (f' : WorkForest)
      → nodes_at f.heap f.roots ≡ ok nodes
      → insert f x ≡ ok f'
      → nodes_at f'.heap f'.roots ≡ ok (nodes ++ new_leaf f x ∷ [])
  nodes_at-insert f x nodes f' e h =
      subst (λ (g : WorkForest). nodes_at g.heap g.roots ≡ ok (nodes ++ new_leaf f x ∷ []))
        (insert-eq_ok f x h) (nodes_at-inserted f x nodes e)

  -- An item whose hash no leaf among the roots has is taken back by `delete_transient` right after
  -- its insertion, which restores the roots.
  pub delete_transient-insert :
      (f : WorkForest) (x : M) (nodes : List Node) (f' : WorkForest)
      → nodes_at f.heap f.roots ≡ ok nodes
      → NoLeaf (leaf f.hasher x) nodes
      → insert f x ≡ ok f'
      → delete_transient f' x ≡ ok (record f' { roots = f.roots })
  delete_transient-insert f x nodes f' e fresh h =
      subst (λ (g : WorkForest). delete_transient g x ≡ ok (record g { roots = f.roots }))
        (insert-eq_ok f x h) (delete_transient-inserted f x nodes e fresh)
