-- ===== src/Utreexo/Forest.antt =====
-- zkvm/src/utreexo/forest.rs: the forest, its state during an update, and the catchup structure.
-- A method with `&mut self` returns the new state. The hasher's methods are passed on by the
-- state's `hasher` field, as in the code.
pub mod Normalize
pub mod Catchup
pub mod Membership
pub mod Insertion
use zioncoin_poc.Prelude.{
  ℕ, zero, suc, ◌+◌, ◌-◌, ◌*◌, ◌/◌, ◌%◌, ◌^◌, Bool, true, false, not, ◌&&◌, Option, none, some,
  List, [], ◌∷◌, ◌++◌, reverse, map, ltb, leb, ◌==◌, if◌then◌else◌, length, get_elem?, set, take,
  drop, replicate,
}
use zioncoin_poc.Prelude.Result.{
  Result, ok, err, panic, stuck, ◌>>=◌, ◌>>◌, ensure, assert, ok_or, unwrap,
}
use zioncoin_poc.Prelude.Bytes.{bytes_eq}
use zioncoin_poc.External.{Merlin}
use zioncoin_poc.Merkle.{MerkleItem}
use zioncoin_poc.Utreexo.Path.{
  Hash, Position, Side, order, choose, ProofPath, Proof, Directions, sides, sides_rev, directions,
  zip, iter, walk_up,
}
use zioncoin_poc.Utreexo.Nodes.{
  UtreexoError, outdated_proof, invalid_proof, Outcome, NodeIndex, Node, find_root, NodeHasher,
  new_hasher, intermediate, empty, leaf, Heap, empty_heap, node_at, allocate, update, walk_down,
  traverse,
}

pub record Forest ⦃merlin : Merlin⦄ : Type 0 where
  pub generation : ℕ
  pub roots : List (Option Hash)
  pub hasher : NodeHasher

pub record WorkForest ⦃merlin : Merlin⦄ : Type 0 where
  pub generation : ℕ
  pub roots : List NodeIndex
  pub heap : Heap
  pub hasher : NodeHasher

-- `iter().enumerate()`, `filter_map` of the roots that are there
unfoldable pub enumerate {ℓ} : {A : Type ℓ} → ℕ → List A → List (ℕ × A)
enumerate i [] = []
enumerate i (x ∷ xs) = (i, x) ∷ enumerate (i + 1) xs

unfoldable pub present {ℓ} : {A : Type ℓ} → List (ℕ × Option A) → List (ℕ × A)
present [] = []
present ((level, none) ∷ roots) = present roots
present ((level, some hash) ∷ roots) = (level, hash) ∷ present roots

-- `Vec::remove` at an index that is in bounds
unfoldable pub remove_at {ℓ} : {A : Type ℓ} → ℕ → List A → List A
remove_at i [] = []
remove_at zero (x ∷ xs) = xs
remove_at (suc i) (x ∷ xs) = x ∷ remove_at i xs

-- The last parent hash of a walk, or the hash that it started from.
unfoldable pub last_parent : Hash → List (Hash × (Hash × Hash)) → Hash
last_parent hash [] = hash
last_parent hash ((parent, children) ∷ steps) = last_parent parent steps

-- `Some(hash) != self.roots[level]`
unfoldable pub hash_is : Option Hash → Hash → Bool
hash_is none hash = false
hash_is (some h) hash = bytes_eq hash h

-- `WorkForest::roots_iter`
unfoldable pub nodes_at : Heap → List NodeIndex → Outcome (List Node)
nodes_at heap [] = ok []
nodes_at heap (i ∷ is) = do node ← node_at heap i; rest ← nodes_at heap is; ok (node ∷ rest)

-- `heap.update(i, |node| node.modified = true)` down the path from `node`
unfoldable pub mark_modified : Heap → Node → List (Side × Hash) → Outcome Heap
mark_modified heap node [] = ok heap
mark_modified heap node ((side, neighbor) ∷ steps) = elim node.children [
  | none ↦ ok heap
  | some c ↦ do
    u ← update heap (choose side c.0 c.1).0 (λ n. record n { modified = true })
    mark_modified u.1 u.0 steps
]

-- The check of the path's neighbors, on the nodes that `walk_down` yields.
unfoldable pub check_neighbors : Node → List ((Node × Node) × Hash) → Outcome Node
check_neighbors parent [] = ok parent
check_neighbors parent (((node, actual), proof_neighbor) ∷ steps) =
    let rest = check_neighbors node steps in
    if bytes_eq proof_neighbor actual.hash then rest else err invalid_proof

unfoldable pub existing_node_for_path : Heap → Node → ProofPath → Outcome Node
unfolding directions
existing_node_for_path heap root path = do
  down ← walk_down heap root (sides_rev (directions path))
  check_neighbors root (zip down (reverse path.neighbors))

-- The fold of `delete` that fills in the missing nodes, from the leaf up.
unfoldable pub fill_nodes :
    Heap
    → ℕ
    → Hash
    → Option (NodeIndex × NodeIndex)
    → List (Side × (Hash × (Hash × Hash)))
    → Outcome (Hash × Option (NodeIndex × NodeIndex) × Heap)
fill_nodes heap i hash children [] = ok (hash, children, heap)
fill_nodes heap i hash children ((side, (parent, (left_hash, right_hash))) ∷ steps) = do
  let c = order side children none
  l ← allocate heap left_hash i c.0
  r ← allocate l.1 right_hash i c.1
  fill_nodes r.1 (i + 1) parent (some (l.0.index, r.0.index)) steps

-- `enumerate().find(..)` over the roots
unfoldable pub find_transient : ℕ → Hash → List Node → Option (ℕ × Node)
find_transient i hash [] = none
find_transient i hash (node ∷ nodes) =
    let rest = find_transient (i + 1) hash nodes in
    if (node.level == 0) && bytes_eq node.hash hash then some (i, node) else rest

module _ ⦃merlin : Merlin⦄ where
  unfoldable pub new_forest : Forest
  new_forest = record { generation = 0; roots = replicate 64 none; hasher = new_hasher }

  -- `Forest::roots_iter`, from the highest to the lowest level
  unfoldable pub roots_iter : Forest → List (ℕ × Hash)
  roots_iter forest = present (reverse (enumerate 0 forest.roots))

  unfoldable pub allocate_roots : Heap → List (ℕ × Hash) → Outcome (List NodeIndex × Heap)
  allocate_roots heap [] = ok ([], heap)
  allocate_roots heap ((level, hash) ∷ roots) = do
    a ← allocate heap hash level none
    rest ← allocate_roots a.1 roots
    ok (a.0.index ∷ rest.0, rest.1)

  unfoldable pub work_forest : Forest → Outcome WorkForest
  work_forest forest = do
    r ← allocate_roots empty_heap (roots_iter forest)
    ok (record { generation = forest.generation; roots = r.0; heap = r.1; hasher = forest.hasher })

  -- The fold of `Forest::root`, from the lowest root up.
  unfoldable pub fold_roots : NodeHasher → Option Hash → List (ℕ × Hash) → Option Hash
  fold_roots h acc [] = acc
  fold_roots h none ((level, hash2) ∷ roots) = fold_roots h (some hash2) roots
  fold_roots h (some hash1) ((level, hash2) ∷ roots) =
      fold_roots h (some (intermediate h hash2 hash1)) roots

  unfoldable pub or_empty : NodeHasher → Option Hash → Hash
  or_empty h none = empty h
  or_empty h (some hash) = hash

  unfoldable pub root : Forest → Hash
  unfolding fold_roots or_empty
  root forest = or_empty forest.hasher (fold_roots forest.hasher none (reverse (roots_iter forest)))

  module _ {M : Type 0} ⦃item : MerkleItem merlin.Transcript M⦄ where
    unfoldable pub verify : Forest → M → Proof → Outcome (Unit {0})
    unfolding hash_is
    verify forest x proof = do
      ensure (proof.generation == forest.generation) outdated_proof
      let path = proof.path
      top ← ok_or (find_root (λ r. r.0) path.position (roots_iter forest)) invalid_proof
      let root_level = top.0
      ensure (length path.neighbors == root_level) invalid_proof
      let hash = leaf forest.hasher x
      let current_hash =
          last_parent hash (take root_level (walk_up (intermediate forest.hasher) path hash))
      stored ← unwrap (get_elem? forest.roots root_level)
      ensure (hash_is stored current_hash) invalid_proof

    unfoldable pub insert : WorkForest → M → Outcome WorkForest
    insert f x = do
      a ← allocate f.heap (leaf f.hasher x) 0 none
      ok (record f { roots = f.roots ++ a.0.index ∷ []; heap = a.1 })

    unfoldable pub delete_transient : WorkForest → M → Outcome WorkForest
    delete_transient f x = do
      nodes ← nodes_at f.heap f.roots
      found ← ok_or (find_transient 0 (leaf f.hasher x) nodes) invalid_proof
      ensure (not found.1.modified) invalid_proof
      ok (record f { roots = remove_at found.0 f.roots })

    unfoldable pub delete : WorkForest → M → Proof → Outcome WorkForest
    delete f x proof = do
      ensure (proof.generation == f.generation) outdated_proof
      let path = proof.path
      nodes ← nodes_at f.heap f.roots
      top ← ok_or (find_root (λ node. node.level) path.position nodes) invalid_proof
      ensure (length path.neighbors == top.level) invalid_proof
      existing ← existing_node_for_path f.heap top path
      ensure (not ((existing.level == 0) && existing.modified)) invalid_proof
      let item_hash = leaf f.hasher x
      let steps = zip (sides (directions path)) (walk_up (intermediate f.hasher) path item_hash)
      filled ← fill_nodes f.heap 0 item_hash none (take existing.level steps)
      ensure (bytes_eq filled.0 existing.hash) invalid_proof
      e ← update filled.2 existing.index (λ node. record node { children = filled.1 })
      t ← update e.1 top.index (λ node. record node { modified = true })
      heap ← mark_modified t.1 t.0 (reverse (iter path))
      ok (record f { heap = heap })
