-- ===== src/Utreexo/Forest/Normalize.antt =====
-- zkvm/src/utreexo/forest.rs: `WorkForest::normalize` and `Forest::update`.
use zioncoin_poc.Prelude.{
  ℕ, zero, suc, ◌+◌, ◌%◌, ◌^◌, true, Option, none, some, List, [], ◌∷◌, reverse, if◌then◌else◌,
  length, get_elem?, set, replicate,
}
use zioncoin_poc.Prelude.Result.{ok, stuck, ◌>>=◌, ◌>>◌, unwrap, assert}
use zioncoin_poc.Prelude.{ltb}
use zioncoin_poc.External.{Merlin}
use zioncoin_poc.Utreexo.Path.{Hash, Position}
use zioncoin_poc.Utreexo.Nodes.{
  Outcome, NodeIndex, Node, NodeHasher, intermediate, Heap, empty_heap, node_at, allocate, traverse,
}
use zioncoin_poc.Utreexo.Forest.{Forest, WorkForest, nodes_at, work_forest}
use zioncoin_poc.Utreexo.Forest.Catchup.{Catchup}

-- `[Option<NodeIndex>; 64]`
abbrev pub RootSlots : Type 0
RootSlots = List (Option NodeIndex)

-- The `filter_map` of `normalize`: hash and level of the nodes that were not modified.
unfoldable pub non_modified : List (Position × Node) → List (Hash × ℕ)
non_modified [] = []
non_modified ((offset, node) ∷ nodes) =
    let rest = non_modified nodes in if node.modified then rest else (node.hash, node.level) ∷ rest

-- The assignment `roots[i] = v`, which panics out of bounds
unfoldable pub set_root {ℓ} :
    {A : Type ℓ} → List (Option A) → ℕ → Option A → Outcome (List (Option A))
set_root roots i v = do assert (ltb i (length roots)); ok (set roots i v)

-- `iter().filter_map(|r| *r)`
unfoldable pub filled {ℓ} : {A : Type ℓ} → List (Option A) → List A
filled [] = []
filled (none ∷ roots) = filled roots
filled (some r ∷ roots) = r ∷ filled roots

-- The fold that reads the roots' hashes.
unfoldable pub root_hashes : Heap → List (Option Hash) → RootSlots → Outcome (List (Option Hash))
root_hashes heap roots [] = ok roots
root_hashes heap roots (none ∷ slots) = root_hashes heap roots slots
root_hashes heap roots (some ni ∷ slots) = do
  node ← node_at heap ni
  roots' ← set_root roots node.level (some node.hash)
  root_hashes heap roots' slots

-- The fold that fills the map: nodes with no children, with their offsets.
unfoldable pub catchup_map :
    List (Hash × Position) → List (Position × Node) → List (Hash × Position)
catchup_map entries [] = entries
catchup_map entries ((offset, node) ∷ nodes) = elim node.children [
  | none ↦ catchup_map ((node.hash, offset) ∷ entries) nodes
  | some c ↦ catchup_map entries nodes
]

module _ ⦃merlin : Merlin⦄ where
  -- The `while let` loop: the node joins the root in its slot, until the slot is free. Each round
  -- is a level higher, so one round for each slot and one more are enough.
  unfoldable pub join_roots : ℕ → NodeHasher → Heap → RootSlots → Node → Outcome (Heap × RootSlots)
  join_roots zero h heap roots node = stuck
  join_roots (suc fuel) h heap roots node = do
    slot ← unwrap (get_elem? roots node.level)
    elim slot [
      | none ↦ do roots' ← set_root roots node.level (some node.index); ok (heap, roots')
      | some i ↦ do
        left ← node_at heap i
        joined ←
            allocate heap (intermediate h left.hash node.hash) (left.level + 1)
              (some (left.index, node.index))
        roots' ← set_root roots left.level none
        join_roots fuel h joined.1 roots' joined.0
    ]

  -- The fold of `normalize` over the nodes that were not modified.
  unfoldable pub perfect_roots :
      NodeHasher → Heap → RootSlots → List (Hash × ℕ) → Outcome (Heap × RootSlots)
  perfect_roots h heap roots [] = ok (heap, roots)
  perfect_roots h heap roots ((hash, level) ∷ nodes) = do
    a ← allocate heap hash level none
    j ← join_roots 65 h a.1 roots a.0
    perfect_roots h j.0 j.1 nodes

  unfoldable pub normalize : WorkForest → Outcome (Forest × Catchup)
  normalize f = do
    nodes ← nodes_at f.heap f.roots
    old ← traverse f.heap nodes (λ n. n.modified)
    new ← perfect_roots f.hasher empty_heap (replicate 64 none) (non_modified old)
    let generation = (f.generation + 1) % 2 ^ 64
    let new_forest : WorkForest = record {
      generation = generation;
      roots = filled (reverse new.1);
      heap = new.0;
      hasher = f.hasher;
    }
    utreexo_roots ← root_hashes new.0 (replicate 64 none) new.1
    let utreexo : Forest = record {
      generation = generation;
      roots = utreexo_roots;
      hasher = f.hasher;
    }
    new_nodes ← nodes_at new_forest.heap new_forest.roots
    all ← traverse new_forest.heap new_nodes (λ n. true)
    ok (utreexo, record { forest = new_forest; map = catchup_map [] all })

  -- `Forest::update`
  unfoldable pub update_forest :
      {A : Type 0}
      → Forest
      → (WorkForest → Outcome (A × WorkForest))
      → Outcome (A × Forest × Catchup)
  update_forest forest closure = do
    f ← work_forest forest
    r ← closure f
    n ← normalize r.1
    ok (r.0, n.0, n.1)
