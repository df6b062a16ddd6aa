-- ===== src/Utreexo/Nodes/Heaps.antt =====
-- The heap: an allocated node is found at its index, and the nodes that were there stay.
use zioncoin_poc.Prelude.{
  ℕ, zero, suc, ◌<◌, ◌≡◌, ◌∙◌, false, Bool-cases, inl, inr, Option, Option-cases, some, List, [],
  ◌∷◌, ◌++◌, arith, leb, length, get_elem?, get_elem?-append_left, get_elem?-append_self,
}
use zioncoin_poc.Prelude.Result.{ok}
use zioncoin_poc.Utreexo.Path.{Hash}
use zioncoin_poc.Utreexo.Nodes.{NodeIndex, Node, pack, Heap, node_at, allocate}
use zioncoin_poc.Utreexo.Nodes.Packing.{unpack-pack, ChildrenFit}

-- The node that `allocate` makes
abbrev pub allocated : Heap → Hash → ℕ → Option (NodeIndex × NodeIndex) → Node
allocated heap hash level children = record {
  hash = hash;
  index = length heap.storage;
  level = level;
  modified = false;
  children = children;
}

-- The heap with one more node
abbrev pub grown : Heap → Node → Heap
grown heap node = record { storage = heap.storage ++ pack node ∷ [] }

pub allocate-eq_ok :
    (heap : Heap) (hash : Hash) (level : ℕ) (children : Option (NodeIndex × NodeIndex))
    {r : Node × Heap}
    → allocate heap hash level children ≡ ok r
    → r ≡ (allocated heap hash level children, grown heap (allocated heap hash level children))
unfolding allocate
allocate-eq_ok heap hash level children e =
    elim (Bool-cases (leb (length heap.storage) 0xffffffff)) [
      | inl fits ↦ cc (rw fits at e)
      | inr full ↦ absurd (cc (rw full at e))
    ]

get_elem?-some-lt :
    {A : Type 0} (xs : List A) (i : ℕ) {x : A} → get_elem? xs i ≡ some x → i < length xs
get_elem?-some-lt [] i e = cc
get_elem?-some-lt (x ∷ xs) zero e = omega arith
get_elem?-some-lt (x ∷ xs) (suc i) e = omega (arith, get_elem?-some-lt xs i e)

-- A node that is there stays.
pub node_at-grown :
    (heap : Heap) (new_node : Node) (i : NodeIndex) {node : Node}
    → node_at heap i ≡ ok node
    → node_at (grown heap new_node) i ≡ ok node
unfolding node_at
node_at-grown heap new_node i e = elim (Option-cases (get_elem? heap.storage i)) [
  | inl nothing ↦ absurd (cc (rw nothing at e))
  | inr (p, here) ↦
      let there =
        get_elem?-append_left heap.storage (pack new_node ∷ []) i
          (get_elem?-some-lt heap.storage i here)
        ∙ here in
      rw there (rw here at e)
]

-- The new node is found at its index.
pub node_at-grown_self :
    (heap : Heap) (node : Node)
    → node.index ≡ length heap.storage
    → node.level < 64
    → ChildrenFit node.children
    → node_at (grown heap node) node.index ≡ ok node
unfolding node_at pack
node_at-grown_self heap node at_end level fit =
    rw
      (at_end, get_elem?-append_self heap.storage (pack node), ← at_end, unpack-pack node level fit)
