-- ===== src/Utreexo/Nodes.antt =====
-- zkvm/src/utreexo/nodes.rs: nodes, their packed form, the hasher, and the heap of nodes.
-- An index that is out of the heap's bounds panics.
pub mod Packing
pub mod Heaps
pub mod Roots
use Prim.Native.Nat.{bit_and}
use zioncoin_poc.Prelude.{
  ℕ, zero, suc, ◌+◌, ◌*◌, ◌/◌, ◌%◌, ◌^◌, Bool, true, false, Option, none, some, List, [], ◌∷◌, ◌++◌,
  ltb, leb, ◌==◌, if◌then◌else◌, length, get_elem?, set,
}
use zioncoin_poc.Prelude.Result.{Result, ok, err, panic, stuck, ◌>>=◌, ◌>>◌, assert, unwrap}
use zioncoin_poc.External.{Merlin}
use zioncoin_poc.Merkle.{MerkleItem}
use zioncoin_poc.Utreexo.Path.{Hash, Position, Side, choose}

pub data UtreexoError : Type 0 where
  outdated_proof invalid_proof : UtreexoError

abbrev pub Outcome {ℓ} : Type ℓ → Type ℓ
Outcome = Result UtreexoError

abbrev pub NodeIndex : Type 0
NodeIndex = ℕ

pub record Node : Type 0 where
  pub hash : Hash
  pub index : NodeIndex
  pub level : ℕ
  pub modified : Bool
  pub children : Option (NodeIndex × NodeIndex)

unfoldable pub capacity : Node → ℕ
capacity node = 2 ^ node.level

-- `offset` is a u64, and `level` is below 64.
module _ {I : Type 0} (level : I → ℕ) (position : Position) where
  unfoldable pub find_root_from : ℕ → List I → Option I
  find_root_from offset [] = none
  find_root_from offset (item ∷ roots) =
      let offset' = (offset + 2 ^ level item) % 2 ^ 64 in
      let rest = find_root_from offset' roots in if ltb position offset' then some item else rest

  unfoldable pub find_root : List I → Option I
  unfolding find_root_from
  find_root roots = find_root_from 0 roots

-- `flags` is a byte: 6 bits for the level, one for `modified`, one for "has children".
pub record PackedNode : Type 0 where
  pub hash : Hash
  pub flags : ℕ
  pub children : ℕ × ℕ

child_flag : Option (NodeIndex × NodeIndex) → ℕ
child_flag none = 0
child_flag (some c) = 128

packed_children : Option (NodeIndex × NodeIndex) → ℕ × ℕ
packed_children none = (0xffffffff, 0xffffffff)
packed_children (some (l, r)) = (l % 2 ^ 32, r % 2 ^ 32)

unfoldable pub pack : Node → PackedNode
unfolding child_flag packed_children
pack node = record {
  hash = node.hash;
  flags = (node.level % 256 + (if node.modified then 64 else 0) + child_flag node.children) % 256;
  children = packed_children node.children;
}

unfoldable pub unpack : PackedNode → NodeIndex → Node
unpack p index = record {
  hash = p.hash;
  index = index;
  level = bit_and p.flags 63;
  modified = bit_and p.flags 64 == 64;
  children = if bit_and p.flags 128 == 0 then none else some p.children;
}

-- The transcript that every hash starts from.
pub record NodeHasher ⦃merlin : Merlin⦄ : Type 0 where
  pub t : merlin.Transcript

module _ ⦃merlin : Merlin⦄ where
  open merlin use {Transcript, new, append_message, challenge_bytes}

  unfoldable pub new_hasher : NodeHasher
  new_hasher = record { t = new "ZkVM.utreexo" }

  unfoldable pub intermediate : NodeHasher → Hash → Hash → Hash
  intermediate h l r =
      (challenge_bytes "merkle.node" 32 (append_message "R" r (append_message "L" l h.t))).0

  unfoldable pub empty : NodeHasher → Hash
  empty h = (challenge_bytes "merkle.empty" 32 h.t).0

  module _ {M : Type 0} ⦃item : MerkleItem Transcript M⦄ where
    unfoldable pub leaf : NodeHasher → M → Hash
    leaf h x = (challenge_bytes "merkle.leaf" 32 (item.commit x h.t)).0

pub record Heap : Type 0 where
  pub storage : List PackedNode

abbrev pub empty_heap : Heap
empty_heap = record { storage = [] }

unfoldable pub node_at : Heap → NodeIndex → Outcome Node
unfolding unpack
node_at heap i = do p ← unwrap (get_elem? heap.storage i); ok (unpack p i)

unfoldable pub len : Heap → ℕ
len heap = length heap.storage

unfoldable pub allocate : Heap → Hash → ℕ → Option (NodeIndex × NodeIndex) → Outcome (Node × Heap)
unfolding pack
allocate heap hash level children = do
  assert (leb (length heap.storage) 0xffffffff)
  let node : Node = record {
    hash = hash;
    index = length heap.storage;
    level = level;
    modified = false;
    children = children;
  }
  ok (node, record { storage = heap.storage ++ pack node ∷ [] })

unfoldable pub update : Heap → NodeIndex → (Node → Node) → Outcome (Node × Heap)
unfolding pack node_at
update heap i closure = do
  node ← node_at heap i
  let node' = closure node
  ok (node', record { storage = set heap.storage i (pack node') })

-- `Heap::walk_down` from the root's children: each node on the way with its neighbor.
unfoldable pub walk_down_from :
    Heap → List Side → Option (NodeIndex × NodeIndex) → Outcome (List (Node × Node))
unfolding node_at choose
walk_down_from heap [] children = ok []
walk_down_from heap (side ∷ sides) none = ok []
walk_down_from heap (side ∷ sides) (some (li, ri)) = do
  l ← node_at heap li
  r ← node_at heap ri
  let step = choose side l r
  rest ← walk_down_from heap sides step.0.children
  ok (step ∷ rest)

unfoldable pub walk_down : Heap → Node → List Side → Outcome (List (Node × Node))
unfolding walk_down_from
walk_down heap root sides = walk_down_from heap sides root.children

-- `TreeTraversal::nodes`, with the end of the vector, where nodes are pushed and popped, first.
abbrev pub Stack : Type 0
Stack = List (Position × NodeIndex)

-- `TreeTraversal::new`
unfoldable pub traversal_from : ℕ → List Node → Stack
unfolding capacity
traversal_from offset [] = []
traversal_from offset (r ∷ roots) = (offset, r.index) ∷ traversal_from (offset + capacity r) roots

-- The pushes of `TreeTraversal::next`: the right child, and the left one over it.
unfoldable pub push_children : (Node → Bool) → Position → Node → Stack → Stack
unfolding capacity
push_children predicate offset node nodes =
    if predicate node
    then elim node.children [
      | none ↦ nodes
      | some c ↦ (offset, c.0) ∷ (offset + capacity node / 2, c.1) ∷ nodes
    ]
    else nodes

-- All that the traversal yields. Each round takes one node.
unfoldable pub traverse_stack : ℕ → Heap → (Node → Bool) → Stack → Outcome (List (Position × Node))
unfolding node_at push_children
traverse_stack fuel heap predicate [] = ok []
traverse_stack zero heap predicate (top ∷ nodes) = stuck
traverse_stack (suc fuel) heap predicate ((offset, ni) ∷ nodes) = do
  node ← node_at heap ni
  rest ← traverse_stack fuel heap predicate (push_children predicate offset node nodes)
  ok ((offset, node) ∷ rest)

-- The nodes of perfect trees with these roots.
unfoldable pub traverse_fuel : List Node → ℕ
unfolding capacity
traverse_fuel [] = 0
traverse_fuel (r ∷ roots) = 2 * capacity r + traverse_fuel roots

unfoldable pub traverse : Heap → List Node → (Node → Bool) → Outcome (List (Position × Node))
unfolding traversal_from traverse_stack traverse_fuel
traverse heap roots predicate =
    traverse_stack (traverse_fuel roots) heap predicate (traversal_from 0 roots)
