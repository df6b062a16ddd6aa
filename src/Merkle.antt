-- ===== src/Merkle.antt =====
-- zkvm/src/merkle.rs: the Merkle tree of a list, its paths of inclusion, and their verification.
-- Hashing goes through merlin's transcript; the items say how they commit to it.
pub mod Power
pub mod Inclusion
pub mod Binding
mod Runs
pub use Power.{next_power_of_two, half_power-lt, half_power_pos, le-two_half_power}
use Power.{Shorter, Shorter_wf, take_half-Shorter, drop_half-Shorter}
use mathlib.Core.WellFounded.{Acc, WellFounded}
use zioncoin_poc.Prelude.{
  ℕ, ◌-◌, ◌/◌, ◌<◌, Bool, String, List, [], ◌∷◌, ltb, leb, if◌then◌else◌, length, take, drop, arith,
}
use zioncoin_poc.Prelude.Result.{Result, ok, err}
use zioncoin_poc.Prelude.Bytes.{Bytes, bytes_eq}
use zioncoin_poc.External.{Merlin}
use zioncoin_poc.Errors.{VmError, invalid_merkle_proof}

-- `trait MerkleItem`
pub record MerkleItem (Transcript M : Type 0) : Type 0 where
  pub commit : M → Transcript → Transcript

pub data MerkleNeighbor : Type 0 where
  left : Bytes → MerkleNeighbor
  right : Bytes → MerkleNeighbor

pub data MerkleNode : Type 0 where
  empty : Bytes → MerkleNode
  leaf : Bytes → MerkleNode
  node : Bytes → MerkleNode → MerkleNode → MerkleNode

-- `MerkleNode::hash`
unfoldable pub node_hash : MerkleNode → Bytes
node_hash (empty h) = h
node_hash (leaf h) = h
node_hash (node h l r) = h

pub record MerkleTree : Type 0 where
  pub size : ℕ
  pub label : String
  pub root : MerkleNode

-- `MerkleTree::hash`
unfoldable pub hash : MerkleTree → Bytes
unfolding node_hash
hash tree = node_hash tree.root

-- `MerkleNode::subpath`. The new neighbor goes to the front of the list.
unfoldable pub subpath :
    MerkleNode → ℕ → ℕ → List MerkleNeighbor → Result VmError (List MerkleNeighbor)
unfolding node_hash
subpath (empty h) index size result = err invalid_merkle_proof
subpath (leaf h) index size result = ok result
subpath (node h l r) index size result =
    let k = next_power_of_two size / 2 in
    let in_right = subpath r (index - k) (size - k) (left (node_hash l) ∷ result) in
    let in_left = subpath l index k (right (node_hash r) ∷ result) in
    if leb k index then in_right else in_left

-- `MerkleTree::create_path`
unfoldable pub create_path : MerkleTree → ℕ → Result VmError (List MerkleNeighbor)
unfolding subpath
create_path tree index =
    if leb tree.size index then err invalid_merkle_proof else subpath tree.root index tree.size []

module _ ⦃merlin : Merlin⦄ where
  open merlin use {Transcript, new, append_message, challenge_bytes}

  -- The three lines that hash an inner node, in `build_tree` and in `compute_root_from_path`.
  unfoldable pub merkle_node : Transcript → Bytes → Bytes → Bytes
  merkle_node t l r =
      (challenge_bytes "merkle.node" 32 (append_message "R" r (append_message "L" l t))).0

  -- `MerkleTree::empty`
  unfoldable pub merkle_empty : Transcript → Bytes
  merkle_empty t = (challenge_bytes "merkle.empty" 32 t).0

  -- The loop of `compute_root_from_path`.
  unfoldable pub walk_path : Transcript → Bytes → List MerkleNeighbor → Bytes
  unfolding merkle_node
  walk_path t result [] = result
  walk_path t result (left l ∷ proof) = walk_path t (merkle_node t l result) proof
  walk_path t result (right r ∷ proof) = walk_path t (merkle_node t result r) proof

  module _ {M : Type 0} ⦃item : MerkleItem Transcript M⦄ where
    -- `MerkleTree::leaf`
    unfoldable pub merkle_leaf : Transcript → M → Bytes
    merkle_leaf t entry = (challenge_bytes "merkle.leaf" 32 (item.commit entry t)).0

    -- The recursion is on the length of the list, which both halves shorten.
    unfoldable pub build_tree :
        Transcript → (list : List M) → Acc (Shorter {A = M}) list → MerkleNode
    unfolding node_hash merkle_node merkle_leaf merkle_empty
    build_tree t [] w = empty (merkle_empty t)
    build_tree t (entry ∷ []) w = leaf (merkle_leaf t entry)
    build_tree t (entry ∷ second ∷ rest) (Acc.intro _ smaller) =
        let list = entry ∷ second ∷ rest in
        let n = length list in
        let k = next_power_of_two n / 2 in
        let l = build_tree t (take k list) (smaller _ (take_half-Shorter entry second rest)) in
        let r = build_tree t (drop k list) (smaller _ (drop_half-Shorter entry second rest)) in
        node (merkle_node t (node_hash l) (node_hash r)) l r

    unfoldable pub build : String → List M → MerkleTree
    unfolding build_tree Shorter_wf
    build label list = record {
      size = length list;
      label = label;
      root = build_tree (new label) list (Shorter_wf.apply list);
    }

    -- `MerkleTree::root`
    unfoldable pub root : String → List M → Bytes
    unfolding build hash
    root label list = hash (build label list)

    unfoldable pub compute_root_from_path : String → M → List MerkleNeighbor → Bytes
    unfolding walk_path merkle_leaf
    compute_root_from_path label entry proof =
        walk_path (new label) (merkle_leaf (new label) entry) proof

    -- `ct_eq` compares the two hashes.
    unfoldable pub verify_path :
        String → M → List MerkleNeighbor → Bytes → Result VmError (Unit {0})
    unfolding compute_root_from_path
    verify_path label entry proof root =
        if bytes_eq (compute_root_from_path label entry proof) root
        then ok tt
        else err invalid_merkle_proof
