-- ===== src/Merkle/Binding.antt =====
-- A path binds its entry: if inner nodes do not collide, two accepted proofs of one shape agree.
use zioncoin_poc.Prelude.{◌≡◌, refl, ◌∙◌, sym, String, List, [], ◌∷◌, Bool, true, false, arith}
use zioncoin_poc.Prelude.Result.{ok}
use zioncoin_poc.Prelude.Bytes.{Bytes, bytes_eq→eq}
use zioncoin_poc.External.{Merlin}
use zioncoin_poc.Merkle.{
  MerkleItem, MerkleNeighbor, left, right, merkle_node, merkle_leaf, walk_path,
  compute_root_from_path, verify_path,
}

-- On which sides the neighbors of a path stand, which is the position of the entry.
abbrev pub sides : List MerkleNeighbor → List Bool
sides [] = []
sides (left l ∷ proof) = false ∷ sides proof
sides (right r ∷ proof) = true ∷ sides proof

module _ ⦃merlin : Merlin⦄ where
  open merlin use {Transcript, new}

  -- Collision resistance of the hash of inner nodes, as an assumption.
  abbrev pub NodesDiffer : Transcript → Type 0
  NodesDiffer t =
      (l r l' r' : Bytes) → merkle_node t l r ≡ merkle_node t l' r' → (l ≡ l') × (r ≡ r')

  walk_path-injective :
      (t : Transcript)
      → NodesDiffer t
      → (p q : List MerkleNeighbor) (h h' : Bytes) → sides p ≡ sides q
      → walk_path t h p ≡ walk_path t h' q
      → (h ≡ h') × (p ≡ q)
  unfolding walk_path
  walk_path-injective t differ [] [] h h' s e = (e, refl)
  walk_path-injective t differ (left l ∷ p) (left l' ∷ q) h h' s e = ground (
    arith,
    walk_path-injective t differ p q (merkle_node t l h) (merkle_node t l' h'),
    differ l h l' h',
  )
  walk_path-injective t differ (right l ∷ p) (right l' ∷ q) h h' s e = ground (
    arith,
    walk_path-injective t differ p q (merkle_node t h l) (merkle_node t h' l'),
    differ h l h' l',
  )
  walk_path-injective t differ [] (left l ∷ q) h h' s e = cc
  walk_path-injective t differ [] (right l ∷ q) h h' s e = cc
  walk_path-injective t differ (left l ∷ p) [] h h' s e = cc
  walk_path-injective t differ (left l ∷ p) (right l' ∷ q) h h' s e = cc
  walk_path-injective t differ (right l ∷ p) [] h h' s e = cc
  walk_path-injective t differ (right l ∷ p) (left l' ∷ q) h h' s e = cc

  module _ {M : Type 0} ⦃item : MerkleItem Transcript M⦄ where
    verify_path-eq_ok :
        (label : String) (entry : M) (proof : List MerkleNeighbor) (root : Bytes)
        → verify_path label entry proof root ≡ ok tt
        → compute_root_from_path label entry proof ≡ root
    unfolding verify_path
    verify_path-eq_ok label entry proof root h =
        ground
          (arith, bytes_eq→eq (walk_path (new label) (merkle_leaf (new label) entry) proof) root)

    -- If inner nodes do not collide, two proofs with their neighbors on the same sides that
    -- `verify_path` accepts against one root have the same neighbors, and their entries have the
    -- same leaf hash.
    pub verify_path_binds :
        (label : String) (entry entry' : M) (proof proof' : List MerkleNeighbor) (root : Bytes)
        → NodesDiffer (new label)
        → sides proof ≡ sides proof'
        → verify_path label entry proof root ≡ ok tt
        → verify_path label entry' proof' root ≡ ok tt
        → (merkle_leaf (new label) entry ≡ merkle_leaf (new label) entry') × (proof ≡ proof')
    unfolding compute_root_from_path
    verify_path_binds label entry entry' proof proof' root differ s h h' =
        walk_path-injective (new label) differ proof proof' _ _ s (
          verify_path-eq_ok label entry proof root h
          ∙ sym (verify_path-eq_ok label entry' proof' root h'))
