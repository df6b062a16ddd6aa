-- ===== src/Utreexo/Trees.antt =====
-- The perfect Merkle trees that the roots of a forest stand for: what utreexo commits to and does
-- not store. They are the specification of the forest, and no code.
pub mod Walk
pub mod Slots
pub mod Located
pub mod Hashed
use zioncoin_poc.Prelude.{
  ℕ, zero, suc, ◌+◌, ◌*◌, ◌/◌, ◌%◌, ◌^◌, ◌≡◌, ◌<◌, refl, ap, ap₂, Option, none, some, List, [], ◌∷◌,
  ◌++◌, arith, length, get_elem?, length-append,
}
use native.Mathlib.Nat.{pow-suc}
use zioncoin_poc.Utreexo.Path.{Hash, Position, Side, left, right, from_bit}

pub data Tree : Type 0 where
  leaf : Hash → Tree
  node : Tree → Tree → Tree

-- All leaves are at depth `level`.
unfoldable pub IsPerfect : ℕ → Tree → Type 0
IsPerfect zero (leaf h) = Unit {0}
IsPerfect zero (node l r) = ⊥
IsPerfect (suc level) (leaf h) = ⊥
IsPerfect (suc level) (node l r) = IsPerfect level l × IsPerfect level r

unfoldable pub leaves : Tree → List Hash
leaves (leaf h) = h ∷ []
leaves (node l r) = leaves l ++ leaves r

-- What belongs to the subtree on a side.
unfoldable pub pick {ℓ} : {A : Type ℓ} → Side → A → A → A
pick left x y = x
pick right x y = y

-- The leaf that the `level` lowest bits of a position lead to.
unfoldable pub leaf_at : ℕ → Position → Tree → Hash
leaf_at level position (leaf h) = h
leaf_at zero position (node l r) = []
leaf_at (suc level) position (node l r) =
    pick (from_bit (position / 2 ^ level % 2)) (leaf_at level position l) (leaf_at level position r)

module _ (intermediate : Hash → Hash → Hash) where
  unfoldable pub tree_hash : Tree → Hash
  tree_hash (leaf h) = h
  tree_hash (node l r) = intermediate (tree_hash l) (tree_hash r)

  -- The hashes of the siblings on the way to that leaf, from the leaf up.
  unfoldable pub neighbors_at : ℕ → Position → Tree → List Hash
  neighbors_at level position (leaf h) = []
  neighbors_at zero position (node l r) = []
  neighbors_at (suc level) position (node l r) =
      let side = from_bit (position / 2 ^ level % 2) in
      pick side (neighbors_at level position l) (neighbors_at level position r)
      ++ pick side (tree_hash r) (tree_hash l) ∷ []
