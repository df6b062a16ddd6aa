-- ===== src/Utreexo/Forest/Catchup.antt =====
-- zkvm/src/utreexo/forest.rs: `Catchup`, which brings a proof of the previous generation up to date.
use zioncoin_poc.Prelude.{
  ℕ, zero, suc, ◌+◌, ◌-◌, ◌%◌, ◌^◌, ◌||◌, Option, none, some, List, [], ◌∷◌, ◌==◌, if◌then◌else◌,
  not, take,
}
use zioncoin_poc.Prelude.Result.{ok, panic, ◌>>=◌, ◌>>◌, ensure, ok_or}
use zioncoin_poc.Prelude.Bytes.{bytes_eq}
use zioncoin_poc.External.{Merlin}
use zioncoin_poc.Merkle.{MerkleItem}
use zioncoin_poc.Utreexo.Path.{Hash, Position, Proof, sides_rev, walk_up}
use zioncoin_poc.Utreexo.Nodes.{
  outdated_proof, invalid_proof, Outcome, Node, find_root, intermediate, leaf, walk_down,
}
use zioncoin_poc.Utreexo.Forest.{WorkForest, nodes_at}

-- The map is the list of its insertions, the latest first.
pub record Catchup ⦃merlin : Merlin⦄ : Type 0 where
  pub forest : WorkForest
  pub map : List (Hash × Position)

-- `HashMap::get`
unfoldable pub map_get : List (Hash × Position) → Hash → Option Position
map_get [] key = none
map_get ((k, v) ∷ entries) key = if bytes_eq k key then some v else map_get entries key

-- `Vec::insert`, which panics past the end
unfoldable pub insert_at {ℓ} : {A : Type ℓ} → ℕ → A → List A → Outcome (List A)
insert_at zero x xs = ok (x ∷ xs)
insert_at (suc i) x [] = panic
insert_at (suc i) x (y ∷ xs) = do rest ← insert_at i x xs; ok (y ∷ rest)

-- The fold that climbs until a hash is in the map. Once it is found the level stays.
unfoldable pub climb :
    List (Hash × Position) → ℕ → Option Position → List (Hash × (Hash × Hash)) → ℕ × Option Position
climb entries level found [] = (level, found)
climb entries level (some r) (step ∷ steps) = climb entries level (some r) steps
climb entries level none ((p, children) ∷ steps) =
    climb entries (level + 1) (map_get entries p) steps

-- The fold that puts the new neighbors in at `midlevel`.
unfoldable pub insert_neighbors : ℕ → List Hash → List (Node × Node) → Outcome (List Hash)
insert_neighbors midlevel list [] = ok list
insert_neighbors midlevel list ((node, new_neighbor) ∷ steps) = do
  list' ← insert_at midlevel new_neighbor.hash list
  insert_neighbors midlevel list' steps

module _ ⦃merlin : Merlin⦄ where
  -- `proof.unwrap_or(..)`: the placeholder is of the previous generation.
  unfoldable pub or_placeholder : WorkForest → Option Proof → Proof
  or_placeholder forest (some proof) = proof
  or_placeholder forest none = record {
    generation = (forest.generation + (2 ^ 64 - 1)) % 2 ^ 64;
    path = record { position = 0; neighbors = [] };
  }

  module _ {M : Type 0} ⦃item : MerkleItem merlin.Transcript M⦄ where
    -- `position & mask` keeps the `midlevel` lowest bits.
    unfoldable pub move_proof : Catchup → M → Proof → Outcome Proof
    move_proof c x proof = do
      let f = c.forest
      let path = proof.path
      let hash = leaf f.hasher x
      let climbed = climb c.map 0 (map_get c.map hash) (walk_up (intermediate f.hasher) path hash)
      position_offset ← ok_or climbed.1 invalid_proof
      let midlevel = climbed.0
      let position = (position_offset + path.position % 2 ^ midlevel) % 2 ^ 64
      let kept = take midlevel path.neighbors
      nodes ← nodes_at f.heap f.roots
      root ← ok_or (find_root (λ node. node.level) position nodes) invalid_proof
      down ← walk_down f.heap root (sides_rev (record { position = position; depth = root.level }))
      neighbors ← insert_neighbors midlevel kept down
      ok (record {
        generation = f.generation;
        path = record { position = position; neighbors = neighbors };
      })

    unfoldable pub update_proof : Catchup → M → Option Proof → Outcome Proof
    unfolding or_placeholder
    update_proof c x proof = do
      let f = c.forest
      let p = or_placeholder f proof
      if p.generation == f.generation then ok p else do
        ensure (not ((f.generation == 0) || not (p.generation == f.generation - 1))) outdated_proof
        move_proof c x p
