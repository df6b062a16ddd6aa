-- ===== src/Merkle/Runs.antt =====
-- Runs of the Merkle tree, with numbers as items and a transcript that keeps what is appended.
use zioncoin_poc.Prelude.{ℕ, ◌≡◌, refl, List, [], ◌∷◌, ◌++◌}
use zioncoin_poc.Prelude.Bytes.{Bytes, bytes_eq}
use zioncoin_poc.Prelude.Result.{ok}
use zioncoin_poc.External.Samples.{merlin_sample, frames_differ}
use zioncoin_poc.Merkle.{
  MerkleItem, MerkleNeighbor, left, merkle_node, merkle_leaf, walk_path, build, hash, create_path,
  compute_root_from_path, verify_path,
}
use zioncoin_poc.Merkle.Inclusion.{verify_path-create_path}
use zioncoin_poc.Merkle.Binding.{NodesDiffer, verify_path_binds}

instance abbrev number_item : MerkleItem Bytes ℕ
number_item = record { commit = λ x t. t ++ x ∷ [] }

abbrev entries : List ℕ
entries = 10 ∷ 11 ∷ 12 ∷ []

abbrev twelve : ℕ
twelve = 12

verify_path-create_path_example :
    (proof : List MerkleNeighbor) × (create_path (build "test" entries) 2 ≡ ok proof)
    × (verify_path "test" twelve proof (hash (build "test" entries)) ≡ ok tt)
verify_path-create_path_example = verify_path-create_path "test" entries 2 twelve refl

sample-NodesDiffer : NodesDiffer []
unfolding merkle_node
sample-NodesDiffer l r l' r' e = frames_differ [] l r l' r' e

-- The path of the third entry: the hash of the first two stands on the left.
abbrev path_of_twelve : List MerkleNeighbor
path_of_twelve = left (1 ∷ 10 ∷ 1 ∷ 11 ∷ []) ∷ []

abbrev root_of_three : Bytes
root_of_three = 4 ∷ 1 ∷ 10 ∷ 1 ∷ 11 ∷ 1 ∷ 12 ∷ []

twelve-verifies : verify_path "test" twelve path_of_twelve root_of_three ≡ ok tt
unfolding verify_path compute_root_from_path walk_path merkle_leaf merkle_node bytes_eq
twelve-verifies = refl

verify_path_binds_example :
    (merkle_leaf [] twelve ≡ merkle_leaf [] twelve) × (path_of_twelve ≡ path_of_twelve)
verify_path_binds_example =
    verify_path_binds "test" twelve twelve path_of_twelve path_of_twelve root_of_three
      sample-NodesDiffer refl twelve-verifies twelve-verifies
