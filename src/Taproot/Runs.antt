-- ===== src/Taproot/Runs.antt =====
-- Runs of the predicate tree, with the sample points.
use zioncoin_poc.Prelude.{◌<◌, ◌≡◌, refl, none, List, [], ◌∷◌, arith, length, replicate}
use zioncoin_poc.Prelude.Result.{ok}
use zioncoin_poc.External.Samples.{
  le_sample, merlin_sample, scalars_sample, curve_sample, field_sample, gens_sample,
}
use zioncoin_poc.Encoding.Reads.{Reads}
use zioncoin_poc.Merkle.{MerkleNeighbor, left, right, root}
use zioncoin_poc.Items.{Bytes32, Instruction, Program, PredicateTree, VerificationKey}
use zioncoin_poc.Taproot.{
  CallProof, taproot, leaf_merkle_item, leaves_of, blinded_leaves, append_programs, first_bit,
  create_merkle_leaves, commit_taproot, key_or_unsignable, new_tree,
}
use zioncoin_poc.Taproot.Codec.{encode_callproof, decode_callproof}
use zioncoin_poc.Taproot.RoundTrip.{NeighborsFit, decode_callproof-encode_callproof}
use zioncoin_poc.Taproot.Calls.{Calls, tweaked, prove_taproot-create_callproof}

abbrev twos : Bytes32
twos = record { bytes32 = replicate 32 2; is_32 = refl }

abbrev dropping : Program
dropping = Program.then Instruction.drop Program.done

abbrev duplicating : Program
duplicating = Program.then (Instruction.dup 1) Program.done

abbrev clauses : List Program
clauses = dropping ∷ duplicating ∷ []

abbrev no_key : VerificationKey
no_key = key_or_unsignable none

abbrev tree_factor : scalars_sample.Scalar
tree_factor = commit_taproot no_key (root taproot (create_merkle_leaves clauses twos))

abbrev two_clauses : PredicateTree
two_clauses =
    PredicateTree.predicate_tree (leaves_of (create_merkle_leaves clauses twos)) no_key twos
      (tweaked no_key tree_factor) tree_factor

two_clauses-made : new_tree none clauses twos ≡ ok two_clauses
unfolding new_tree create_merkle_leaves blinded_leaves append_programs first_bit
two_clauses-made = refl

prove_taproot-create_callproof_example : Calls no_key two_clauses 1 duplicating
prove_taproot-create_callproof_example =
    prove_taproot-create_callproof none clauses twos two_clauses 1 duplicating two_clauses-made refl

-- A program two levels down: its neighbors stand on the right, then on the left.
abbrev two_neighbors : List MerkleNeighbor
two_neighbors = right (replicate 32 3) ∷ left (replicate 32 4) ∷ []

abbrev deep_call : CallProof
deep_call = record {
  verification_key = record { point = 2; precompressed = twos };
  neighbors = two_neighbors;
}

two_neighbors-NeighborsFit : NeighborsFit two_neighbors
unfolding NeighborsFit
two_neighbors-NeighborsFit = (refl, (refl, tt))

two_neighbors-lt : length two_neighbors < 32
two_neighbors-lt = omega arith

decode_callproof-encode_callproof_example :
    Reads decode_callproof (encode_callproof deep_call []) deep_call
decode_callproof-encode_callproof_example =
    decode_callproof-encode_callproof deep_call two_neighbors-lt two_neighbors-NeighborsFit refl
