-- ===== src/Taproot.antt =====
-- zkvm/src/predicate.rs: the tree of a predicate's programs, whose Merkle root is hashed into the
-- key of the predicate, and the call proofs of its programs.
pub mod Codec
pub mod Positions
pub mod RoundTrip
pub mod Places
pub mod Calls
mod Runs
use zioncoin_poc.Prelude.{
  ℕ, ◌+◌, ◌*◌, ◌/◌, ◌%◌, ◌^◌, Option, none, some, List, [], ◌∷◌, ltb, leb, ◌==◌, if◌then◌else◌,
  length, get_elem?, String,
}
use zioncoin_poc.Prelude.Bytes.{Bytes}
use zioncoin_poc.Prelude.Result.{Result, ok, err, panic, stuck, ◌>>=◌, unwrap}
use zioncoin_poc.External.{LittleEndian, Merlin, Scalars, Curve, ScalarField, PedersenGens}
use zioncoin_poc.Errors.{VmError, bad_arguments, type_not_program, invalid_predicate_tree}
use zioncoin_poc.Merkle.{
  MerkleItem, MerkleNeighbor, build, create_path, root, compute_root_from_path,
}
use zioncoin_poc.Items.{
  Bytes32, VerificationKey, ProgramItem, Program, Predicate, PredicateTree, PredicateLeaf, Leaves,
}
use zioncoin_poc.Items.Encode.{encode_program, predicate_to_point}

abbrev pub taproot : String
taproot = "ZkVM.taproot"

module _ ⦃scalars : Scalars⦄ ⦃curve : Curve⦄ where
  -- `Vec<PredicateLeaf>` as a list, and back
  unfoldable pub leaf_list : Leaves → List PredicateLeaf
  leaf_list Leaves.no_leaves = []
  leaf_list (Leaves.leaf_then leaf rest) = leaf ∷ leaf_list rest

  unfoldable pub leaves_of : List PredicateLeaf → Leaves
  leaves_of [] = Leaves.no_leaves
  leaves_of (leaf ∷ rest) = Leaves.leaf_then leaf (leaves_of rest)

  pub record CallProof : Type 0 where
    pub verification_key : VerificationKey
    pub neighbors : List MerkleNeighbor

  pub record PointOp : Type 0 where
    pub primary : Option scalars.Scalar
    pub secondary : Option scalars.Scalar
    pub arbitrary : List (scalars.Scalar × Bytes32)

  -- `ProgramItem::to_program`
  unfoldable pub item_to_program : ProgramItem → Result VmError Program
  item_to_program (ProgramItem.program prog) = ok prog
  item_to_program (ProgramItem.bytecode bytes) = err type_not_program

  -- `PredicateLeaf::to_program`
  unfoldable pub leaf_to_program : PredicateLeaf → Result VmError Program
  unfolding item_to_program
  leaf_to_program (PredicateLeaf.program_leaf p) = item_to_program p
  leaf_to_program (PredicateLeaf.blinding_leaf b) = err type_not_program

  -- The index of a program's leaf, by the left one of its pair of leaves
  unfoldable pub leaf_index : PredicateLeaf → ℕ → ℕ
  leaf_index (PredicateLeaf.blinding_leaf b) prog_index = 2 * prog_index + 1
  leaf_index (PredicateLeaf.program_leaf p) prog_index = 2 * prog_index

  -- `blinding[0] & 1`
  unfoldable pub first_bit : Bytes → ℕ
  first_bit [] = 0
  first_bit (byte ∷ rest) = byte % 2

  -- `VerificationKey::from` a point
  unfoldable pub key_from : curve.Point → VerificationKey
  key_from p = record {
    point = p;
    precompressed = record { bytes32 = curve.compress p; is_32 = curve.length-compress p };
  }

  unfoldable pub adjustment_factor : PredicateTree → scalars.Scalar
  adjustment_factor (PredicateTree.predicate_tree ls key blinding_key precomputed factor) = factor

  module _ ⦃merlin : Merlin⦄ ⦃gens : PedersenGens⦄ where
    -- `TranscriptProtocol::challenge_scalar`
    unfoldable pub challenge_scalar : String → merlin.Transcript → scalars.Scalar
    challenge_scalar label t = gens.from_bytes_mod_order_wide (merlin.challenge_bytes label 64 t).0

  module _ ⦃merlin : Merlin⦄ ⦃le : LittleEndian⦄ where
    open merlin use {Transcript, append_message, append_u64, challenge_bytes}

    -- `commit` of a program, a program item and a leaf
    unfoldable pub commit_program : Program → Transcript → Transcript
    commit_program prog t = append_message "program" (encode_program prog []) t

    unfoldable pub commit_item : ProgramItem → Transcript → Transcript
    unfolding commit_program
    commit_item (ProgramItem.program prog) t = commit_program prog t
    commit_item (ProgramItem.bytecode bytes) t = append_message "program" bytes t

    unfoldable pub commit_leaf : PredicateLeaf → Transcript → Transcript
    unfolding commit_item
    commit_leaf (PredicateLeaf.program_leaf prog) t = commit_item prog t
    commit_leaf (PredicateLeaf.blinding_leaf bytes) t = append_message "blinding" bytes t

    instance abbrev pub item_merkle_item : MerkleItem Transcript ProgramItem
    item_merkle_item = record { commit = commit_item }

    instance abbrev pub leaf_merkle_item : MerkleItem Transcript PredicateLeaf
    leaf_merkle_item = record { commit = commit_leaf }

    -- The two loops of `create_merkle_leaves`
    unfoldable pub append_programs : List Program → Transcript → Transcript
    append_programs [] t = t
    append_programs (prog ∷ progs) t =
        append_programs progs (append_message "prog" (encode_program prog []) t)

    unfoldable pub blinded_leaves : List Program → Transcript → List PredicateLeaf
    unfolding first_bit
    blinded_leaves [] t = []
    blinded_leaves (prog ∷ progs) t =
        let (blinding, t') = challenge_bytes "blinding" 32 t in
        let blinding_leaf = PredicateLeaf.blinding_leaf blinding in
        let program_leaf = PredicateLeaf.program_leaf (ProgramItem.program prog) in
        let leaves = blinded_leaves progs t' in
        if first_bit blinding == 0
        then blinding_leaf ∷ program_leaf ∷ leaves
        else program_leaf ∷ blinding_leaf ∷ leaves

    unfoldable pub create_merkle_leaves : List Program → Bytes32 → List PredicateLeaf
    unfolding append_programs blinded_leaves
    create_merkle_leaves progs blinding_key =
        let t = merlin.new "ZkVM.taproot-derive-blinding" in
        let t = append_u64 "n" (length progs) t in
        let t = append_message "key" blinding_key.bytes32 t in
        blinded_leaves progs (append_programs progs t)

    unfoldable pub create_callproof : PredicateTree → ℕ → Result VmError (CallProof × Program)
    unfolding leaf_list leaf_index leaf_to_program create_path build
    create_callproof (PredicateTree.predicate_tree ls key blinding_key precomputed factor)
          prog_index =
        let leaves = leaf_list ls in
        if leb (length leaves / 2) prog_index then err bad_arguments else do
          possible_leaf ← unwrap (get_elem? leaves (2 * prog_index))
          let index = leaf_index possible_leaf prog_index
          neighbors ← create_path (build taproot leaves) index
          leaf ← unwrap (get_elem? leaves index)
          program ← leaf_to_program leaf
          ok (record { verification_key = key; neighbors = neighbors }, program)

    module _ ⦃gens : PedersenGens⦄ where
      unfoldable pub commit_taproot : VerificationKey → Bytes → scalars.Scalar
      unfolding challenge_scalar
      commit_taproot key merkle_root =
          let t = append_message "key" key.precompressed.bytes32 (merlin.new taproot) in
          challenge_scalar "h" (append_message "merkle" merkle_root t)

      unfoldable pub unsignable_key : VerificationKey
      unfolding key_from
      unsignable_key = key_from gens.base_blinding

      -- `key.unwrap_or_else(...)`
      unfoldable pub key_or_unsignable : Option VerificationKey → VerificationKey
      unfolding unsignable_key
      key_or_unsignable none = unsignable_key
      key_or_unsignable (some key) = key

      -- `PredicateTree::new`
      unfoldable pub new_tree :
          Option VerificationKey → List Program → Bytes32 → Result VmError PredicateTree
      unfolding key_or_unsignable create_merkle_leaves commit_taproot root leaves_of key_from
      new_tree given progs blinding_key =
          let key = key_or_unsignable given in
          let leaves = create_merkle_leaves progs blinding_key in
          let h = commit_taproot key (root taproot leaves) in
          let p = gens.point_add key.point (gens.point_mul h gens.base) in
          if ltb (2 ^ 31) (length leaves)
          then err invalid_predicate_tree
          else ok (PredicateTree.predicate_tree (leaves_of leaves) key blinding_key (key_from p) h)

      unfoldable pub prove_taproot :
          ⦃field : ScalarField⦄ → Predicate → ProgramItem → CallProof → PointOp
      unfolding commit_taproot predicate_to_point compute_root_from_path
      prove_taproot ⦃field⦄ predicate item call_proof =
          let key = call_proof.verification_key in
          let merkle_root = compute_root_from_path taproot item call_proof.neighbors in
          record {
            primary = some (commit_taproot key merkle_root);
            secondary = none;
            arbitrary =
                (field.neg field.one, predicate_to_point predicate)
                ∷ (field.one, key.precompressed)
                ∷ [];
          }
