-- ===== src/Taproot/Calls.antt =====
-- The call proofs of a predicate tree: each program of the tree has one, and it leads to the root.
use zioncoin_poc.Prelude.{
  ℕ, ◌/◌, ◌^◌, ◌≡◌, refl, ap, subst, false, Bool-cases, inl, inr, Option, none, some, List, [], ◌∷◌,
  leb, ltb, length, get_elem?,
}
use zioncoin_poc.Prelude.Bytes.{bytes_eq, bytes_eq→eq}
use zioncoin_poc.Prelude.Result.{ok, ok-injective}
use zioncoin_poc.External.{LittleEndian, Merlin, Scalars, Curve, ScalarField, PedersenGens}
use zioncoin_poc.Merkle.{build, hash, root, merkle_leaf, compute_root_from_path, verify_path}
use zioncoin_poc.Merkle.Inclusion.{verify_path-create_path}
use zioncoin_poc.Items.{
  Bytes32, VerificationKey, ProgramItem, Program, Predicate, PredicateTree, PredicateLeaf,
}
use zioncoin_poc.Items.Encode.{predicate_to_point, precomputed_key}
use zioncoin_poc.Taproot.Places.{
  leaf_of, Placed, leaf_list-leaves_of, half-gt, length-blinded_leaves, blinded_leaves-Placed,
}
use zioncoin_poc.Taproot.{
  taproot, leaves_of, CallProof, PointOp, leaf_index, item_merkle_item, leaf_merkle_item,
  commit_leaf, item_to_program, leaf_to_program, key_from, adjustment_factor, create_merkle_leaves,
  create_callproof, commit_taproot, key_or_unsignable, new_tree, prove_taproot,
}

module _ ⦃scalars : Scalars⦄ ⦃curve : Curve⦄ where
  module _ ⦃merlin : Merlin⦄ ⦃le : LittleEndian⦄ where
    -- A list of leaves that stands in a tree
    module _ (leaves : List PredicateLeaf) (key : VerificationKey) (blinding_key : Bytes32)
        (precomputed : VerificationKey) (factor : scalars.Scalar) where
      abbrev tree_of : PredicateTree
      tree_of = PredicateTree.predicate_tree (leaves_of leaves) key blinding_key precomputed factor

      create_callproof-Placed :
          (i : ℕ) (prog : Program)
          → leb (length leaves / 2) i ≡ false
          → Placed leaves i prog
          → (call_proof : CallProof) × (create_callproof tree_of i ≡ ok (call_proof, prog))
            × (call_proof.verification_key ≡ key)
            × (compute_root_from_path taproot (leaf_of prog) call_proof.neighbors
                ≡ root taproot leaves)
      unfolding create_callproof leaf_to_program item_to_program verify_path root
      create_callproof-Placed i prog inside (possible, here, found) =
          let (neighbors, made, verified) =
            verify_path-create_path taproot leaves (leaf_index possible i) (leaf_of prog) found in
          (
            record { verification_key = key; neighbors = neighbors },
            rw (leaf_list-leaves_of leaves, inside, here, made, found),
            refl,
            elim (Bool-cases (
                bytes_eq (compute_root_from_path taproot (leaf_of prog) neighbors)
                  (hash (build taproot leaves)))) [
                    | inl same ↦ bytes_eq→eq _ _ same
                    | inr differ ↦ absurd (cc (rw differ at verified))
                  ],
          )

    module _ ⦃gens : PedersenGens⦄ ⦃field : ScalarField⦄ where
      -- The key of a tree: `X + h * B`
      abbrev pub tweaked : VerificationKey → scalars.Scalar → VerificationKey
      tweaked key h = key_from (gens.point_add key.point (gens.point_mul h gens.base))

      -- The operation `-(X + h * B) + X + h * B`
      abbrev pub taproot_op : VerificationKey → scalars.Scalar → PointOp
      taproot_op key h = record {
        primary = some h;
        secondary = none;
        arbitrary =
            (field.neg field.one, (tweaked key h).precompressed)
            ∷ (field.one, key.precompressed)
            ∷ [];
      }

      -- Call `i` of the tree: it returns the program, with a proof that gives the operation.
      abbrev pub Calls : VerificationKey → PredicateTree → ℕ → Program → Type 0
      Calls key tree i prog =
          (call_proof : CallProof) × (create_callproof tree i ≡ ok (call_proof, prog))
          × (prove_taproot (Predicate.tree tree) (ProgramItem.program prog) call_proof
              ≡ taproot_op key (adjustment_factor tree))

      -- The tree that `new_tree` makes, if it makes one
      abbrev made_tree : VerificationKey → List Program → Bytes32 → PredicateTree
      made_tree key progs blinding_key =
          let leaves = create_merkle_leaves progs blinding_key in
          let h = commit_taproot key (root taproot leaves) in
          tree_of leaves key blinding_key (tweaked key h) h

      prove_taproot-root :
          (key : VerificationKey) (tree : PredicateTree) (prog : Program) (h : scalars.Scalar)
          (call_proof : CallProof)
          → call_proof.verification_key ≡ key
          → commit_taproot key (compute_root_from_path taproot (leaf_of prog) call_proof.neighbors)
            ≡ h
          → prove_taproot (Predicate.tree tree) (ProgramItem.program prog) call_proof ≡ record {
            primary = some h;
            secondary = none;
            arbitrary =
                (field.neg field.one, predicate_to_point (Predicate.tree tree))
                ∷ (field.one, key.precompressed)
                ∷ [];
          }
      unfolding prove_taproot compute_root_from_path merkle_leaf commit_leaf
      prove_taproot-root key tree prog h call_proof same_key same_h = rw (same_key, same_h)

      made_tree-Calls :
          (key : VerificationKey) (progs : List Program) (blinding_key : Bytes32) (i : ℕ)
          (prog : Program)
          → get_elem? progs i ≡ some prog
          → Calls key (made_tree key progs blinding_key) i prog
      unfolding adjustment_factor create_merkle_leaves predicate_to_point precomputed_key
      made_tree-Calls key progs blinding_key i prog e =
          let leaves = create_merkle_leaves progs blinding_key in
          let h = commit_taproot key (root taproot leaves) in
          let inside = half-gt i leaves progs (length-blinded_leaves progs _) e in
          let (call_proof, made, key_kept, walked) =
            create_callproof-Placed leaves key blinding_key (tweaked key h) h i prog inside
              (blinded_leaves-Placed progs _ i prog e) in
          (
            call_proof,
            made,
            prove_taproot-root key _ prog h call_proof key_kept
                (ap (λ r. commit_taproot key r) walked),
          )

      new_tree-eq_ok :
          (given : Option VerificationKey) (progs : List Program) (blinding_key : Bytes32)
          (tree : PredicateTree)
          → new_tree given progs blinding_key ≡ ok tree
          → made_tree (key_or_unsignable given) progs blinding_key ≡ tree
      unfolding new_tree
      new_tree-eq_ok given progs blinding_key tree made =
          elim (Bool-cases (ltb (2 ^ 31) (length (create_merkle_leaves progs blinding_key)))) [
            | inl many ↦ absurd (cc (rw many at made))
            | inr few ↦ ok-injective (rw few at made)
          ]

      -- Of a tree that `PredicateTree::new` makes, `create_callproof` returns each program with a
      -- call proof, by which `prove_taproot` gives the operation `-(X + h * B) + X + h * B`, with
      -- the key `X` that the tree was made with and the tree's adjustment factor `h`.
      pub prove_taproot-create_callproof :
          (given : Option VerificationKey) (progs : List Program) (blinding_key : Bytes32)
          (tree : PredicateTree) (i : ℕ) (prog : Program)
          → new_tree given progs blinding_key ≡ ok tree
          → get_elem? progs i ≡ some prog
          → Calls (key_or_unsignable given) tree i prog
      prove_taproot-create_callproof given progs blinding_key tree i prog made e =
          let key = key_or_unsignable given in
          subst (λ x. Calls key x i prog) (new_tree-eq_ok given progs blinding_key tree made)
            (made_tree-Calls key progs blinding_key i prog e)
