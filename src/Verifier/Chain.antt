-- ===== src/Verifier/Chain.antt =====
-- zkvm/src/blockchain/state.rs over zkvm/src/verifier.rs: what an accepted block shows when its
-- transactions are verified by the machine.
use zioncoin_poc.Prelude.{ℕ, ◌≡◌, subst, List, [], ◌∷◌}
use zioncoin_poc.Prelude.Result.{Result, ok, map_result, >>=-eq-ok, ok-injective}
use zioncoin_poc.External.{
  LittleEndian, Merlin, Scalars, Curve, ScalarField, ConstraintSystem, RandomizableSystem,
  PedersenGens, R1cs, R1csVerifier,
}
use zioncoin_poc.Errors.{VmError}
use zioncoin_poc.Tx.{Tx, VerifiedTx}
use zioncoin_poc.Items.Ids.{zkvm_contracts}
use zioncoin_poc.Spacesuit.{Cloak}
use zioncoin_poc.PointOps.{Factors}
use zioncoin_poc.Blockchain.{Verifier, BlockchainState, Block, VerifiedBlock}
use zioncoin_poc.Blockchain.State.{apply_block}
use zioncoin_poc.Blockchain.Accepts.{apply_block_accepts}
use zioncoin_poc.Verifier.{verify_tx}
use zioncoin_poc.Verifier.Verified.{Checked, Logged, verify_tx-Checked}

module _ ⦃scalars : Scalars⦄ ⦃curve : Curve⦄ ⦃le : LittleEndian⦄ ⦃cs : ConstraintSystem⦄
    ⦃merlin : Merlin⦄ ⦃gens : PedersenGens⦄ ⦃r1cs : R1cs⦄ ⦃verifier : R1csVerifier⦄
    ⦃field : ScalarField⦄ ⦃random : RandomizableSystem⦄ ⦃cloaks : Cloak⦄ where
  -- The verifier of the machine, as the blockchain takes it, with the factors that the batch of each
  -- transaction draws
  abbrev pub zkvm_verify : ℕ → (Tx → Factors) → Tx → Result VmError VerifiedTx
  zkvm_verify fuel factors tx = verify_tx fuel (factors tx) tx

  abbrev pub zkvm_verifier : ℕ → (Tx → Factors) → Verifier
  zkvm_verifier fuel factors = record { verify_tx = zkvm_verify fuel factors }

  -- Each transaction of the first list was checked and logged as that of the second.
  abbrev pub AllChecked : ℕ → (Tx → Factors) → List Tx → List VerifiedTx → Type 0
  AllChecked fuel factors [] [] = Unit
  AllChecked fuel factors (tx ∷ txs) (vtx ∷ vtxs) =
      (Checked fuel (factors tx) tx vtx × Logged tx vtx) × AllChecked fuel factors txs vtxs
  AllChecked fuel factors _ _ = ⊥

  verified-AllChecked :
      (fuel : ℕ) (factors : Tx → Factors) (txs : List Tx) (vtxs : List VerifiedTx)
      → map_result (zkvm_verify fuel factors) txs ≡ ok vtxs
      → AllChecked fuel factors txs vtxs
  verified-AllChecked fuel factors [] vtxs e =
      subst (λ l. AllChecked fuel factors [] l) (ok-injective e) tt
  verified-AllChecked fuel factors (tx ∷ txs) vtxs e =
      let (vtx, first, e1) = >>=-eq-ok (verify_tx fuel (factors tx) tx) _ e in
      let (rest, others, e2) = >>=-eq-ok (map_result (zkvm_verify fuel factors) txs) _ e1 in
      subst (λ l. AllChecked fuel factors (tx ∷ txs) l) (ok-injective e2)
        (
          verify_tx-Checked fuel (factors tx) tx vtx first,
          verified-AllChecked fuel factors txs rest others,
        )

  -- In a block that `apply_block` accepts, every transaction passed the checks of the machine and the
  -- verifier, that of its signature among them, and the log of its verified transaction starts with
  -- its header and has an input.
  pub apply_block-AllChecked :
      (fuel : ℕ) (factors : Tx → Factors) (state : BlockchainState) (block : Block)
      (verified : VerifiedBlock) (new_state : BlockchainState)
      → apply_block ⦃verifier = zkvm_verifier fuel factors⦄ state block ≡ ok (verified, new_state)
      → AllChecked fuel factors block.txs verified.txs
  apply_block-AllChecked fuel factors state block verified new_state e =
      verified-AllChecked fuel factors block.txs verified.txs
        (apply_block_accepts ⦃verifier = zkvm_verifier fuel factors⦄ state block verified new_state
          e).verifies
