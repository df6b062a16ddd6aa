-- ===== src/Blockchain/State.antt =====
-- zkvm/src/blockchain/state.rs: a node applies a block that it is given, or makes one.
use zioncoin_poc.Prelude.{ℕ, List, [], ◌∷◌, map, ltb, leb}
use zioncoin_poc.Prelude.Result.{ok, ◌>>=◌, ◌>>◌, map_err}
use zioncoin_poc.Prelude.Bytes.{Bytes, bytes_eq}
use zioncoin_poc.External.{Merlin, Scalars, R1cs}
use zioncoin_poc.Merkle
use zioncoin_poc.Tx.{TxId, Contracts, Tx, VerifiedTx, txid_item}
use zioncoin_poc.Utreexo.Path.{Proof}
use zioncoin_poc.Utreexo.Forest.{WorkForest, work_forest, root}
use zioncoin_poc.Utreexo.Forest.Normalize.{normalize}
use zioncoin_poc.Blockchain.{
  BlockOutcome, tx_validation, inconsistent_header, BlockHeader, Verifier, Block, VerifiedBlock,
  BlockchainState, check, lift, check_tx_header, apply_log, check_block_header, next_height, id,
}

module _ ⦃merlin : Merlin⦄ ⦃contracts : Contracts⦄ ⦃scalars : Scalars⦄ ⦃r1cs : R1cs⦄
    ⦃verifier : Verifier⦄ where
  unfoldable pub apply_tx :
      ℕ → ℕ → Tx → List Proof → WorkForest → BlockOutcome (VerifiedTx × List Proof × WorkForest)
  apply_tx block_version timestamp_ms tx utxo_proofs f = do
    check_tx_header tx.header block_version timestamp_ms
    verified_tx ← map_err tx_validation (verifier.verify_tx tx)
    r ← apply_log verified_tx.log utxo_proofs f
    ok (verified_tx, r.0, r.1)

  -- The `collect` of `apply_txs`, which stops at the first error.
  unfoldable pub apply_each :
      ℕ
      → ℕ
      → List Tx
      → List Proof
      → WorkForest
      → BlockOutcome (List VerifiedTx × List Proof × WorkForest)
  apply_each block_version timestamp_ms [] utxo_proofs f = ok ([], utxo_proofs, f)
  apply_each block_version timestamp_ms (tx ∷ txs) utxo_proofs f = do
    r ← apply_tx block_version timestamp_ms tx utxo_proofs f
    rest ← apply_each block_version timestamp_ms txs r.1 r.2
    ok (r.0 ∷ rest.0, rest.1, rest.2)

  unfoldable pub apply_txs :
      ℕ
      → ℕ
      → List Tx
      → List Proof
      → WorkForest
      → BlockOutcome ((Bytes × List VerifiedTx) × WorkForest)
  apply_txs block_version timestamp_ms txs utxo_proofs f = do
    r ← apply_each block_version timestamp_ms txs utxo_proofs f
    let verified_txs = r.0
    let txids = map (λ (tx : VerifiedTx). tx.id) verified_txs
    ok ((Merkle.root {M = TxId} "ZkVM.txroot" txids, verified_txs), r.2)

  unfoldable pub apply_block :
      BlockchainState → Block → BlockOutcome (VerifiedBlock × BlockchainState)
  apply_block state block = do
    check_block_header block.header state.tip
    f ← lift (work_forest state.utreexo)
    r ← apply_txs block.header.version block.header.timestamp_ms block.txs block.all_utxo_proofs f
    check (bytes_eq block.header.txroot r.0.0) inconsistent_header
    n ← lift (normalize r.1)
    check (bytes_eq block.header.utxoroot (root n.0)) inconsistent_header
    let verified_block : VerifiedBlock = record { header = block.header; txs = r.0.1 }
    let new_state : BlockchainState = record {
      initial_id = state.initial_id;
      tip = block.header;
      utreexo = n.0;
      catchup = n.1;
    }
    ok (verified_block, new_state)

  unfoldable pub make_block :
      BlockchainState
      → ℕ
      → ℕ
      → Bytes
      → List Tx
      → List Proof
      → BlockOutcome (Block × VerifiedBlock × BlockchainState)
  make_block state block_version timestamp_ms ext txs utxo_proofs = do
    check (leb state.tip.version block_version) inconsistent_header
    check (ltb state.tip.timestamp_ms timestamp_ms) inconsistent_header
    f ← lift (work_forest state.utreexo)
    r ← apply_txs block_version timestamp_ms txs utxo_proofs f
    n ← lift (normalize r.1)
    let header : BlockHeader = record {
      version = block_version;
      height = next_height state.tip;
      prev = id state.tip;
      timestamp_ms = timestamp_ms;
      txroot = r.0.0;
      utxoroot = root n.0;
      ext = ext;
    }
    let new_block : Block = record { header = header; txs = txs; all_utxo_proofs = utxo_proofs }
    let new_block_verified : VerifiedBlock = record { header = header; txs = r.0.1 }
    let new_state : BlockchainState = record {
      initial_id = state.initial_id;
      tip = header;
      utreexo = n.0;
      catchup = n.1;
    }
    ok (new_block, new_block_verified, new_state)
