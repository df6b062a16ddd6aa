-- ===== src/Blockchain.antt =====
-- zkvm/src/blockchain/: block headers and blocks (block.rs), the errors (errors.rs), and the state
-- machine of a node (state.rs). A transaction is verified through the `Verifier` interface, which
-- stands for zkvm/src/verifier.rs; the iterator over the proofs is the list of those left.
pub mod State
pub mod Extends
pub mod Accepts
mod Runs
use zioncoin_poc.Prelude.{
  ℕ, ◌+◌, ◌%◌, ◌^◌, Bool, not, String, Option, none, some, List, [], ◌∷◌, ◌++◌, map, ltb, leb, ◌==◌,
  if◌then◌else◌, length, replicate,
}
use zioncoin_poc.Prelude.Result.{
  Result, ok, err, panic, stuck, ◌>>=◌, ◌>>◌, ok_or, map_err, map_result,
}
use zioncoin_poc.Prelude.Bytes.{Bytes, bytes_eq}
use zioncoin_poc.External.{Merlin, Scalars, R1cs}
use zioncoin_poc.Errors.{VmError}
use zioncoin_poc.Merkle.{MerkleItem}
use zioncoin_poc.Merkle
use zioncoin_poc.Tx.{
  ContractId, TxId, Contracts, TxHeader, TxEntry, header, issue, retire, input, output, data_entry,
  Tx, VerifiedTx, txid_item, contract_id_item,
}
use zioncoin_poc.Utreexo.Path.{Hash, Proof}
use zioncoin_poc.Utreexo.Nodes.{Outcome, UtreexoError}
use zioncoin_poc.Utreexo.Forest.{Forest, WorkForest, new_forest, work_forest, root, insert, delete}
use zioncoin_poc.Utreexo.Forest.Catchup.{Catchup, update_proof}
use zioncoin_poc.Utreexo.Forest.Normalize.{normalize, update_forest}

pub data BlockchainError : Type 0 where
  inconsistent_header illegal_extension bad_tx_timestamp bad_tx_version : BlockchainError
  tx_validation : VmError → BlockchainError
  utreexo_proof_missing : BlockchainError
  utreexo_error : UtreexoError → BlockchainError

abbrev pub BlockOutcome {ℓ} : Type ℓ → Type ℓ
BlockOutcome A = Result BlockchainError A

pub record BlockId : Type 0 where
  pub block_bytes : Bytes

pub record BlockHeader : Type 0 where
  pub version : ℕ
  pub height : ℕ
  pub prev : BlockId
  pub timestamp_ms : ℕ
  pub txroot : Bytes
  pub utxoroot : Hash
  pub ext : Bytes

-- `Verifier::verify_tx`, with the generators that it is given fixed.
pub record Verifier ⦃contracts : Contracts⦄ ⦃scalars : Scalars⦄ ⦃r1cs : R1cs⦄ : Type 0 where
  pub verify_tx : Tx → Result VmError VerifiedTx

pub record Block ⦃scalars : Scalars⦄ ⦃r1cs : R1cs⦄ : Type 0 where
  pub header : BlockHeader
  pub txs : List Tx
  pub all_utxo_proofs : List Proof

pub record VerifiedBlock ⦃contracts : Contracts⦄ : Type 0 where
  pub header : BlockHeader
  pub txs : List VerifiedTx

pub record BlockchainState ⦃merlin : Merlin⦄ : Type 0 where
  pub initial_id : BlockId
  pub tip : BlockHeader
  pub utreexo : Forest
  pub catchup : Catchup

abbrev pub check : Bool → BlockchainError → BlockOutcome (Unit {0})
check cond e = if not cond then err e else ok tt

unfoldable pub id_eq : BlockId → BlockId → Bool
id_eq a b = bytes_eq a.block_bytes b.block_bytes

unfoldable pub check_tx_header : TxHeader → ℕ → ℕ → BlockOutcome (Unit {0})
check_tx_header tx_header block_version timestamp_ms = do
  check (leb tx_header.mintime_ms timestamp_ms) bad_tx_timestamp
  check (leb timestamp_ms tx_header.maxtime_ms) bad_tx_timestamp
  if block_version == 1 then check (tx_header.version == 1) bad_tx_version else ok tt

-- `flat_map`
unfoldable pub flat_map {ℓ κ} : {A : Type ℓ} {B : Type κ} → (A → List B) → List A → List B
flat_map f [] = []
flat_map f (x ∷ xs) = f x ++ flat_map f xs

-- `VerifiedBlock::entries`
unfoldable pub entries : ⦃contracts : Contracts⦄ → VerifiedBlock → List TxEntry
entries block = flat_map (λ (tx : VerifiedTx). tx.log) block.txs

-- The errors of the forest become those of the blockchain. `insert` and `normalize` return none.
abbrev pub lift {ℓ} : {A : Type ℓ} → Outcome A → BlockOutcome A
lift m = map_err utreexo_error m

-- `.unwrap()` of a result
abbrev pub unwrap_result {ℓ} : {A : Type ℓ} → Outcome A → Outcome A
unwrap_result (ok a) = ok a
unwrap_result (err e) = panic
unwrap_result panic = panic
unwrap_result stuck = stuck

-- `utxo_proofs.next()`
unfoldable pub next_proof : List Proof → BlockOutcome (Proof × List Proof)
next_proof [] = err utreexo_proof_missing
next_proof (proof ∷ proofs) = ok (proof, proofs)

module _ ⦃merlin : Merlin⦄ where
  open merlin use {append_message, append_u64, challenge_bytes, new}

  -- `BlockHeader::id`
  unfoldable pub id : BlockHeader → BlockId
  id h =
      let t1 = append_u64 "version" h.version (new "ZkVM.blockheader") in
      let t2 = append_u64 "height" h.height t1 in
      let t3 = append_message "previd" h.prev.block_bytes t2 in
      let t4 = append_u64 "timestamp_ms" h.timestamp_ms t3 in
      let t5 = append_message "txroot" h.txroot t4 in
      let t6 = append_message "utxoroot" h.utxoroot t5 in
      let t7 = append_message "ext" h.ext t6 in
      record { block_bytes = (challenge_bytes "id" 32 t7).0 }

  -- `BlockHeader::make_initial`
  unfoldable pub initial_header : ℕ → Hash → BlockHeader
  initial_header timestamp_ms utxoroot = record {
    version = 1;
    height = 1;
    prev = record { block_bytes = replicate 32 0 };
    timestamp_ms = timestamp_ms;
    txroot = Merkle.root {M = TxId} "ZkVM.txroot" [];
    utxoroot = utxoroot;
    ext = [];
  }

  -- `prev_header.height + 1`
  unfoldable pub next_height : BlockHeader → ℕ
  next_height prev_header = (prev_header.height + 1) % 2 ^ 64

  unfoldable pub check_ext : BlockHeader → BlockOutcome (Unit {0})
  check_ext h = if h.version == 1 then check (length h.ext == 0) illegal_extension else ok tt

  unfoldable pub check_block_header : BlockHeader → BlockHeader → BlockOutcome (Unit {0})
  unfolding check_ext next_height
  check_block_header block_header prev_header = do
    check (leb prev_header.version block_header.version) inconsistent_header
    check_ext block_header
    check (block_header.height == next_height prev_header) inconsistent_header
    check (id_eq block_header.prev (id prev_header)) inconsistent_header
    check (ltb prev_header.timestamp_ms block_header.timestamp_ms) inconsistent_header

  unfoldable pub insert_utxos : WorkForest → List ContractId → Outcome WorkForest
  insert_utxos f [] = ok f
  insert_utxos f (utxo ∷ utxos) = do f' ← insert f utxo; insert_utxos f' utxos

  unfoldable pub initial_proofs : Catchup → List ContractId → Outcome (List Proof)
  initial_proofs catchup utxos =
      map_result (λ utxo. unwrap_result (update_proof catchup utxo none)) utxos

  -- `BlockchainState::make_initial`
  unfoldable pub make_initial : ℕ → List ContractId → Outcome (BlockchainState × List Proof)
  make_initial timestamp_ms utxos = do
    u ←
        unwrap_result
          (update_forest new_forest (λ forest. do f ← insert_utxos forest utxos; ok (utxos, f)))
    proofs ← initial_proofs u.2 u.0
    let tip = initial_header timestamp_ms (root u.1)
    let state : BlockchainState = record {
      initial_id = id tip;
      tip = tip;
      utreexo = u.1;
      catchup = u.2;
    }
    ok (state, proofs)

  module _ ⦃contracts : Contracts⦄ where
    -- One entry of the log, in the loop of `apply_tx`
    unfoldable pub apply_entry :
        TxEntry → List Proof → WorkForest → BlockOutcome (List Proof × WorkForest)
    apply_entry (input contract_id) proofs f = do
      p ← next_proof proofs
      f' ← lift (delete f contract_id p.0)
      ok (p.1, f')
    apply_entry (output contract) proofs f = do
      f' ← lift (insert f (contracts.id contract))
      ok (proofs, f')
    apply_entry (header h) proofs f = ok (proofs, f)
    apply_entry (issue q flv) proofs f = ok (proofs, f)
    apply_entry (retire q flv) proofs f = ok (proofs, f)
    apply_entry (data_entry bytes) proofs f = ok (proofs, f)

    unfoldable pub apply_log :
        List TxEntry → List Proof → WorkForest → BlockOutcome (List Proof × WorkForest)
    apply_log [] proofs f = ok (proofs, f)
    apply_log (entry ∷ log) proofs f = do r ← apply_entry entry proofs f; apply_log log r.0 r.1
