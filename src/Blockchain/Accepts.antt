-- ===== src/Blockchain/Accepts.antt =====
-- What `apply_block` has checked of a block that it accepts.
use zioncoin_poc.Prelude.{
  ℕ, ◌+◌, ◌≤◌, ◌≡◌, refl, sym, ap, ◌∙◌, List, [], ◌∷◌, ◌++◌, map, arith, All, length,
}
use zioncoin_poc.Prelude.Result.{
  Result, ok, err, panic, stuck, >>=-eq-ok, ok-injective, map_err, map_result,
}
use zioncoin_poc.Prelude.Bytes.{Bytes, bytes_eq, bytes_eq→eq}
use zioncoin_poc.External.{Merlin, Scalars, R1cs}
use zioncoin_poc.Errors.{VmError}
use zioncoin_poc.Merkle
use zioncoin_poc.Tx.{
  TxId, Contracts, TxHeader, TxEntry, header, issue, retire, input, output, data_entry, Tx,
  VerifiedTx, txid_item, contract_id_item,
}
use zioncoin_poc.Utreexo.Path.{Proof}
use zioncoin_poc.Utreexo.Forest.{WorkForest, work_forest, root, delete, insert}
use zioncoin_poc.Utreexo.Forest.Normalize.{normalize}
use zioncoin_poc.Blockchain.{
  tx_validation, inconsistent_header, Verifier, Block, VerifiedBlock, BlockchainState, lift,
  check_tx_header, check_block_header, apply_log, apply_entry, next_proof,
}
use zioncoin_poc.Blockchain.State.{apply_tx, apply_each, apply_txs, apply_block}
use zioncoin_poc.Blockchain.Extends.{check->>-eq_ok}

-- The header of a transaction allows the block's time and version.
pub record Timely (block_version timestamp_ms : ℕ) (h : TxHeader) : Type 0 where
  pub after : h.mintime_ms ≤ timestamp_ms
  pub before : timestamp_ms ≤ h.maxtime_ms
  pub version : block_version ≡ 1 → h.version ≡ 1

check_tx_header-Timely :
    (h : TxHeader) (block_version timestamp_ms : ℕ)
    → check_tx_header h block_version timestamp_ms ≡ ok tt
    → Timely block_version timestamp_ms h
unfolding check_tx_header
check_tx_header-Timely h block_version timestamp_ms e = record {
  after = ground arith;
  before = ground arith;
  version = ground arith;
}

-- The inputs of a log: each takes a proof.
unfoldable pub inputs : ⦃contracts : Contracts⦄ → List TxEntry → ℕ
inputs [] = 0
inputs (input contract_id ∷ log) = 1 + inputs log
inputs (header h ∷ log) = inputs log
inputs (issue q f ∷ log) = inputs log
inputs (retire q f ∷ log) = inputs log
inputs (output contract ∷ log) = inputs log
inputs (data_entry bytes ∷ log) = inputs log

module _ ⦃merlin : Merlin⦄ ⦃contracts : Contracts⦄ where
  -- A log that applies takes one proof for each of its inputs off the front of the list.
  pub apply_log_takes :
      (log : List TxEntry) (proofs : List Proof) (f : WorkForest) {rest : List Proof}
      {f' : WorkForest}
      → apply_log log proofs f ≡ ok (rest, f')
      → (taken : List Proof) × (proofs ≡ taken ++ rest) × (length taken ≡ inputs log)
  unfolding apply_log inputs apply_entry next_proof
  apply_log_takes [] proofs f e = ([], cc, refl)
  apply_log_takes (input contract_id ∷ log) [] f e = cc
  apply_log_takes (input contract_id ∷ log) (proof ∷ proofs) f {rest} {f'} e =
      let (r, er, e1) = >>=-eq-ok (apply_entry (input contract_id) (proof ∷ proofs) f) _ e in
      let (f1, ef, e2) = >>=-eq-ok (lift (delete f contract_id proof)) _ er in
      let left : r.0 ≡ proofs = cc e2 in
      let (taken, split, count) = apply_log_takes log r.0 r.1 e1 in
      (proof ∷ taken, ap (λ ps. proof ∷ ps) (sym left ∙ split), omega (arith, count))
  apply_log_takes (output contract ∷ log) proofs f e =
      let (r, er, e1) = >>=-eq-ok (apply_entry (output contract) proofs f) _ e in
      let (f1, ef, e2) = >>=-eq-ok (lift (insert f (contracts.id contract))) _ er in
      let left : r.0 ≡ proofs = cc e2 in
      let (taken, split, count) = apply_log_takes log r.0 r.1 e1 in (taken, sym left ∙ split, count)
  apply_log_takes (header h ∷ log) proofs f e = apply_log_takes log proofs f e
  apply_log_takes (issue q flv ∷ log) proofs f e = apply_log_takes log proofs f e
  apply_log_takes (retire q flv ∷ log) proofs f e = apply_log_takes log proofs f e
  apply_log_takes (data_entry bytes ∷ log) proofs f e = apply_log_takes log proofs f e

module _ ⦃merlin : Merlin⦄ ⦃contracts : Contracts⦄ ⦃scalars : Scalars⦄ ⦃r1cs : R1cs⦄
    ⦃verifier : Verifier⦄ where
  -- The transactions all verify, in order, and are timely.
  record Verified (block_version timestamp_ms : ℕ) (txs : List Tx) (verified_txs : List VerifiedTx)
      : Type 0 where
    verifies : map_result verifier.verify_tx txs ≡ ok verified_txs
    timely : All (λ (tx : Tx). Timely block_version timestamp_ms tx.header) txs

  map_err-eq_ok :
      {A : Type 0} (m : Result VmError A) {a : A} → map_err tx_validation m ≡ ok a → m ≡ ok a
  map_err-eq_ok (ok x) e = cc
  map_err-eq_ok (err x) e = cc
  map_err-eq_ok panic e = cc
  map_err-eq_ok stuck e = cc

  apply_each-Verified :
      (block_version timestamp_ms : ℕ) (txs : List Tx) (proofs : List Proof) (f : WorkForest)
      {r : List VerifiedTx × List Proof × WorkForest}
      → apply_each block_version timestamp_ms txs proofs f ≡ ok r
      → Verified block_version timestamp_ms txs r.0
  unfolding apply_each apply_tx
  apply_each-Verified v t [] proofs f e = record { verifies = cc; timely = tt }
  apply_each-Verified v t (tx ∷ txs) proofs f {r} e =
      let (r1, er, e1) = >>=-eq-ok (apply_tx v t tx proofs f) _ e in
      let (rest, es, e2) = >>=-eq-ok (apply_each v t txs r1.1 r1.2) _ e1 in
      let (u, timely, e3) = >>=-eq-ok (check_tx_header tx.header v t) _ er in
      let (vtx, ev, e4) = >>=-eq-ok (map_err tx_validation (verifier.verify_tx tx)) _ e3 in
      let (q, eq, e5) = >>=-eq-ok (apply_log vtx.log proofs f) _ e4 in
      let ih = apply_each-Verified v t txs r1.1 r1.2 es in
      let same : r1.0 ≡ vtx =
        sym (ap (λ (p : VerifiedTx × List Proof × WorkForest). p.0) (ok-injective e5)) in
      let whole : (r1.0 ∷ rest.0) ≡ r.0 =
        ap (λ (p : List VerifiedTx × List Proof × WorkForest). p.0) (ok-injective e2) in
      record {
        verifies =
            rw (map_err-eq_ok (verifier.verify_tx tx) ev, ih.verifies)
              (ap ok (ap (λ x. x ∷ rest.0) (sym same) ∙ whole));
        timely = (check_tx_header-Timely tx.header v t timely, ih.timely);
      }

  -- What an accepted block has shown, and what becomes of the state.
  pub record Accepted (state : BlockchainState) (block : Block) (verified : VerifiedBlock)
      (new_state : BlockchainState) : Type 0 where
    pub extends : check_block_header block.header state.tip ≡ ok tt
    pub verifies : map_result verifier.verify_tx block.txs ≡ ok verified.txs
    pub timely :
        All (λ (tx : Tx). Timely block.header.version block.header.timestamp_ms tx.header) block.txs
    pub txroot :
        block.header.txroot
        ≡ Merkle.root {M = TxId} "ZkVM.txroot" (map (λ (tx : VerifiedTx). tx.id) verified.txs)
    pub utxoroot : block.header.utxoroot ≡ root new_state.utreexo
    pub tip : new_state.tip ≡ block.header
    pub initial_id : new_state.initial_id ≡ state.initial_id

  -- A block that `apply_block` accepts passes the check against the tip, its transactions all
  -- verify, in order, to those of the verified block and are timely, its roots are those of the
  -- verified transactions' ids and of the new forest, and its header becomes the tip of the chain,
  -- whose initial block stays.
  pub apply_block_accepts :
      (state : BlockchainState) (block : Block) (verified : VerifiedBlock)
      (new_state : BlockchainState)
      → apply_block state block ≡ ok (verified, new_state)
      → Accepted state block verified new_state
  unfolding apply_block apply_txs
  apply_block_accepts state block verified new_state e =
      let h = block.header in
      let (u, extends, e1) = >>=-eq-ok (check_block_header h state.tip) _ e in
      let (f, ef, e2) = >>=-eq-ok (lift (work_forest state.utreexo)) _ e1 in
      let (r, er, e3) =
        >>=-eq-ok (apply_txs h.version h.timestamp_ms block.txs block.all_utxo_proofs f) _ e2 in
      let (txroot, e4) = check->>-eq_ok (bytes_eq h.txroot r.0.0) inconsistent_header _ e3 in
      let (n, en, e5) = >>=-eq-ok (lift (normalize r.1)) _ e4 in
      let (utxoroot, e6) =
        check->>-eq_ok (bytes_eq h.utxoroot (root n.0)) inconsistent_header _ e5 in
      let (q, eq, e7) =
        >>=-eq-ok (apply_each h.version h.timestamp_ms block.txs block.all_utxo_proofs f) _ er in
      let v = apply_each-Verified h.version h.timestamp_ms block.txs block.all_utxo_proofs f eq in
      let result = ok-injective e6 in
      let applied = ok-injective e7 in
      let verified_txs : r.0.1 ≡ verified.txs =
        ap (λ (p : VerifiedBlock × BlockchainState). p.0.txs) result in
      let each : q.0 ≡ r.0.1 = ap (λ (p : (Bytes × List VerifiedTx) × WorkForest). p.0.1) applied in
      let new_root : root n.0 ≡ root new_state.utreexo =
        ap (λ (p : VerifiedBlock × BlockchainState). root p.1.utreexo) result in
      let ids : Merkle.root {M = TxId} "ZkVM.txroot" (map (λ (tx : VerifiedTx). tx.id) q.0)
          ≡ r.0.0 =
        ap (λ (p : (Bytes × List VerifiedTx) × WorkForest). p.0.0) applied in
      record {
        extends = extends;
        verifies = v.verifies ∙ ap ok (each ∙ verified_txs);
        timely = v.timely;
        txroot =
            bytes_eq→eq _ _ txroot
            ∙ sym ids
            ∙ ap
                (λ txs. Merkle.root {M = TxId} "ZkVM.txroot" (map (λ (tx : VerifiedTx). tx.id) txs))
                (each ∙ verified_txs);
        utxoroot = bytes_eq→eq _ _ utxoroot ∙ new_root;
        tip = sym (ap (λ (p : VerifiedBlock × BlockchainState). p.1.tip) result);
        initial_id = sym (ap (λ (p : VerifiedBlock × BlockchainState). p.1.initial_id) result);
      }
