-- ===== src/Verifier/Verified.antt =====
-- What zkvm/src/verifier.rs guarantees of a transaction that it verifies.
use zioncoin_poc.Prelude.{
  ℕ, ◌≡◌, ◌≢◌, ◌⊎◌, inl, inr, refl, ap, ◌∙◌, subst, true, List, [], ◌∷◌, ◌++◌, map, none, length,
  ◌==◌, if◌then◌else◌, arith,
}
use zioncoin_poc.Prelude.Result.{ok, >>=-eq-ok, ok-injective, ensure, ensure-eq_ok}
use zioncoin_poc.External.{
  LittleEndian, Merlin, Scalars, Curve, ScalarField, ConstraintSystem, RandomizableSystem,
  PedersenGens, R1cs, R1csVerifier,
}
use zioncoin_poc.Errors.{invalid_r1cs_proof}
use zioncoin_poc.Tx.{ContractId, TxId, Tx, VerifiedTx, TxEntry, header, from_log}
use zioncoin_poc.Items.Ids.{zkvm_contracts}
use zioncoin_poc.Spacesuit.{Cloak}
use zioncoin_poc.PointOps.{Factors, verify_batch}
use zioncoin_poc.PointOps.Batches.{BatchHolds, verify_batch_iff}
use zioncoin_poc.Taproot.{PointOp}
use zioncoin_poc.Musig.{into_point_op, verify_multi}
use zioncoin_poc.Items.{VerificationKey}
use zioncoin_poc.Vm.Steps.{run}
use zioncoin_poc.Vm.Inputs.{has_input, run_logs_input}
use zioncoin_poc.Verifier.{VerifierState, verifier_delegate, with_signature, verifier_vm, verify_tx}

module _ ⦃scalars : Scalars⦄ ⦃curve : Curve⦄ ⦃le : LittleEndian⦄ ⦃cs : ConstraintSystem⦄
    ⦃merlin : Merlin⦄ ⦃gens : PedersenGens⦄ ⦃r1cs : R1cs⦄ ⦃verifier : R1csVerifier⦄
    ⦃field : ScalarField⦄ ⦃random : RandomizableSystem⦄ ⦃cloaks : Cloak⦄ where
  -- The operation of the signature, in a transcript with the id, over the id of every remembered contract under
  -- its key
  abbrev pub signature_op : Tx → TxId → VerifierState → PointOp
  signature_op tx id s = into_point_op (
      verify_multi tx.signature
        (merlin.append_message "txid" id.tx_bytes (merlin.new "ZkVM.signtx"))
        (map (λ (p : VerificationKey × ContractId). (p.0, p.1.id_bytes)) s.signtx_items))

  -- The operations on points are those that the machine deferred, all in order, and after them that of
  -- the signature, unless the machine remembered no key.
  abbrev pub IsBatchOf : Tx → TxId → VerifierState → List PointOp → Type 0
  IsBatchOf tx id s ops =
      ((s.signtx_items ≡ []) × (ops ≡ s.deferred_operations))
      ⊎ ((s.signtx_items ≢ []) × (ops ≡ s.deferred_operations ++ signature_op tx id s ∷ []))

  -- The checks on a transaction: the machine ran to its end with this log and id, the proof holds for
  -- the constraint system with the id in its transcript, and the sum of the deferred operations and
  -- that of the signature over the id, each times the factor that it draws, is the identity.
  pub record Checked (fuel : ℕ) (factors : Factors) (tx : Tx) (vtx : VerifiedTx) : Type 0 where
    pub state : VerifierState
    pub ran : run fuel (verifier_vm tx) ≡ ok ((vtx.id, vtx.log), state)
    pub proved :
        verifier.verify tx.proof
          (verifier.append_to_transcript "ZkVM.txid" vtx.id.tx_bytes state.system)
        ≡ true
    pub operations : List PointOp
    pub signed : IsBatchOf tx vtx.id state operations
    pub points : BatchHolds factors operations

  -- The log of a verified transaction: its header, then entries with an input among them, under its id
  pub record Logged (tx : Tx) (vtx : VerifiedTx) : Type 0 where
    pub header_kept : vtx.header ≡ tx.header
    pub id_of_log : vtx.id ≡ from_log vtx.log
    pub entries : List TxEntry
    pub log_lem : vtx.log ≡ header tx.header ∷ entries
    pub spends : has_input entries ≡ true

  signed_or_empty :
      (items : List (VerificationKey × ContractId)) (ops : List PointOp) (op : PointOp)
      → let all = if length items == 0 then ops else ops ++ op ∷ [] in
        ((items ≡ []) × (all ≡ ops)) ⊎ ((items ≢ []) × (all ≡ ops ++ op ∷ []))
  signed_or_empty [] ops op = inl (refl, refl)
  signed_or_empty (item ∷ items) ops op = inr ((λ e. cc), ground arith)

  with_signature-IsBatchOf :
      (tx : Tx) (id : TxId) (s : VerifierState) → IsBatchOf tx id s (with_signature tx id s)
  unfolding with_signature
  with_signature-IsBatchOf tx id s =
      signed_or_empty s.signtx_items s.deferred_operations (signature_op tx id s)

  none_yet : (tx : Tx) → (verifier_vm tx).last_anchor ≡ none
  unfolding verifier_vm
  none_yet tx = refl

  first_log : (tx : Tx) → (verifier_vm tx).txlog ≡ header tx.header ∷ []
  unfolding verifier_vm
  first_log tx = refl

  -- A transaction that `verify_tx` accepts passed all checks: the machine ran to its end, the proof
  -- verifies, and the sum of all deferred operations and, where the machine remembered a key, that of
  -- the signature over the id, each times its factor, is the identity. Its log starts with its
  -- header, has an input, and gives its id.
  pub verify_tx-Checked :
      (fuel : ℕ) (factors : Factors) (tx : Tx) (vtx : VerifiedTx)
      → verify_tx fuel factors tx ≡ ok vtx
      → Checked fuel factors tx vtx × Logged tx vtx
  unfolding verify_tx
  verify_tx-Checked fuel factors tx vtx e =
      let (p, ran, e1) = >>=-eq-ok (run fuel (verifier_vm tx)) _ e in
      let system = verifier.append_to_transcript "ZkVM.txid" p.0.0.tx_bytes p.1.system in
      let (u, proved, e2) =
        >>=-eq-ok (ensure (verifier.verify tx.proof system) invalid_r1cs_proof) _ e1 in
      let (w, points, e3) = >>=-eq-ok (verify_batch factors (with_signature tx p.0.0 p.1)) _ e2 in
      let (id_of_log, (entries, log_lem, spends)) =
        run_logs_input fuel (verifier_vm tx) p.0.0 p.0.1 p.1 (none_yet tx) ran in
      subst (λ v. Checked fuel factors tx v × Logged tx v) (ok-injective e3)
        (
          record {
            state = p.1;
            ran = ran;
            proved = ensure-eq_ok _ invalid_r1cs_proof proved;
            operations = with_signature tx p.0.0 p.1;
            signed = with_signature-IsBatchOf tx p.0.0 p.1;
            points = (verify_batch_iff factors _).0 points;
          },
          record {
            header_kept = refl;
            id_of_log = id_of_log;
            entries = entries;
            log_lem = log_lem ∙ ap (λ l. l ++ entries) (first_log tx);
            spends = spends;
          },
        )
