-- ===== src/Verifier.antt =====
-- zkvm/src/verifier.rs: the verifier as the delegate of the virtual machine, and the verification of
-- a transaction. It fills the interface that the blockchain takes.
pub mod Verified
pub mod Chain
pub mod Progress
pub mod Termination
mod Endless
mod Runs
mod Blocks
use zioncoin_poc.Prelude.{
  ℕ, ◌+◌, ◌-◌, Bool, true, false, Option, none, some, List, [], ◌∷◌, ◌++◌, ◌==◌, leb, if◌then◌else◌,
  length, drop, map,
}
use zioncoin_poc.Prelude.Result.{Result, ok, err, panic, stuck, ◌>>=◌, ◌>>◌, ensure}
use zioncoin_poc.Prelude.Bytes.{Bytes}
use zioncoin_poc.External.{
  LittleEndian, Merlin, Scalars, Curve, ScalarField, ConstraintSystem, RandomizableSystem,
  PedersenGens, R1cs, R1csVerifier,
}
use zioncoin_poc.Errors.{VmError, invalid_r1cs_proof}
use zioncoin_poc.Encoding.{Reader, ◌>>=◌ as then_read, pure, parse, skip_trailing_bytes}
use zioncoin_poc.Tx.{ContractId, TxId, Tx, VerifiedTx, TxEntry}
use zioncoin_poc.Items.{Bytes32, Commitment, ProgramItem, Instruction, Predicate, VerificationKey}
use zioncoin_poc.Items.Encode.{commitment_to_point}
use zioncoin_poc.Items.Parse.{parse_instruction}
use zioncoin_poc.Items.Ids.{zkvm_contracts}
use zioncoin_poc.Spacesuit.{Cloak}
use zioncoin_poc.Stack.{to_bytecode, to_verification_key}
use zioncoin_poc.Taproot.{PointOp}
use zioncoin_poc.PointOps.{Factors, verify_batch}
use zioncoin_poc.Musig.{into_point_op, verify_multi}
use zioncoin_poc.Vm.{Delegate, Vm, new_vm}
use zioncoin_poc.Vm.Steps.{run}

module _ ⦃scalars : Scalars⦄ ⦃curve : Curve⦄ ⦃cs : ConstraintSystem⦄ where
  pub record VerifierState : Type 0 where
    pub signtx_items : List (VerificationKey × ContractId)
    pub deferred_operations : List PointOp
    pub system : cs.System

-- `VerifierRun`
pub record VerifierRun : Type 0 where
  pub program : Bytes
  pub offset : ℕ

-- `VerifierRun::new`
unfoldable pub new_verifier_run : Bytes → VerifierRun
new_verifier_run program = record { program = program; offset = 0 }

module _ ⦃scalars : Scalars⦄ ⦃curve : Curve⦄ ⦃le : LittleEndian⦄ where
  -- The closure that `next_instruction` parses with: an instruction, and how much is left after it
  unfoldable pub instruction_and_rest : Reader (Instruction × ℕ)
  unfolding skip_trailing_bytes
  instruction_and_rest =
      then_read parse_instruction
        λ instr. then_read skip_trailing_bytes λ remainder. pure (instr, remainder)

  -- `Verifier::next_instruction`
  unfoldable pub next_of_run : VerifierRun → Result VmError (Option Instruction × VerifierRun)
  unfolding instruction_and_rest
  next_of_run r = if r.offset == length r.program then ok (none, r) else do
    p ← parse (drop r.offset r.program) instruction_and_rest
    ok (some p.0, record r { offset = length r.program - p.1 })

  module _ ⦃cs : ConstraintSystem⦄ ⦃merlin : Merlin⦄ ⦃gens : PedersenGens⦄ ⦃r1cs : R1cs⦄
      ⦃verifier : R1csVerifier⦄ where
    -- `Verifier::commit_variable`
    unfoldable pub verifier_commit :
        Commitment → VerifierState → Result VmError ((Bytes32 × cs.Variable) × VerifierState)
    unfolding commitment_to_point
    verifier_commit c s =
        let point = commitment_to_point c in
        let committed = verifier.commit point.bytes32 s.system in
        ok ((point, committed.0), record s { system = committed.1 })

    -- `Verifier::verify_point_op`
    unfoldable pub defer : PointOp → VerifierState → Result VmError VerifierState
    defer op s = ok (record s { deferred_operations = s.deferred_operations ++ op ∷ [] })

    -- `Verifier::process_tx_signature`
    unfoldable pub remember_key :
        Predicate → ContractId → VerifierState → Result VmError VerifierState
    unfolding to_verification_key
    remember_key pred id s = do
      key ← to_verification_key pred
      ok (record s { signtx_items = s.signtx_items ++ (key, id) ∷ [] })

    -- `Verifier::new_run`
    unfoldable pub verifier_new_run : ProgramItem → VerifierState → Result VmError VerifierRun
    unfolding new_verifier_run to_bytecode
    verifier_new_run prog s = do bytes ← to_bytecode prog; ok (new_verifier_run bytes)

    unfoldable pub verifier_next :
        VerifierRun
        → VerifierState
        → Result VmError (Option Instruction × VerifierRun × VerifierState)
    unfolding next_of_run
    verifier_next r s = do p ← next_of_run r; ok (p.0, p.1, s)

    -- `impl Delegate for Verifier`
    instance abbrev pub verifier_delegate : Delegate
    verifier_delegate = record {
      State = VerifierState;
      RunType = VerifierRun;
      commit_variable = verifier_commit;
      verify_point_op = defer;
      process_tx_signature = remember_key;
      get_cs = λ s. s.system;
      set_cs = λ system s. record s { system = system };
      next_instruction = verifier_next;
      new_run = verifier_new_run;
    }

    module _ ⦃field : ScalarField⦄ where
      -- The operation of the transaction's signature, if any key was remembered
      unfoldable pub with_signature : Tx → TxId → VerifierState → List PointOp
      unfolding into_point_op verify_multi
      with_signature tx txid s =
          let t = merlin.append_message "txid" txid.tx_bytes (merlin.new "ZkVM.signtx") in
          let pairs =
            map (λ (p : VerificationKey × ContractId). (p.0, p.1.id_bytes)) s.signtx_items in
          if length s.signtx_items == 0
          then s.deferred_operations
          else s.deferred_operations ++ into_point_op (verify_multi tx.signature t pairs) ∷ []

      module _ ⦃random : RandomizableSystem⦄ ⦃cloaks : Cloak⦄ where
        -- What `verify_tx` starts the machine with
        unfoldable pub verifier_vm : Tx → Vm
        unfolding new_vm new_verifier_run
        verifier_vm tx = new_vm tx.header (new_verifier_run tx.program) (record {
          signtx_items = [];
          deferred_operations = [];
          system = verifier.new_verifier (merlin.new "ZkVM.r1cs");
        })

        -- `Verifier::verify_tx`, with the fuel of the machine and the factors that the batch draws
        unfoldable pub verify_tx : ℕ → Factors → Tx → Result VmError VerifiedTx
        unfolding run verifier_vm with_signature verify_batch
        verify_tx fuel factors tx = do
          ((txid, txlog), s) ← run fuel (verifier_vm tx)
          let system = verifier.append_to_transcript "ZkVM.txid" txid.tx_bytes s.system
          ensure (verifier.verify tx.proof system) invalid_r1cs_proof
          verify_batch factors (with_signature tx txid s)
          ok (record { header = tx.header; id = txid; log = txlog })
