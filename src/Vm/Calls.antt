-- ===== src/Vm/Calls.antt =====
-- zkvm/src/vm.rs: the instructions that call programs. Each has the name of its method.
use zioncoin_poc.Prelude.{Option, none, some, []}
use zioncoin_poc.External.{
  LittleEndian, Merlin, Scalars, Curve, ScalarField, ConstraintSystem, PedersenGens,
}
use zioncoin_poc.Errors.{format_error}
use zioncoin_poc.Encoding.{parse, read_u8x64}
use zioncoin_poc.Tx.{Signature, signature_from_bytes}
use zioncoin_poc.Items.Encode.{encode_program_item}
use zioncoin_poc.Items.Ids.{contract_id, zkvm_contracts}
use zioncoin_poc.Stack.{Item, to_verification_key, string_to_bytes}
use zioncoin_poc.Taproot.{prove_taproot}
use zioncoin_poc.Taproot.Codec.{decode_callproof}
use zioncoin_poc.Musig.{into_point_op, verify_signature}
use zioncoin_poc.Vm.{
  Delegate, Method, ◌>>=◌, ◌>>◌, pure, fail, try, push_item, push_items, verify_point_op,
  continue_with_program,
}
use zioncoin_poc.Vm.Arithmetic.{pop_string}
use zioncoin_poc.Vm.Contracts.{pop_program, pop_contract_item, contract_predicate, payload_items}

module _ ⦃scalars : Scalars⦄ ⦃curve : Curve⦄ ⦃field : ScalarField⦄ ⦃cs : ConstraintSystem⦄
    ⦃merlin : Merlin⦄ ⦃le : LittleEndian⦄ ⦃delegate : Delegate⦄ where
  module _ ⦃gens : PedersenGens⦄ where
    unfoldable pub call : Method (Unit {0})
    unfolding pop_program pop_string string_to_bytes try pop_contract_item verify_point_op
        push_items continue_with_program contract_predicate payload_items
    call = do
      program_item ← pop_program
      str ← pop_string
      call_proof ← try (parse (string_to_bytes str) decode_callproof)
      contract ← pop_contract_item
      verify_point_op (prove_taproot (contract_predicate contract) program_item call_proof)
      push_items (payload_items contract)
      continue_with_program program_item

    unfoldable pub signature_at : Option Signature → Method Signature
    signature_at none = fail format_error
    signature_at (some signature) = pure signature

    -- The signature on the top of the stack
    unfoldable pub pop_signature : Method Signature
    unfolding pop_string string_to_bytes try signature_at signature_from_bytes
    pop_signature = do
      str ← pop_string
      sig ← try (parse (string_to_bytes str) read_u8x64)
      signature_at (signature_from_bytes sig)

    unfoldable pub signid : Method (Unit {0})
    unfolding pop_signature pop_program pop_contract_item push_items payload_items
        contract_predicate try to_verification_key verify_point_op continue_with_program
    signid = do
      signature ← pop_signature
      prog ← pop_program
      contract ← pop_contract_item
      push_items (payload_items contract)
      verification_key ← try (to_verification_key (contract_predicate contract))
      let t = merlin.new "ZkVM.signid"
      let t1 = merlin.append_message "contract" (contract_id contract).id_bytes t
      let t2 = merlin.append_message "prog" (encode_program_item prog []) t1
      verify_point_op (into_point_op (verify_signature signature t2 verification_key))
      continue_with_program prog

    unfoldable pub signtag : Method (Unit {0})
    unfolding pop_signature pop_program pop_contract_item push_items payload_items pop_string
        push_item contract_predicate try to_verification_key verify_point_op continue_with_program
        string_to_bytes
    signtag = do
      signature ← pop_signature
      prog ← pop_program
      contract ← pop_contract_item
      push_items (payload_items contract)
      tag ← pop_string
      push_item (Item.string tag)
      verification_key ← try (to_verification_key (contract_predicate contract))
      let t = merlin.new "ZkVM.signtag"
      let t1 = merlin.append_message "tag" (string_to_bytes tag) t
      let t2 = merlin.append_message "prog" (encode_program_item prog []) t1
      verify_point_op (into_point_op (verify_signature signature t2 verification_key))
      continue_with_program prog
