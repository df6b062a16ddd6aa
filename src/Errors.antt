-- ===== src/Errors.antt =====
-- zkvm/src/errors.rs: `VMError`. The payload of `R1CSError` belongs to the bulletproofs crate and
-- is dropped.
use zioncoin_poc.Prelude.Bytes.{Bytes}

pub data VmError : Type 0 where
  point_operation_failed invalid_point format_error trailing_bytes : VmError
  extensions_not_allowed type_not_copyable type_not_portable type_not_string : VmError
  type_not_contract type_not_variable type_not_expression type_not_predicate : VmError
  type_not_commitment type_not_output type_not_call_proof type_not_constraint : VmError
  type_not_scalar type_not_program_item type_not_predicate_tree type_not_key : VmError
  type_not_signed_integer type_not_program inconsistent_witness type_not_value : VmError
  type_not_wide_value stack_underflow stack_not_clean anchor_missing : VmError
  point_operations_failed : VmError
  musig_share_error : Bytes → VmError
  invalid_r1cs_proof r1cs_inconsistency r1cs_error witness_missing invalid_bitrange : VmError
  invalid_merkle_proof invalid_predicate_tree bad_arguments invalid_input : VmError
  cleartext_constraint_false : VmError
