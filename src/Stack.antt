-- ===== src/Stack.antt =====
-- zkvm/src/types.rs: the items on the stack of the virtual machine, with their casts; `Variable`
-- stands in zkvm/src/constraints.rs. Strings and values are those of Items.
pub mod Casts
use zioncoin_poc.Prelude.{Bool, Option, none, some, List, [], ◌∷◌, ◌==◌, ◌&&◌, true, drop, take}
use zioncoin_poc.Prelude.Result.{Result, ok, err, ◌>>=◌}
use zioncoin_poc.Prelude.Bytes.{Bytes}
use zioncoin_poc.External.{
  LittleEndian, Merlin, Scalars, Curve, ScalarField, ConstraintSystem, PedersenGens,
}
use zioncoin_poc.Errors.{
  VmError, type_not_string, type_not_program_item, type_not_contract, type_not_value,
  type_not_wide_value, type_not_variable, type_not_expression, type_not_constraint,
  type_not_portable, type_not_copyable, type_not_predicate, type_not_commitment, type_not_output,
  type_not_scalar, type_not_program, type_not_signed_integer, inconsistent_witness, invalid_point,
}
use zioncoin_poc.Encoding.{parse, read_scalar}
use zioncoin_poc.Items.{
  ℤ, ScalarWitness, Commitment, Value, VmString, ProgramItem, Predicate, VerificationKey, Contract,
  Payload, PortableItem, Bytes32,
}
use zioncoin_poc.Items.Encode.{to_scalar, encode_string, predicate_to_point, precomputed_key}
use zioncoin_poc.Items.Decode.{read_point_array, decode_contract}
use zioncoin_poc.Constraints.{Expression, Constraint}
use zioncoin_poc.Taproot.{challenge_scalar}

module _ ⦃scalars : Scalars⦄ ⦃curve : Curve⦄ where
  pub record Variable : Type 0 where
    pub commitment : Commitment

  -- `Commitment::assignment`
  unfoldable pub commitment_assignment : Commitment → Option ScalarWitness
  commitment_assignment (Commitment.closed x) = none
  commitment_assignment (Commitment.open_with w) = some w.value

  -- `ScalarWitness::option_to_integer`
  unfoldable pub option_to_integer : Option ScalarWitness → Result VmError (Option ℤ)
  option_to_integer none = ok none
  option_to_integer (some (ScalarWitness.integer i)) = ok (some i)
  option_to_integer (some (ScalarWitness.scalar s)) = err type_not_signed_integer

  unfoldable pub all_zero : Bytes → Bool
  all_zero [] = true
  all_zero (v ∷ bytes) = (v == 0) && all_zero bytes

  -- `ScalarWitness::in_range`
  unfoldable pub in_range : ScalarWitness → Bool
  unfolding all_zero
  in_range sw = all_zero (take 24 (drop 8 (scalars.as_bytes (to_scalar sw))))

  unfoldable pub value_witness :
      Option ScalarWitness → Option ScalarWitness → Result VmError (Option (ℤ × scalars.Scalar))
  value_witness none none = ok none
  value_witness (some (ScalarWitness.integer q)) (some (ScalarWitness.scalar f)) = ok (some (q, f))
  value_witness _ _ = err inconsistent_witness

  -- `Value::assignment`
  unfoldable pub assignment : Value → Result VmError (Option (ℤ × scalars.Scalar))
  unfolding commitment_assignment value_witness
  assignment value =
      value_witness (commitment_assignment value.qty) (commitment_assignment value.flv)

  -- A payload as a list, and back
  unfoldable pub payload_list : Payload → List PortableItem
  payload_list Payload.no_items = []
  payload_list (Payload.item_then item rest) = item ∷ payload_list rest

  unfoldable pub payload_of : List PortableItem → Payload
  payload_of [] = Payload.no_items
  payload_of (item ∷ rest) = Payload.item_then item (payload_of rest)

  -- `ProgramItem::to_bytecode`
  unfoldable pub to_bytecode : ProgramItem → Result VmError Bytes
  to_bytecode (ProgramItem.program prog) = err type_not_program
  to_bytecode (ProgramItem.bytecode bytes) = ok bytes

  module _ ⦃gens : PedersenGens⦄ where
    unfoldable pub key_at : Bytes32 → Option curve.Point → Result VmError VerificationKey
    key_at p none = err invalid_point
    key_at p (some point) = ok (record { point = point; precompressed = p })

    -- `Predicate::to_verification_key`, with `VerificationKey::from_compressed`
    unfoldable pub to_verification_key : Predicate → Result VmError VerificationKey
    unfolding key_at precomputed_key
    to_verification_key (Predicate.opaque_point p) = key_at p (gens.decompress p.bytes32)
    to_verification_key (Predicate.key k) = ok k
    to_verification_key (Predicate.tree t) = ok (precomputed_key t)

  module _ ⦃le : LittleEndian⦄ where
    -- `String::to_bytes`
    unfoldable pub string_to_bytes : VmString → Bytes
    unfolding encode_string
    string_to_bytes (VmString.opaque_bytes d) = d
    string_to_bytes d = encode_string d []

    -- `String::to_predicate`
    unfoldable pub to_predicate : VmString → Result VmError Predicate
    to_predicate (VmString.opaque_bytes bytes) = do
      point ← parse bytes read_point_array
      ok (Predicate.opaque_point point)
    to_predicate (VmString.predicate p) = ok p
    to_predicate _ = err type_not_predicate

    -- `String::to_commitment`
    unfoldable pub to_commitment : VmString → Result VmError Commitment
    to_commitment (VmString.opaque_bytes bytes) = do
      point ← parse bytes read_point_array
      ok (Commitment.closed point)
    to_commitment (VmString.commitment c) = ok c
    to_commitment _ = err type_not_commitment

    -- `String::to_output`
    unfoldable pub to_output : VmString → Result VmError Contract
    to_output (VmString.opaque_bytes bytes) = parse bytes decode_contract
    to_output (VmString.output_contract c) = ok c
    to_output _ = err type_not_output

    -- `String::to_scalar`
    unfoldable pub string_to_scalar : VmString → Result VmError ScalarWitness
    string_to_scalar (VmString.opaque_bytes bytes) = do
      s ← parse bytes (read_scalar scalars.from_canonical_bytes)
      ok (ScalarWitness.scalar s)
    string_to_scalar (VmString.scalar_witness s) = ok s
    string_to_scalar _ = err type_not_scalar

    module _ ⦃merlin : Merlin⦄ ⦃gens : PedersenGens⦄ where
      -- `Value::issue_flavor`
      unfoldable pub issue_flavor : Predicate → VmString → scalars.Scalar
      unfolding challenge_scalar predicate_to_point string_to_bytes
      issue_flavor predicate metadata =
          let t = merlin.new "ZkVM.issue" in
          let t = merlin.append_message "predicate" (predicate_to_point predicate).bytes32 t in
          challenge_scalar "flavor" (merlin.append_message "metadata" (string_to_bytes metadata) t)

  module _ ⦃field : ScalarField⦄ ⦃cs : ConstraintSystem⦄ where
    pub record WideValue : Type 0 where
      pub r1cs_qty : cs.Variable
      pub r1cs_flv : cs.Variable
      pub witness : Option (ℤ × scalars.Scalar)

    pub data Item : Type 0 where
      string : VmString → Item
      program : ProgramItem → Item
      contract : Contract → Item
      value : Value → Item
      wide_value : WideValue → Item
      variable : Variable → Item
      expression : Expression → Item
      constraint : Constraint → Item

    pub data CopyableItem : Type 0 where
      copyable_string : VmString → CopyableItem
      copyable_variable : Variable → CopyableItem

    unfoldable pub to_string : Item → Result VmError VmString
    to_string (string x) = ok x
    to_string _ = err type_not_string

    unfoldable pub to_program : Item → Result VmError ProgramItem
    to_program (program x) = ok x
    to_program _ = err type_not_program_item

    unfoldable pub to_contract : Item → Result VmError Contract
    to_contract (contract c) = ok c
    to_contract _ = err type_not_contract

    unfoldable pub to_value : Item → Result VmError Value
    to_value (value v) = ok v
    to_value _ = err type_not_value

    unfoldable pub to_wide_value : Item → Result VmError WideValue
    to_wide_value (wide_value w) = ok w
    to_wide_value _ = err type_not_wide_value

    unfoldable pub to_variable : Item → Result VmError Variable
    to_variable (variable v) = ok v
    to_variable _ = err type_not_variable

    unfoldable pub to_expression : Item → Result VmError Expression
    to_expression (expression expr) = ok expr
    to_expression _ = err type_not_expression

    unfoldable pub to_constraint : Item → Result VmError Constraint
    to_constraint (constraint c) = ok c
    to_constraint _ = err type_not_constraint

    unfoldable pub to_portable : Item → Result VmError PortableItem
    to_portable (string x) = ok (PortableItem.string_item x)
    to_portable (program x) = ok (PortableItem.portable_program x)
    to_portable (value x) = ok (PortableItem.value_item x)
    to_portable _ = err type_not_portable

    -- `to_copyable`, and `dup_copyable` on a reference
    unfoldable pub to_copyable : Item → Result VmError CopyableItem
    to_copyable (string x) = ok (copyable_string x)
    to_copyable (variable x) = ok (copyable_variable x)
    to_copyable _ = err type_not_copyable

    unfoldable pub dup_copyable : Item → Result VmError CopyableItem
    dup_copyable (string x) = ok (copyable_string x)
    dup_copyable (variable x) = ok (copyable_variable x)
    dup_copyable _ = err type_not_copyable

    -- `From<PortableItem> for Item`
    unfoldable pub from_portable : PortableItem → Item
    from_portable (PortableItem.string_item x) = string x
    from_portable (PortableItem.portable_program x) = program x
    from_portable (PortableItem.value_item x) = value x

    -- `From<CopyableItem> for Item`
    unfoldable pub from_copyable : CopyableItem → Item
    from_copyable (copyable_string x) = string x
    from_copyable (copyable_variable x) = variable x
