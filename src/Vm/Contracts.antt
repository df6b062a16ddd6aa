-- ===== src/Vm/Contracts.antt =====
-- zkvm/src/vm.rs: the instructions on values and contracts. Each has the name of its method.
use mathlib.Core.Option
use zioncoin_poc.Prelude.{
  ℕ, zero, suc, ◌+◌, ◌*◌, ◌^◌, ◌||◌, Option, none, some, List, [], ◌∷◌, ◌++◌, map, reverse, leb,
  ltb, if◌then◌else◌, length, take, drop,
}
use zioncoin_poc.Prelude.Result.{ok, err, panic, map_result}
use zioncoin_poc.External.{
  LittleEndian, Merlin, Scalars, Curve, ScalarField, ConstraintSystem, RandomizableSystem,
  PedersenGens,
}
use zioncoin_poc.Errors.{stack_underflow, r1cs_error, r1cs_inconsistency, format_error}
use zioncoin_poc.Tx.{TxEntry}
use zioncoin_poc.Items.{
  ℤ, Commitment, Value, VmString, ProgramItem, Predicate, Contract, PortableItem,
}
use zioncoin_poc.Items.Arrays.{array_32}
use zioncoin_poc.Items.Encode.{to_scalar, integer_to_scalar, commitment_to_point}
use zioncoin_poc.Items.Ids.{contract_id, ratchet, zkvm_contracts}
use zioncoin_poc.Constraints.Integers.{neg_int}
use zioncoin_poc.Constraints.Flatten.{of_variable}
use zioncoin_poc.Spacesuit.{AllocatedValue, Cloak, max_bits, range_proof}
use zioncoin_poc.Stack.{
  Item, commitment_assignment, option_to_integer, payload_list, to_predicate, to_commitment,
  to_output, string_to_scalar, issue_flavor, to_program, to_contract, to_value, to_portable,
  from_portable,
}
use zioncoin_poc.Vm.{
  Delegate, Method, ◌>>=◌, ◌>>◌, pure, try, pop_item, push_item, push_items, log_entry, set_anchor,
  delegate_update, commit_variable, verify_point_op, cs_call, cs_update, cs_gadget,
  variable_to_expression, value_to_cloak_value, wide_value_to_cloak_value, item_to_wide_value,
  add_range_proof, make_contract,
}
use zioncoin_poc.Vm.Arithmetic.{pop_variable, pop_string}

module _ ⦃scalars : Scalars⦄ ⦃curve : Curve⦄ ⦃field : ScalarField⦄ ⦃cs : ConstraintSystem⦄
    ⦃merlin : Merlin⦄ ⦃le : LittleEndian⦄ ⦃delegate : Delegate⦄ where
  unfoldable pub contract_predicate : Contract → Predicate
  contract_predicate (Contract.contract_of predicate payload anchor) = predicate

  -- The payload as items of the stack
  unfoldable pub payload_items : Contract → List Item
  unfolding payload_list from_portable
  payload_items (Contract.contract_of predicate payload anchor) =
      map from_portable (payload_list payload)

  unfoldable pub pop_program : Method ProgramItem
  unfolding pop_item try to_program
  pop_program = do item ← pop_item; try (to_program item)

  unfoldable pub pop_contract_item : Method Contract
  unfolding pop_item try to_contract
  pop_contract_item = do item ← pop_item; try (to_contract item)

  unfoldable pub pop_predicate : Method Predicate
  unfolding pop_string try to_predicate
  pop_predicate = do str ← pop_string; try (to_predicate str)

  unfoldable pub pop_commitment : Method Commitment
  unfolding pop_string try to_commitment
  pop_commitment = do str ← pop_string; try (to_commitment str)

  unfoldable pub retire : Method (Unit {0})
  unfolding pop_item try to_value log_entry commitment_to_point
  retire = do
    item ← pop_item
    value ← try (to_value item)
    log_entry (
        TxEntry.retire (commitment_to_point value.qty).bytes32
          (commitment_to_point value.flv).bytes32)

  unfoldable pub input : Method (Unit {0})
  unfolding pop_string try to_output log_entry push_item set_anchor
  input = do
    str ← pop_string
    contract ← try (to_output str)
    let id = contract_id contract
    log_entry (TxEntry.input id)
    push_item (Item.contract contract)
    set_anchor (some (array_32 (ratchet id.id_bytes)))

  -- `drain(len - k..)`: the `k` items on the top, the deepest first
  unfoldable pub drain_items : ℕ → Method (List Item)
  drain_items k vm =
      if ltb (length vm.stack) k
      then err stack_underflow
      else ok (reverse (take k vm.stack), record vm { stack = drop k vm.stack })

  unfoldable pub pop_contract : ℕ → Method Contract
  unfolding pop_predicate drain_items try to_portable make_contract
  pop_contract k = do
    predicate ← pop_predicate
    items ← drain_items k
    payload ← try (map_result to_portable items)
    make_contract predicate payload

  unfoldable pub output : ℕ → Method (Unit {0})
  unfolding pop_contract log_entry
  output k = do contract ← pop_contract k; log_entry (TxEntry.output contract)

  unfoldable pub contract : ℕ → Method (Unit {0})
  unfolding pop_contract push_item
  contract k = do c ← pop_contract k; push_item (Item.contract c)

  unfoldable pub signtx : Method (Unit {0})
  unfolding pop_contract_item delegate_update push_items contract_predicate payload_items
  signtx = do
    contract ← pop_contract_item
    delegate_update
        (delegate.process_tx_signature (contract_predicate contract) (contract_id contract))
    push_items (payload_items contract)

  -- The first loop of `cloak`: `n` values, with what is inserted at the front so far
  unfoldable pub cloak_outputs :
      ℕ → List Value → List AllocatedValue → Method (List Value × List AllocatedValue)
  unfolding pop_commitment value_to_cloak_value
  cloak_outputs zero values outs = pure (values, outs)
  cloak_outputs (suc n) values outs = do
    flv ← pop_commitment
    qty ← pop_commitment
    let value : Value = record { qty = qty; flv = flv }
    cloak_value ← value_to_cloak_value value
    cloak_outputs n (value ∷ values) (cloak_value ∷ outs)

  -- The second loop
  unfoldable pub cloak_inputs : ℕ → List AllocatedValue → Method (List AllocatedValue)
  unfolding pop_item item_to_wide_value wide_value_to_cloak_value
  cloak_inputs zero ins = pure ins
  cloak_inputs (suc m) ins = do
    item ← pop_item
    walue ← item_to_wide_value item
    cloak_inputs m (wide_value_to_cloak_value walue ∷ ins)

  -- The checks of the two counts, and `assert!`
  unfoldable pub cloak_counts : ℕ → ℕ → Method (Unit {0})
  cloak_counts m n vm =
      if ltb (length vm.stack) m || ltb (length vm.stack) n
      then err stack_underflow
      else if leb (2 ^ 30) (length vm.stack)
      then panic
      else if ltb (length vm.stack) (m + 2 * n)
      then err stack_underflow
      else ok (tt, vm)

  unfoldable pub cloak : ⦃cloaks : Cloak⦄ → ℕ → ℕ → Method (Unit {0})
  unfolding cloak_counts cloak_outputs cloak_inputs cs_gadget push_items
  cloak ⦃cloaks⦄ m n = do
    cloak_counts m n
    made ← cloak_outputs n [] []
    ins ← cloak_inputs m []
    cs_gadget format_error (cloaks.cloak ins made.1)
    push_items (map Item.value made.0)

  module _ ⦃random : RandomizableSystem⦄ where
    unfoldable pub pair_witness : Option ℤ → Option scalars.Scalar → Option (ℤ × scalars.Scalar)
    pair_witness (some q) (some f) = some (q, f)
    pair_witness _ _ = none

    unfoldable pub borrow : Method (Unit {0})
    unfolding pop_variable commit_variable commitment_assignment option_to_integer try cs_update
        cs_call push_item of_variable pair_witness integer_to_scalar
    borrow = do
      flv ← pop_variable
      qty ← pop_variable
      flv_committed ← commit_variable flv.commitment
      qty_committed ← commit_variable qty.commitment
      let flv_assignment = Option.map to_scalar (commitment_assignment flv.commitment)
      qty_assignment ← try (option_to_integer (commitment_assignment qty.commitment))
      cs_update r1cs_inconsistency
          (range_proof (of_variable qty_committed.1) qty_assignment max_bits)
      let neg_qty_assignment = Option.map neg_int qty_assignment
      neg_qty_var ←
          cs_call r1cs_error (random.allocate (Option.map integer_to_scalar neg_qty_assignment))
      cs_update r1cs_error
          (λ s. some (random.constrain (of_variable qty_committed.1 ++ of_variable neg_qty_var) s))
      push_item (
          Item.wide_value (record {
            r1cs_qty = neg_qty_var;
            r1cs_flv = flv_committed.1;
            witness = pair_witness neg_qty_assignment flv_assignment;
          }))
      push_item (Item.value (record { qty = qty.commitment; flv = flv.commitment }))

    module _ ⦃gens : PedersenGens⦄ where
      unfoldable pub issue : Method (Unit {0})
      unfolding pop_predicate pop_string pop_variable commit_variable verify_point_op issue_flavor
          variable_to_expression add_range_proof log_entry make_contract push_item
      issue = do
        predicate ← pop_predicate
        metadata ← pop_string
        flv ← pop_variable
        qty ← pop_variable
        flv_committed ← commit_variable flv.commitment
        qty_committed ← commit_variable qty.commitment
        verify_point_op (record {
          primary = some (issue_flavor predicate metadata);
          secondary = none;
          arbitrary = (field.neg field.one, flv_committed.0) ∷ [];
        })
        qty_expr ← variable_to_expression qty
        add_range_proof qty_expr
        log_entry (TxEntry.issue qty_committed.0.bytes32 flv_committed.0.bytes32)
        contract ←
            make_contract predicate
              (PortableItem.value_item (record { qty = qty.commitment; flv = flv.commitment }) ∷ [])
        push_item (Item.contract contract)

  module _ ⦃gens : PedersenGens⦄ where
    unfoldable pub unblind : Method (Unit {0})
    unfolding pop_string try string_to_scalar pop_commitment verify_point_op push_item
    unblind = do
      str ← pop_string
      v_scalar ← try (string_to_scalar str)
      v ← pop_commitment
      let v_point = commitment_to_point v
      verify_point_op (record {
        primary = some (field.neg (to_scalar v_scalar));
        secondary = none;
        arbitrary = (field.one, v_point) ∷ [];
      })
      push_item (Item.string (VmString.opaque_bytes v_point.bytes32))
