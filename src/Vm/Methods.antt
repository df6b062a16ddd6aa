-- ===== src/Vm/Methods.antt =====
-- The shared methods of zkvm/src/vm.rs keep a relation that is kept by what instructions do to the
-- machine.
use zioncoin_poc.Prelude.{
  ℕ, zero, suc, ◌≡◌, refl, Bool, true, false, Option, none, some, List, [], ◌∷◌, ◌++◌, leb, ltb,
  ◌||◌, if◌then◌else◌, length, get_elem?, ◌+◌, ◌*◌, ◌^◌, Option-cases, inl, inr, reverse, take,
}
use zioncoin_poc.Prelude.Result.{Result, ok, err}
use zioncoin_poc.External.{
  LittleEndian, Merlin, Scalars, Curve, ScalarField, ConstraintSystem, RandomizableSystem,
}
use zioncoin_poc.Errors.{VmError, stack_underflow, anchor_missing}
use zioncoin_poc.Items.{Bytes32, Value, PortableItem, Predicate, Contract}
use zioncoin_poc.Items.Ids.{zkvm_contracts}
use zioncoin_poc.Constraints.{Expression, constant, linear_combination}
use zioncoin_poc.Stack.{Item, payload_of}
use zioncoin_poc.Items.Arrays.{array_32}
use zioncoin_poc.Items.Ids.{contract_id}
use zioncoin_poc.Vm.{
  Delegate, Vm, value_to_cloak_value, item_to_wide_value, add_range_proof, make_contract,
}
use zioncoin_poc.Vm.Frames.{Framed, After, returned, refused, Keeps, keeps}
use zioncoin_poc.Vm.Arithmetic
use zioncoin_poc.Vm.Contracts

module _ ⦃scalars : Scalars⦄ ⦃curve : Curve⦄ ⦃field : ScalarField⦄ ⦃cs : ConstraintSystem⦄
    ⦃merlin : Merlin⦄ ⦃le : LittleEndian⦄ ⦃delegate : Delegate⦄ where
  module _ (R : Vm → Vm → Type 0) ⦃framed : Framed R⦄ where
    pub value_to_cloak_value-Keeps : (v : Value) → Keeps R (value_to_cloak_value v)
    unfolding value_to_cloak_value
    value_to_cloak_value-Keeps v = search keeps

    pub item_to_wide_value-Keeps : (item : Item) → Keeps R (item_to_wide_value item)
    unfolding item_to_wide_value
    item_to_wide_value-Keeps (Item.value v) = search keeps
    item_to_wide_value-Keeps (Item.string x) = search keeps
    item_to_wide_value-Keeps _ = search keeps

    pub add_range_proof-Keeps :
        ⦃random : RandomizableSystem⦄ → (e : Expression) → Keeps R (add_range_proof e)
    unfolding add_range_proof
    add_range_proof-Keeps (constant x) = search keeps
    add_range_proof-Keeps (linear_combination terms a) = search keeps

    made-After :
        (vm : Vm) (predicate : Predicate) (payload : List PortableItem) (anchor : Option Bytes32)
        → vm.last_anchor ≡ anchor
        → After (R vm) (elim anchor as (λ x. Result VmError (Contract × Vm)) [
          | none ↦ err anchor_missing
          | some a ↦
              let c = Contract.contract_of predicate (payload_of payload) a in
              ok (c, record vm { last_anchor = some (array_32 (contract_id c).id_bytes) })
        ])
    made-After vm predicate payload none e = refused
    made-After vm predicate payload (some a) e = returned (framed.renewal_free vm a _ e)

    pub make_contract-Keeps :
        (predicate : Predicate) (payload : List PortableItem)
        → Keeps R (make_contract predicate payload)
    unfolding make_contract
    make_contract-Keeps predicate payload = record {
      from = λ vm. made-After vm predicate payload vm.last_anchor refl;
    }

    entry-After :
        (vm : Vm) (found : Option Item)
        → After (R vm) (elim found as (λ x. Result VmError (Item × Vm)) [
          | none ↦ err stack_underflow
          | some item ↦ ok (item, vm)
        ])
    entry-After vm none = refused
    entry-After vm (some item) = returned (framed.same vm)

    pub entry-Keeps : (i : ℕ) → Keeps R (Arithmetic.entry i)
    unfolding Arithmetic.entry
    entry-Keeps i = record { from = λ vm. entry-After vm (get_elem? vm.stack i) }

    pub take_out-Keeps : (i : ℕ) → Keeps R (Arithmetic.take_out i)
    unfolding Arithmetic.take_out
    take_out-Keeps i = record { from = λ vm. returned (framed.stack_free vm _) }

    drained-After :
        (vm : Vm) (k : ℕ) (short : Bool) (items : List Item)
        → After (R vm) (
            if short
            then err stack_underflow
            else ok (items, record vm { stack = zioncoin_poc.Prelude.drop k vm.stack }))
    drained-After vm k true items = refused
    drained-After vm k false items = returned (framed.stack_free vm _)

    pub drain_items-Keeps : (k : ℕ) → Keeps R (Contracts.drain_items k)
    unfolding Contracts.drain_items
    drain_items-Keeps k = record {
      from = λ vm. drained-After vm k (ltb (length vm.stack) k) (reverse (take k vm.stack));
    }

    pub pop_string-Keeps : Keeps R Arithmetic.pop_string
    unfolding Arithmetic.pop_string
    pop_string-Keeps = search keeps

    pub pop_variable-Keeps : Keeps R Arithmetic.pop_variable
    unfolding Arithmetic.pop_variable
    pop_variable-Keeps = search keeps

    pub pop_expression-Keeps : Keeps R Arithmetic.pop_expression
    unfolding Arithmetic.pop_expression
    pop_expression-Keeps = search keeps

    pub pop_constraint-Keeps : Keeps R Arithmetic.pop_constraint
    unfolding Arithmetic.pop_constraint
    pop_constraint-Keeps = search keeps

    pub pop_predicate-Keeps : Keeps R Contracts.pop_predicate
    unfolding Contracts.pop_predicate
    pop_predicate-Keeps = search (keeps, pop_string-Keeps)

    pub pop_commitment-Keeps : Keeps R Contracts.pop_commitment
    unfolding Contracts.pop_commitment
    pop_commitment-Keeps = search (keeps, pop_string-Keeps)

    pub pop_program-Keeps : Keeps R Contracts.pop_program
    unfolding Contracts.pop_program
    pop_program-Keeps = search keeps

    pub pop_contract_item-Keeps : Keeps R Contracts.pop_contract_item
    unfolding Contracts.pop_contract_item
    pop_contract_item-Keeps = search keeps

    pub ruleset pops = (
      pop_string-Keeps, pop_variable-Keeps, pop_expression-Keeps, pop_constraint-Keeps,
      pop_predicate-Keeps, pop_commitment-Keeps, pop_program-Keeps, pop_contract_item-Keeps,
    )
