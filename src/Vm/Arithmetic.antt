-- ===== src/Vm/Arithmetic.antt =====
-- zkvm/src/vm.rs: the instructions that work on the stack, on expressions and on constraints. Each
-- has the name of its method.
use mathlib.Core.Option
use zioncoin_poc.Prelude.{zero, suc, ℕ, Option, none, some, List, [], ◌∷◌, if◌then◌else◌, get_elem?}
use zioncoin_poc.Prelude.Result.{ok, err, panic, stuck}
use zioncoin_poc.External.{
  LittleEndian, Merlin, Scalars, Curve, ScalarField, ConstraintSystem, RandomizableSystem,
}
use zioncoin_poc.Errors.{stack_underflow, r1cs_error, extensions_not_allowed}
use zioncoin_poc.Tx.{data_entry}
use zioncoin_poc.Items.{pos, ScalarWitness, VmString, ProgramItem}
use zioncoin_poc.Items.Encode.{to_scalar}
use zioncoin_poc.Items.Ids.{zkvm_contracts}
use zioncoin_poc.Constraints.{
  Expression, constant, linear_combination, Constraint, neg_expression, add_expression, multiply,
  constraint_eq, constraint_and, constraint_or, constraint_not,
}
use zioncoin_poc.Constraints.Flatten.{of_variable, verify_constraint}
use zioncoin_poc.Stack.{
  Variable, Item, to_copyable, dup_copyable, from_copyable, to_variable, to_expression,
  to_constraint, to_string, string_to_scalar, to_commitment, string_to_bytes,
}
use zioncoin_poc.Vm.{
  Delegate, Method, ◌>>=◌, ◌>>◌, pure, try, pop_item, push_item, log_entry, cs_call,
  variable_to_expression, add_range_proof,
}

module _ ⦃scalars : Scalars⦄ ⦃curve : Curve⦄ ⦃field : ScalarField⦄ ⦃cs : ConstraintSystem⦄
    ⦃merlin : Merlin⦄ ⦃le : LittleEndian⦄ ⦃delegate : Delegate⦄ where
  unfoldable pub pushdata : VmString → Method (Unit {0})
  unfolding push_item
  pushdata str = push_item (Item.string str)

  unfoldable pub pushprogram : ProgramItem → Method (Unit {0})
  unfolding push_item
  pushprogram prog = push_item (Item.program prog)

  unfoldable pub drop : Method (Unit {0})
  unfolding pop_item try to_copyable
  drop = do item ← pop_item; dropped ← try (to_copyable item); pure tt

  -- The entry `i` of the stack, from its top, or an underflow
  unfoldable pub entry : ℕ → Method Item
  entry i vm = elim (get_elem? vm.stack i) [
    | none ↦ err stack_underflow
    | some item ↦ ok (item, vm)
  ]

  unfoldable pub dup : ℕ → Method (Unit {0})
  unfolding entry try dup_copyable push_item from_copyable
  dup i = do item ← entry i; copied ← try (dup_copyable item); push_item (from_copyable copied)

  -- `Vec::remove`
  unfoldable pub remove_at : List Item → ℕ → List Item
  remove_at [] i = []
  remove_at (x ∷ xs) zero = xs
  remove_at (x ∷ xs) (suc i) = x ∷ remove_at xs i

  unfoldable pub take_out : ℕ → Method (Unit {0})
  unfolding remove_at
  take_out i vm = ok (tt, record vm { stack = remove_at vm.stack i })

  unfoldable pub roll : ℕ → Method (Unit {0})
  unfolding entry take_out push_item
  roll i = do item ← entry i; take_out i; push_item item

  unfoldable pub pop_variable : Method Variable
  unfolding pop_item try to_variable
  pop_variable = do item ← pop_item; try (to_variable item)

  unfoldable pub pop_expression : Method Expression
  unfolding pop_item try to_expression
  pop_expression = do item ← pop_item; try (to_expression item)

  unfoldable pub pop_constraint : Method Constraint
  unfolding pop_item try to_constraint
  pop_constraint = do item ← pop_item; try (to_constraint item)

  unfoldable pub pop_string : Method VmString
  unfolding pop_item try to_string
  pop_string = do item ← pop_item; try (to_string item)

  unfoldable pub expr : Method (Unit {0})
  unfolding pop_variable variable_to_expression push_item
  expr = do var ← pop_variable; e ← variable_to_expression var; push_item (Item.expression e)

  unfoldable pub neg : Method (Unit {0})
  unfolding pop_expression push_item neg_expression
  neg = do e ← pop_expression; push_item (Item.expression (neg_expression e))

  unfoldable pub add : Method (Unit {0})
  unfolding pop_expression push_item add_expression
  add = do
    expr2 ← pop_expression
    expr1 ← pop_expression
    push_item (Item.expression (add_expression expr1 expr2))

  unfoldable pub mul : Method (Unit {0})
  unfolding pop_expression push_item cs_call multiply
  mul = do
    expr2 ← pop_expression
    expr1 ← pop_expression
    expr3 ← cs_call r1cs_error (λ s. some (multiply expr1 expr2 s))
    push_item (Item.expression expr3)

  unfoldable pub eq : Method (Unit {0})
  unfolding pop_expression push_item constraint_eq
  eq = do
    expr2 ← pop_expression
    expr1 ← pop_expression
    push_item (Item.constraint (constraint_eq expr1 expr2))

  unfoldable pub and : Method (Unit {0})
  unfolding pop_constraint push_item constraint_and
  and = do
    c2 ← pop_constraint
    c1 ← pop_constraint
    push_item (Item.constraint (constraint_and c1 c2))

  unfoldable pub or : Method (Unit {0})
  unfolding pop_constraint push_item constraint_or
  or = do
    c2 ← pop_constraint
    c1 ← pop_constraint
    push_item (Item.constraint (constraint_or c1 c2))

  unfoldable pub not : Method (Unit {0})
  unfolding pop_constraint push_item constraint_not
  not = do c1 ← pop_constraint; push_item (Item.constraint (constraint_not c1))

  unfoldable pub const : Method (Unit {0})
  unfolding pop_string try string_to_scalar push_item
  const = do
    str ← pop_string
    scalar_witness ← try (string_to_scalar str)
    push_item (Item.expression (constant scalar_witness))

  unfoldable pub var : Method (Unit {0})
  unfolding pop_string try to_commitment push_item
  var = do
    str ← pop_string
    c ← try (to_commitment str)
    push_item (Item.variable (record { commitment = c }))

  unfoldable pub mintime : Method (Unit {0})
  unfolding push_item
  mintime vm = push_item (Item.expression (constant (ScalarWitness.integer (pos vm.mintime_ms)))) vm

  unfoldable pub maxtime : Method (Unit {0})
  unfolding push_item
  maxtime vm = push_item (Item.expression (constant (ScalarWitness.integer (pos vm.maxtime_ms)))) vm

  unfoldable pub log : Method (Unit {0})
  unfolding pop_string log_entry string_to_bytes
  log = do str ← pop_string; log_entry (data_entry (string_to_bytes str))

  unfoldable pub ext : ℕ → Method (Unit {0})
  ext opcode vm = if vm.extension then ok (tt, vm) else err extensions_not_allowed

  module _ ⦃random : RandomizableSystem⦄ where
    unfoldable pub range : Method (Unit {0})
    unfolding pop_expression add_range_proof push_item
    range = do e ← pop_expression; add_range_proof e; push_item (Item.expression e)

    -- `constraint.verify(self.delegate.cs())`
    unfoldable pub enforce : Constraint → Method (Unit {0})
    unfolding verify_constraint
    enforce c vm = elim (verify_constraint c (delegate.get_cs vm.state)) [
      | ok s ↦ ok (tt, record vm { state = delegate.set_cs s vm.state })
      | err e ↦ err e
      | panic ↦ panic
      | stuck ↦ stuck
    ]

    unfoldable pub verify : Method (Unit {0})
    unfolding pop_constraint enforce
    verify = do c ← pop_constraint; enforce c

    unfoldable pub alloc : Option ScalarWitness → Method (Unit {0})
    unfolding cs_call push_item of_variable
    alloc sw = do
      v ← cs_call r1cs_error (random.allocate (Option.map to_scalar sw))
      push_item (Item.expression (linear_combination (of_variable v) sw))
