-- ===== src/Vm/Kept.antt =====
-- Every instruction of zkvm/src/vm.rs keeps a relation that is kept by what instructions do to the
-- machine; those that call a program, where a change of the runs keeps it too.
use zioncoin_poc.Prelude.{ℕ, zero, suc, Bool, true, false, Option, some, List, ◌∷◌, if◌then◌else◌}
use zioncoin_poc.Prelude.Result.{Result, ok, err, panic, stuck}
use zioncoin_poc.External.{
  LittleEndian, Merlin, Scalars, Curve, ScalarField, ConstraintSystem, RandomizableSystem,
  PedersenGens,
}
use zioncoin_poc.Errors.{VmError, stack_underflow, extensions_not_allowed}
use zioncoin_poc.Tx.{ContractId, TxEntry}
use zioncoin_poc.Items.{Bytes32, Value, ScalarWitness}
use zioncoin_poc.Items.Ids.{zkvm_contracts}
use zioncoin_poc.Constraints.{Constraint}
use zioncoin_poc.Spacesuit.{AllocatedValue, Cloak}
use zioncoin_poc.Stack.{Item, to_output}
use zioncoin_poc.Vm.{Delegate, Vm, ◌>>◌, set_anchor, push_item, log_entry}
use zioncoin_poc.Vm.Frames.{
  Framed, After, returned, refused, panicked, ran_out, Keeps, keeps, bind-Keeps, try-Keeps,
  variable_to_expression-Keeps,
}
use zioncoin_poc.Vm.Methods.{
  value_to_cloak_value-Keeps, item_to_wide_value-Keeps, add_range_proof-Keeps, make_contract-Keeps,
  entry-Keeps, take_out-Keeps, drain_items-Keeps, pop_string-Keeps, pops,
}
use zioncoin_poc.Vm.Arithmetic
use zioncoin_poc.Vm.Contracts

module _ ⦃scalars : Scalars⦄ ⦃curve : Curve⦄ ⦃field : ScalarField⦄ ⦃cs : ConstraintSystem⦄
    ⦃merlin : Merlin⦄ ⦃le : LittleEndian⦄ ⦃delegate : Delegate⦄ where
  module _ (R : Vm → Vm → Type 0) ⦃framed : Framed R⦄ where
    pub drop-Keeps : Keeps R Arithmetic.drop
    unfolding Arithmetic.drop
    drop-Keeps = search keeps

    pub dup-Keeps : (i : ℕ) → Keeps R (Arithmetic.dup i)
    unfolding Arithmetic.dup
    dup-Keeps i = search (keeps, entry-Keeps)

    pub roll-Keeps : (i : ℕ) → Keeps R (Arithmetic.roll i)
    unfolding Arithmetic.roll
    roll-Keeps i = search (keeps, entry-Keeps, take_out-Keeps)

    pub expr-Keeps : Keeps R Arithmetic.expr
    unfolding Arithmetic.expr Arithmetic.pop_variable
    expr-Keeps = search (keeps, variable_to_expression-Keeps)

    pub mintime-Keeps : Keeps R Arithmetic.mintime
    unfolding Arithmetic.mintime push_item
    mintime-Keeps = record { from = λ vm. returned (framed.stack_free vm _) }

    pub maxtime-Keeps : Keeps R Arithmetic.maxtime
    unfolding Arithmetic.maxtime push_item
    maxtime-Keeps = record { from = λ vm. returned (framed.stack_free vm _) }

    ext-After :
        (vm : Vm) (allowed : Bool)
        → After {A = Unit {0}} (R vm) (if allowed then ok (tt, vm) else err extensions_not_allowed)
    ext-After vm true = returned (framed.same vm)
    ext-After vm false = refused

    pub ext-Keeps : (opcode : ℕ) → Keeps R (Arithmetic.ext opcode)
    unfolding Arithmetic.ext
    ext-Keeps opcode = record { from = λ vm. ext-After vm vm.extension }

    pub pop_contract-Keeps : (k : ℕ) → Keeps R (Contracts.pop_contract k)
    unfolding Contracts.pop_contract Contracts.pop_predicate Arithmetic.pop_string
    pop_contract-Keeps k = search (keeps, drain_items-Keeps, make_contract-Keeps)

    -- The end of `input`: the entry, the contract and the anchor
    pub logged_input-Keeps :
        (id : ContractId) (item : Item) (anchor : Bytes32)
        → Keeps R (log_entry (TxEntry.input id) >> (push_item item >> set_anchor (some anchor)))
    unfolding log_entry push_item set_anchor
    logged_input-Keeps id item anchor = record {
      from = λ vm. returned (framed.input_free vm id (item ∷ vm.stack) anchor);
    }

    pub input-Keeps : Keeps R Contracts.input
    unfolding Contracts.input
    input-Keeps =
        bind-Keeps R (pop_string-Keeps R)
          λ str. bind-Keeps R (try-Keeps R (to_output str)) λ c. logged_input-Keeps _ _ _

    counts-After :
        (vm : Vm) (b1 b2 b3 : Bool)
        → After {A = Unit {0}} (R vm) (
            if b1
            then err stack_underflow
            else if b2
            then panic
            else if b3
            then err stack_underflow
            else ok (tt, vm))
    counts-After vm true b2 b3 = refused
    counts-After vm false true b3 = panicked
    counts-After vm false false true = refused
    counts-After vm false false false = returned (framed.same vm)

    pub cloak_counts-Keeps : (m n : ℕ) → Keeps R (Contracts.cloak_counts m n)
    unfolding Contracts.cloak_counts
    cloak_counts-Keeps m n = record { from = λ vm. counts-After vm _ _ _ }

    pub cloak_outputs-Keeps :
        (n : ℕ) (values : List Value) (outs : List AllocatedValue)
        → Keeps R (Contracts.cloak_outputs n values outs)
    unfolding Contracts.cloak_outputs Contracts.pop_commitment Arithmetic.pop_string
    cloak_outputs-Keeps zero values outs = search keeps
    cloak_outputs-Keeps (suc n) values outs =
        search (keeps, value_to_cloak_value-Keeps, cloak_outputs-Keeps n)

    pub cloak_inputs-Keeps :
        (m : ℕ) (ins : List AllocatedValue) → Keeps R (Contracts.cloak_inputs m ins)
    unfolding Contracts.cloak_inputs
    cloak_inputs-Keeps zero ins = search keeps
    cloak_inputs-Keeps (suc m) ins = search (keeps, item_to_wide_value-Keeps, cloak_inputs-Keeps m)

    pub cloak-Keeps : ⦃cloaks : Cloak⦄ → (m n : ℕ) → Keeps R (Contracts.cloak m n)
    unfolding Contracts.cloak
    cloak-Keeps m n = search (keeps, cloak_counts-Keeps, cloak_outputs-Keeps, cloak_inputs-Keeps)

    pub signtx-Keeps : Keeps R Contracts.signtx
    unfolding Contracts.signtx Contracts.pop_contract_item
    signtx-Keeps = search keeps

    enforced-After :
        (vm : Vm) (r : Result VmError cs.System)
        → After (R vm) (elim r as (λ x. Result VmError (Unit {0} × Vm)) [
          | ok s ↦ ok (tt, record vm { state = delegate.set_cs s vm.state })
          | err e ↦ err e
          | panic ↦ panic
          | stuck ↦ stuck
        ])
    enforced-After vm (ok s) = returned (framed.state_free vm _)
    enforced-After vm (err e) = refused
    enforced-After vm panic = panicked
    enforced-After vm stuck = ran_out

    pub neg-Keeps : Keeps R (Arithmetic.neg)
    unfolding Arithmetic.neg
    neg-Keeps = search (keeps, pops)

    pub add-Keeps : Keeps R (Arithmetic.add)
    unfolding Arithmetic.add
    add-Keeps = search (keeps, pops)

    pub mul-Keeps : Keeps R (Arithmetic.mul)
    unfolding Arithmetic.mul
    mul-Keeps = search (keeps, pops)

    pub eq-Keeps : Keeps R (Arithmetic.eq)
    unfolding Arithmetic.eq
    eq-Keeps = search (keeps, pops)

    pub and-Keeps : Keeps R (Arithmetic.and)
    unfolding Arithmetic.and
    and-Keeps = search (keeps, pops)

    pub or-Keeps : Keeps R (Arithmetic.or)
    unfolding Arithmetic.or
    or-Keeps = search (keeps, pops)

    pub not-Keeps : Keeps R (Arithmetic.not)
    unfolding Arithmetic.not
    not-Keeps = search (keeps, pops)

    pub const-Keeps : Keeps R (Arithmetic.const)
    unfolding Arithmetic.const
    const-Keeps = search (keeps, pops)

    pub var-Keeps : Keeps R (Arithmetic.var)
    unfolding Arithmetic.var
    var-Keeps = search (keeps, pops)

    pub log-Keeps : Keeps R (Arithmetic.log)
    unfolding Arithmetic.log
    log-Keeps = search (keeps, pops)

    pub retire-Keeps : Keeps R (Contracts.retire)
    unfolding Contracts.retire
    retire-Keeps = search (keeps, pops)

    pub output-Keeps : (k : ℕ) → Keeps R (Contracts.output k)
    unfolding Contracts.output
    output-Keeps k = search (keeps, pop_contract-Keeps)

    pub contract-Keeps : (k : ℕ) → Keeps R (Contracts.contract k)
    unfolding Contracts.contract
    contract-Keeps k = search (keeps, pop_contract-Keeps)

    module _ ⦃random : RandomizableSystem⦄ ⦃gens : PedersenGens⦄ where
      pub enforce-Keeps : (c : Constraint) → Keeps R (Arithmetic.enforce c)
      unfolding Arithmetic.enforce
      enforce-Keeps c = record { from = λ vm. enforced-After vm _ }

      pub issue-Keeps : Keeps R Contracts.issue
      unfolding Contracts.issue
      issue-Keeps =
          search
            (keeps, pops, variable_to_expression-Keeps, add_range_proof-Keeps, make_contract-Keeps)
            depth 14

      pub borrow-Keeps : Keeps R Contracts.borrow
      unfolding Contracts.borrow
      borrow-Keeps = search (keeps, pops) depth 14

      pub unblind-Keeps : Keeps R Contracts.unblind
      unfolding Contracts.unblind
      unblind-Keeps = search (keeps, pops) depth 8

      pub range-Keeps : Keeps R Arithmetic.range
      unfolding Arithmetic.range
      range-Keeps = search (keeps, pops, add_range_proof-Keeps)

      pub verify-Keeps : Keeps R Arithmetic.verify
      unfolding Arithmetic.verify
      verify-Keeps = search (keeps, pops, enforce-Keeps)

      pub alloc-Keeps : (sw : Option ScalarWitness) → Keeps R (Arithmetic.alloc sw)
      unfolding Arithmetic.alloc
      alloc-Keeps sw = search keeps
