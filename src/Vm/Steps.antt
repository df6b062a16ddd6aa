-- ===== src/Vm/Steps.antt =====
-- zkvm/src/vm.rs: one step of the machine, and the run to the end of the last program. The loop of
-- `run` takes fuel, and is `stuck` when that ends.
use zioncoin_poc.Prelude.{
  ℕ, zero, suc, Bool, true, false, Option, none, some, List, [], ◌∷◌, ltb, if◌then◌else◌, length,
}
use zioncoin_poc.Prelude.Result.{Result, ok, err, panic, stuck}
use zioncoin_poc.External.{
  LittleEndian, Merlin, Scalars, Curve, ScalarField, ConstraintSystem, RandomizableSystem,
  PedersenGens,
}
use zioncoin_poc.Errors.{VmError, stack_not_clean, anchor_missing}
use zioncoin_poc.Tx.{TxId, TxEntry, from_log}
use zioncoin_poc.Items.{Instruction}
use zioncoin_poc.Items.Ids.{zkvm_contracts}
use zioncoin_poc.Spacesuit.{Cloak}
use zioncoin_poc.Vm.{Delegate, Vm, Method, ◌>>=◌, ◌>>◌, pure}
use zioncoin_poc.Vm.Arithmetic
use zioncoin_poc.Vm.Calls
use zioncoin_poc.Vm.Contracts

module _ ⦃scalars : Scalars⦄ ⦃curve : Curve⦄ ⦃field : ScalarField⦄ ⦃cs : ConstraintSystem⦄
    ⦃merlin : Merlin⦄ ⦃le : LittleEndian⦄ ⦃delegate : Delegate⦄ where
  unfoldable pub finish_run : Method Bool
  finish_run vm = elim vm.run_stack [
    | [] ↦ ok (false, vm)
    | run ∷ rest ↦ ok (true, record vm { current_run = run; run_stack = rest })
  ]

  -- `self.delegate.next_instruction(&mut self.current_run)`
  unfoldable pub next_instruction : Method (Option Instruction)
  next_instruction vm = elim (delegate.next_instruction vm.current_run vm.state) [
    | ok (instr, run, s) ↦ ok (instr, record vm { current_run = run; state = s })
    | err e ↦ err e
    | panic ↦ panic
    | stuck ↦ stuck
  ]

  module _ ⦃random : RandomizableSystem⦄ ⦃gens : PedersenGens⦄ ⦃cloaks : Cloak⦄ where
    -- The `match` of `step`
    unfoldable pub execute : Instruction → Method (Unit {0})
    execute (Instruction.push str) = Arithmetic.pushdata str
    execute (Instruction.program_item prog) = Arithmetic.pushprogram prog
    execute Instruction.drop = Arithmetic.drop
    execute (Instruction.dup i) = Arithmetic.dup i
    execute (Instruction.roll i) = Arithmetic.roll i
    execute Instruction.const = Arithmetic.const
    execute Instruction.var = Arithmetic.var
    execute (Instruction.alloc sw) = Arithmetic.alloc sw
    execute Instruction.mintime = Arithmetic.mintime
    execute Instruction.maxtime = Arithmetic.maxtime
    execute Instruction.expr = Arithmetic.expr
    execute Instruction.neg = Arithmetic.neg
    execute Instruction.add = Arithmetic.add
    execute Instruction.mul = Arithmetic.mul
    execute Instruction.eq = Arithmetic.eq
    execute Instruction.range = Arithmetic.range
    execute Instruction.and = Arithmetic.and
    execute Instruction.or = Arithmetic.or
    execute Instruction.not = Arithmetic.not
    execute Instruction.verify = Arithmetic.verify
    execute Instruction.unblind = Contracts.unblind
    execute Instruction.issue = Contracts.issue
    execute Instruction.borrow = Contracts.borrow
    execute Instruction.retire = Contracts.retire
    execute (Instruction.cloak m n) = Contracts.cloak m n
    execute Instruction.input = Contracts.input
    execute (Instruction.output k) = Contracts.output k
    execute (Instruction.contract k) = Contracts.contract k
    execute Instruction.log = Arithmetic.log
    execute Instruction.call = Calls.call
    execute Instruction.signtx = Contracts.signtx
    execute Instruction.signid = Calls.signid
    execute Instruction.signtag = Calls.signtag
    execute (Instruction.ext opcode) = Arithmetic.ext opcode

    unfoldable pub step_with : Option Instruction → Method Bool
    unfolding finish_run
    step_with none = finish_run
    step_with (some instr) = do execute instr; pure true

    unfoldable pub step : Method Bool
    unfolding next_instruction step_with
    step = do instr ← next_instruction; step_with instr

    -- The loop of `run`
    unfoldable pub run_loop : ℕ → Vm → Result VmError Vm
    run_loop zero vm = stuck
    run_loop (suc fuel) vm = elim (step vm) [
      | ok (true, vm') ↦ run_loop fuel vm'
      | ok (false, vm') ↦ ok vm'
      | err e ↦ err e
      | panic ↦ panic
      | stuck ↦ stuck
    ]

    -- What `run` checks after its loop, and what it returns, with the delegate's state
    unfoldable pub finish : Vm → Result VmError ((TxId × List TxEntry) × delegate.State)
    unfolding from_log
    finish vm = if ltb 0 (length vm.stack) then err stack_not_clean else elim vm.last_anchor [
      | none ↦ err anchor_missing
      | some anchor ↦ ok ((from_log vm.txlog, vm.txlog), vm.state)
    ]

    -- `VM::run`
    unfoldable pub run : ℕ → Vm → Result VmError ((TxId × List TxEntry) × delegate.State)
    unfolding run_loop finish
    run fuel vm = elim (run_loop fuel vm) [
      | ok vm' ↦ finish vm'
      | err e ↦ err e
      | panic ↦ panic
      | stuck ↦ stuck
    ]
