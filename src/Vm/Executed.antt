-- ===== src/Vm/Executed.antt =====
-- A step of zkvm/src/vm.rs keeps a relation that is kept by what instructions do to the machine, and
-- by a change of its runs; every instruction that calls no program keeps it in any case.
use zioncoin_poc.Prelude.{◌≡◌, refl, Bool, true, false, Option, none, some, List, [], ◌∷◌}
use zioncoin_poc.Prelude.Result.{Result, ok, err, panic, stuck}
use zioncoin_poc.External.{
  LittleEndian, Merlin, Scalars, Curve, ScalarField, ConstraintSystem, RandomizableSystem,
  PedersenGens,
}
use zioncoin_poc.Errors.{VmError}
use zioncoin_poc.Tx.{Signature}
use zioncoin_poc.Items.{Instruction, ProgramItem}
use zioncoin_poc.Spacesuit.{Cloak}
use zioncoin_poc.Vm.{Delegate, Vm, continue_with_program}
use zioncoin_poc.Vm.Frames.{
  Framed, After, returned, refused, panicked, ran_out, Keeps, keeps, bind-Keeps, pure-Keeps,
}
use zioncoin_poc.Vm.Methods.{pops}
use zioncoin_poc.Vm.Kept
use zioncoin_poc.Vm.Arithmetic
use zioncoin_poc.Vm.Calls
use zioncoin_poc.Vm.Steps

module _ ⦃scalars : Scalars⦄ ⦃curve : Curve⦄ where
  -- The instructions that call a program
  unfoldable pub is_call : Instruction → Bool
  is_call Instruction.call = true
  is_call Instruction.signid = true
  is_call Instruction.signtag = true
  is_call _ = false

module _ ⦃scalars : Scalars⦄ ⦃curve : Curve⦄ ⦃field : ScalarField⦄ ⦃cs : ConstraintSystem⦄
    ⦃merlin : Merlin⦄ ⦃le : LittleEndian⦄ ⦃delegate : Delegate⦄ where
  -- A change of the runs keeps the relation too.
  pub record RunsFree (R : Vm → Vm → Type 0) : Type 0 where
    pub runs_free :
        (vm : Vm) (run : delegate.RunType) (runs : List delegate.RunType)
        → R vm (record vm { current_run = run; run_stack = runs })

  module _ (R : Vm → Vm → Type 0) ⦃framed : Framed R⦄ ⦃random : RandomizableSystem⦄
      ⦃gens : PedersenGens⦄ ⦃cloaks : Cloak⦄ where
    -- An instruction that calls no program
    pub execute-Keeps_local : (i : Instruction) → is_call i ≡ false → Keeps R (Steps.execute i)
    unfolding Steps.execute is_call Arithmetic.pushdata Arithmetic.pushprogram
    execute-Keeps_local (Instruction.push str) h = search keeps
    execute-Keeps_local (Instruction.program_item prog) h = search keeps
    execute-Keeps_local Instruction.drop h = Kept.drop-Keeps R
    execute-Keeps_local (Instruction.dup i) h = Kept.dup-Keeps R i
    execute-Keeps_local (Instruction.roll i) h = Kept.roll-Keeps R i
    execute-Keeps_local Instruction.const h = Kept.const-Keeps R
    execute-Keeps_local Instruction.var h = Kept.var-Keeps R
    execute-Keeps_local (Instruction.alloc sw) h = Kept.alloc-Keeps R sw
    execute-Keeps_local Instruction.mintime h = Kept.mintime-Keeps R
    execute-Keeps_local Instruction.maxtime h = Kept.maxtime-Keeps R
    execute-Keeps_local Instruction.expr h = Kept.expr-Keeps R
    execute-Keeps_local Instruction.neg h = Kept.neg-Keeps R
    execute-Keeps_local Instruction.add h = Kept.add-Keeps R
    execute-Keeps_local Instruction.mul h = Kept.mul-Keeps R
    execute-Keeps_local Instruction.eq h = Kept.eq-Keeps R
    execute-Keeps_local Instruction.range h = Kept.range-Keeps R
    execute-Keeps_local Instruction.and h = Kept.and-Keeps R
    execute-Keeps_local Instruction.or h = Kept.or-Keeps R
    execute-Keeps_local Instruction.not h = Kept.not-Keeps R
    execute-Keeps_local Instruction.verify h = Kept.verify-Keeps R
    execute-Keeps_local Instruction.unblind h = Kept.unblind-Keeps R
    execute-Keeps_local Instruction.issue h = Kept.issue-Keeps R
    execute-Keeps_local Instruction.borrow h = Kept.borrow-Keeps R
    execute-Keeps_local Instruction.retire h = Kept.retire-Keeps R
    execute-Keeps_local (Instruction.cloak m n) h = Kept.cloak-Keeps R m n
    execute-Keeps_local Instruction.input h = Kept.input-Keeps R
    execute-Keeps_local (Instruction.output k) h = Kept.output-Keeps R k
    execute-Keeps_local (Instruction.contract k) h = Kept.contract-Keeps R k
    execute-Keeps_local Instruction.log h = Kept.log-Keeps R
    execute-Keeps_local Instruction.call h = cc
    execute-Keeps_local Instruction.signtx h = Kept.signtx-Keeps R
    execute-Keeps_local Instruction.signid h = cc
    execute-Keeps_local Instruction.signtag h = cc
    execute-Keeps_local (Instruction.ext opcode) h = Kept.ext-Keeps R opcode

    module _ ⦃free : RunsFree R⦄ where
      continued-After :
          (vm : Vm) (r : Result VmError delegate.RunType)
          → After (R vm) (elim r as (λ x. Result VmError (Unit {0} × Vm)) [
            | ok run ↦
                ok (tt, record vm { current_run = run; run_stack = vm.current_run ∷ vm.run_stack })
            | err e ↦ err e
            | panic ↦ panic
            | stuck ↦ stuck
          ])
      continued-After vm (ok run) = returned (free.runs_free vm run _)
      continued-After vm (err e) = refused
      continued-After vm panic = panicked
      continued-After vm stuck = ran_out

      continue_with_program-Keeps : (prog : ProgramItem) → Keeps R (continue_with_program prog)
      unfolding continue_with_program
      continue_with_program-Keeps prog = record {
        from = λ vm. continued-After vm (delegate.new_run prog vm.state);
      }

      signature_at-Keeps : (o : Option Signature) → Keeps R (Calls.signature_at o)
      unfolding Calls.signature_at
      signature_at-Keeps none = search keeps
      signature_at-Keeps (some signature) = search keeps

      pop_signature-Keeps : Keeps R Calls.pop_signature
      unfolding Calls.pop_signature
      pop_signature-Keeps = search (keeps, pops, signature_at-Keeps)

      call-Keeps : Keeps R Calls.call
      unfolding Calls.call
      call-Keeps = search (keeps, pops, continue_with_program-Keeps) depth 9

      signid-Keeps : Keeps R Calls.signid
      unfolding Calls.signid
      signid-Keeps = search (keeps, pops, pop_signature-Keeps, continue_with_program-Keeps) depth 9

      signtag-Keeps : Keeps R Calls.signtag
      unfolding Calls.signtag
      signtag-Keeps =
          search (keeps, pops, pop_signature-Keeps, continue_with_program-Keeps) depth 11

      pub execute-Keeps : (i : Instruction) → Keeps R (Steps.execute i)
      unfolding Steps.execute is_call
      execute-Keeps Instruction.call = call-Keeps
      execute-Keeps Instruction.signid = signid-Keeps
      execute-Keeps Instruction.signtag = signtag-Keeps
      execute-Keeps i = execute-Keeps_local i refl

      finished-After :
          (vm : Vm) (runs : List delegate.RunType)
          → After (R vm) (elim runs as (λ x. Result VmError (Bool × Vm)) [
            | [] ↦ ok (false, vm)
            | run ∷ rest ↦ ok (true, record vm { current_run = run; run_stack = rest })
          ])
      finished-After vm [] = returned (framed.same vm)
      finished-After vm (run ∷ rest) = returned (free.runs_free vm run rest)

      next-After :
          (vm : Vm) (r : Result VmError (Option Instruction × delegate.RunType × delegate.State))
          → After (R vm) (elim r as (λ x. Result VmError (Option Instruction × Vm)) [
            | ok (instr, run, s) ↦ ok (instr, record vm { current_run = run; state = s })
            | err e ↦ err e
            | panic ↦ panic
            | stuck ↦ stuck
          ])
      next-After vm (ok (instr, run, s)) =
          returned
            (framed.then_also vm _ _ (free.runs_free vm run vm.run_stack) (framed.state_free _ s))
      next-After vm (err e) = refused
      next-After vm panic = panicked
      next-After vm stuck = ran_out

      step_with-Keeps : (o : Option Instruction) → Keeps R (Steps.step_with o)
      unfolding Steps.step_with Steps.finish_run
      step_with-Keeps none = record { from = λ vm. finished-After vm vm.run_stack }
      step_with-Keeps (some i) = bind-Keeps R (execute-Keeps i) (λ u. pure-Keeps R true)

      pub step-Keeps : Keeps R Steps.step
      unfolding Steps.step Steps.next_instruction
      step-Keeps =
          bind-Keeps R
            (record {
              from = λ vm. next-After vm (delegate.next_instruction vm.current_run vm.state);
            })
            step_with-Keeps
