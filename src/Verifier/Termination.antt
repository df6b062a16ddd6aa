-- ===== src/Verifier/Termination.antt =====
-- The machine of zkvm/src/vm.rs with the verifier of zkvm/src/verifier.rs as its delegate: between
-- calls of programs, a step that continues takes a byte off a program or ends one.
use zioncoin_poc.Prelude.{
  ℕ, zero, suc, ◌+◌, ◌-◌, ◌≤◌, ◌<◌, ◌≡◌, refl, sym, ap, ◌∙◌, subst, Bool, true, false, Option, none,
  some, List, [], ◌∷◌, arith, length,
}
use zioncoin_poc.Prelude.Result.{Result, ok, err, panic, stuck, ok-injective, ◌>>=◌}
use zioncoin_poc.External.{
  LittleEndian, Merlin, Scalars, Curve, ScalarField, ConstraintSystem, RandomizableSystem,
  PedersenGens, R1cs, R1csVerifier,
}
use zioncoin_poc.Errors.{VmError}
use zioncoin_poc.Items.{Instruction}
use zioncoin_poc.Tx.{Tx}
use zioncoin_poc.Spacesuit.{Cloak}
use zioncoin_poc.Vm.{Vm}
use zioncoin_poc.Vm.Frames.{Framed, bind-Keeps, pure-Keeps}
use zioncoin_poc.Vm.Executed.{is_call, execute-Keeps_local}
use zioncoin_poc.Vm.Loops.{After-ok}
use zioncoin_poc.Vm.Steps
use zioncoin_poc.Verifier.{
  VerifierRun, VerifierState, verifier_delegate, next_of_run, verifier_next, verifier_vm,
}
use zioncoin_poc.Verifier.Progress.{remaining, remaining-next_of_run}

module _ ⦃scalars : Scalars⦄ ⦃curve : Curve⦄ ⦃le : LittleEndian⦄ ⦃cs : ConstraintSystem⦄
    ⦃merlin : Merlin⦄ ⦃gens : PedersenGens⦄ ⦃r1cs : R1cs⦄ ⦃verifier : R1csVerifier⦄
    ⦃field : ScalarField⦄ where
  record SameRuns (vm vm' : Vm) : Type 0 where
    same_run : vm'.current_run ≡ vm.current_run
    same_stack : vm'.run_stack ≡ vm.run_stack

  unchanged :
      (vm vm' : Vm)
      → vm'.current_run ≡ vm.current_run
      → vm'.run_stack ≡ vm.run_stack
      → SameRuns vm vm'
  unchanged vm vm' a b = record { same_run = a; same_stack = b }

  instance SameRuns-Framed : Framed SameRuns
  SameRuns-Framed = record {
    same = λ vm. unchanged vm vm refl refl;
    then_also = λ vm vm' vm'' g h.
        unchanged vm vm'' (h.same_run ∙ g.same_run) (h.same_stack ∙ g.same_stack);
    stack_free = λ vm items. unchanged vm _ refl refl;
    state_free = λ vm s. unchanged vm _ refl refl;
    log_free = λ vm entry. unchanged vm _ refl refl;
    renewal_free = λ vm old new e. unchanged vm _ refl refl;
    input_free = λ vm id items anchor. unchanged vm _ refl refl;
  }

  -- What is left of the runs that wait, with one step to resume each
  unfoldable pub waiting : List VerifierRun → ℕ
  waiting [] = 0
  waiting (r ∷ runs) = remaining r + 1 + waiting runs

  abbrev pub measure : Vm → ℕ
  measure vm = remaining vm.current_run + waiting vm.run_stack

  abbrev pub is_local : Option Instruction → Bool
  is_local none = true
  is_local (some i) = zioncoin_poc.Prelude.not (is_call i)

  module _ ⦃random : RandomizableSystem⦄ ⦃cloaks : Cloak⦄ where
    -- So many steps follow one another from the machine, none of which calls a program.
    pub data LocalSteps : ℕ → Vm → Type 0 where
      stop : {vm : Vm} → LocalSteps zero vm
      more :
          {n : ℕ} {vm : Vm} (o : Option Instruction) (vm1 vm2 : Vm)
          → Steps.next_instruction vm ≡ ok (o, vm1)
          → is_local o ≡ true
          → Steps.step_with o vm1 ≡ ok (true, vm2)
          → LocalSteps n vm2
          → LocalSteps (suc n) vm

    -- What the verifier's `next_instruction` does to the machine
    record Nexted (vm : Vm) (o : Option Instruction) (vm1 : Vm) : Type 0 where
      run : VerifierRun
      taken : next_of_run vm.current_run ≡ ok (o, run)
      now : vm1.current_run ≡ run
      kept : vm1.run_stack ≡ vm.run_stack

    nexted :
        (vm vm1 : Vm) (o : Option Instruction)
        (r : Result VmError (Option Instruction × VerifierRun))
        → next_of_run vm.current_run ≡ r
        → ◌≡◌ {A = Result VmError (Option Instruction × Vm)}
            (elim (◌>>=◌ {B = Option Instruction × VerifierRun × VerifierState} r
                (λ p. ok (p.0, p.1, vm.state)))
              as (λ x. Result VmError (Option Instruction × Vm)) [
                | ok (instr, run, s) ↦ ok (instr, record vm { current_run = run; state = s })
                | err e ↦ err e
                | panic ↦ panic
                | stuck ↦ stuck
              ])
            (ok (o, vm1))
        → Nexted vm o vm1
    nexted vm vm1 o (ok p) t e =
        let same = ok-injective e in
        record {
          run = p.1;
          taken = t ∙ ap (λ x. ok (x, p.1)) (ap (λ (q : Option Instruction × Vm). q.0) same);
          now = ap (λ (q : Option Instruction × Vm). q.1.current_run) (sym same);
          kept = ap (λ (q : Option Instruction × Vm). q.1.run_stack) (sym same);
        }
    nexted vm vm1 o (err x) t e = cc
    nexted vm vm1 o panic t e = cc
    nexted vm vm1 o stuck t e = cc

    next-Nexted :
        (vm vm1 : Vm) (o : Option Instruction)
        → Steps.next_instruction vm ≡ ok (o, vm1)
        → Nexted vm o vm1
    unfolding Steps.next_instruction verifier_next
    next-Nexted vm vm1 o e = nexted vm vm1 o (next_of_run vm.current_run) refl e

    next-measure :
        (vm vm1 : Vm) (i : Instruction)
        → Steps.next_instruction vm ≡ ok (some i, vm1)
        → measure vm1 < measure vm
    next-measure vm vm1 i e =
        let n = next-Nexted vm vm1 (some i) e in
        let less = remaining-next_of_run vm.current_run n.run i n.taken in
        omega (arith, less, ap remaining n.now, ap waiting n.kept)

    resumed :
        (vm1 vm2 : Vm) (runs : List VerifierRun)
        → ◌≡◌ {A = Result VmError (Bool × Vm)}
            (elim runs as (λ x. Result VmError (Bool × Vm)) [
              | [] ↦ ok (false, vm1)
              | run ∷ rest ↦ ok (true, record vm1 { current_run = run; run_stack = rest })
            ])
            (ok (true, vm2))
        → measure vm2 < waiting runs
    unfolding waiting
    resumed vm1 vm2 [] e = cc
    resumed vm1 vm2 (run ∷ rest) e =
        omega (arith, ap (λ (q : Bool × Vm). measure q.1) (ok-injective e))

    resume-measure :
        (vm vm1 vm2 : Vm)
        → Steps.next_instruction vm ≡ ok (none, vm1)
        → Steps.step_with none vm1 ≡ ok (true, vm2)
        → measure vm2 < measure vm
    unfolding Steps.step_with Steps.finish_run
    resume-measure vm vm1 vm2 e h =
        let n = next-Nexted vm vm1 none e in
        omega (arith, resumed vm1 vm2 vm1.run_stack h, ap waiting n.kept)

    not_call : (b : Bool) → zioncoin_poc.Prelude.not b ≡ true → b ≡ false
    not_call true h = cc
    not_call false h = refl

    execute-measure :
        (vm1 vm2 : Vm) (i : Instruction)
        → is_local (some i) ≡ true
        → Steps.step_with (some i) vm1 ≡ ok (true, vm2)
        → measure vm2 ≡ measure vm1
    unfolding Steps.step_with
    execute-measure vm1 vm2 i l h =
        let kept =
          bind-Keeps SameRuns (execute-Keeps_local SameRuns i (not_call (is_call i) l))
            (λ u. pure-Keeps SameRuns true) in
        let g = After-ok (true, vm2) (kept.from vm1) h in
        omega (arith, ap remaining g.same_run, ap waiting g.same_stack)

    -- As many steps as the bytes that are left in the runs, and one for each run that waits, is all
    -- that the machine can do before it ends or calls a program.
    pub LocalSteps-le-measure : (n : ℕ) (vm : Vm) → LocalSteps n vm → n ≤ measure vm
    LocalSteps-le-measure zero vm stop = omega arith
    LocalSteps-le-measure (suc n) vm (more none vm1 vm2 e l h rest) =
        omega (arith, resume-measure vm vm1 vm2 e h, LocalSteps-le-measure n vm2 rest)
    LocalSteps-le-measure (suc n) vm (more (some i) vm1 vm2 e l h rest) = omega (
      arith,
      next-measure vm vm1 i e,
      execute-measure vm1 vm2 i l h,
      LocalSteps-le-measure n vm2 rest,
    )

    -- A transaction's program takes at most as many steps as it has bytes before the machine ends or
    -- calls another program.
    pub LocalSteps-le-length :
        (tx : Tx) (n : ℕ) → LocalSteps n (verifier_vm tx) → n ≤ length tx.program
    unfolding verifier_vm waiting
    LocalSteps-le-length tx n steps = omega (arith, LocalSteps-le-measure n (verifier_vm tx) steps)
