-- ===== src/Vm/Loops.antt =====
-- The loop of `run` in zkvm/src/vm.rs keeps a relation that each step keeps.
use zioncoin_poc.Prelude.{ℕ, zero, suc, ◌≡◌, refl, subst, Bool, true, false}
use zioncoin_poc.Prelude.Result.{Result, ok, err, panic, stuck, ok-injective}
use zioncoin_poc.External.{
  LittleEndian, Merlin, Scalars, Curve, ScalarField, ConstraintSystem, RandomizableSystem,
  PedersenGens,
}
use zioncoin_poc.Errors.{VmError}
use zioncoin_poc.Spacesuit.{Cloak}
use zioncoin_poc.Vm.{Delegate, Vm}
use zioncoin_poc.Vm.Frames.{Framed, After, returned, refused, panicked, ran_out}
use zioncoin_poc.Vm.Executed.{RunsFree, step-Keeps}
use zioncoin_poc.Vm.Steps

module _ ⦃scalars : Scalars⦄ ⦃curve : Curve⦄ ⦃field : ScalarField⦄ ⦃cs : ConstraintSystem⦄
    ⦃merlin : Merlin⦄ ⦃le : LittleEndian⦄ ⦃delegate : Delegate⦄ where
  -- Where a method returned, what `After` says of it holds.
  pub After-ok :
      {A : Type 0} {P : Vm → Type 0} {r : Result VmError (A × Vm)} (p : A × Vm)
      → After P r
      → r ≡ ok p
      → P p.1
  After-ok {A} {P} p (returned {a} {vm'} h) e = subst (λ (q : A × Vm). P q.1) (ok-injective e) h
  After-ok p refused e = cc
  After-ok p panicked e = cc
  After-ok p ran_out e = cc

  -- What the loop does with what a step gave
  abbrev after_step :
      ⦃random : RandomizableSystem⦄
      → ⦃gens : PedersenGens⦄ → ⦃cloaks : Cloak⦄ → ℕ
      → Result VmError (Bool × Vm)
      → Result VmError Vm
  after_step fuel r = elim r [
    | ok (true, vm1) ↦ Steps.run_loop fuel vm1
    | ok (false, vm1) ↦ ok vm1
    | err e ↦ err e
    | panic ↦ panic
    | stuck ↦ stuck
  ]

  module _ ⦃random : RandomizableSystem⦄ ⦃gens : PedersenGens⦄ ⦃cloaks : Cloak⦄
      (R : Vm → Vm → Type 0) ⦃framed : Framed R⦄ ⦃free : RunsFree R⦄ where
    looped :
        (fuel : ℕ) (vm vm' : Vm) (r : Result VmError (Bool × Vm))
        → After (R vm) r
        → ((vm1 : Vm) → Steps.run_loop fuel vm1 ≡ ok vm' → R vm1 vm')
        → after_step fuel r ≡ ok vm'
        → R vm vm'
    looped fuel vm vm' (ok (true, vm1)) after rest e =
        framed.then_also vm vm1 vm' (After-ok (true, vm1) after refl) (rest vm1 e)
    looped fuel vm vm' (ok (false, vm1)) after rest e =
        subst (λ (x : Vm). R vm x) (ok-injective e) (After-ok (false, vm1) after refl)
    looped fuel vm vm' (err x) after rest e = cc
    looped fuel vm vm' panic after rest e = cc
    looped fuel vm vm' stuck after rest e = cc

    pub run_loop-Keeps : (fuel : ℕ) (vm vm' : Vm) → Steps.run_loop fuel vm ≡ ok vm' → R vm vm'
    unfolding Steps.run_loop
    run_loop-Keeps zero vm vm' e = cc
    run_loop-Keeps (suc fuel) vm vm' e =
        looped fuel vm vm' (Steps.step vm) ((step-Keeps R).from vm)
          (λ vm1. run_loop-Keeps fuel vm1 vm') e

  module _ ⦃random : RandomizableSystem⦄ ⦃gens : PedersenGens⦄ ⦃cloaks : Cloak⦄ where
    -- A loop that runs out of fuel does so with less.
    fewer_after :
        (n : ℕ) (r : Result VmError (Bool × Vm))
        → ((vm : Vm) → Steps.run_loop (suc n) vm ≡ stuck → Steps.run_loop n vm ≡ stuck)
        → after_step (suc n) r ≡ stuck
        → after_step n r ≡ stuck
    fewer_after n (ok (true, vm')) shorter e = shorter vm' e
    fewer_after n (ok (false, vm')) shorter e = cc
    fewer_after n (err x) shorter e = cc
    fewer_after n panic shorter e = cc
    fewer_after n stuck shorter e = refl

    pub run_loop-fewer :
        (n : ℕ) (vm : Vm) → Steps.run_loop (suc n) vm ≡ stuck → Steps.run_loop n vm ≡ stuck
    unfolding Steps.run_loop
    run_loop-fewer zero vm e = refl
    run_loop-fewer (suc n) vm e = fewer_after n (Steps.step vm) (run_loop-fewer n) e
