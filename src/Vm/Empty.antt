-- ===== src/Vm/Empty.antt =====
-- The instruction `cloak` of zkvm/src/vm.rs, over spacesuit/src/cloak.rs, with no values.
use zioncoin_poc.Prelude.{◌≡◌, ◌<◌, ◌^◌, length, arith}
use zioncoin_poc.Prelude.Result.{ok, panic}
use zioncoin_poc.External.{
  LittleEndian, Merlin, Scalars, Curve, ScalarField, ConstraintSystem, RandomizableSystem,
  PedersenGens,
}
use zioncoin_poc.Items.{Instruction}
use zioncoin_poc.Spacesuit.Mix.{k_mix}
use zioncoin_poc.Spacesuit.Gadget.{spacesuit_cloak, cloak}
use zioncoin_poc.Vm.{Delegate, Vm}
use zioncoin_poc.Vm.Returns.{method-ok}
use zioncoin_poc.Vm.Contracts
use zioncoin_poc.Vm.Steps

module _ ⦃scalars : Scalars⦄ ⦃curve : Curve⦄ ⦃field : ScalarField⦄ ⦃cs : ConstraintSystem⦄
    ⦃random : RandomizableSystem⦄ where
  module _ ⦃merlin : Merlin⦄ ⦃le : LittleEndian⦄ ⦃delegate : Delegate⦄ ⦃gens : PedersenGens⦄ where
    counted : (vm : Vm) → length vm.stack < 2 ^ 30 → Contracts.cloak_counts 0 0 vm ≡ ok (tt, vm)
    unfolding Contracts.cloak_counts
    counted vm h = ground arith

    -- Where there are fewer than 2 ^ 30 items on the stack, `cloak` with no inputs and no outputs
    -- passes the checks of the machine, and panics.
    pub execute_cloak-panics :
        (vm : Vm)
        → length vm.stack < 2 ^ 30
        → (Contracts.cloak_counts 0 0 vm ≡ ok (tt, vm))
          × (Steps.execute ⦃cloaks = spacesuit_cloak⦄ (Instruction.cloak 0 0) vm ≡ panic)
    unfolding Steps.execute Contracts.cloak cloak k_mix
    execute_cloak-panics vm h =
        let c = counted vm h in (c, method-ok (Contracts.cloak_counts 0 0) _ vm (tt, vm) c)
