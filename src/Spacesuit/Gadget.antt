-- ===== src/Spacesuit/Gadget.antt =====
-- spacesuit/src/cloak.rs: the gadget `cloak`, which fills the interface that the machine takes.
use zioncoin_poc.Prelude.{List, [], ◌∷◌, reverse}
use mathlib.Core.Option
use zioncoin_poc.External.{Scalars, Curve, ScalarField, ConstraintSystem, RandomizableSystem}
use zioncoin_poc.Constraints.Flatten.{of_variable}
use zioncoin_poc.Spacesuit.{AllocatedValue, Cloak, max_bits, range_proof}
use zioncoin_poc.Spacesuit.Mix.{Amount, Gadget, ◌>>=◌, ◌>>◌, pure, call_update, k_mix}
use zioncoin_poc.Spacesuit.Shuffle.{value_shuffle, padded_shuffle}

module _ ⦃scalars : Scalars⦄ ⦃curve : Curve⦄ ⦃field : ScalarField⦄ ⦃cs : ConstraintSystem⦄
    ⦃random : RandomizableSystem⦄ where
  unfoldable pub merge : List AllocatedValue → Gadget (List AllocatedValue × List AllocatedValue)
  unfolding k_mix
  merge inputs = k_mix inputs

  unfoldable pub split : List AllocatedValue → Gadget (List AllocatedValue × List AllocatedValue)
  unfolding k_mix
  split inputs = do mixed ← k_mix (reverse inputs); pure (mixed.1, mixed.0)

  -- The last loop of `cloak`
  unfoldable pub range_proofs : List AllocatedValue → Gadget (Unit {0})
  unfolding call_update range_proof of_variable
  range_proofs [] = pure tt
  range_proofs (output ∷ outputs) = do
    call_update (
        range_proof (of_variable output.q) (Option.map (λ (v : Amount). v.0) output.assignment)
          max_bits)
    range_proofs outputs

  unfoldable pub cloak : List AllocatedValue → List AllocatedValue → Gadget (Unit {0})
  unfolding merge split value_shuffle padded_shuffle range_proofs
  cloak inputs outputs = do
    merged ← merge inputs
    parts ← split outputs
    value_shuffle inputs merged.0
    padded_shuffle merged.1 parts.0
    value_shuffle parts.1 outputs
    range_proofs outputs

  instance abbrev pub spacesuit_cloak : Cloak
  spacesuit_cloak = record { cloak = cloak }
