-- ===== src/Musig/Runs.antt =====
-- A run of a batch of one deferred verification, with the sample points.
use zioncoin_poc.Prelude.{
  ℕ, ◌+◌, ◌*◌, ◌≡◌, refl, ap, Option, none, some, List, [], ◌∷◌, map, arith, replicate,
}
use zioncoin_poc.Prelude.Result.{Result, map_err}
use zioncoin_poc.External.Samples.{scalars_sample, curve_sample, field_sample, gens_sample}
use zioncoin_poc.Items.{Bytes32}
use zioncoin_poc.PointOps.{verify_batch}
use zioncoin_poc.Musig.{DeferredVerification, into_point_op}
use zioncoin_poc.Musig.Deferred.{
  verify_deferred_batch, verify_batch-verify_deferred_batch, as_vm_error,
}

abbrev threes : Bytes32
threes = record { bytes32 = replicate 32 3; is_32 = refl }

-- `4 * B + 1 * R`, with `B` as 1 and `R` as 3
abbrev balanced : List DeferredVerification
balanced = record { static_point_weight = 4; dynamic_point_weights = (1, threes) ∷ [] } ∷ []

-- A factor of 2 for each
abbrev twice : ℕ → ℕ
twice i = 2

without_zero : (o : Option ℕ) → (elim o [ none ↦ none | some sum ↦ some (0 * 5 + sum) ]) ≡ o
without_zero none = refl
without_zero (some sum) = ap some (omega arith)

zero_weight :
    (w : ℕ) (ws : List ℕ) (ps : List (Option ℕ))
    → gens_sample.optional_multiscalar_mul (w ∷ 0 ∷ ws) (some 1 ∷ some 5 ∷ ps)
      ≡ gens_sample.optional_multiscalar_mul (w ∷ ws) (some 1 ∷ ps)
zero_weight w ws ps =
    ap (λ (o : Option ℕ). elim o as (λ x. Option ℕ) [ none ↦ none | some sum ↦ some (w * 1 + sum) ])
      (without_zero (gens_sample.optional_multiscalar_mul ws ps))

verify_batch-verify_deferred_batch_example :
    verify_batch twice (map into_point_op balanced)
    ≡ map_err as_vm_error (verify_deferred_batch twice balanced)
verify_batch-verify_deferred_batch_example =
    verify_batch-verify_deferred_batch twice balanced zero_weight

balanced-passes : verify_deferred_batch twice balanced ≡ Result.ok tt
unfolding verify_deferred_batch
balanced-passes = refl
