-- ===== src/PointOps/Runs.antt =====
-- Runs of batches of operations on points, with the sample points.
use zioncoin_poc.Prelude.{ℕ, suc, ◌≡◌, ◌↔◌, refl, none, some, [], ◌∷◌, replicate}
use zioncoin_poc.Prelude.Result.{ok, err}
use zioncoin_poc.External.Samples.{scalars_sample, curve_sample, field_sample, gens_sample}
use zioncoin_poc.Errors.{point_operation_failed}
use zioncoin_poc.Items.{Bytes32}
use zioncoin_poc.Taproot.{PointOp}
use zioncoin_poc.PointOps.{verify_batch}
use zioncoin_poc.PointOps.Batches.{BatchHolds, verify_batch_iff}

abbrev threes : Bytes32
threes = record { bytes32 = replicate 32 3; is_32 = refl }

-- `4 * B + 1 * R`, with `B` as 1 and `R` as 3, and `1 * B`, of which only the first is zero
abbrev balanced : PointOp
balanced = record { primary = some 4; secondary = none; arbitrary = (1, threes) ∷ [] }

abbrev unbalanced : PointOp
unbalanced = record { primary = some 1; secondary = none; arbitrary = [] }

-- The draws 1, 2, 3 and so on
abbrev counted : ℕ → ℕ
counted i = suc i

verify_batch_iff_example :
    (verify_batch counted (balanced ∷ balanced ∷ []) ≡ ok tt)
    ↔ BatchHolds counted (balanced ∷ balanced ∷ [])
verify_batch_iff_example = verify_batch_iff counted (balanced ∷ balanced ∷ [])

balanced-accepted : verify_batch counted (balanced ∷ balanced ∷ []) ≡ ok tt
unfolding verify_batch
balanced-accepted = refl

balanced-BatchHolds : BatchHolds counted (balanced ∷ balanced ∷ [])
balanced-BatchHolds = verify_batch_iff_example.0 balanced-accepted

-- A wrong operation after right ones is found.
unbalanced-refused :
    verify_batch counted (balanced ∷ balanced ∷ unbalanced ∷ []) ≡ err point_operation_failed
unfolding verify_batch
unbalanced-refused = refl
