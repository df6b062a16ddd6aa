-- ===== src/PointOps.antt =====
-- zkvm/src/point_ops.rs: deferred operations on points, alone and in a batch. The factors that a
-- batch draws at random, one for each operation, are an argument of the function.
pub mod Batches
mod Runs
use zioncoin_poc.Prelude.{
  ℕ, ◌+◌, Option, none, some, List, [], ◌∷◌, ◌++◌, map, length, ◌==◌, if◌then◌else◌,
}
use zioncoin_poc.Prelude.Result.{Result, ok, ◌>>=◌, ok_or, ensure}
use zioncoin_poc.External.{Scalars, Curve, ScalarField, PedersenGens}
use zioncoin_poc.Errors.{VmError, point_operation_failed}
use zioncoin_poc.Items.{Bytes32}
use zioncoin_poc.Taproot.{PointOp}

module _ ⦃scalars : Scalars⦄ ⦃curve : Curve⦄ ⦃field : ScalarField⦄ ⦃gens : PedersenGens⦄ where
  -- The two vectors over which a product is taken
  pub record Weighted : Type 0 where
    pub weights : List scalars.Scalar
    pub points : List (Option curve.Point)

  -- `if let Some(w) = weight { weights.push(w); points.push(Some(point)) }`
  unfoldable pub push_weight : Option scalars.Scalar → curve.Point → Weighted → Weighted
  push_weight none point v = v
  push_weight (some w) point v = record {
    weights = v.weights ++ w ∷ [];
    points = v.points ++ some point ∷ [];
  }

  unfoldable pub op_vectors : PointOp → Weighted
  unfolding push_weight
  op_vectors op = push_weight op.secondary gens.base_blinding (
      push_weight op.primary gens.base (record {
        weights = map (λ (p : scalars.Scalar × Bytes32). p.0) op.arbitrary;
        points = map (λ (p : scalars.Scalar × Bytes32). gens.decompress p.1.bytes32) op.arbitrary;
      }))

  -- `PointOp::compute`
  unfoldable pub compute : PointOp → Result VmError curve.Point
  unfolding op_vectors
  compute op =
      let v = op_vectors op in
      if length v.points == 0
      then ok gens.identity
      else ok_or (gens.optional_multiscalar_mul v.weights v.points) point_operation_failed

  -- `PointOp::verify`
  unfoldable pub verify_op : PointOp → Result VmError (Unit {0})
  unfolding compute
  verify_op op = do point ← compute op; ensure (gens.is_identity point) point_operation_failed

  unfoldable pub add_weight :
      scalars.Scalar → scalars.Scalar → Option scalars.Scalar → scalars.Scalar
  add_weight sum e none = sum
  add_weight sum e (some w) = field.add sum (field.mul e w)

  -- The weights of the two base points, and the vectors of the others
  pub record Batch : Type 0 where
    pub base_weight : scalars.Scalar
    pub blinding_weight : scalars.Scalar
    pub others : Weighted

  -- The body of the loop of `verify_batch`
  unfoldable pub add_op : scalars.Scalar → PointOp → Batch → Batch
  unfolding add_weight
  add_op e op batch = record {
    base_weight = add_weight batch.base_weight e op.primary;
    blinding_weight = add_weight batch.blinding_weight e op.secondary;
    others = record {
      weights =
          batch.others.weights
          ++ map (λ (p : scalars.Scalar × Bytes32). field.mul p.0 e) op.arbitrary;
      points =
          batch.others.points
          ++ map (λ (p : scalars.Scalar × Bytes32). gens.decompress p.1.bytes32) op.arbitrary;
    };
  }

  -- What `Scalar::random` returns, by the number of the draw
  abbrev pub Factors : Type 0
  Factors = ℕ → scalars.Scalar

  -- The loop, from the draw `i` on: every operation draws its factor.
  unfoldable pub add_ops : Factors → ℕ → List PointOp → Batch → Batch
  unfolding add_op
  add_ops es i [] batch = batch
  add_ops es i (op ∷ ops) batch = add_ops es (i + 1) ops (add_op (es i) op batch)

  abbrev pub no_ops : Batch
  no_ops = record {
    base_weight = curve.zero;
    blinding_weight = curve.zero;
    others = record { weights = []; points = [] };
  }

  -- `PointOp::verify_batch`
  unfoldable pub verify_batch : Factors → List PointOp → Result VmError (Unit {0})
  unfolding add_ops
  verify_batch es batch = do
    let v = add_ops es 0 batch no_ops
    check ←
        ok_or
          (gens.optional_multiscalar_mul (v.base_weight ∷ v.blinding_weight ∷ v.others.weights)
            (some gens.base ∷ some gens.base_blinding ∷ v.others.points))
          point_operation_failed
    ensure (gens.is_identity check) point_operation_failed
