-- ===== src/Musig/Deferred.antt =====
-- musig/src/deferred_verification.rs: deferred verifications, alone and in a batch, next to the same
-- as operations on points (zkvm/src/point_ops.rs). The random factors are an argument.
use zioncoin_poc.Prelude.{
  ℕ, ◌+◌, ◌≡◌, refl, Option, none, some, List, [], ◌∷◌, ◌++◌, map, Bool, true, false,
}
use zioncoin_poc.Prelude.Result.{Result, ok_or, ensure, ◌>>=◌, map_err}
use zioncoin_poc.External.{Scalars, Curve, ScalarField, PedersenGens}
use zioncoin_poc.Errors.{VmError}
use zioncoin_poc.Items.{Bytes32}
use zioncoin_poc.PointOps.{Weighted, Factors, Batch, verify_batch, add_ops, add_weight}
use zioncoin_poc.Musig.{DeferredVerification, into_point_op}

pub data MusigError : Type 0 where
  invalid_point share_error point_operation_failed bad_arguments : MusigError

module _ ⦃scalars : Scalars⦄ ⦃curve : Curve⦄ ⦃gens : PedersenGens⦄ where
  -- `DeferredVerification::compute`. There is a point, that of the generator.
  unfoldable pub compute_deferred : DeferredVerification → Result MusigError curve.Point
  compute_deferred d =
      let weights = map (λ (p : scalars.Scalar × Bytes32). p.0) d.dynamic_point_weights in
      let points =
        map (λ (p : scalars.Scalar × Bytes32). gens.decompress p.1.bytes32)
          d.dynamic_point_weights in
      ok_or
        (gens.optional_multiscalar_mul (weights ++ d.static_point_weight ∷ [])
          (points ++ some gens.base ∷ []))
        MusigError.point_operation_failed

  -- `DeferredVerification::verify`
  unfoldable pub verify_deferred : DeferredVerification → Result MusigError (Unit {0})
  unfolding compute_deferred
  verify_deferred d = do
    point ← compute_deferred d
    ensure (gens.is_identity point) MusigError.point_operation_failed

  module _ ⦃field : ScalarField⦄ where
    -- The weight of the generator and the other terms
    pub record DeferredBatch : Type 0 where
      pub static_weight : scalars.Scalar
      pub terms : Weighted

    -- The body of the loop of `verify_batch`
    unfoldable pub add_deferred :
        scalars.Scalar → DeferredVerification → DeferredBatch → DeferredBatch
    add_deferred e d batch = record {
      static_weight = field.add batch.static_weight (field.mul e d.static_point_weight);
      terms = record {
        weights =
            batch.terms.weights
            ++ map (λ (p : scalars.Scalar × Bytes32). field.mul p.0 e) d.dynamic_point_weights;
        points =
            batch.terms.points
            ++ map (λ (p : scalars.Scalar × Bytes32). gens.decompress p.1.bytes32)
                d.dynamic_point_weights;
      };
    }

    -- The loop, from the draw `i` on: every verification draws its factor.
    unfoldable pub add_all_deferred :
        Factors → ℕ → List DeferredVerification → DeferredBatch → DeferredBatch
    unfolding add_deferred
    add_all_deferred es i [] batch = batch
    add_all_deferred es i (d ∷ ds) batch =
        add_all_deferred es (i + 1) ds (add_deferred (es i) d batch)

    -- `DeferredVerification::verify_batch`
    unfoldable pub verify_deferred_batch :
        Factors → List DeferredVerification → Result MusigError (Unit {0})
    unfolding add_all_deferred
    verify_deferred_batch es batch = do
      let v =
          add_all_deferred es 0 batch
            (record { static_weight = curve.zero; terms = record { weights = []; points = [] } })
      check ←
          ok_or
            (gens.optional_multiscalar_mul (v.static_weight ∷ v.terms.weights)
              (some gens.base ∷ v.terms.points))
            MusigError.point_operation_failed
      ensure (gens.is_identity check) MusigError.point_operation_failed

    -- The batch of operations that a batch of deferred verifications corresponds to
    abbrev as_batch : DeferredBatch → Batch
    as_batch b = record {
      base_weight = b.static_weight;
      blinding_weight = curve.zero;
      others = b.terms;
    }

    add_ops-add_all_deferred :
        (es : Factors) (i : ℕ) (ds : List DeferredVerification) (b : DeferredBatch)
        → add_ops es i (map into_point_op ds) (as_batch b) ≡ as_batch (add_all_deferred es i ds b)
    unfolding add_ops add_all_deferred into_point_op add_weight
    add_ops-add_all_deferred es i [] b = refl
    add_ops-add_all_deferred es i (d ∷ ds) b =
        add_ops-add_all_deferred es (i + 1) ds (add_deferred (es i) d b)

    abbrev pub as_vm_error : MusigError → VmError
    as_vm_error e = VmError.point_operation_failed

    checked :
        (o : Option curve.Point)
        → ◌≡◌ {A = Result VmError (Unit {0})}
            (ok_or o VmError.point_operation_failed >>= λ check.
              ensure (gens.is_identity check) VmError.point_operation_failed)
            (map_err as_vm_error (
              ok_or o MusigError.point_operation_failed >>= λ check.
              ensure (gens.is_identity check) MusigError.point_operation_failed))
    checked none = refl
    checked (some point) = ensured (gens.is_identity point)
      where
        ensured :
            (b : Bool)
            → ensure b VmError.point_operation_failed
              ≡ map_err as_vm_error (ensure b MusigError.point_operation_failed)
        ensured true = refl
        ensured false = refl

    -- A batch of deferred verifications passes as a batch of operations on points exactly if it passes
    -- in musig, where a term of weight zero does not change a product.
    pub verify_batch-verify_deferred_batch :
        (es : Factors) (ds : List DeferredVerification)
        → ((w : scalars.Scalar) (ws : List scalars.Scalar) (ps : List (Option curve.Point))
            → gens.optional_multiscalar_mul
                (w ∷ curve.zero ∷ ws)
                (some gens.base ∷ some gens.base_blinding ∷ ps)
              ≡ gens.optional_multiscalar_mul (w ∷ ws) (some gens.base ∷ ps))
        → verify_batch es (map into_point_op ds) ≡ map_err as_vm_error (verify_deferred_batch es ds)
    unfolding verify_batch verify_deferred_batch
    verify_batch-verify_deferred_batch es ds no_weight =
        let start : DeferredBatch = record {
          static_weight = curve.zero;
          terms = record { weights = []; points = [] };
        } in
        let v = add_all_deferred es 0 ds start in
        rw
          (
            add_ops-add_all_deferred es 0 ds start,
            no_weight v.static_weight v.terms.weights v.terms.points,
          )
          (checked (
            gens.optional_multiscalar_mul (v.static_weight ∷ v.terms.weights)
              (some gens.base ∷ v.terms.points)))
