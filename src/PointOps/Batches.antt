-- ===== src/PointOps/Batches.antt =====
-- zkvm/src/point_ops.rs: the product of which `verify_batch` tests that it is the identity, written
-- as sums and lists over the whole batch.
use zioncoin_poc.Prelude.{
  ℕ, ◌+◌, ◌≡◌, refl, sym, ◌∙◌, ◌↔◌, true, Option, none, some, List, [], ◌∷◌, ◌++◌, map, append-nil,
  append_assoc,
}
use mathlib.Core.List.{map-append, map-map}
use zioncoin_poc.Prelude.Result.{ok, ok_or, >>=-eq-ok, ensure-eq_ok, ok_or-eq_ok}
use zioncoin_poc.External.{Scalars, Curve, ScalarField, PedersenGens}
use zioncoin_poc.Errors.{point_operation_failed}
use zioncoin_poc.Items.{Bytes32}
use zioncoin_poc.Taproot.{PointOp}
use zioncoin_poc.PointOps.{Factors, Batch, add_weight, add_op, add_ops, no_ops, verify_batch}

module _ ⦃scalars : Scalars⦄ ⦃curve : Curve⦄ ⦃field : ScalarField⦄ ⦃gens : PedersenGens⦄ where
  abbrev pub Term : Type 0
  Term = scalars.Scalar × Bytes32

  abbrev pub sum_from : scalars.Scalar → List scalars.Scalar → scalars.Scalar
  sum_from sum [] = sum
  sum_from sum (w ∷ ws) = sum_from (field.add sum w) ws

  abbrev with_part :
      scalars.Scalar → Option scalars.Scalar → List scalars.Scalar → List scalars.Scalar
  with_part e none ws = ws
  with_part e (some w) ws = field.mul e w ∷ ws

  -- A part of each operation that has it, times the factor of the operation
  abbrev pub parts :
      Factors → (PointOp → Option scalars.Scalar) → ℕ → List PointOp → List scalars.Scalar
  parts es part i [] = []
  parts es part i (op ∷ ops) = with_part (es i) (part op) (parts es part (i + 1) ops)

  -- The other terms of all operations, times the factors of the operations
  abbrev pub terms : Factors → ℕ → List PointOp → List Term
  terms es i [] = []
  terms es i (op ∷ ops) =
      map (λ (p : Term). (field.mul p.0 (es i), p.1)) op.arbitrary ++ terms es (i + 1) ops

  -- The sum over all operations, each times its factor, is the identity. No operation is left out.
  pub record BatchHolds (es : Factors) (ops : List PointOp) : Type 0 where
    pub sum : curve.Point
    pub product :
        gens.optional_multiscalar_mul
          (sum_from curve.zero (parts es (λ op. op.primary) 0 ops)
            ∷ sum_from curve.zero (parts es (λ op. op.secondary) 0 ops)
            ∷ map (λ (p : Term). p.0) (terms es 0 ops))
          (some gens.base
            ∷ some gens.base_blinding
            ∷ map (λ (p : Term). gens.decompress p.1.bytes32) (terms es 0 ops))
        ≡ some sum
    pub identity : gens.is_identity sum ≡ true

  sum_from-with_part :
      (sum e : scalars.Scalar) (o : Option scalars.Scalar) (ws : List scalars.Scalar)
      → sum_from (add_weight sum e o) ws ≡ sum_from sum (with_part e o ws)
  unfolding add_weight
  sum_from-with_part sum e none ws = refl
  sum_from-with_part sum e (some w) ws = refl

  base_weight-add_ops :
      (es : Factors) (i : ℕ) (ops : List PointOp) (b : Batch)
      → (add_ops es i ops b).base_weight
        ≡ sum_from b.base_weight (parts es (λ op. op.primary) i ops)
  unfolding add_ops add_op
  base_weight-add_ops es i [] b = refl
  base_weight-add_ops es i (op ∷ ops) b =
      base_weight-add_ops es (i + 1) ops (add_op (es i) op b)
      ∙ sum_from-with_part b.base_weight (es i) op.primary _

  blinding_weight-add_ops :
      (es : Factors) (i : ℕ) (ops : List PointOp) (b : Batch)
      → (add_ops es i ops b).blinding_weight
        ≡ sum_from b.blinding_weight (parts es (λ op. op.secondary) i ops)
  unfolding add_ops add_op
  blinding_weight-add_ops es i [] b = refl
  blinding_weight-add_ops es i (op ∷ ops) b =
      blinding_weight-add_ops es (i + 1) ops (add_op (es i) op b)
      ∙ sum_from-with_part b.blinding_weight (es i) op.secondary _

  -- What is appended first, then what follows
  map-scaled {ℓ} :
      {B : Type ℓ} (f : Term → B) (g : Term → Term) (xs : List B) (here : List Term)
      (after : List Term)
      → (xs ++ map (λ p. f (g p)) here) ++ map f after ≡ xs ++ map f (map g here ++ after)
  map-scaled f g xs here after =
      rw (map-append f (map g here) after, map-map f g here, append_assoc)

  weights-add_ops :
      (es : Factors) (i : ℕ) (ops : List PointOp) (b : Batch)
      → (add_ops es i ops b).others.weights
        ≡ b.others.weights ++ map (λ (p : Term). p.0) (terms es i ops)
  unfolding add_ops add_op
  weights-add_ops es i [] b = sym (append-nil _)
  weights-add_ops es i (op ∷ ops) b =
      weights-add_ops es (i + 1) ops (add_op (es i) op b)
      ∙ map-scaled (λ (p : Term). p.0) (λ (p : Term). (field.mul p.0 (es i), p.1)) b.others.weights
          op.arbitrary (terms es (i + 1) ops)

  points-add_ops :
      (es : Factors) (i : ℕ) (ops : List PointOp) (b : Batch)
      → (add_ops es i ops b).others.points
        ≡ b.others.points ++ map (λ (p : Term). gens.decompress p.1.bytes32) (terms es i ops)
  unfolding add_ops add_op
  points-add_ops es i [] b = sym (append-nil _)
  points-add_ops es i (op ∷ ops) b =
      points-add_ops es (i + 1) ops (add_op (es i) op b)
      ∙ map-scaled (λ (p : Term). gens.decompress p.1.bytes32)
          (λ (p : Term). (field.mul p.0 (es i), p.1)) b.others.points op.arbitrary
          (terms es (i + 1) ops)

  -- `verify_batch` accepts a batch exactly if the sum over all its operations, each times the factor
  -- that it draws, is the identity.
  pub verify_batch_iff :
      (es : Factors) (ops : List PointOp) → (verify_batch es ops ≡ ok tt) ↔ BatchHolds es ops
  unfolding verify_batch
  verify_batch_iff es ops =
      let v = add_ops es 0 ops no_ops in
      rw
        (
          base_weight-add_ops es 0 ops no_ops,
          blinding_weight-add_ops es 0 ops no_ops,
          weights-add_ops es 0 ops no_ops,
          points-add_ops es 0 ops no_ops,
        )
        (
          λ e.
              let (sum, product, e1) = >>=-eq-ok (ok_or _ point_operation_failed) _ e in
              record {
                sum = sum;
                product = ok_or-eq_ok _ point_operation_failed product;
                identity = ensure-eq_ok _ point_operation_failed e1;
              },
          λ holds. rw (holds.product, holds.identity) refl,
        )
