-- ===== src/Spacesuit/Shuffle.antt =====
-- spacesuit/src/shuffle.rs: that values are a reordering of others.
use zioncoin_poc.Prelude.{
  ℕ, zero, suc, ◌-◌, List, [], ◌∷◌, ◌++◌, ◌==◌, length, ltb, if◌then◌else◌, reverse,
}
use zioncoin_poc.Prelude.Result.{Result, ok, err, panic, stuck}
use zioncoin_poc.External.{Scalars, Curve, ScalarField, ConstraintSystem, RandomizableSystem}
use zioncoin_poc.Items.{pos}
use zioncoin_poc.Constraints.{Terms, scale}
use zioncoin_poc.Constraints.Flatten.{sub_terms, of_variable}
use zioncoin_poc.Spacesuit.{AllocatedValue}
use zioncoin_poc.Spacesuit.Mix.{
  Gadget, ◌>>=◌, ◌>>◌, pure, fail, call_update, difference, allocate_value,
}

module _ ⦃scalars : Scalars⦄ ⦃curve : Curve⦄ ⦃field : ScalarField⦄ ⦃cs : ConstraintSystem⦄
    ⦃random : RandomizableSystem⦄ where
  open random use {Randomized, challenge_scalar, multiply_randomized, constrain_randomized}

  -- `x - z` of a variable and a scalar
  unfoldable pub shifted : cs.Variable → scalars.Scalar → Terms
  unfolding sub_terms of_variable
  shifted x z = sub_terms (of_variable x) ((cs.variable_one, z) ∷ [])

  -- The product of the shifted variables, the last first: the last two in one multiplier, and one for
  -- each variable before them
  unfoldable pub shuffle_product :
      scalars.Scalar → List cs.Variable → cs.Variable → Randomized → cs.Variable × Randomized
  unfolding shifted of_variable
  shuffle_product z [] out phase = (out, phase)
  shuffle_product z (x ∷ before) out phase =
      let product = multiply_randomized (of_variable out) (shifted x z) phase in
      shuffle_product z before product.0.2 product.1

  -- The variables from the last on. There are two, or the index `k - 2` is out of bounds.
  unfoldable pub product_from :
      scalars.Scalar → List cs.Variable → Randomized → Result (Unit {0}) (cs.Variable × Randomized)
  unfolding shuffle_product shifted
  product_from z (last ∷ second ∷ before) phase =
      let product = multiply_randomized (shifted last z) (shifted second z) phase in
      ok (shuffle_product z before product.0.2 product.1)
  product_from z _ phase = panic

  unfoldable pub equal_products :
      List cs.Variable → List cs.Variable → Randomized → Result (Unit {0}) Randomized
  unfolding product_from difference
  equal_products x y phase =
      let drawn = challenge_scalar "shuffle challenge" phase in
      elim (product_from drawn.0 (reverse x) drawn.1) [
        | ok (first_mulx_out, phase1) ↦ elim (product_from drawn.0 (reverse y) phase1) [
          | ok (first_muly_out, phase2) ↦
              ok (constrain_randomized (difference first_mulx_out first_muly_out) phase2)
          | err e ↦ err e
          | panic ↦ panic
          | stuck ↦ stuck
        ]
        | err e ↦ err e
        | panic ↦ panic
        | stuck ↦ stuck
      ]

  unfoldable pub scalar_shuffle :
      List cs.Variable → List cs.Variable → Randomized → Result (Unit {0}) Randomized
  unfolding equal_products difference
  scalar_shuffle (x ∷ []) (y ∷ []) phase = ok (constrain_randomized (difference y x) phase)
  scalar_shuffle x y phase = if length x == length y then equal_products x y phase else err tt

  -- The loop of `value_shuffle`, with the variables of its two sides
  unfoldable pub value_variables :
      scalars.Scalar
      → List AllocatedValue
      → List AllocatedValue
      → Randomized
      → (List cs.Variable × List cs.Variable) × Randomized
  unfolding of_variable scale
  value_variables w (x ∷ xs) (y ∷ ys) phase =
      let combined : AllocatedValue → Terms = λ v. of_variable v.q ++ scale w (of_variable v.f) in
      let product = multiply_randomized (combined x) (combined y) phase in
      let rest = value_variables w xs ys product.1 in
      ((product.0.0 ∷ rest.0.0, product.0.1 ∷ rest.0.1), rest.1)
  value_variables w _ _ phase = (([], []), phase)

  unfoldable pub shuffle_phase :
      List AllocatedValue → List AllocatedValue → Randomized → Result (Unit {0}) Randomized
  unfolding value_variables scalar_shuffle
  shuffle_phase x y phase =
      let drawn = challenge_scalar "k-value shuffle challenge" phase in
      let vars = value_variables drawn.0 x y drawn.1 in scalar_shuffle vars.0.0 vars.0.1 vars.1

  unfoldable pub constrain : Terms → Gadget (Unit {0})
  constrain terms s = ok (tt, random.constrain terms s)

  unfoldable pub value_shuffle : List AllocatedValue → List AllocatedValue → Gadget (Unit {0})
  unfolding constrain difference call_update shuffle_phase
  value_shuffle (x ∷ []) (y ∷ []) = do
    constrain (difference y.q x.q)
    constrain (difference y.f x.f)
  value_shuffle x y =
      if length x == length y
      then call_update (random.specify_randomized_constraints (shuffle_phase x y))
      else fail

  -- The values that `padded_shuffle` adds to the shorter side
  unfoldable pub padding : ℕ → Gadget (List AllocatedValue)
  unfolding allocate_value constrain of_variable
  padding zero = pure []
  padding (suc n) = do
    zero_val ← allocate_value (pos 0, curve.zero)
    constrain (of_variable zero_val.q)
    constrain (of_variable zero_val.f)
    values ← padding n
    pure (zero_val ∷ values)

  unfoldable pub padded_shuffle : List AllocatedValue → List AllocatedValue → Gadget (Unit {0})
  unfolding padding value_shuffle
  padded_shuffle x y =
      let m = length x in
      let n = length y in
      if ltb n m
      then (do values ← padding (m - n); value_shuffle x (y ++ values))
      else (do values ← padding (n - m); value_shuffle (x ++ values) y)
