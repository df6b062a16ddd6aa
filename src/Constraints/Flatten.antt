-- ===== src/Constraints/Flatten.antt =====
-- zkvm/src/constraints.rs: a secret constraint as one linear combination that must be zero, with the
-- multipliers and constraints that it adds to the randomized phase of a constraint system.
use mathlib.Core.Option
use zioncoin_poc.Prelude.{
  Bool, true, false, String, Option, none, some, [], ◌∷◌, ◌++◌, map, if◌then◌else◌,
}
use zioncoin_poc.Prelude.Result.{Result, ok, err}
use zioncoin_poc.External.{Scalars, Curve, ScalarField, ConstraintSystem, RandomizableSystem}
use zioncoin_poc.Errors.{VmError, cleartext_constraint_false, r1cs_error}
use zioncoin_poc.Items.Encode.{to_scalar}
use zioncoin_poc.Constraints.{
  map2, sub_witness, Terms, SecretConstraint, secret_eq, secret_and, secret_or, secret_not,
  Constraint, cleartext, secret, eval_expression, to_r1cs_lc, scale,
}

module _ ⦃scalars : Scalars⦄ ⦃curve : Curve⦄ ⦃field : ScalarField⦄ ⦃cs : ConstraintSystem⦄ where
  -- The difference of linear combinations
  unfoldable pub sub_terms : Terms → Terms → Terms
  sub_terms a b = a ++ map (λ (t : cs.Variable × scalars.Scalar). (t.0, field.neg t.1)) b

  -- `LinearCombination::from` a variable
  unfoldable pub of_variable : cs.Variable → Terms
  of_variable v = (v, field.one) ∷ []

  unfoldable pub is_zero : scalars.Scalar → Bool
  is_zero x = field.equal x curve.zero

  -- What a `not` assigns to its wires: `y`, which is one if `x` is zero and else zero, and `w`, the
  -- inverse of `x` where there is one.
  unfoldable pub not_y : scalars.Scalar → scalars.Scalar
  unfolding is_zero
  not_y x = if is_zero x then field.one else curve.zero

  unfoldable pub not_w : scalars.Scalar → scalars.Scalar
  unfolding is_zero
  not_w x = field.invert (if is_zero x then field.one else x)

  module _ ⦃random : RandomizableSystem⦄ where
    open random use {Randomized, challenge_scalar}

    -- An operation in the randomized phase, which may fail with an `R1CSError`
    abbrev pub Phase : Type 0 → Type 0
    Phase A = Randomized → Option (A × Randomized)

    infixl 5 ◌>>=◌ ◌>>◌
    abbrev pub ◌>>=◌ : {A B : Type 0} → Phase A → (A → Phase B) → Phase B
    ◌>>=◌ m f s = elim (m s) [ none ↦ none | some p ↦ f p.0 p.1 ]

    abbrev pub ◌>>◌ : {B : Type 0} → Phase (Unit {0}) → Phase B → Phase B
    m >> k = m >>= λ _. k

    abbrev pub pure : {A : Type 0} → A → Phase A
    pure a s = some (a, s)

    -- `cs.constrain(lc)`
    abbrev pub constrain : Terms → Phase (Unit {0})
    constrain lc s = some (tt, random.constrain_randomized lc s)

    abbrev pub challenge : String → Phase scalars.Scalar
    challenge label s = some (challenge_scalar label s)

    abbrev pub multiply : Terms → Terms → Phase (cs.Variable × cs.Variable × cs.Variable)
    multiply a b s = some (random.multiply_randomized a b s)

    -- The branch of `flatten` for a negation, after that of its argument
    unfoldable pub flatten_not :
        Terms → Option scalars.Scalar → Phase (Terms × Option scalars.Scalar)
    unfolding not_y not_w sub_terms of_variable
    flatten_not x_lc x_assg = do
      (l1, r1, o1) ← random.allocate_multiplier (Option.map (λ x. (x, not_y x)) x_assg)
      (l2, r2, o2) ← random.allocate_multiplier (Option.map (λ x. (x, not_w x)) x_assg)
      constrain (sub_terms (of_variable l1) x_lc)
      constrain (sub_terms (of_variable l1) (of_variable l2))
      constrain (of_variable o1)
      constrain (sub_terms (of_variable o2) ((cs.variable_one, field.one) ∷ []) ++ of_variable r1)
      pure (of_variable r1, Option.map not_y x_assg)

    -- `SecretConstraint::flatten`
    unfoldable pub flatten : SecretConstraint → Phase (Terms × Option scalars.Scalar)
    unfolding flatten_not
    flatten (secret_eq expr1 expr2) = pure (
      sub_terms (to_r1cs_lc expr1) (to_r1cs_lc expr2),
      map2 (λ x y. to_scalar (sub_witness x y)) (eval_expression expr1) (eval_expression expr2),
    )
    flatten (secret_and c1 c2) = do
      (a, a_assg) ← flatten c1
      (b, b_assg) ← flatten c2
      z ← challenge "ZkVM.verify.and-challenge"
      pure (a ++ scale z b, map2 (λ x y. field.add x (field.mul z y)) a_assg b_assg)
    flatten (secret_or c1 c2) = do
      (a, a_assg) ← flatten c1
      (b, b_assg) ← flatten c2
      (l, r, o) ← multiply a b
      pure (of_variable o, map2 field.mul a_assg b_assg)
    flatten (secret_not c1) = do (x_lc, x_assg) ← flatten c1; flatten_not x_lc x_assg

    -- The callback of `Constraint::verify`
    unfoldable pub constrain_flat : SecretConstraint → Randomized → Result (Unit {0}) Randomized
    constrain_flat sc s = elim (flatten sc s) [
      | none ↦ err tt
      | some p ↦ ok (random.constrain_randomized p.0.0 p.1)
    ]

    unfoldable pub or_r1cs_error : Option cs.System → Result VmError cs.System
    or_r1cs_error none = err r1cs_error
    or_r1cs_error (some s) = ok s

    -- `Constraint::verify`
    unfoldable pub verify_constraint : Constraint → cs.System → Result VmError cs.System
    unfolding constrain_flat or_r1cs_error
    verify_constraint (cleartext true) s = ok s
    verify_constraint (cleartext false) s = err cleartext_constraint_false
    verify_constraint (secret sc) s =
        or_r1cs_error (random.specify_randomized_constraints (constrain_flat sc) s)
