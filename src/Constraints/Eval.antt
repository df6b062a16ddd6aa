-- ===== src/Constraints/Eval.antt =====
-- About the evaluation of what the optimised `and`, `or` and `not` of constraints and the operations
-- on expressions build.
use mathlib.Core.Option
use native.Mathlib.Nat.{mul_comm}
use zioncoin_poc.Prelude.{◌+◌, ◌≡◌, refl, ap, Bool, true, false, not, ◌&&◌, ◌||◌, none, some, arith}
use zioncoin_poc.External.{Scalars, Curve, ScalarField, ConstraintSystem}
use zioncoin_poc.Items.{ℤ, pos, negsuc, ScalarWitness}
use zioncoin_poc.Items.Encode.{to_scalar, integer_to_scalar}
use zioncoin_poc.Constraints.Integers.{mul_i128, mul_int, from_neg}
use zioncoin_poc.Constraints.{
  map2, add_witness, mul_witness, Expression, constant, linear_combination, Constraint, cleartext,
  secret, eval_expression, add_expression, multiply, eval_secret, eval, constraint_and,
  constraint_or, constraint_not,
}

mul_i128_comm : (a b : ℤ) → mul_i128 a b ≡ mul_i128 b a
unfolding mul_i128
mul_i128_comm (pos a) (pos b) = ap pos (mul_comm a b)
mul_i128_comm (pos a) (negsuc b) = ap from_neg (mul_comm a (b + 1))
mul_i128_comm (negsuc a) (pos b) = ap from_neg (mul_comm (a + 1) b)
mul_i128_comm (negsuc a) (negsuc b) = ap pos (mul_comm (a + 1) (b + 1))

module _ ⦃scalars : Scalars⦄ ⦃curve : Curve⦄ ⦃field : ScalarField⦄ where
  mul_witness_comm : (a b : ScalarWitness) → mul_witness a b ≡ mul_witness b a
  unfolding mul_witness mul_int to_scalar
  mul_witness_comm (ScalarWitness.integer a) (ScalarWitness.integer b) =
      rw (mul_i128_comm a b, field.mul_comm (integer_to_scalar a) (integer_to_scalar b))
  mul_witness_comm (ScalarWitness.integer a) (ScalarWitness.scalar b) =
      ap ScalarWitness.scalar (field.mul_comm (integer_to_scalar a) b)
  mul_witness_comm (ScalarWitness.scalar a) (ScalarWitness.integer b) =
      ap ScalarWitness.scalar (field.mul_comm a (integer_to_scalar b))
  mul_witness_comm (ScalarWitness.scalar a) (ScalarWitness.scalar b) =
      ap ScalarWitness.scalar (field.mul_comm a b)

  module _ ⦃cs : ConstraintSystem⦄ where
    -- A conjunction of constraints that evaluate to `x` and `y` evaluates to `x && y`.
    pub eval-constraint_and :
        (c1 c2 : Constraint) (x y : Bool)
        → eval c1 ≡ some x
        → eval c2 ≡ some y
        → eval (constraint_and c1 c2) ≡ some (x && y)
    unfolding eval constraint_and eval_secret
    eval-constraint_and (cleartext false) c2 x y e1 e2 = ground arith
    eval-constraint_and (cleartext true) c2 x y e1 e2 = ground arith
    eval-constraint_and (secret c1) (cleartext false) x y e1 e2 = ground arith
    eval-constraint_and (secret c1) (cleartext true) x y e1 e2 = ground arith
    eval-constraint_and (secret c1) (secret c2) x y e1 e2 = rw (e1, e2)

    -- A disjunction of constraints that evaluate to `x` and `y` evaluates to `x || y`.
    pub eval-constraint_or :
        (c1 c2 : Constraint) (x y : Bool)
        → eval c1 ≡ some x
        → eval c2 ≡ some y
        → eval (constraint_or c1 c2) ≡ some (x || y)
    unfolding eval constraint_or eval_secret
    eval-constraint_or (cleartext false) c2 x y e1 e2 = ground arith
    eval-constraint_or (cleartext true) c2 x y e1 e2 = ground arith
    eval-constraint_or (secret c1) (cleartext false) x y e1 e2 = ground arith
    eval-constraint_or (secret c1) (cleartext true) x y e1 e2 = ground arith
    eval-constraint_or (secret c1) (secret c2) x y e1 e2 = rw (e1, e2)

    -- A negation evaluates to the opposite, and to nothing exactly if the constraint does.
    pub eval-constraint_not : (c : Constraint) → eval (constraint_not c) ≡ Option.map not (eval c)
    unfolding eval constraint_not eval_secret
    eval-constraint_not (cleartext b) = refl
    eval-constraint_not (secret c) = refl

    -- A sum evaluates to the sum of what the expressions evaluate to.
    pub eval-add_expression :
        (e1 e2 : Expression)
        → eval_expression (add_expression e1 e2)
          ≡ map2 add_witness (eval_expression e1) (eval_expression e2)
    unfolding eval_expression add_expression
    eval-add_expression (constant a) (constant b) = refl
    eval-add_expression (constant a) (linear_combination terms (some b)) = refl
    eval-add_expression (constant a) (linear_combination terms none) = refl
    eval-add_expression (linear_combination terms (some a)) (constant b) = refl
    eval-add_expression (linear_combination terms none) (constant b) = refl
    eval-add_expression (linear_combination left_terms a) (linear_combination right_terms b) = refl

    -- A product evaluates to the product of what the expressions evaluate to.
    pub eval-multiply :
        (e1 e2 : Expression) (s : cs.System)
        → eval_expression (multiply e1 e2 s).0
          ≡ map2 mul_witness (eval_expression e1) (eval_expression e2)
    unfolding eval_expression multiply
    eval-multiply (constant a) (constant b) s = refl
    eval-multiply (constant a) (linear_combination terms (some b)) s =
        ap some (mul_witness_comm b a)
    eval-multiply (constant a) (linear_combination terms none) s = refl
    eval-multiply (linear_combination terms (some a)) (constant b) s = refl
    eval-multiply (linear_combination terms none) (constant b) s = refl
    eval-multiply (linear_combination left_terms a) (linear_combination right_terms b) s = refl
