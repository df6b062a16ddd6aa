-- ===== src/Constraints.antt =====
-- zkvm/src/constraints.rs: expressions and constraints, with the optimisation of those that are
-- cleartext; and the arithmetic under it, of zkvm/src/scalar_witness.rs and of
-- spacesuit/src/signed_integer.rs. The constraint system itself is bulletproofs'.
pub mod Integers
pub mod Eval
pub mod Flatten
mod Runs
use mathlib.Core.Option
use zioncoin_poc.Prelude.{
  ℕ, Bool, true, false, not, ◌&&◌, ◌||◌, Option, none, some, List, [], ◌∷◌, ◌++◌, map, ◌==◌,
}
use zioncoin_poc.External.{Scalars, Curve, ScalarField, ConstraintSystem}
use zioncoin_poc.Items.{ℤ, pos, negsuc, ScalarWitness}
use zioncoin_poc.Items.Encode.{to_scalar, integer_to_scalar}
use Integers.{neg_int, add_int, mul_int, eq_int}

-- `o1.and_then(|x| o2.map(|y| f(x, y)))`
abbrev pub map2 {ℓ κ μ} :
    {A : Type ℓ} {B : Type κ} {C : Type μ} → (A → B → C) → Option A → Option B → Option C
map2 f (some x) (some y) = some (f x y)
map2 f (some x) none = none
map2 f none o = none

module _ ⦃scalars : Scalars⦄ ⦃curve : Curve⦄ ⦃field : ScalarField⦄ where
  -- `Neg for ScalarWitness`
  unfoldable pub neg_witness : ScalarWitness → ScalarWitness
  neg_witness (ScalarWitness.integer a) = ScalarWitness.integer (neg_int a)
  neg_witness (ScalarWitness.scalar a) = ScalarWitness.scalar (field.neg a)

  unfoldable pub or_scalar : Option ℤ → scalars.Scalar → ScalarWitness
  or_scalar (some i) s = ScalarWitness.integer i
  or_scalar none s = ScalarWitness.scalar s

  -- `Add for ScalarWitness`
  unfoldable pub add_witness : ScalarWitness → ScalarWitness → ScalarWitness
  add_witness (ScalarWitness.integer a) (ScalarWitness.integer b) =
      or_scalar (add_int a b) (field.add (integer_to_scalar a) (integer_to_scalar b))
  add_witness (ScalarWitness.integer a) (ScalarWitness.scalar b) =
      ScalarWitness.scalar (field.add (integer_to_scalar a) b)
  add_witness (ScalarWitness.scalar a) b = ScalarWitness.scalar (field.add a (to_scalar b))

  -- `Sub for ScalarWitness`, as the code has it
  unfoldable pub sub_witness : ScalarWitness → ScalarWitness → ScalarWitness
  sub_witness a b = add_witness (neg_witness a) b

  -- `Mul for ScalarWitness`
  unfoldable pub mul_witness : ScalarWitness → ScalarWitness → ScalarWitness
  mul_witness (ScalarWitness.integer a) (ScalarWitness.integer b) =
      or_scalar (mul_int a b) (field.mul (integer_to_scalar a) (integer_to_scalar b))
  mul_witness (ScalarWitness.integer a) (ScalarWitness.scalar b) =
      ScalarWitness.scalar (field.mul (integer_to_scalar a) b)
  mul_witness (ScalarWitness.scalar a) b = ScalarWitness.scalar (field.mul a (to_scalar b))

  -- The derived `PartialEq`: an integer is never equal to a scalar.
  unfoldable pub eq_witness : ScalarWitness → ScalarWitness → Bool
  eq_witness (ScalarWitness.integer a) (ScalarWitness.integer b) = eq_int a b
  eq_witness (ScalarWitness.scalar a) (ScalarWitness.scalar b) = field.equal a b
  eq_witness (ScalarWitness.integer a) (ScalarWitness.scalar b) = false
  eq_witness (ScalarWitness.scalar a) (ScalarWitness.integer b) = false

  module _ ⦃cs : ConstraintSystem⦄ where
    abbrev pub Terms : Type 0
    Terms = List (cs.Variable × scalars.Scalar)

    pub data Expression : Type 0 where
      constant : ScalarWitness → Expression
      linear_combination : Terms → Option ScalarWitness → Expression

    pub data SecretConstraint : Type 0 where
      secret_eq : Expression → Expression → SecretConstraint
      secret_and : SecretConstraint → SecretConstraint → SecretConstraint
      secret_or : SecretConstraint → SecretConstraint → SecretConstraint
      secret_not : SecretConstraint → SecretConstraint

    pub data Constraint : Type 0 where
      cleartext : Bool → Constraint
      secret : SecretConstraint → Constraint

    -- `Expression::eval`
    unfoldable pub eval_expression : Expression → Option ScalarWitness
    eval_expression (constant a) = some a
    eval_expression (linear_combination terms a) = a

    unfoldable pub to_r1cs_lc : Expression → Terms
    to_r1cs_lc (constant a) = (cs.variable_one, to_scalar a) ∷ []
    to_r1cs_lc (linear_combination terms a) = terms

    unfoldable pub scale : scalars.Scalar → Terms → Terms
    scale s terms = map (λ (t : cs.Variable × scalars.Scalar). (t.0, field.mul t.1 s)) terms

    unfoldable pub neg_expression : Expression → Expression
    neg_expression (constant a) = constant (neg_witness a)
    neg_expression (linear_combination terms a) =
        linear_combination (map (λ (t : cs.Variable × scalars.Scalar). (t.0, field.neg t.1)) terms)
          (Option.map neg_witness a)

    unfoldable pub add_expression : Expression → Expression → Expression
    add_expression (constant l) (constant r) = constant (add_witness l r)
    add_expression (constant l) (linear_combination terms a) =
        linear_combination ((cs.variable_one, to_scalar l) ∷ terms) (Option.map (add_witness l) a)
    add_expression (linear_combination terms a) (constant r) =
        linear_combination (terms ++ (cs.variable_one, to_scalar r) ∷ [])
          (Option.map (λ l. add_witness l r) a)
    add_expression (linear_combination left_terms l) (linear_combination right_terms r) =
        linear_combination (left_terms ++ right_terms) (map2 add_witness l r)

    -- `Expression::multiply`
    unfoldable pub multiply : Expression → Expression → cs.System → Expression × cs.System
    multiply (constant l) (constant r) s = (constant (mul_witness l r), s)
    multiply (constant l) (linear_combination terms a) s =
        (linear_combination (scale (to_scalar l) terms) (Option.map (λ r. mul_witness r l) a), s)
    multiply (linear_combination terms a) (constant r) s =
        (linear_combination (scale (to_scalar r) terms) (Option.map (λ l. mul_witness l r) a), s)
    multiply (linear_combination left_terms l) (linear_combination right_terms r) s =
        let gate = cs.multiply_gate left_terms right_terms s in
        (linear_combination ((gate.0, field.one) ∷ []) (map2 mul_witness l r), gate.1)

    -- `SecretConstraint::eval`
    unfoldable pub eval_secret : SecretConstraint → Option Bool
    eval_secret (secret_eq e1 e2) = map2 eq_witness (eval_expression e1) (eval_expression e2)
    eval_secret (secret_and c1 c2) = map2 (λ x y. x && y) (eval_secret c1) (eval_secret c2)
    eval_secret (secret_or c1 c2) = map2 (λ x y. x || y) (eval_secret c1) (eval_secret c2)
    eval_secret (secret_not c) = Option.map not (eval_secret c)

    -- `Constraint::eval`
    unfoldable pub eval : Constraint → Option Bool
    eval (cleartext flag) = some flag
    eval (secret sc) = eval_secret sc

    -- `Constraint::eq`
    unfoldable pub constraint_eq : Expression → Expression → Constraint
    constraint_eq (constant sw1) (constant sw2) = cleartext (eq_witness sw1 sw2)
    constraint_eq (constant sw1) (linear_combination terms a) =
        secret (secret_eq (constant sw1) (linear_combination terms a))
    constraint_eq (linear_combination terms a) e2 =
        secret (secret_eq (linear_combination terms a) e2)

    -- `Constraint::and`
    unfoldable pub constraint_and : Constraint → Constraint → Constraint
    constraint_and (cleartext false) c2 = cleartext false
    constraint_and (cleartext true) other = other
    constraint_and (secret c1) (cleartext false) = cleartext false
    constraint_and (secret c1) (cleartext true) = secret c1
    constraint_and (secret c1) (secret c2) = secret (secret_and c1 c2)

    -- `Constraint::or`
    unfoldable pub constraint_or : Constraint → Constraint → Constraint
    constraint_or (cleartext false) other = other
    constraint_or (cleartext true) c2 = cleartext true
    constraint_or (secret c1) (cleartext false) = secret c1
    constraint_or (secret c1) (cleartext true) = cleartext true
    constraint_or (secret c1) (secret c2) = secret (secret_or c1 c2)

    -- `Constraint::not`
    unfoldable pub constraint_not : Constraint → Constraint
    constraint_not (cleartext b) = cleartext (not b)
    constraint_not (secret c) = secret (secret_not c)
