-- ===== src/Constraints/Runs.antt =====
-- Runs of constraints over the sample field.
use zioncoin_poc.Prelude.{◌≡◌, refl, true, false, not, some, [], ◌∷◌}
use mathlib.Core.Option
use zioncoin_poc.External.Samples.{scalars_sample, curve_sample, field_sample, cs_sample}
use zioncoin_poc.Items.{pos, negsuc, ScalarWitness}
use zioncoin_poc.Constraints.Integers.{
  add_int, add_i128, neg_int, from_neg, checked, in_u64, eq_int,
}
use zioncoin_poc.Constraints.{
  map2, sub_witness, neg_witness, add_witness, mul_witness, or_scalar, eq_witness, Expression,
  constant, linear_combination, Constraint, cleartext, secret, secret_eq, eval_expression,
  add_expression, multiply, eval, eval_secret, constraint_eq, constraint_and, constraint_or,
  constraint_not,
}
use zioncoin_poc.Constraints.Eval.{
  eval-constraint_and, eval-constraint_or, eval-constraint_not, eval-add_expression, eval-multiply,
}

abbrev five : ScalarWitness
five = ScalarWitness.integer (pos 5)

-- A variable with an assignment of 5, and the constant 3
abbrev secret_five : Expression
secret_five = linear_combination ((1, 1) ∷ []) (some five)

abbrev three : Expression
three = constant (ScalarWitness.integer (pos 3))

abbrev differs : Constraint
differs = secret (secret_eq secret_five three)

differs-false : eval differs ≡ some false
unfolding eval eval_secret eval_expression eq_witness eq_int
differs-false = refl

cleartext-true : eval (cleartext true) ≡ some true
unfolding eval
cleartext-true = refl

eval-constraint_and_example : eval (constraint_and differs (cleartext true)) ≡ some false
eval-constraint_and_example =
    eval-constraint_and differs (cleartext true) false true differs-false cleartext-true

eval-constraint_or_example : eval (constraint_or differs (cleartext true)) ≡ some true
eval-constraint_or_example =
    eval-constraint_or differs (cleartext true) false true differs-false cleartext-true

eval-constraint_not_example : eval (constraint_not differs) ≡ Option.map not (eval differs)
eval-constraint_not_example = eval-constraint_not differs

eval-add_expression_example :
    eval_expression (add_expression secret_five three)
    ≡ map2 add_witness (eval_expression secret_five) (eval_expression three)
eval-add_expression_example = eval-add_expression secret_five three

eval-multiply_example :
    eval_expression (multiply three secret_five 2).0
    ≡ map2 mul_witness (eval_expression three) (eval_expression secret_five)
eval-multiply_example = eval-multiply three secret_five 2

-- `5 - 3` is `-2`: the operands are swapped.
five_minus_three :
    sub_witness five (ScalarWitness.integer (pos 3)) ≡ ScalarWitness.integer (negsuc 1)
unfolding sub_witness neg_witness add_witness or_scalar neg_int from_neg add_int add_i128 checked
    in_u64
five_minus_three = refl

-- The integer 5 is not the scalar 5, although both stand for one scalar.
mixed_five : eval (constraint_eq (constant five) (constant (ScalarWitness.scalar 5))) ≡ some false
unfolding eval constraint_eq eq_witness
mixed_five = refl
