-- ===== src/Spacesuit.antt =====
-- spacesuit/src/range_proof.rs, and from value.rs the values in a constraint system. The machine takes
-- the gadget `cloak` of spacesuit/src/cloak.rs as an interface, which Spacesuit/Gadget fills.
pub mod Mix
pub mod Shuffle
pub mod Gadget
pub mod Order
mod Runs
use zioncoin_poc.Prelude.{
  ℕ, zero, suc, ◌+◌, ◌-◌, ◌/◌, ◌%◌, ◌^◌, Option, none, some, List, [], ◌∷◌, ◌++◌,
}
use mathlib.Core.Option
use zioncoin_poc.Prelude.Result.{Result}
use zioncoin_poc.External.{Scalars, Curve, ScalarField, ConstraintSystem, RandomizableSystem}
use zioncoin_poc.Items.{ℤ, pos, negsuc}
use zioncoin_poc.Constraints.{Terms}
use zioncoin_poc.Constraints.Flatten.{sub_terms, of_variable}

-- `SignedInteger::to_u64`
unfoldable pub to_u64 : ℤ → Option ℕ
to_u64 (pos n) = some (n % 2 ^ 64)
to_u64 (negsuc n) = none

-- `BitRange::max()`
abbrev pub max_bits : ℕ
max_bits = 64

module _ ⦃scalars : Scalars⦄ ⦃curve : Curve⦄ ⦃field : ScalarField⦄ ⦃cs : ConstraintSystem⦄ where
  pub record AllocatedValue : Type 0 where
    pub q : cs.Variable
    pub f : cs.Variable
    pub assignment : Option (ℤ × scalars.Scalar)

  -- The assignment of the two wires for bit `i`
  unfoldable pub bit_wires : ℕ → ℤ → Option (scalars.Scalar × scalars.Scalar)
  unfolding to_u64
  bit_wires i q =
      Option.map (λ n. (curve.from_u64 (1 - n / 2 ^ i % 2), curve.from_u64 (n / 2 ^ i % 2)))
        (to_u64 q)

  unfoldable pub bit_assignment : ℕ → Option ℤ → Option (scalars.Scalar × scalars.Scalar)
  unfolding bit_wires
  bit_assignment i none = none
  bit_assignment i (some q) = bit_wires i q

  module _ ⦃random : RandomizableSystem⦄ where
    -- The constraints of one bit: `a * b = 0` and `a = 1 - b`
    unfoldable pub constrain_bit : cs.Variable → cs.Variable → cs.Variable → cs.System → cs.System
    unfolding of_variable sub_terms
    constrain_bit a b o s =
        random.constrain
          (of_variable a ++ sub_terms (of_variable b) ((cs.variable_one, curve.from_u64 1) ∷ []))
          (random.constrain (of_variable o) s)

    -- The loop of `range_proof`, for the bits from `i` on, with the last constraint
    unfoldable pub range_bits :
        ℕ → ℕ → scalars.Scalar → Terms → Option ℤ → cs.System → Option cs.System
    unfolding constrain_bit bit_assignment sub_terms
    range_bits zero i exp_2 v v_assignment s = some (random.constrain v s)
    range_bits (suc count) i exp_2 v v_assignment s =
        elim (random.allocate_pair (bit_assignment i v_assignment) s) [
          | none ↦ none
          | some ((a, b, o), s') ↦
              range_bits count (i + 1) (field.add exp_2 exp_2) (sub_terms v ((b, exp_2) ∷ []))
                v_assignment (constrain_bit a b o s')
        ]

    unfoldable pub range_proof : Terms → Option ℤ → ℕ → cs.System → Option cs.System
    unfolding range_bits
    range_proof v v_assignment bits s = range_bits bits 0 field.one v v_assignment s

-- `spacesuit::cloak`, of which the error is an `R1CSError`
pub record Cloak ⦃scalars : Scalars⦄ ⦃curve : Curve⦄ ⦃field : ScalarField⦄ ⦃cs : ConstraintSystem⦄
    : Type 0 where
  pub cloak :
      List AllocatedValue
      → List AllocatedValue
      → cs.System
      → Result (Unit {0}) (Unit {0} × cs.System)
