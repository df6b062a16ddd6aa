-- ===== src/Spacesuit/Mix.antt =====
-- spacesuit/src/mix.rs, and from value.rs the allocation of values. A gadget takes the constraint
-- system and returns its value with the system after it; its error, an `R1CSError`, is dropped.
use mathlib.Core.Option
use zioncoin_poc.Prelude.{
  map, ℕ, zero, suc, ◌+◌, ◌-◌, ◌%◌, ◌^◌, Option, none, some, List, [], ◌∷◌, ◌++◌, ◌==◌, ◌&&◌,
  length, drop, take, if◌then◌else◌,
}
use zioncoin_poc.Prelude.Result.{Result, ok, err, panic, stuck}
use zioncoin_poc.External.{Scalars, Curve, ScalarField, ConstraintSystem, RandomizableSystem}
use zioncoin_poc.Items.{ℤ, pos}
use zioncoin_poc.Items.Encode.{integer_to_scalar}
use zioncoin_poc.Constraints.{Terms, scale}
use zioncoin_poc.Constraints.Integers.{add_int}
use zioncoin_poc.Constraints.Flatten.{sub_terms, of_variable}
use zioncoin_poc.Spacesuit.{AllocatedValue}

module _ ⦃scalars : Scalars⦄ ⦃curve : Curve⦄ ⦃field : ScalarField⦄ ⦃cs : ConstraintSystem⦄ where
  abbrev pub Gadget : Type 0 → Type 0
  Gadget A = cs.System → Result (Unit {0}) (A × cs.System)

  infixl 5 ◌>>=◌ ◌>>◌
  abbrev pub ◌>>=◌ : {A B : Type 0} → Gadget A → (A → Gadget B) → Gadget B
  ◌>>=◌ m f s = elim (m s) [ ok p ↦ f p.0 p.1 | err e ↦ err e | panic ↦ panic | stuck ↦ stuck ]

  abbrev pub ◌>>◌ : {B : Type 0} → Gadget (Unit {0}) → Gadget B → Gadget B
  m >> k = m >>= λ _. k

  abbrev pub pure : {A : Type 0} → A → Gadget A
  pure a s = ok (a, s)

  abbrev pub fail : {A : Type 0} → Gadget A
  fail s = err tt

  -- A call of the constraint system
  unfoldable pub call : {A : Type 0} → (cs.System → Option (A × cs.System)) → Gadget A
  call f s = elim (f s) [ none ↦ err tt | some p ↦ ok p ]

  unfoldable pub call_update : (cs.System → Option cs.System) → Gadget (Unit {0})
  call_update f s = elim (f s) [ none ↦ err tt | some s' ↦ ok (tt, s') ]

  -- `spacesuit::Value`
  abbrev pub Amount : Type 0
  Amount = ℤ × scalars.Scalar

  -- `a - b` of two variables
  unfoldable pub difference : cs.Variable → cs.Variable → Terms
  unfolding sub_terms of_variable
  difference a b = sub_terms (of_variable a) (of_variable b)

  module _ ⦃random : RandomizableSystem⦄ where
    open random use {Randomized, challenge_scalar, multiply_randomized, constrain_randomized}

    -- `Value::allocate` and `AllocatedValue::unassigned`
    unfoldable pub allocate_value : Amount → Gadget AllocatedValue
    unfolding call integer_to_scalar
    allocate_value value = do
      vars ← call (random.allocate_pair (some (integer_to_scalar value.0, value.1)))
      pure (record { q = vars.0; f = vars.1; assignment = some value })

    unfoldable pub unassigned : Gadget AllocatedValue
    unfolding call
    unassigned = do
      vars ← call (random.allocate_pair none)
      pure (record { q = vars.0; f = vars.1; assignment = none })

    unfoldable pub unassigned_vec : ℕ → Gadget (List AllocatedValue)
    unfolding unassigned
    unassigned_vec zero = pure []
    unassigned_vec (suc n) = do value ← unassigned; values ← unassigned_vec n; pure (value ∷ values)

    unfoldable pub allocate_values : List Amount → Gadget (List AllocatedValue)
    unfolding allocate_value
    allocate_values [] = pure []
    allocate_values (value ∷ values) = do
      first ← allocate_value value
      others ← allocate_values values
      pure (first ∷ others)

    -- The two factors of `mix`
    unfoldable pub moved_terms :
        scalars.Scalar → AllocatedValue → AllocatedValue → AllocatedValue → AllocatedValue → Terms
    unfolding difference scale
    moved_terms w a b c d =
        let w2 = field.mul w w in
        let w3 = field.mul w2 w in
        ((difference a.q c.q ++ scale w (difference a.f c.f)) ++ scale w2 (difference b.q d.q))
        ++ scale w3 (difference b.f d.f)

    unfoldable pub merged_terms :
        scalars.Scalar → AllocatedValue → AllocatedValue → AllocatedValue → AllocatedValue → Terms
    unfolding difference scale
    merged_terms w a b c d =
        let w2 = field.mul w w in
        let w3 = field.mul w2 w in
        ((of_variable c.q ++ scale w (difference a.f b.f))
          ++ scale w2 (sub_terms (difference d.q a.q) (of_variable b.q)))
        ++ scale w3 (difference d.f a.f)

    unfoldable pub mix :
        AllocatedValue → AllocatedValue → AllocatedValue → AllocatedValue → Gadget (Unit {0})
    unfolding call_update moved_terms merged_terms of_variable
    mix a b c d = call_update (
        random.specify_randomized_constraints (λ phase.
          let drawn = challenge_scalar "mix challenge" phase in
          let w = drawn.0 in
          let product =
            multiply_randomized (moved_terms w a b c d) (merged_terms w a b c d) drawn.1 in
          ok (constrain_randomized (of_variable product.0.2) product.1)))

    -- The loop of `call_mix_gadget` over four lists, which ends with the first
    unfoldable pub mix_each :
        List AllocatedValue
        → List AllocatedValue
        → List AllocatedValue
        → List AllocatedValue
        → Gadget (Unit {0})
    unfolding mix
    mix_each (a ∷ as_) (b ∷ bs) (c ∷ cs_) (d ∷ ds) = do mix a b c d; mix_each as_ bs cs_ ds
    mix_each _ _ _ _ = pure tt

    unfoldable pub call_mix_gadget :
        List AllocatedValue → List AllocatedValue → List AllocatedValue → Gadget (Unit {0})
    unfolding mix_each
    call_mix_gadget mix_in mix_mid mix_out =
        let k = length mix_out in
        if (length mix_in == k) && (length mix_mid == (k + 2 ^ 64 - 2) % 2 ^ 64)
        then mix_each (take 1 mix_in ++ mix_mid) (drop 1 mix_in) (take (k - 1) mix_out)
            (mix_mid ++ drop (k - 1) mix_out)
        else fail

    -- The inner loop of `order_by_flavor`, with the value after that of the flavor and the rest
    unfoldable pub group : scalars.Scalar → Amount → List Amount → Amount × List Amount
    group flavor next [] = (next, [])
    group flavor next (comp ∷ rest) =
        let swapped = group flavor comp rest in
        let kept = group flavor next rest in
        if field.equal flavor comp.1 then (swapped.0, next ∷ swapped.1) else (kept.0, comp ∷ kept.1)

    -- The outer loop, for the given number of rounds
    unfoldable pub order_rounds : ℕ → List Amount → List Amount
    unfolding group
    order_rounds (suc n) (value ∷ next ∷ rest) =
        let grouped = group value.1 next rest in value ∷ order_rounds n (grouped.0 ∷ grouped.1)
    order_rounds _ values = values

    -- `order_by_flavor`. With no inputs, `0..k - 1` overflows, or its first index is out of bounds.
    unfoldable pub order_by_flavor : List Amount → Gadget (List AllocatedValue × List Amount)
    unfolding order_rounds allocate_values
    order_by_flavor [] s = panic
    order_by_flavor (input ∷ inputs) s =
        let outputs = order_rounds (length inputs) (input ∷ inputs) in
        (allocate_values outputs >>= λ allocated. pure (allocated, outputs)) s

    -- The loop of `combine_by_flavor`, with the amount `A`: what it pushes on `mid` and on `outputs`
    unfoldable pub combine : Amount → List Amount → Result (Unit {0}) (List Amount × List Amount)
    combine a [] = ok ([], [])
    combine a (b ∷ rest) =
        let same_flavor = field.equal a.1 b.1 in
        let c = if same_flavor then (pos 0, curve.zero) else a in
        elim (add_int a.0 b.0) [
          | none ↦ err tt
          | some x ↦
              let d = if same_flavor then (x, a.1) else b in
              elim (combine d rest) [
                | ok (mid, outputs) ↦ ok (d ∷ mid, c ∷ outputs)
                | err e ↦ err e
                | panic ↦ panic
                | stuck ↦ stuck
              ]
        ]

    -- `mid.pop()`
    unfoldable pub pop {ℓ} : {A : Type ℓ} → List A → Option (A × List A)
    pop [] = none
    pop (x ∷ xs) = elim (pop xs) [
      | none ↦ some (x, [])
      | some (last, front) ↦ some (last, x ∷ front)
    ]

    unfoldable pub allocate_combined :
        List Amount
        → Option (Amount × List Amount)
        → Gadget (List AllocatedValue × List AllocatedValue)
    unfolding allocate_values
    allocate_combined outputs none = fail
    allocate_combined outputs (some (val, mid)) = do
      allocated_mid ← allocate_values mid
      allocated_outputs ← allocate_values (outputs ++ val ∷ [])
      pure (allocated_mid, allocated_outputs)

    unfoldable pub combine_by_flavor :
        List Amount → Gadget (List AllocatedValue × List AllocatedValue)
    unfolding combine pop allocate_combined
    combine_by_flavor [] s = panic
    combine_by_flavor (input ∷ inputs) s = elim (combine input inputs) [
      | ok (mid, outputs) ↦ allocate_combined outputs (pop mid) s
      | err e ↦ err e
      | panic ↦ panic
      | stuck ↦ stuck
    ]

    -- `collect::<Option<Vec<_>>>()`
    unfoldable pub collect {ℓ} : {A : Type ℓ} → List (Option A) → Option (List A)
    collect [] = some []
    collect (none ∷ values) = none
    collect (some value ∷ values) = Option.map (λ l. value ∷ l) (collect values)

    abbrev pub Mixed : Type 0
    Mixed = List AllocatedValue × List AllocatedValue × List AllocatedValue

    unfoldable pub intermediate_values : ℕ → Option (List Amount) → Gadget Mixed
    unfolding order_by_flavor combine_by_flavor unassigned_vec
    intermediate_values k (some input_values) = do
      ordered ← order_by_flavor input_values
      combined ← combine_by_flavor ordered.1
      pure (ordered.0, combined.0, combined.1)
    intermediate_values k none = do
      mix_in ← unassigned_vec k
      mix_mid ← unassigned_vec ((k + 2 ^ 64 - 2) % 2 ^ 64)
      mix_out ← unassigned_vec k
      pure (mix_in, mix_mid, mix_out)

    unfoldable pub make_intermediate_values : List AllocatedValue → Gadget Mixed
    unfolding intermediate_values collect
    make_intermediate_values inputs =
        intermediate_values (length inputs)
          (collect (map (λ (input : AllocatedValue). input.assignment) inputs))

    unfoldable pub k_mix : List AllocatedValue → Gadget (List AllocatedValue × List AllocatedValue)
    unfolding make_intermediate_values call_mix_gadget
    k_mix inputs = if length inputs == 1 then pure (inputs, inputs) else do
      mixed ← make_intermediate_values inputs
      call_mix_gadget mixed.0 mixed.1 mixed.2
      pure (mixed.0, mixed.2)
