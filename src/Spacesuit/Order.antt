-- ===== src/Spacesuit/Order.antt =====
-- What `order_by_flavor` of spacesuit/src/mix.rs returns.
use mathlib.Core.List.{Permᴰ}
use mathlib.Core.List.Permᴰ
use zioncoin_poc.Prelude.{
  ℕ, zero, suc, ◌≡◌, refl, sym, ap, ap₂, ◌∙◌, subst, Bool-cases, inl, inr, some, List, [], ◌∷◌,
  length, map,
}
use zioncoin_poc.Prelude.Result.{Result, ok, err, panic, stuck, ok-injective}
use zioncoin_poc.External.{Scalars, Curve, ScalarField, ConstraintSystem, RandomizableSystem}
use zioncoin_poc.Items.Encode.{integer_to_scalar}
use zioncoin_poc.Spacesuit.{AllocatedValue}
use zioncoin_poc.Spacesuit.Mix.{
  Amount, Gadget, ◌>>=◌, group, order_rounds, allocate_value, allocate_values, order_by_flavor,
  call, pure,
}

module _ ⦃scalars : Scalars⦄ ⦃curve : Curve⦄ ⦃field : ScalarField⦄ ⦃cs : ConstraintSystem⦄ where
  after :
      {A B : Type 0} (r : Result (Unit {0}) (A × cs.System)) (f : A → Gadget B) (q : B × cs.System)
      → ◌≡◌ {A = Result (Unit {0}) (B × cs.System)}
          (elim r as (λ x. Result (Unit {0}) (B × cs.System)) [
            | ok p ↦ f p.0 p.1
            | err e ↦ err e
            | panic ↦ panic
            | stuck ↦ stuck
          ])
          (ok q)
      → (p : A × cs.System) × (r ≡ ok p) × (f p.0 p.1 ≡ ok q)
  after (ok p) f q e = (p, refl, e)
  after (err x) f q e = cc
  after panic f q e = cc
  after stuck f q e = cc

  -- A gadget that returned, and what followed it
  gadget-eq_ok :
      {A B : Type 0} (m : Gadget A) (f : A → Gadget B) (s : cs.System) (q : B × cs.System)
      → (m >>= f) s ≡ ok q
      → (p : A × cs.System) × (m s ≡ ok p) × (f p.0 p.1 ≡ ok q)
  gadget-eq_ok m f s q e = after (m s) f q e

  module _ ⦃random : RandomizableSystem⦄ where
    group-Permᴰ :
        (flavor : scalars.Scalar) (next : Amount) (rest : List Amount)
        → Permᴰ ((group flavor next rest).0 ∷ (group flavor next rest).1) (next ∷ rest)
    unfolding group
    group-Permᴰ flavor next [] = Permᴰ.refl _
    group-Permᴰ flavor next (comp ∷ rest) = elim (Bool-cases (field.equal flavor comp.1)) [
      | inl same ↦
          rw same
            (Permᴰ.trans (Permᴰ.swap refl refl) (Permᴰ.cons refl (group-Permᴰ flavor comp rest)))
      | inr differ ↦ rw differ (
          Permᴰ.trans (Permᴰ.swap refl refl)
            (Permᴰ.trans (Permᴰ.cons refl (group-Permᴰ flavor next rest)) (Permᴰ.swap refl refl)))
    ]

    order_rounds-Permᴰ : (n : ℕ) (values : List Amount) → Permᴰ (order_rounds n values) values
    unfolding order_rounds
    order_rounds-Permᴰ zero values = Permᴰ.refl values
    order_rounds-Permᴰ (suc n) [] = Permᴰ.refl []
    order_rounds-Permᴰ (suc n) (value ∷ []) = Permᴰ.refl (value ∷ [])
    order_rounds-Permᴰ (suc n) (value ∷ next ∷ rest) =
        Permᴰ.cons refl (Permᴰ.trans (order_rounds-Permᴰ n _) (group-Permᴰ value.1 next rest))

    allocate_value-assigns :
        (value : Amount) (s : cs.System) (p : AllocatedValue × cs.System)
        → allocate_value value s ≡ ok p
        → p.0.assignment ≡ some value
    unfolding allocate_value
    allocate_value-assigns value s p e =
        let (vars, e1, e2) =
          gadget-eq_ok (call (random.allocate_pair (some (integer_to_scalar value.0, value.1))))
            (λ x. pure (record { q = x.0; f = x.1; assignment = some value })) s p e in
        ap (λ (x : AllocatedValue × cs.System). x.0.assignment) (sym (ok-injective e2))

    allocate_values-assigns :
        (values : List Amount) (s : cs.System) (p : List AllocatedValue × cs.System)
        → allocate_values values s ≡ ok p
        → map (λ (v : AllocatedValue). v.assignment) p.0 ≡ map some values
    unfolding allocate_values
    allocate_values-assigns [] s p e =
        ap (λ (x : List AllocatedValue × cs.System). map (λ (v : AllocatedValue). v.assignment) x.0)
          (sym (ok-injective e))
    allocate_values-assigns (value ∷ values) s p e =
        let (first, e1, e2) = gadget-eq_ok (allocate_value value) _ s p e in
        let (others, e3, e4) = gadget-eq_ok (allocate_values values) _ first.1 p e2 in
        ap (λ (x : List AllocatedValue × cs.System). map (λ (v : AllocatedValue). v.assignment) x.0)
          (sym (ok-injective e4))
        ∙ ap₂ ◌∷◌ (allocate_value-assigns value s first e1)
            (allocate_values-assigns values first.1 others e3)

    -- Where `order_by_flavor` returns, its values are the inputs in another order, and the allocated
    -- values are assigned these.
    pub order_by_flavor-reorders :
        (inputs : List Amount) (s : cs.System) (p : (List AllocatedValue × List Amount) × cs.System)
        → order_by_flavor inputs s ≡ ok p
        → Permᴰ p.0.1 inputs × (map (λ (v : AllocatedValue). v.assignment) p.0.0 ≡ map some p.0.1)
    unfolding order_by_flavor
    order_by_flavor-reorders [] s p e = cc
    order_by_flavor-reorders (input ∷ inputs) s p e =
        let outputs = order_rounds (length inputs) (input ∷ inputs) in
        let (allocated, e1, e2) = gadget-eq_ok (allocate_values outputs) _ s p e in
        subst
          (λ (x : (List AllocatedValue × List Amount) × cs.System).
            Permᴰ x.0.1 (input ∷ inputs)
            × (map (λ (v : AllocatedValue). v.assignment) x.0.0 ≡ map some x.0.1))
          (ok-injective e2)
          (
            order_rounds-Permᴰ (length inputs) (input ∷ inputs),
            allocate_values-assigns outputs s allocated e1,
          )
