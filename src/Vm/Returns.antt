-- ===== src/Vm/Returns.antt =====
-- What the methods of zkvm/src/vm.rs did to the machine where they returned.
use zioncoin_poc.Prelude.{ℕ, ◌≡◌, refl, sym, ap, Option, none, some, List, [], ◌∷◌, get_elem?}
use zioncoin_poc.Prelude.Result.{Result, ok, err, panic, stuck, ok-injective}
use zioncoin_poc.External.{LittleEndian, Merlin, Scalars, Curve, ScalarField, ConstraintSystem}
use zioncoin_poc.Errors.{VmError, stack_underflow}
use zioncoin_poc.Stack.{Item}
use zioncoin_poc.Vm.{Delegate, Vm, Method, ◌>>=◌, try, pop_item, push_item}
use zioncoin_poc.Vm.Arithmetic

module _ ⦃scalars : Scalars⦄ ⦃curve : Curve⦄ ⦃field : ScalarField⦄ ⦃cs : ConstraintSystem⦄
    ⦃merlin : Merlin⦄ ⦃le : LittleEndian⦄ ⦃delegate : Delegate⦄ where
  after :
      {A B : Type 0} (r : Result VmError (A × Vm)) (f : A → Method B) (q : B × Vm)
      → ◌≡◌ {A = Result VmError (B × Vm)}
          (elim r as (λ x. Result VmError (B × Vm)) [
            | ok p ↦ f p.0 p.1
            | err e ↦ err e
            | panic ↦ panic
            | stuck ↦ stuck
          ])
          (ok q)
      → (p : A × Vm) × (r ≡ ok p) × (f p.0 p.1 ≡ ok q)
  after (ok p) f q e = (p, refl, e)
  after (err x) f q e = cc
  after panic f q e = cc
  after stuck f q e = cc

  -- A method that returned, and what followed it
  pub method-eq_ok :
      {A B : Type 0} (m : Method A) (f : A → Method B) (vm : Vm) (q : B × Vm)
      → (m >>= f) vm ≡ ok q
      → (p : A × Vm) × (m vm ≡ ok p) × (f p.0 p.1 ≡ ok q)
  method-eq_ok m f vm q e = after (m vm) f q e

  pub try-eq_ok :
      {A : Type 0} (r : Result VmError A) (vm : Vm) (p : A × Vm)
      → try r vm ≡ ok p
      → (r ≡ ok p.0) × (p.1 ≡ vm)
  unfolding try
  try-eq_ok {A} (ok a) vm p e = (
    ap ok (ap (λ (q : A × Vm). q.0) (ok-injective e)),
    ap (λ (q : A × Vm). q.1) (sym (ok-injective e)),
  )
  try-eq_ok (err x) vm p e = cc
  try-eq_ok panic vm p e = cc
  try-eq_ok stuck vm p e = cc

  popped :
      (vm : Vm) (items : List Item) (p : Item × Vm)
      → ◌≡◌ {A = Result VmError (Item × Vm)}
          (elim items as (λ x. Result VmError (Item × Vm)) [
            | [] ↦ err stack_underflow
            | item ∷ rest ↦ ok (item, record vm { stack = rest })
          ])
          (ok p)
      → items ≡ p.0 ∷ p.1.stack
  popped vm [] p e = cc
  popped vm (item ∷ rest) p e = ap (λ (q : Item × Vm). q.0 ∷ q.1.stack) (ok-injective e)

  pub pop_item-eq_ok : (vm : Vm) (p : Item × Vm) → pop_item vm ≡ ok p → vm.stack ≡ p.0 ∷ p.1.stack
  unfolding pop_item
  pop_item-eq_ok vm p e = popped vm vm.stack p e

  found :
      (vm : Vm) (o : Option Item) (p : Item × Vm)
      → ◌≡◌ {A = Result VmError (Item × Vm)}
          (elim o as (λ x. Result VmError (Item × Vm)) [
            | none ↦ err stack_underflow
            | some item ↦ ok (item, vm)
          ])
          (ok p)
      → (o ≡ some p.0) × (p.1 ≡ vm)
  found vm none p e = cc
  found vm (some item) p e = (
    ap (λ (q : Item × Vm). some q.0) (ok-injective e),
    ap (λ (q : Item × Vm). q.1) (sym (ok-injective e)),
  )

  pub entry-eq_ok :
      (i : ℕ) (vm : Vm) (p : Item × Vm)
      → Arithmetic.entry i vm ≡ ok p
      → (get_elem? vm.stack i ≡ some p.0) × (p.1 ≡ vm)
  unfolding Arithmetic.entry
  entry-eq_ok i vm p e = found vm (get_elem? vm.stack i) p e

  pub push_item-eq_ok :
      (item : Item) (vm : Vm) (q : (Unit {0}) × Vm)
      → push_item item vm ≡ ok q
      → q.1.stack ≡ item ∷ vm.stack
  unfolding push_item
  push_item-eq_ok item vm q e = ap (λ (x : (Unit {0}) × Vm). x.1.stack) (sym (ok-injective e))

  pub take_out-eq_ok :
      (i : ℕ) (vm : Vm) (q : (Unit {0}) × Vm)
      → Arithmetic.take_out i vm ≡ ok q
      → q.1.stack ≡ Arithmetic.remove_at vm.stack i
  unfolding Arithmetic.take_out
  take_out-eq_ok i vm q e = ap (λ (x : (Unit {0}) × Vm). x.1.stack) (sym (ok-injective e))

  -- What follows a method that returned
  pub method-ok :
      {A B : Type 0} (m : Method A) (f : A → Method B) (vm : Vm) (p : A × Vm)
      → m vm ≡ ok p
      → (m >>= f) vm ≡ f p.0 p.1
  method-ok m f vm p e = rw (◌>>=◌, e)
