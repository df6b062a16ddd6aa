-- ===== src/Vm/Linear.antt =====
-- The instructions of zkvm/src/vm.rs that only move items: `drop`, `dup` and `roll`. Programs,
-- contracts, values, wide values, expressions and constraints are not copyable (zkvm/src/types.rs).
use mathlib.Core.List.{Permᴰ}
use mathlib.Core.List.Permᴰ
use zioncoin_poc.Prelude.{
  ℕ, zero, suc, ◌≡◌, refl, sym, ap, ◌∙◌, subst, Bool, true, false, some, List, [], ◌∷◌, get_elem?,
}
use zioncoin_poc.Prelude.Result.{ok, ok-injective}
use zioncoin_poc.External.{
  LittleEndian, Merlin, Scalars, Curve, ScalarField, ConstraintSystem, RandomizableSystem,
  PedersenGens,
}
use zioncoin_poc.Items.{Instruction}
use zioncoin_poc.Spacesuit.{Cloak}
use zioncoin_poc.Stack.{Item, CopyableItem, to_copyable, dup_copyable, from_copyable}
use zioncoin_poc.Vm.{Delegate, Vm, try, pop_item, push_item}
use zioncoin_poc.Vm.Returns.{
  method-eq_ok, try-eq_ok, pop_item-eq_ok, entry-eq_ok, push_item-eq_ok, take_out-eq_ok,
}
use zioncoin_poc.Vm.Arithmetic
use zioncoin_poc.Vm.Steps

module _ ⦃scalars : Scalars⦄ ⦃curve : Curve⦄ ⦃field : ScalarField⦄ ⦃cs : ConstraintSystem⦄ where
  -- The items that may be copied and dropped
  unfoldable pub is_copyable : Item → Bool
  is_copyable (Item.string x) = true
  is_copyable (Item.variable x) = true
  is_copyable _ = false

  unfoldable pub keep_if_not : Bool → Item → List Item → List Item
  keep_if_not true item items = items
  keep_if_not false item items = item ∷ items

  -- The items of a stack that may not
  unfoldable pub linear : List Item → List Item
  unfolding keep_if_not is_copyable
  linear [] = []
  linear (item ∷ items) = keep_if_not (is_copyable item) item (linear items)

  keep_if_not-Permᴰ :
      (b : Bool) (item : Item) (xs ys : List Item)
      → Permᴰ xs ys
      → Permᴰ (keep_if_not b item xs) (keep_if_not b item ys)
  unfolding keep_if_not
  keep_if_not-Permᴰ true item xs ys p = p
  keep_if_not-Permᴰ false item xs ys p = Permᴰ.cons refl p

  keep_if_not_swap :
      (a b : Bool) (x y : Item) (items : List Item)
      → Permᴰ (keep_if_not a x (keep_if_not b y items)) (keep_if_not b y (keep_if_not a x items))
  unfolding keep_if_not
  keep_if_not_swap true b x y items = Permᴰ.refl _
  keep_if_not_swap false true x y items = Permᴰ.refl _
  keep_if_not_swap false false x y items = Permᴰ.swap refl refl

  to_copyable-eq_ok :
      (item : Item) (c : CopyableItem) → to_copyable item ≡ ok c → is_copyable item ≡ true
  unfolding to_copyable is_copyable
  to_copyable-eq_ok (Item.string x) c e = refl
  to_copyable-eq_ok (Item.variable x) c e = refl
  to_copyable-eq_ok (Item.program x) c e = cc
  to_copyable-eq_ok (Item.contract x) c e = cc
  to_copyable-eq_ok (Item.value x) c e = cc
  to_copyable-eq_ok (Item.wide_value x) c e = cc
  to_copyable-eq_ok (Item.expression x) c e = cc
  to_copyable-eq_ok (Item.constraint x) c e = cc

  from_copyable-is_copyable : (c : CopyableItem) → is_copyable (from_copyable c) ≡ true
  unfolding is_copyable from_copyable
  from_copyable-is_copyable (CopyableItem.copyable_string x) = refl
  from_copyable-is_copyable (CopyableItem.copyable_variable x) = refl

  linear-copyable :
      (item : Item) (items : List Item)
      → is_copyable item ≡ true
      → linear (item ∷ items) ≡ linear items
  unfolding linear keep_if_not
  linear-copyable item items e = rw (linear, e)

  module _ ⦃merlin : Merlin⦄ ⦃le : LittleEndian⦄ ⦃delegate : Delegate⦄ where
    -- An entry taken out and put on the top leaves the linear items as they are, but for their order.
    remove_at-Permᴰ :
        (items : List Item) (i : ℕ) (item : Item)
        → get_elem? items i ≡ some item
        → Permᴰ (linear (item ∷ Arithmetic.remove_at items i)) (linear items)
    unfolding linear Arithmetic.remove_at
    remove_at-Permᴰ [] i item e = cc
    remove_at-Permᴰ (x ∷ items) zero item e =
        let same : x ≡ item = cc e in
        subst (λ y. Permᴰ (linear (y ∷ items)) (linear (x ∷ items))) same (Permᴰ.refl _)
    remove_at-Permᴰ (x ∷ items) (suc i) item e =
        Permᴰ.trans (keep_if_not_swap (is_copyable item) (is_copyable x) item x _)
          (keep_if_not-Permᴰ (is_copyable x) x _ _ (remove_at-Permᴰ items i item e))

    drop-linear :
        (vm : Vm) (q : (Unit {0}) × Vm)
        → Arithmetic.drop vm ≡ ok q
        → Permᴰ (linear q.1.stack) (linear vm.stack)
    unfolding Arithmetic.drop
    drop-linear vm q e =
        let (p, e1, e2) = method-eq_ok pop_item _ vm q e in
        let (c, e3, e4) = method-eq_ok (try (to_copyable p.0)) _ p.1 q e2 in
        let (copyable, same) = try-eq_ok (to_copyable p.0) p.1 c e3 in
        let end : q.1.stack ≡ p.1.stack =
          ap (λ (x : (Unit {0}) × Vm). x.1.stack) (sym (ok-injective e4))
          ∙ ap (λ (x : Vm). x.stack) same in
        rw
          (
            end,
            pop_item-eq_ok vm p e1,
            linear-copyable p.0 p.1.stack (to_copyable-eq_ok p.0 c.0 copyable),
          )
          (Permᴰ.refl (linear p.1.stack))

    dup-linear :
        (i : ℕ) (vm : Vm) (q : (Unit {0}) × Vm)
        → Arithmetic.dup i vm ≡ ok q
        → Permᴰ (linear q.1.stack) (linear vm.stack)
    unfolding Arithmetic.dup
    dup-linear i vm q e =
        let (p, e1, e2) = method-eq_ok (Arithmetic.entry i) _ vm q e in
        let (c, e3, e4) = method-eq_ok (try (dup_copyable p.0)) _ p.1 q e2 in
        let (found, same) = entry-eq_ok i vm p e1 in
        let (copied, same1) = try-eq_ok (dup_copyable p.0) p.1 c e3 in
        let pushed = push_item-eq_ok (from_copyable c.0) c.1 q e4 in
        let end : linear q.1.stack ≡ linear vm.stack =
          ap linear pushed
          ∙ linear-copyable (from_copyable c.0) c.1.stack (from_copyable-is_copyable c.0)
          ∙ ap (λ (x : Vm). linear x.stack) (same1 ∙ same) in
        subst (λ l. Permᴰ (linear q.1.stack) l) end (Permᴰ.refl (linear q.1.stack))

    roll-linear :
        (i : ℕ) (vm : Vm) (q : (Unit {0}) × Vm)
        → Arithmetic.roll i vm ≡ ok q
        → Permᴰ (linear q.1.stack) (linear vm.stack)
    unfolding Arithmetic.roll
    roll-linear i vm q e =
        let (p, e1, e2) = method-eq_ok (Arithmetic.entry i) _ vm q e in
        let (t, e3, e4) = method-eq_ok (Arithmetic.take_out i) (λ u. push_item p.0) p.1 q e2 in
        let (found, same) = entry-eq_ok i vm p e1 in
        let out =
          take_out-eq_ok i p.1 t e3 ∙ ap (λ (x : Vm). Arithmetic.remove_at x.stack i) same in
        let end = push_item-eq_ok p.0 t.1 q e4 ∙ ap (λ l. p.0 ∷ l) out in
        subst (λ l. Permᴰ (linear l) (linear vm.stack)) (sym end)
          (remove_at-Permᴰ vm.stack i p.0 found)

    -- The instructions that move items on the stack
    abbrev pub moves : Instruction → Bool
    moves Instruction.drop = true
    moves (Instruction.dup i) = true
    moves (Instruction.roll i) = true
    moves _ = false

    module _ ⦃random : RandomizableSystem⦄ ⦃gens : PedersenGens⦄ ⦃cloaks : Cloak⦄ where
      -- An instruction that drops, copies or moves an item leaves on the stack the same items that
      -- are not copyable, but for their order.
      pub execute-linear :
          (i : Instruction) (vm : Vm) (q : (Unit {0}) × Vm)
          → moves i ≡ true
          → Steps.execute i vm ≡ ok q
          → Permᴰ (linear q.1.stack) (linear vm.stack)
      unfolding Steps.execute
      execute-linear Instruction.drop vm q h e = drop-linear vm q e
      execute-linear (Instruction.dup i) vm q h e = dup-linear i vm q e
      execute-linear (Instruction.roll i) vm q h e = roll-linear i vm q e
      execute-linear _ vm q h e = cc
