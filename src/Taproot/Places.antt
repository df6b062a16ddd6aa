-- ===== src/Taproot/Places.antt =====
-- The leaves of a predicate tree: each program has one of a pair of leaves, where `create_callproof`
-- looks for it.
use zioncoin_poc.Prelude.{
  ℕ, zero, suc, ◌*◌, ◌/◌, ◌≡◌, refl, ap, Bool, true, false, Bool-cases, inl, inr, some, List, [],
  ◌∷◌, leb, if◌then◌else◌, ◌==◌, leb→le, leb→lt, length, get_elem?, arith,
}
use zioncoin_poc.External.{LittleEndian, Merlin, Scalars, Curve}
use zioncoin_poc.Merkle.Inclusion.{length-get_elem?}
use zioncoin_poc.Items.{ProgramItem, Program, PredicateLeaf}
use zioncoin_poc.Taproot.{
  leaf_list, leaves_of, leaf_index, first_bit, item_merkle_item, leaf_merkle_item, blinded_leaves,
}

if-intro : {A : Type 0} (P : A → Type 0) (b : Bool) {x y : A} → P x → P y → P (if b then x else y)
if-intro P true px py = px
if-intro P false px py = py

module _ ⦃scalars : Scalars⦄ ⦃curve : Curve⦄ where
  pub leaf_list-leaves_of : (leaves : List PredicateLeaf) → leaf_list (leaves_of leaves) ≡ leaves
  unfolding leaf_list leaves_of
  leaf_list-leaves_of [] = refl
  leaf_list-leaves_of (leaf ∷ rest) = ap (λ xs. leaf ∷ xs) (leaf_list-leaves_of rest)

  leaf_index-suc :
      (leaf : PredicateLeaf) (i : ℕ) → leaf_index leaf (suc i) ≡ suc (suc (leaf_index leaf i))
  unfolding leaf_index
  leaf_index-suc (PredicateLeaf.blinding_leaf b) i = omega arith
  leaf_index-suc (PredicateLeaf.program_leaf p) i = omega arith

  pub half-gt :
      {A : Type 0} {B : Type 0} (i : ℕ) (leaves : List A) (progs : List B) {prog : B}
      → length leaves ≡ 2 * length progs
      → get_elem? progs i ≡ some prog
      → leb (length leaves / 2) i ≡ false
  half-gt i leaves progs count e =
      let lt = leb→lt (length progs) i (length-get_elem? i progs e) in
      elim (Bool-cases (leb (length leaves / 2) i)) [
        | inl le ↦ absurd (omega (arith, leb→le _ _ le, lt, count))
        | inr gt ↦ gt
      ]

  -- The leaf of a program
  abbrev pub leaf_of : Program → PredicateLeaf
  leaf_of prog = PredicateLeaf.program_leaf (ProgramItem.program prog)

  -- A program has its leaf where `leaf_index` looks for it.
  abbrev pub Placed : List PredicateLeaf → ℕ → Program → Type 0
  Placed leaves i prog =
      (possible : PredicateLeaf) × (get_elem? leaves (2 * i) ≡ some possible)
      × (get_elem? leaves (leaf_index possible i) ≡ some (leaf_of prog))

  Placed-suc :
      (a b : PredicateLeaf) (leaves : List PredicateLeaf) (i : ℕ) (prog : Program)
      → Placed leaves i prog
      → Placed (a ∷ b ∷ leaves) (suc i) prog
  Placed-suc a b leaves i prog (possible, here, found) =
      let twice : 2 * suc i ≡ suc (suc (2 * i)) = omega arith in
      (possible, rw (twice, here), rw (leaf_index-suc possible i, found))

  module _ ⦃merlin : Merlin⦄ ⦃le : LittleEndian⦄ where
    pub length-blinded_leaves :
        (progs : List Program) (t : merlin.Transcript)
        → length (blinded_leaves progs t) ≡ 2 * length progs
    unfolding blinded_leaves
    length-blinded_leaves [] t = refl
    length-blinded_leaves (prog ∷ progs) t =
        let (blinding, t') = merlin.challenge_bytes "blinding" 32 t in
        let rest = length-blinded_leaves progs t' in
        elim (Bool-cases (first_bit blinding == 0)) [
          | inl e ↦ rw e (omega (arith, rest))
          | inr e ↦ rw e (omega (arith, rest))
        ]

    pub blinded_leaves-Placed :
        (progs : List Program) (t : merlin.Transcript) (i : ℕ) (prog : Program)
        → get_elem? progs i ≡ some prog
        → Placed (blinded_leaves progs t) i prog
    unfolding blinded_leaves leaf_index
    blinded_leaves-Placed [] t i prog e = cc
    blinded_leaves-Placed (p ∷ progs) t zero prog e =
        let (blinding, t') = merlin.challenge_bytes "blinding" 32 t in
        let b = PredicateLeaf.blinding_leaf blinding in
        let same : p ≡ prog = cc e in
        let at_place = ap (λ (x : Program). some (leaf_of x)) same in
        if-intro (λ leaves. Placed leaves 0 prog) (first_bit blinding == 0) (b, refl, at_place)
          (leaf_of p, refl, at_place)
    blinded_leaves-Placed (p ∷ progs) t (suc i) prog e =
        let (blinding, t') = merlin.challenge_bytes "blinding" 32 t in
        let b = PredicateLeaf.blinding_leaf blinding in
        let rest = blinded_leaves-Placed progs t' i prog e in
        if-intro (λ leaves. Placed leaves (suc i) prog) (first_bit blinding == 0)
          (Placed-suc b (leaf_of p) _ i prog rest) (Placed-suc (leaf_of p) b _ i prog rest)
