-- ===== src/Utreexo/Forest/Membership.antt =====
-- `Forest::verify` decides membership: it accepts an item at a position exactly if the item's leaf
-- stands there in the forest that the roots commit to.
use native.Mathlib.Nat.{zero-add, sub-zero}
use mathlib.Core.Option
use mathlib.Core.List.{map-append}
use zioncoin_poc.Prelude.{
  ℕ, ◌^◌, ◌<◌, ◌≡◌, refl, sym, ap, ◌∙◌, Bool-cases, Option-cases, inl, inr, Option, none, some,
  List, ◌∷◌, ◌++◌, map, arith, ◌==◌, ==→eq, eq→==, length, get_elem?,
}
use zioncoin_poc.Prelude.Result.{ok, ensure, ensure-eq_ok}
use zioncoin_poc.Prelude.Bytes.{bytes_eq, bytes_eq→eq, bytes_eq_refl}
use zioncoin_poc.External.{Merlin}
use zioncoin_poc.Merkle.{MerkleItem}
use zioncoin_poc.Utreexo.Path.{Hash, Position, Proof, zip}
use zioncoin_poc.Utreexo.Path.Order.{low_sides}
use zioncoin_poc.Utreexo.Nodes.{invalid_proof, find_root, intermediate, leaf}
use zioncoin_poc.Utreexo.Nodes.Roots.{total, find_root_in, find_root_past}
use zioncoin_poc.Utreexo.Forest.{Forest, roots_iter, verify}
use zioncoin_poc.Utreexo.Trees.{Tree, tree_hash, neighbors_at}
use zioncoin_poc.Utreexo.Trees.Walk.{
  walk_end, length-neighbors_at, walk_up-neighbors_at, walk_up_binds, NodesDiffer,
}
use zioncoin_poc.Utreexo.Trees.Slots.{
  from_top, present-reverse-enumerate, PerfectSlots, all_leaves, level_of, total-from_top-lt,
}
use zioncoin_poc.Utreexo.Trees.Located.{Located, locate, length-all_leaves}
use zioncoin_poc.Utreexo.Trees.Hashed.{
  hashed, from_top-map, total-map, get_elem?-map, get_elem?-none-le, take-walk_up,
}

module _ ⦃merlin : Merlin⦄ where
  -- The roots of the forest are the hashes of perfect trees, at most one of each level.
  pub record Represents (f : Forest) (slots : List (Option Tree)) : Type 0 where
    pub roots : f.roots ≡ map (Option.map (tree_hash (intermediate f.hasher))) slots
    pub perfect : PerfectSlots 0 slots
    pub count : length slots ≡ 64

-- The leaves in the order of their positions.
abbrev pub forest_leaves : List (Option Tree) → List Hash
forest_leaves slots = all_leaves (from_top 0 slots)

module _ ⦃merlin : Merlin⦄ {f : Forest} {slots : List (Option Tree)}
    (rep : Represents f slots) where
  abbrev inner : Hash → Hash → Hash
  inner = intermediate f.hasher

  roots_iter_lem : roots_iter f ≡ map (hashed (tree_hash inner)) (from_top 0 slots)
  unfolding roots_iter
  roots_iter_lem = rw rep.roots (
      present-reverse-enumerate 0 (map (Option.map (tree_hash inner)) slots)
      ∙ from_top-map (tree_hash inner) 0 slots)

  total-lt : total level_of (from_top 0 slots) < 2 ^ 64
  total-lt =
      omega
        (arith, total-from_top-lt 0 slots, ap (λ n. 2 ^ n) (zero-add (length slots) ∙ rep.count))

  -- The root of a located position is the one that `verify` finds.
  find_root-Located :
      {position : Position} {h : Hash} (l : Located 0 slots position h)
      → find_root (λ r. r.0) position (roots_iter f) ≡ some (l.level, tree_hash inner l.tree)
  find_root-Located {position} l =
      rw (roots_iter_lem, l.split, map-append)
        (find_root_in level_of position (map (hashed (tree_hash inner)) l.before) _
          (l.level, tree_hash inner l.tree)
          (omega (
            arith,
            total-lt,
            ap (total level_of) l.split,
            rw map-append at
                (total-map (tree_hash inner) (l.before ++ (l.level, l.tree) ∷ l.after)),
          ))
          (omega (arith, l.lo, total-map (tree_hash inner) l.before))
          (omega (arith, l.hi, total-map (tree_hash inner) l.before)))

  stored_root :
      {position : Position} {h : Hash} (l : Located 0 slots position h)
      → get_elem? f.roots l.level ≡ some (some (tree_hash inner l.tree))
  stored_root l =
      rw rep.roots (get_elem?-map (tree_hash inner) slots l.level (rw sub-zero at l.slot))

  -- The proof that a forest has for its leaf at a position.
  abbrev membership_proof : {position : Position} {h : Hash} → Located 0 slots position h → Proof
  membership_proof {position} l = record {
    generation = f.generation;
    path = record { position = position; neighbors = neighbors_at inner l.level position l.tree };
  }

  -- What `verify` has checked before it looks at the hashes.
  record Checked (proof : Proof) : Type 0 where
    same_generation : proof.generation ≡ f.generation
    top : ℕ × Hash
    found : find_root (λ r. r.0) proof.path.position (roots_iter f) ≡ some top
    same_length : length proof.path.neighbors ≡ top.0

  find_root-past :
      (position : Position)
      → get_elem? (forest_leaves slots) position ≡ none
      → find_root (λ r. r.0) position (roots_iter f) ≡ none
  find_root-past position past = rw roots_iter_lem (
      find_root_past level_of position (map (hashed (tree_hash inner)) (from_top 0 slots))
        (omega (arith, total-lt, total-map (tree_hash inner) (from_top 0 slots)))
        (omega (
          arith,
          total-map (tree_hash inner) (from_top 0 slots),
          length-all_leaves 0 slots rep.perfect,
          get_elem?-none-le (forest_leaves slots) position past,
        )))

  module _ {M : Type 0} ⦃item : MerkleItem merlin.Transcript M⦄ where
    -- What `verify` comes down to at a located position, for a proof of the right length.
    verify-Located :
        (x : M) (proof : Proof) {h : Hash} (l : Located 0 slots proof.path.position h)
        → proof.generation ≡ f.generation
        → length proof.path.neighbors ≡ l.level
        → verify f x proof
          ≡ ensure
              (bytes_eq
                (walk_end inner
                  (leaf f.hasher x)
                  (zip (low_sides l.level proof.path.position) proof.path.neighbors))
                (tree_hash inner l.tree))
              invalid_proof
    unfolding verify
    verify-Located x proof l same len =
        rw (eq→== _ _ same, find_root-Located l, eq→== _ _ len, stored_root l)
          (unfold walk_end in rw (take-walk_up inner proof.path (leaf f.hasher x) l.level len))

    -- Each leaf of the forest has a proof: where the item's leaf stands at a position, `verify`
    -- accepts the item with a proof for this position.
    pub verify_complete :
        (x : M) (position : Position)
        → get_elem? (forest_leaves slots) position ≡ some (leaf f.hasher x)
        → (proof : Proof) × (proof.path.position ≡ position) × (verify f x proof ≡ ok tt)
    verify_complete x position e =
        let l = locate 0 slots position (leaf f.hasher x) rep.perfect e in
        let walked = walk_up-neighbors_at inner l.level position l.tree l.is_perfect in
        (
          membership_proof l,
          refl,
          rw (
            verify-Located x (membership_proof l) l refl
                (length-neighbors_at inner l.level position l.tree l.is_perfect),
            ← l.at_leaf,
            walked,
            bytes_eq_refl,
          ),
        )

    verify-Checked : (x : M) (proof : Proof) → verify f x proof ≡ ok tt → Checked proof
    unfolding verify
    verify-Checked x proof e = elim (Bool-cases (proof.generation == f.generation)) [
      | inr differ ↦ absurd (cc (rw differ at e))
      | inl same ↦ elim (Option-cases (find_root (λ r. r.0) proof.path.position (roots_iter f))) [
        | inl nothing ↦ absurd (cc (rw (same, nothing) at e))
        | inr (top, found) ↦ elim (Bool-cases (length proof.path.neighbors == top.0)) [
          | inr longer ↦ absurd (cc (rw (same, found, longer) at e))
          | inl fits ↦ record {
            same_generation = ==→eq _ _ same;
            top = top;
            found = found;
            same_length = ==→eq _ _ fits;
          }
        ]
      ]
    ]

    -- Where inner nodes do not collide, `verify` accepts an item only at a position where the
    -- item's leaf stands in the forest.
    pub verify_sound :
        NodesDiffer inner
        → (x : M) (proof : Proof) → verify f x proof ≡ ok tt
        → get_elem? (forest_leaves slots) proof.path.position ≡ some (leaf f.hasher x)
    verify_sound differ x proof e =
        let c = verify-Checked x proof e in
        let position = proof.path.position in
        elim (Option-cases (get_elem? (forest_leaves slots) position)) [
          | inl past ↦ absurd (cc (c.found, find_root-past position past))
          | inr (h, here) ↦
              let l = locate 0 slots position h rep.perfect here in
              let same_root : c.top ≡ (l.level, tree_hash inner l.tree) =
                cc (c.found, find_root-Located l) in
              let len = c.same_length ∙ ap (λ (r : ℕ × Hash). r.0) same_root in
              let walked =
                ensure-eq_ok _ invalid_proof
                  (sym (verify-Located x proof l c.same_generation len) ∙ e) in
              let bound =
                walk_up_binds inner differ l.level position l.tree (leaf f.hasher x)
                  proof.path.neighbors l.is_perfect len
                  (unfold walk_end in bytes_eq→eq _ _ walked) in
              here ∙ ap some (sym l.at_leaf ∙ sym bound.0)
        ]
