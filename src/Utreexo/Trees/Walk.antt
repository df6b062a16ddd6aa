-- ===== src/Utreexo/Trees/Walk.antt =====
-- Walking up a path from a leaf of a perfect tree ends at the hash of the tree, and, where inner
-- nodes do not collide, only the leaf and the neighbors of the tree do so.
use zioncoin_poc.Prelude.{
  ℕ, zero, suc, ◌/◌, ◌%◌, ◌^◌, ◌≡◌, refl, sym, ap, ap₂, ◌∙◌, List, [], ◌∷◌, ◌++◌, arith, length,
  length-append,
}
use zioncoin_poc.Utreexo.Path.{
  Hash, Position, Side, left, right, from_bit, order, zip, walk_up_from,
}
use zioncoin_poc.Utreexo.Path.Order.{low_sides, low_sides-suc}
use zioncoin_poc.Utreexo.Forest.{last_parent}
use zioncoin_poc.Utreexo.Trees.{Tree, leaf, node, IsPerfect, leaf_at, pick, tree_hash, neighbors_at}

zip-append_one {ℓ κ} :
    {A : Type ℓ} {B : Type κ} (xs : List A) (ys : List B) (x : A) (y : B)
    → length xs ≡ length ys
    → zip (xs ++ x ∷ []) (ys ++ y ∷ []) ≡ zip xs ys ++ (x, y) ∷ []
unfolding zip
zip-append_one [] [] x y h = refl
zip-append_one [] (b ∷ ys) x y h = absurd (omega arith)
zip-append_one (a ∷ xs) [] x y h = absurd (omega arith)
zip-append_one (a ∷ xs) (b ∷ ys) x y h =
    ap (λ t. (a, b) ∷ t) (zip-append_one xs ys x y (omega arith))

pub length-low_sides : (depth : ℕ) (position : Position) → length (low_sides depth position) ≡ depth
unfolding low_sides
length-low_sides zero position = refl
length-low_sides (suc depth) position = ap suc (length-low_sides depth (position / 2))

-- A list that is not empty ends in an element.
ends_in {ℓ} :
    {A : Type ℓ} (n : ℕ) (xs : List A)
    → length xs ≡ suc n
    → (ys : List A) × (y : A) × (xs ≡ ys ++ y ∷ []) × (length ys ≡ n)
ends_in n [] h = absurd (omega arith)
ends_in n (x ∷ []) h = ([], x, refl, omega arith)
ends_in zero (x ∷ y ∷ xs) h = absurd (omega arith)
ends_in (suc n) (x ∷ y ∷ xs) h =
    let (ys, z, e, l) = ends_in n (y ∷ xs) (omega arith) in (x ∷ ys, z, ap (λ t. x ∷ t) e, ap suc l)

length-pick :
    {n : ℕ} (s : Side) (xs ys : List Hash)
    → length xs ≡ n
    → length ys ≡ n
    → length (pick s xs ys) ≡ n
unfolding pick
length-pick left xs ys e e' = e
length-pick right xs ys e e' = e'

module _ (intermediate : Hash → Hash → Hash) where
  -- The hash at which the walk from `h` ends.
  unfoldable pub walk_end : Hash → List (Side × Hash) → Hash
  walk_end h steps = last_parent h (walk_up_from intermediate h steps)

  join : Side → Hash → Hash → Hash
  join side h neighbor = intermediate (order side h neighbor).0 (order side h neighbor).1

  walk_end-append_one :
      (h : Hash) (steps : List (Side × Hash)) (side : Side) (neighbor : Hash)
      → walk_end h (steps ++ (side, neighbor) ∷ []) ≡ join side (walk_end h steps) neighbor
  unfolding walk_end join last_parent walk_up_from
  walk_end-append_one h [] side neighbor = refl
  walk_end-append_one h ((s, n) ∷ steps) side neighbor =
      walk_end-append_one (join s h n) steps side neighbor

  abbrev walk_tree : ℕ → Position → Hash → List Hash → Hash
  walk_tree level position h neighbors = walk_end h (zip (low_sides level position) neighbors)

  walk_tree-suc :
      (level : ℕ) (position : Position) (h : Hash) (neighbors : List Hash) (neighbor : Hash)
      → length neighbors ≡ level
      → walk_tree (suc level) position h (neighbors ++ neighbor ∷ [])
        ≡ join (from_bit (position / 2 ^ level % 2)) (walk_tree level position h neighbors) neighbor
  walk_tree-suc level position h neighbors neighbor e = rw (
    low_sides-suc level position,
    zip-append_one (low_sides level position) neighbors _ neighbor
        (length-low_sides level position ∙ sym e),
    walk_end-append_one,
  )

  pub length-neighbors_at :
      (level : ℕ) (position : Position) (t : Tree)
      → IsPerfect level t
      → length (neighbors_at intermediate level position t) ≡ level
  unfolding neighbors_at IsPerfect
  length-neighbors_at zero position (leaf h) p = refl
  length-neighbors_at zero position (node l r) p = absurd p
  length-neighbors_at (suc level) position (leaf h) p = absurd p
  length-neighbors_at (suc level) position (node l r) p =
      let s = from_bit (position / 2 ^ level % 2) in
      let nl = length-neighbors_at level position l p.0 in
      let nr = length-neighbors_at level position r p.1 in
      length-append
        (pick s (neighbors_at intermediate level position l)
          (neighbors_at intermediate level position r))
        _
      ∙ omega (arith, length-pick s _ _ nl nr)

  -- One level up, from either side.
  join-pick :
      (s : Side) (f : Hash → List Hash → Hash) {al ar hl hr : Hash} {nl nr : List Hash}
      → f al nl ≡ hl
      → f ar nr ≡ hr
      → join s (f (pick s al ar) (pick s nl nr)) (pick s hr hl) ≡ intermediate hl hr
  unfolding join order pick
  join-pick left f e e' = rw e
  join-pick right f e e' = rw e'

  -- From the leaf at a position, with the tree's own neighbors, the walk ends at the root.
  pub walk_up-neighbors_at :
      (level : ℕ) (position : Position) (t : Tree)
      → IsPerfect level t
      → walk_tree level position
          (leaf_at level position t)
          (neighbors_at intermediate level position t)
        ≡ tree_hash intermediate t
  unfolding neighbors_at IsPerfect leaf_at tree_hash
  walk_up-neighbors_at zero position (leaf h) p =
      unfold walk_end low_sides zip walk_up_from last_parent in refl
  walk_up-neighbors_at zero position (node l r) p = absurd p
  walk_up-neighbors_at (suc level) position (leaf h) p = absurd p
  walk_up-neighbors_at (suc level) position (node l r) p =
      walk_tree-suc level position _ _ _ (
        length-pick _ _ _ (length-neighbors_at level position l p.0)
          (length-neighbors_at level position r p.1))
      ∙ join-pick _ (walk_tree level position) (walk_up-neighbors_at level position l p.0)
          (walk_up-neighbors_at level position r p.1)

  -- Collision resistance of inner nodes, as an assumption.
  abbrev pub NodesDiffer : Type 0
  NodesDiffer = (l r l' r' : Hash) → intermediate l r ≡ intermediate l' r' → (l ≡ l') × (r ≡ r')

  -- One level down, from either side.
  join_binds :
      NodesDiffer
      → (s : Side) (h n hl hr : Hash) → join s h n ≡ intermediate hl hr
      → (h ≡ pick s hl hr) × (n ≡ pick s hr hl)
  unfolding join order pick
  join_binds differ left h n hl hr e = differ h n hl hr e
  join_binds differ right h n hl hr e = let d = differ n h hl hr e in (d.1, d.0)

  -- What holds below, on either side.
  pick_binds :
      (s : Side) {h w hl hr al ar : Hash} {ns nl nr : List Hash}
      → w ≡ pick s hl hr
      → (w ≡ hl → (h ≡ al) × (ns ≡ nl))
      → (w ≡ hr → (h ≡ ar) × (ns ≡ nr))
      → (h ≡ pick s al ar) × (ns ≡ pick s nl nr)
  unfolding pick
  pick_binds left e f g = f e
  pick_binds right e f g = g e

  -- Where inner nodes do not collide, a walk of the tree's height that ends at its root started
  -- from its leaf, with its neighbors.
  pub walk_up_binds :
      NodesDiffer
      → (level : ℕ) (position : Position) (t : Tree) (h : Hash) (neighbors : List Hash)
      → IsPerfect level t
      → length neighbors ≡ level
      → walk_tree level position h neighbors ≡ tree_hash intermediate t
      → (h ≡ leaf_at level position t) × (neighbors ≡ neighbors_at intermediate level position t)
  unfolding neighbors_at IsPerfect leaf_at tree_hash
  walk_up_binds differ zero position (leaf x) h [] p len e =
      (unfold walk_end low_sides zip walk_up_from last_parent in e, refl)
  walk_up_binds differ zero position (leaf x) h (n ∷ ns) p len e = absurd (omega arith)
  walk_up_binds differ zero position (node l r) h neighbors p len e = absurd p
  walk_up_binds differ (suc level) position (leaf x) h neighbors p len e = absurd p
  walk_up_binds differ (suc level) position (node l r) h neighbors p len e =
      let (ns, n, split, len') = ends_in level neighbors len in
      let s = from_bit (position / 2 ^ level % 2) in
      let walked = sym (walk_tree-suc level position h ns n len') ∙ (rw split at e) in
      let top = join_binds differ s (walk_tree level position h ns) n _ _ walked in
      let below =
        pick_binds s top.0 (walk_up_binds differ level position l h ns p.0 len')
          (walk_up_binds differ level position r h ns p.1 len') in
      (below.0, rw split (ap₂ (λ a b. a ++ b ∷ []) below.1 top.1))
