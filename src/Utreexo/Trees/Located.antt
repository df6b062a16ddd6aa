-- ===== src/Utreexo/Trees/Located.antt =====
-- The tree and the leaf at each position of a forest.
use native.Mathlib.Decide.{dec_lt}
use native.Mathlib.Nat.{mul-add-mod_self_right, mod-eq_of_lt}
use zioncoin_poc.Prelude.{
  ℕ, zero, suc, ◌+◌, ◌-◌, ◌*◌, ◌%◌, ◌^◌, ◌≤◌, ◌<◌, ◌≡◌, refl, sym, ap, ◌∙◌, Option, none, some,
  List, [], ◌∷◌, ◌++◌, arith, append_assoc, append-nil, length, length-append, get_elem?,
  get_elem?-append_left,
}
use zioncoin_poc.Utreexo.Path.{Hash, Position}
use zioncoin_poc.Utreexo.Nodes.Roots.{total}
use zioncoin_poc.Utreexo.Trees.{Tree, IsPerfect, leaves, leaf_at}
use zioncoin_poc.Utreexo.Trees.Slots.{
  from_top, PerfectSlots, all_leaves, level_of, total-append, all_leaves-append, length-leaves,
  pow-add_one, from_top-multiple, get_elem?-append_right, get_elem?-leaves,
}

-- Where a position lies: the tree, what stands before and after it, and the leaf.
pub record Located (i : ℕ) (slots : List (Option Tree)) (position : Position) (h : Hash)
    : Type 0 where
  pub before : List (ℕ × Tree)
  pub after : List (ℕ × Tree)
  pub level : ℕ
  pub tree : Tree
  pub split : from_top i slots ≡ before ++ (level, tree) ∷ after
  pub above : i ≤ level
  pub slot : get_elem? slots (level - i) ≡ some (some tree)
  pub lo : total level_of before ≤ position
  pub hi : position < total level_of before + 2 ^ level
  pub is_perfect : IsPerfect level tree
  pub at_leaf : leaf_at level position tree ≡ h

pub length-all_leaves :
    (i : ℕ) (slots : List (Option Tree))
    → PerfectSlots i slots
    → length (all_leaves (from_top i slots)) ≡ total level_of (from_top i slots)
unfolding from_top PerfectSlots all_leaves total
length-all_leaves i [] p = refl
length-all_leaves i (none ∷ slots) p = length-all_leaves (i + 1) slots p
length-all_leaves i (some t ∷ slots) p =
    ap length (all_leaves-append (from_top (i + 1) slots) ((i, t) ∷ []))
    ∙ length-append (all_leaves (from_top (i + 1) slots)) _
    ∙ rw append-nil (
        omega (
          arith,
          length-all_leaves (i + 1) slots p.1,
          length-leaves i t p.0,
          total-append (from_top (i + 1) slots) ((i, t) ∷ []),
        ))

-- One more slot below.
Located-suc :
    (i : ℕ) (slots : List (Option Tree)) (o : Option Tree) (more : List (ℕ × Tree))
    {position : Position} {h : Hash}
    → from_top i (o ∷ slots) ≡ from_top (i + 1) slots ++ more
    → Located (i + 1) slots position h
    → Located i (o ∷ slots) position h
Located-suc i slots o more e l = record {
  before = l.before;
  after = l.after ++ more;
  level = l.level;
  tree = l.tree;
  split =
      e ∙ ap (λ t. t ++ more) l.split ∙ append_assoc l.before ((l.level, l.tree) ∷ l.after) more;
  above = omega arith;
  slot = let n : l.level - i ≡ suc (l.level - (i + 1)) = omega (arith, l.above) in rw n l.slot;
  lo = l.lo;
  hi = l.hi;
  is_perfect = l.is_perfect;
  at_leaf = l.at_leaf;
}

-- The bits of a position below its tree's level count from the start of the tree.
mod-offset :
    (i q position start : ℕ)
    → start ≡ 2 * q * 2 ^ i
    → start ≤ position
    → position < start + 2 ^ i
    → position % 2 ^ i ≡ position - start
mod-offset i q position start e lo hi =
    let split : position ≡ 2 * q * 2 ^ i + (position - start) = omega arith in
    ap (λ t. t % 2 ^ i) split
    ∙ mul-add-mod_self_right (2 * q) (2 ^ i) (position - start)
    ∙ mod-eq_of_lt (omega arith)

pub get_elem?-some-lt :
    (xs : List Hash) (i : ℕ) {h : Hash} → get_elem? xs i ≡ some h → i < length xs
get_elem?-some-lt [] i e = cc
get_elem?-some-lt (x ∷ xs) zero e = omega arith
get_elem?-some-lt (x ∷ xs) (suc i) e = omega (arith, get_elem?-some-lt xs i e)

-- A leaf of the lowest tree.
last-Located :
    (i : ℕ) (slots : List (Option Tree)) (t : Tree) (position : Position) (h : Hash)
    → IsPerfect i t × PerfectSlots (i + 1) slots
    → get_elem? (all_leaves (from_top (i + 1) slots) ++ (leaves t ++ [])) position ≡ some h
    → total level_of (from_top (i + 1) slots) ≤ position
    → Located i (some t ∷ slots) position h
unfolding from_top
last-Located i slots t position h p e lo =
    let top = from_top (i + 1) slots in
    let start = total level_of top in
    let len = length-all_leaves (i + 1) slots p.1 in
    let d = position - start in
    let pos : position ≡ start + d = omega arith in
    let found : get_elem? (leaves t) d ≡ some h =
      sym (get_elem?-append_right (all_leaves top) (leaves t) start d len)
      ∙ rw (append-nil, pos) at e in
    let in_tree = get_elem?-some-lt (leaves t) d found in
    let (q, multiple) = from_top-multiple (i + 1) slots in
    let start_eq : start ≡ 2 * q * 2 ^ i = multiple ∙ rw (pow-add_one i) (omega arith) in
    let hi : position < start + 2 ^ i = omega (arith, length-leaves i t p.0, in_tree) in
    record {
      before = top;
      after = [];
      level = i;
      tree = t;
      split = refl;
      above = omega arith;
      slot = let n : i - i ≡ 0 = omega arith in rw n;
      lo = lo;
      hi = hi;
      is_perfect = p.0;
      at_leaf = cc (
          sym (get_elem?-leaves i position t p.0)
          ∙ ap (λ n. get_elem? (leaves t) n) (mod-offset i q position start start_eq lo hi)
          ∙ found);
    }

-- Every leaf is located.
pub locate :
    (i : ℕ) (slots : List (Option Tree)) (position : Position) (h : Hash)
    → PerfectSlots i slots
    → get_elem? (all_leaves (from_top i slots)) position ≡ some h
    → Located i slots position h
unfolding from_top PerfectSlots all_leaves
locate i [] position h p e = cc
locate i (none ∷ slots) position h p e =
    Located-suc i slots none [] (sym (append-nil (from_top (i + 1) slots)))
      (locate (i + 1) slots position h p e)
locate i (some t ∷ slots) position h p e =
    let top = from_top (i + 1) slots in
    let e' = rw all_leaves-append at e in
    let len = length-all_leaves (i + 1) slots p.1 in
    elim (dec_lt position (total level_of top)) [
      | yes lt ↦ Located-suc i slots (some t) ((i, t) ∷ []) refl (
          locate (i + 1) slots position h p.1 (
            sym (
              get_elem?-append_left (all_leaves top) (leaves t ++ []) position (omega (arith, len)))
            ∙ e'))
      | no ge ↦ last-Located i slots t position h p e' (omega arith)
    ]
