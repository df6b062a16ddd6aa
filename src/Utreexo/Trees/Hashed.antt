-- ===== src/Utreexo/Trees/Hashed.antt =====
-- The roots of a forest from the trees they are the hashes of, and the length of a walk up.
use mathlib.Core.Option
use mathlib.Core.List.{map-append}
use zioncoin_poc.Prelude.{
  ℕ, zero, suc, ◌+◌, ◌^◌, ◌≤◌, ◌≡◌, refl, sym, ap, Option, none, some, List, [], ◌∷◌, map, arith,
  length, get_elem?, take,
}
use zioncoin_poc.Utreexo.Path.{
  Hash, Side, ProofPath, order, zip, directions, iter, walk_up, walk_up_from,
}
use zioncoin_poc.Utreexo.Path.Order.{low_sides, sides-eq-low_sides}
use zioncoin_poc.Utreexo.Nodes.Roots.{total}
use zioncoin_poc.Utreexo.Trees.{Tree}
use zioncoin_poc.Utreexo.Trees.Slots.{from_top, level_of}

module _ (g : Tree → Hash) where
  abbrev pub hashed : ℕ × Tree → ℕ × Hash
  hashed r = (r.0, g r.1)

  pub from_top-map :
      (i : ℕ) (slots : List (Option Tree))
      → from_top i (map (Option.map g) slots) ≡ map hashed (from_top i slots)
  unfolding from_top
  from_top-map i [] = refl
  from_top-map i (none ∷ slots) = from_top-map (i + 1) slots
  from_top-map i (some t ∷ slots) =
      rw (from_top-map (i + 1) slots)
        (sym (map-append hashed (from_top (i + 1) slots) ((i, t) ∷ [])))

  pub total-map :
      (trees : List (ℕ × Tree)) → total level_of (map hashed trees) ≡ total level_of trees
  unfolding total
  total-map [] = refl
  total-map (x ∷ trees) = ap (λ n. 2 ^ x.0 + n) (total-map trees)

  pub get_elem?-map :
      (slots : List (Option Tree)) (i : ℕ) {t : Tree}
      → get_elem? slots i ≡ some (some t)
      → get_elem? (map (Option.map g) slots) i ≡ some (some (g t))
  get_elem?-map [] i e = cc
  get_elem?-map (o ∷ slots) zero e = cc
  get_elem?-map (o ∷ slots) (suc i) e = get_elem?-map slots i e

pub take-all {ℓ} : {A : Type ℓ} (n : ℕ) (xs : List A) → length xs ≤ n → take n xs ≡ xs
take-all zero [] h = refl
take-all zero (x ∷ xs) h = absurd (omega arith)
take-all (suc n) [] h = refl
take-all (suc n) (x ∷ xs) h = ap (λ t. x ∷ t) (take-all n xs (omega arith))

pub length-walk_up_from :
    (g : Hash → Hash → Hash) (h : Hash) (ss : List Side) (ns : List Hash)
    → length (walk_up_from g h (zip ss ns)) ≤ length ns
unfolding walk_up_from zip
length-walk_up_from g h [] ns = omega arith
length-walk_up_from g h (s ∷ ss) [] = omega arith
length-walk_up_from g h (s ∷ ss) (n ∷ ns) =
    omega (arith, length-walk_up_from g (g (order s h n).0 (order s h n).1) ss ns)

pub get_elem?-none-le : (xs : List Hash) (i : ℕ) → get_elem? xs i ≡ none → length xs ≤ i
get_elem?-none-le [] i e = omega arith
get_elem?-none-le (x ∷ xs) zero e = cc
get_elem?-none-le (x ∷ xs) (suc i) e = omega (arith, get_elem?-none-le xs i e)

pub take-walk_up :
    (g : Hash → Hash → Hash) (path : ProofPath) (h : Hash) (level : ℕ)
    → length path.neighbors ≡ level
    → take level (walk_up g path h)
      ≡ walk_up_from g h (zip (low_sides level path.position) path.neighbors)
unfolding walk_up iter directions
take-walk_up g path h level len =
    rw (sides-eq-low_sides (length path.neighbors) path.position, len)
      (take-all level _
        (omega (arith, length-walk_up_from g h (low_sides level path.position) path.neighbors)))
