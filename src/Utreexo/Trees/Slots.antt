-- ===== src/Utreexo/Trees/Slots.antt =====
-- The trees of a forest by their levels, and their leaves in the order of positions.
use zioncoin_poc.Prelude.{
  ℕ, zero, suc, ◌+◌, ◌*◌, ◌/◌, ◌%◌, ◌^◌, ◌≤◌, ◌<◌, ◌≡◌, refl, sym, ap, ◌∙◌, ◌⊎◌, inl, inr, Option,
  none, some, List, [], ◌∷◌, ◌++◌, reverse, arith, append_assoc, append-nil, length, length-append,
  get_elem?, get_elem?-append_left,
}
use mathlib.Core.List.{reverse-append}
use native.Mathlib.Nat.{
  pow-suc, mod-one, mod-lt, zero-add, add-zero, suc-add, zero-mul, one-mul, div-add-mod,
  mul-add-mod_self_left, mod-eq_of_lt,
}
use native.Mathlib.Numerals.{towards_suc}
use zioncoin_poc.Utreexo.Path.{Hash, Position, from_bit}
use zioncoin_poc.Utreexo.Nodes.Roots.{total}
use zioncoin_poc.Utreexo.Forest.{enumerate, present}
use zioncoin_poc.Utreexo.Trees.{Tree, leaf, node, IsPerfect, leaves, leaf_at, pick}

-- The roots that are there, with their levels, from the highest level down.
unfoldable pub from_top {ℓ} : {A : Type ℓ} → ℕ → List (Option A) → List (ℕ × A)
from_top i [] = []
from_top i (none ∷ slots) = from_top (i + 1) slots
from_top i (some a ∷ slots) = from_top (i + 1) slots ++ (i, a) ∷ []

present-append {ℓ} :
    {A : Type ℓ} (xs ys : List (ℕ × Option A)) → present (xs ++ ys) ≡ present xs ++ present ys
unfolding present
present-append [] ys = refl
present-append ((i, none) ∷ xs) ys = present-append xs ys
present-append ((i, some a) ∷ xs) ys = ap (λ t. (i, a) ∷ t) (present-append xs ys)

pub present-reverse-enumerate {ℓ} :
    {A : Type ℓ} (i : ℕ) (slots : List (Option A))
    → present (reverse (enumerate i slots)) ≡ from_top i slots
unfolding enumerate from_top
present-reverse-enumerate i [] = unfold present in refl
present-reverse-enumerate i (none ∷ slots) =
    rw
      (
        reverse-append ((i, none) ∷ []) (enumerate (i + 1) slots),
        present-append,
        present-reverse-enumerate (i + 1) slots,
      )
      (unfold present in append-nil _)
present-reverse-enumerate i (some a ∷ slots) =
    rw
      (
        reverse-append ((i, some a) ∷ []) (enumerate (i + 1) slots),
        present-append,
        present-reverse-enumerate (i + 1) slots,
      )
      (unfold present in refl)

unfoldable pub PerfectSlots : ℕ → List (Option Tree) → Type 0
PerfectSlots i [] = Unit {0}
PerfectSlots i (none ∷ slots) = PerfectSlots (i + 1) slots
PerfectSlots i (some t ∷ slots) = IsPerfect i t × PerfectSlots (i + 1) slots

unfoldable pub all_leaves : List (ℕ × Tree) → List Hash
all_leaves [] = []
all_leaves ((level, t) ∷ trees) = leaves t ++ all_leaves trees

abbrev pub level_of {ℓ} : {A : Type ℓ} → ℕ × A → ℕ
level_of r = r.0

pub total-append :
    (xs ys : List (ℕ × Tree)) → total level_of (xs ++ ys) ≡ total level_of xs + total level_of ys
unfolding total
total-append [] ys = omega arith
total-append (x ∷ xs) ys = omega (arith, total-append xs ys)

pub all_leaves-append :
    (xs ys : List (ℕ × Tree)) → all_leaves (xs ++ ys) ≡ all_leaves xs ++ all_leaves ys
unfolding all_leaves
all_leaves-append [] ys = refl
all_leaves-append ((level, t) ∷ xs) ys =
    ap (λ z. leaves t ++ z) (all_leaves-append xs ys)
    ∙ sym (append_assoc (leaves t) (all_leaves xs) (all_leaves ys))

pub length-leaves : (level : ℕ) (t : Tree) → IsPerfect level t → length (leaves t) ≡ 2 ^ level
unfolding IsPerfect leaves
length-leaves zero (leaf h) p = refl
length-leaves zero (node l r) p = absurd p
length-leaves (suc level) (leaf h) p = absurd p
length-leaves (suc level) (node l r) p = omega (
  arith,
  length-append (leaves l) (leaves r),
  length-leaves level l p.0,
  length-leaves level r p.1,
  pow-suc 2 level,
)

shift : (i n : ℕ) → i + 1 + n ≡ i + suc n
shift i n = omega arith

pub pow-add_one : (i : ℕ) → 2 ^ (i + 1) ≡ 2 * 2 ^ i
pow-add_one i = simp towards_suc (omega arith)

-- The levels are below the number of slots, and each is taken once.
pub total-from_top-lt :
    (i : ℕ) (slots : List (Option Tree))
    → total level_of (from_top i slots) + 2 ^ i ≤ 2 ^ (i + length slots)
unfolding from_top total
total-from_top-lt i [] = rw add-zero (omega arith)
total-from_top-lt i (none ∷ slots) = omega (
  arith,
  total-from_top-lt (i + 1) slots,
  pow-add_one i,
  ap (λ n. 2 ^ n) (shift i (length slots)),
)
total-from_top-lt i (some t ∷ slots) = omega (
  arith,
  total-from_top-lt (i + 1) slots,
  pow-add_one i,
  ap (λ n. 2 ^ n) (shift i (length slots)),
  total-append (from_top (i + 1) slots) ((i, t) ∷ []),
)

-- Every range of positions starts at a multiple of its length.
pub from_top-multiple :
    (i : ℕ) (slots : List (Option Tree)) → (q : ℕ) × (total level_of (from_top i slots) ≡ q * 2 ^ i)
unfolding from_top total
from_top-multiple i [] = (0, omega arith)
from_top-multiple i (none ∷ slots) =
    let (q, e) = from_top-multiple (i + 1) slots in (2 * q, e ∙ rw (pow-add_one i) (omega arith))
from_top-multiple i (some t ∷ slots) =
    let (q, e) = from_top-multiple (i + 1) slots in
    (
      2 * q + 1,
      total-append (from_top (i + 1) slots) ((i, t) ∷ []) ∙ rw (e, pow-add_one i) (omega arith),
    )

pub pow_pos : (n : ℕ) → 0 < 2 ^ n
pow_pos zero = omega arith
pow_pos (suc n) = omega (arith, pow_pos n, pow-suc 2 n)

bit-cases : (n : ℕ) → (n % 2 ≡ 0) ⊎ (n % 2 ≡ 1)
bit-cases n = omega arith

bit_times-lt : (q m r : ℕ) → r < m → q % 2 * m + r < 2 * m
bit_times-lt q m r h = elim (bit-cases q) [
  | inl e ↦ rw e (omega arith)
  | inr e ↦ rw e (omega arith)
]

split_twice : (p m : ℕ) → p ≡ 2 * m * (p / m / 2) + (p / m % 2 * m + p % m)
split_twice p m = omega (arith, div-add-mod p m, ap (λ (t : ℕ). m * t) (div-add-mod (p / m) 2))

-- One more bit of a position.
mod-pow_suc : (p level : ℕ) → p % 2 ^ suc level ≡ p / 2 ^ level % 2 * 2 ^ level + p % 2 ^ level
mod-pow_suc p level =
    let m = 2 ^ level in
    let low = p / m % 2 * m + p % m in
    let e : 2 ^ suc level ≡ 2 * m = omega (arith, pow-suc 2 level) in
    rw e (
      ap (λ t. t % (2 * m)) (split_twice p m)
      ∙ mul-add-mod_self_left (2 * m) (p / m / 2) low
      ∙ mod-eq_of_lt (bit_times-lt (p / m) m (p % m) (mod-lt p (pow_pos level))))

pub get_elem?-append_right :
    (xs ys : List Hash) (n i : ℕ) → length xs ≡ n → get_elem? (xs ++ ys) (n + i) ≡ get_elem? ys i
get_elem?-append_right [] ys n i e = let z : n + i ≡ i = omega arith in rw z
get_elem?-append_right (x ∷ xs) ys zero i e = absurd (omega arith)
get_elem?-append_right (x ∷ xs) ys (suc n) i e =
    rw suc-add (get_elem?-append_right xs ys n i (omega arith))

pub get_elem?-leaves :
    (level : ℕ) (position : Position) (t : Tree)
    → IsPerfect level t
    → get_elem? (leaves t) (position % 2 ^ level) ≡ some (leaf_at level position t)
unfolding IsPerfect leaves leaf_at from_bit pick
get_elem?-leaves zero position (leaf h) p = rw mod-one
get_elem?-leaves zero position (node l r) p = absurd p
get_elem?-leaves (suc level) position (leaf h) p = absurd p
get_elem?-leaves (suc level) position (node l r) p =
    let len = length-leaves level l p.0 in
    rw (mod-pow_suc position level) (elim (bit-cases (position / 2 ^ level)) [
      | inl e ↦
          rw (e, zero-mul, zero-add)
            (get_elem?-append_left (leaves l) (leaves r) (position % 2 ^ level)
                (omega (arith, len, mod-lt position (pow_pos level)))
              ∙ get_elem?-leaves level position l p.0)
      | inr e ↦
          rw (e, one-mul)
            (get_elem?-append_right (leaves l) (leaves r) (2 ^ level) (position % 2 ^ level) len
              ∙ get_elem?-leaves level position r p.1)
    ])
