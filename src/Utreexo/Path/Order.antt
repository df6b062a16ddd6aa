-- ===== src/Utreexo/Path/Order.antt =====
-- The two ends of the directions agree, and a walk ends at the hash of the last parent.
use zioncoin_poc.Prelude.{
  ℕ, zero, suc, ◌/◌, ◌%◌, ◌^◌, ◌≤◌, ◌≡◌, refl, sym, ap, ◌∙◌, List, [], ◌∷◌, ◌++◌, reverse, arith,
}
use mathlib.Core.List.{reverse-append}
use native.Mathlib.Nat.{pow-suc, div-div-eq-div-mul}
use zioncoin_poc.Utreexo.Path.{
  Position, Side, left, right, order, choose, from_bit, Directions, next_back, drain, sides,
  sides_rev, shift_right,
}

-- `choose` reverses `order`, for either side.
choose-order {ℓ} :
    {A : Type ℓ} (side : Side) (node neighbor : A)
    → let lr = order side node neighbor in choose side lr.0 lr.1 ≡ (node, neighbor)
unfolding order choose
choose-order left node neighbor = refl
choose-order right node neighbor = refl

-- The directions of the `depth` lowest bits of `position`, lowest first.
unfoldable pub low_sides : ℕ → Position → List Side
low_sides zero position = []
low_sides (suc depth) position = from_bit (position % 2) ∷ low_sides depth (position / 2)

pub sides-eq-low_sides :
    (depth : ℕ) (position : Position)
    → sides (record { position = position; depth = depth }) ≡ low_sides depth position
unfolding sides low_sides
sides-eq-low_sides zero position = refl
sides-eq-low_sides (suc depth) position =
    ap (λ s. from_bit (position % 2) ∷ s) (sides-eq-low_sides depth (position / 2))

div-two-pow : (position depth : ℕ) → position / 2 / 2 ^ depth ≡ position / 2 ^ suc depth
div-two-pow position depth =
    div-div-eq-div-mul position 2 (2 ^ depth)
    ∙ ap (λ m. position / m) (omega (arith, pow-suc 2 depth))

-- One more bit goes to the end.
pub low_sides-suc :
    (depth : ℕ) (position : Position)
    → low_sides (suc depth) position
      ≡ low_sides depth position ++ from_bit (position / 2 ^ depth % 2) ∷ []
unfolding low_sides
low_sides-suc zero position = let e : position % 2 ≡ position / 1 % 2 = omega arith in rw e
low_sides-suc (suc depth) position =
    ap (λ s. from_bit (position % 2) ∷ s)
      (rw (← div-two-pow position depth) (low_sides-suc depth (position / 2)))

drain-next_back :
    (depth : ℕ) (position : Position)
    → depth ≤ 64
    → drain next_back depth (record { position = position; depth = depth })
      ≡ reverse (low_sides depth position)
unfolding drain next_back shift_right
drain-next_back zero position bound = unfold low_sides in refl
drain-next_back (suc depth) position bound =
    let small : depth % 64 ≡ depth = omega arith in
    rw (small, low_sides-suc depth position, reverse-append)
      (ap (λ s. from_bit (position / 2 ^ depth % 2) ∷ s)
        (drain-next_back depth position (omega arith)))

-- Iterating at most 64 directions from the back yields them in reverse.
pub sides_rev-eq-reverse : (d : Directions) → d.depth ≤ 64 → sides_rev d ≡ reverse (sides d)
unfolding sides_rev
sides_rev-eq-reverse d bound =
    drain-next_back d.depth d.position bound
    ∙ ap reverse (sym (sides-eq-low_sides d.depth d.position))
