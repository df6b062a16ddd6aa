-- ===== src/Taproot/Positions.antt =====
-- zkvm/src/predicate.rs: the bits of `positions` in a call proof, one for each neighbor, under a
-- highest bit that counts them.
use native.Mathlib.Nat.{
  pow-suc, add-mul-div_left, div-eq_of_lt, mul_assoc, mul_left_comm, mul-add, zero-add,
  pow-le-pow_right,
}
use zioncoin_poc.Prelude.{
  ℕ, zero, suc, ◌+◌, ◌*◌, ◌/◌, ◌%◌, ◌^◌, ◌≤◌, ◌<◌, ◌≡◌, refl, sym, ap, ◌∙◌, List, [], ◌∷◌, arith,
  length, ◌⊎◌, inl, inr,
}
use zioncoin_poc.Utreexo.Trees.Slots.{pow-add_one, pow_pos}
use zioncoin_poc.Merkle.{MerkleNeighbor, left, right}
use zioncoin_poc.Taproot.Codec.{set_bit, leading_zeros, positions_from, positions_of}

-- The sides as binary digits, the first neighbor lowest, under a digit 1.
unfoldable pub packed : List MerkleNeighbor → ℕ
packed [] = 1
packed (left l ∷ neighbors) = 2 * packed neighbors
packed (right r ∷ neighbors) = 1 + 2 * packed neighbors

pub packed-lower : (neighbors : List MerkleNeighbor) → 2 ^ length neighbors ≤ packed neighbors
unfolding packed
packed-lower [] = omega arith
packed-lower (left l ∷ ns) = omega (arith, packed-lower ns, pow-suc 2 (length ns))
packed-lower (right r ∷ ns) = omega (arith, packed-lower ns, pow-suc 2 (length ns))

pub packed-upper : (neighbors : List MerkleNeighbor) → packed neighbors < 2 * 2 ^ length neighbors
unfolding packed
packed-upper [] = omega arith
packed-upper (left l ∷ ns) = omega (arith, packed-upper ns, pow-suc 2 (length ns))
packed-upper (right r ∷ ns) = omega (arith, packed-upper ns, pow-suc 2 (length ns))

-- A digit that is 0 so far is set by an addition.
set_bit_even :
    (lo i q : ℕ) → lo < 2 ^ i → set_bit (lo + 2 ^ i * (2 * q)) i ≡ lo + 2 ^ i + 2 ^ i * (2 * q)
unfolding set_bit
set_bit_even lo i q h =
    let e : (lo + 2 ^ i * (2 * q)) / 2 ^ i ≡ 2 * q =
      add-mul-div_left lo (2 * q) (pow_pos i) ∙ rw (div-eq_of_lt h, zero-add) refl in
    rw e (ground arith)

double : (i q : ℕ) → 2 ^ i * (2 * q) ≡ 2 ^ (i + 1) * q
double i q = rw (pow-add_one i, mul_assoc 2 (2 ^ i) q) (mul_left_comm (2 ^ i) 2 q)

doubled_digit : (i lo n : ℕ) → lo + 2 ^ i * 2 ^ suc n ≡ lo + 2 ^ i * (2 * 2 ^ n)
doubled_digit i lo n = ap (λ x. lo + 2 ^ i * x) (omega (arith, pow-suc 2 n))

first_digit : (i lo n : ℕ) → lo + 2 ^ i * 2 ^ suc n ≡ lo + 2 ^ (i + 1) * 2 ^ n
first_digit i lo n = doubled_digit i lo n ∙ ap (λ x. lo + x) (double i (2 ^ n))

odd : (lo p q : ℕ) → lo + p + p * (2 * q) ≡ lo + p * (1 + 2 * q)
odd lo p q = rw (mul-add p 1 (2 * q)) (omega arith)

positions_from-packed :
    (i lo : ℕ) (neighbors : List MerkleNeighbor)
    → lo < 2 ^ i
    → i + length neighbors < 32
    → positions_from i neighbors (lo + 2 ^ i * 2 ^ length neighbors) ≡ lo + 2 ^ i * packed neighbors
unfolding positions_from packed
positions_from-packed i lo [] h bound = refl
positions_from-packed i lo (left l ∷ ns) h bound =
    ap (positions_from (i + 1) ns) (first_digit i lo (length ns))
    ∙ positions_from-packed (i + 1) lo ns (omega (arith, pow-add_one i)) (omega arith)
    ∙ ap (λ x. lo + x) (sym (double i (packed ns)))
positions_from-packed i lo (right r ∷ ns) h bound =
    let small : i % 32 ≡ i = omega arith in
    rw small (
      ap (λ x. positions_from (i + 1) ns (set_bit x i)) (doubled_digit i lo (length ns))
      ∙ ap (positions_from (i + 1) ns) (
          set_bit_even lo i (2 ^ length ns) h ∙ ap (λ x. lo + 2 ^ i + x) (double i (2 ^ length ns)))
      ∙ positions_from-packed (i + 1) (lo + 2 ^ i) ns (omega (arith, pow-add_one i)) (omega arith)
      ∙ ap (λ x. lo + 2 ^ i + x) (sym (double i (packed ns)))
      ∙ odd lo (2 ^ i) (packed ns))

-- The bits of the neighbors, and the bit that counts them
pub positions_of-packed :
    (neighbors : List MerkleNeighbor)
    → length neighbors < 32
    → positions_of neighbors ≡ packed neighbors
unfolding positions_of
positions_of-packed ns bound =
    let small : length ns % 32 ≡ length ns = omega arith in
    rw small (
      ap (positions_from 0 ns) (omega arith)
      ∙ positions_from-packed 0 0 ns (omega arith) (omega arith)
      ∙ omega arith)

last_or_below : (n width : ℕ) → n < suc width → (n ≡ width) ⊎ (suc n ≤ width)
last_or_below n width h = omega arith

pub leading_zeros-power :
    (n width x : ℕ) → n < width → 2 ^ n ≤ x → x < 2 * 2 ^ n → leading_zeros width x + n + 1 ≡ width
unfolding leading_zeros
leading_zeros-power n zero x bound lower upper = absurd (omega arith)
leading_zeros-power n (suc width) x bound lower upper = elim (last_or_below n width bound) [
  | inl last ↦ rw (← last) (ground arith)
  | inr below ↦
      let le : 2 ^ suc n ≤ 2 ^ width = pow-le-pow_right (omega arith) below in
      ground (arith, pow-suc 2 n, leading_zeros-power n width x)
]
